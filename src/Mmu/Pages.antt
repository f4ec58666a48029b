-- ===== src/Mmu/Pages.antt =====
-- Writing one page's entry in kernel/arch/x86/mmu.cpp, and preparing the next directory entry.
use uberos.Prelude.{
  ℕ, ◌≡◌, ◌≢◌, ◌⊎◌, refl, sym, ap, ◌∙◌, Option, none, some, Bool-cases, inl, inr, ◌==◌, ==_refl,
  ==→eq, ◌>>=◌, arith,
}
use uberos.Mmu.{Mmu, to_virtual, table_of, write_page, with_directory}
use uberos.Mmu.Entries.{MapOptions, get_table, widened, prepared, table_entry}
use uberos.Mmu.Tables.{Tables, Blank, entry_at}

-- What decides which tables the directory entries have.
pub record SameTables (m m' : Mmu) : Type 0 where
  pub same_physical : m'.tables_physical ≡ m.tables_physical
  pub same_count : m'.tables_count ≡ m.tables_count
  pub same_next : m'.next_table_index ≡ m.next_table_index
  pub same_table_of : (d : ℕ) → table_of m' d ≡ table_of m d

pub SameTables-Tables : {m m' : Mmu} → SameTables m m' → Tables m → Tables m'
SameTables-Tables s valid = record {
  pool_aligned = rw s.same_physical valid.pool_aligned;
  pool_above = rw s.same_physical valid.pool_above;
  pool_ends = rw (s.same_physical, s.same_count) valid.pool_ends;
  below = λ d i h. rw s.same_next (valid.below d i (sym (s.same_table_of d) ∙ h));
  apart =
      λ d e i h k. valid.apart d e i (sym (s.same_table_of d) ∙ h) (sym (s.same_table_of e) ∙ k);
}

module _ (m : Mmu) (d i t p : ℕ) (o : MapOptions) where
  pub write_page-SameTables : SameTables m (write_page d i t p o m)
  unfolding write_page table_of to_virtual widened get_table
  write_page-SameTables = record {
    same_physical = refl;
    same_count = refl;
    same_next = refl;
    same_table_of =
        λ d'. elim (Bool-cases (d' == d)) [ inl e ↦ rw (e, ==→eq d' d e) refl | inr e ↦ rw e refl ];
  }

  pub entry_at-write_page :
      table_of m d ≡ some i
      → entry_at (write_page d i t p o m) d t ≡ some (table_entry (m.tables i t) p o)
  unfolding entry_at
  entry_at-write_page h = rw (write_page-SameTables.same_table_of d, h) (ap some here)
    where
      here : (write_page d i t p o m).tables i t ≡ table_entry (m.tables i t) p o
      here = unfold write_page in rw (==_refl i, ==_refl t) refl

  pub write_page_elsewhere :
      (i' t' : ℕ) → (i' ≢ i) ⊎ (t' ≢ t) → (write_page d i t p o m).tables i' t' ≡ m.tables i' t'
  unfolding write_page
  write_page_elsewhere i' t' ne = ground arith

  pub entry_at-write_page_ne :
      Tables m
      → table_of m d ≡ some i
      → (d' t' : ℕ) → (d' ≢ d) ⊎ (t' ≢ t)
      → entry_at (write_page d i t p o m) d' t' ≡ entry_at m d' t'
  unfolding entry_at
  entry_at-write_page_ne valid h d' t' ne =
      rw (write_page-SameTables.same_table_of d') (per_table (table_of m d') refl)
    where
      apart : (i' : ℕ) → table_of m d' ≡ some i' → (d' ≢ d) ⊎ (t' ≢ t) → (i' ≢ i) ⊎ (t' ≢ t)
      apart i' e (inl a) = inl (λ q. a (valid.apart d' d i (rw (← q) e) h))
      apart i' e (inr a) = inr a

      per_table :
          (found : Option ℕ)
          → table_of m d' ≡ found
          → (found >>= λ (i' : ℕ). some ((write_page d i t p o m).tables i' t'))
            ≡ (found >>= λ (i' : ℕ). some (m.tables i' t'))
      per_table none e = refl
      per_table (some i') e = ap some (write_page_elsewhere i' t' (apart i' e ne))

module _ (m : Mmu) (d : ℕ) (blank : Blank (m.directory d)) where
  pub prepared-Blank : Blank (prepared (m.directory d))
  unfolding prepared
  prepared-Blank = record { absent = refl; small = refl; empty = blank.empty }

  get_table-prepared : get_table (prepared (m.directory d)) ≡ get_table (m.directory d)
  unfolding get_table prepared
  get_table-prepared = rw blank.small refl

  pub prepared-SameTables : SameTables m (with_directory m d (prepared (m.directory d)))
  unfolding table_of to_virtual
  prepared-SameTables = record {
    same_physical = refl;
    same_count = refl;
    same_next = refl;
    same_table_of = λ d'. elim (Bool-cases (d' == d)) [
      | inl e ↦ rw (e, ==→eq d' d e, get_table-prepared) refl
      | inr e ↦ rw e refl
    ];
  }

-- Where the tables stay and are not written, the pages stay.
pub entry_at-SameTables :
    {m m' : Mmu}
    → SameTables m m'
    → ((i t : ℕ) → m'.tables i t ≡ m.tables i t)
    → (d t : ℕ) → entry_at m' d t ≡ entry_at m d t
unfolding entry_at
entry_at-SameTables {m} {m'} s h d t = rw (s.same_table_of d) (same (table_of m d))
  where
    same :
        (found : Option ℕ)
        → (found >>= λ (i : ℕ). some (m'.tables i t)) ≡ (found >>= λ (i : ℕ). some (m.tables i t))
    same none = refl
    same (some i) = ap some (h i t)
