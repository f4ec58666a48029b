-- ===== src/Mmu/Changes.antt =====
-- The loops of `_set_virtual_target` and `_set_virtual_options` in kernel/arch/x86/mmu.cpp: which
-- entries they change, and to what.
use uberos.Prelude.{
  ℕ, ◌*◌, ◌/◌, ◌%◌, ◌<◌, ◌≡◌, ◌≢◌, ◌⊎◌, refl, sym, ap, ◌∙◌, Option, none, some, Bool-cases, inl,
  inr, ◌==◌, ==→eq, ==_false, ==_ne, ◌>>=◌, >>=-eq-some, some_unique, arith,
}
use uberos.Mmu.{Mmu, table_of, to_virtual, directory_index, page_index, with_entry}
use uberos.Mmu.Entries.{TableEntry}
use uberos.Mmu.Ranges.{find_entry, change_entry}
use uberos.Mmu.Tables.{Tables, entry_at}
use uberos.Mmu.Pages.{SameTables}

-- The entry of a page, by its number.
abbrev pub page_entry : Mmu → ℕ → Option TableEntry
page_entry m q = entry_at m (q / 1024) (q % 1024)

module _ (m : Mmu) (i t : ℕ) (e : TableEntry) where
  with_entry-SameTables : SameTables m (with_entry m i t e)
  unfolding table_of to_virtual
  with_entry-SameTables = record {
    same_physical = refl;
    same_count = refl;
    same_next = refl;
    same_table_of = λ d. refl;
  }

  entry_at-with_entry : (d : ℕ) → table_of m d ≡ some i → entry_at (with_entry m i t e) d t ≡ some e
  unfolding entry_at
  entry_at-with_entry d h = rw (with_entry-SameTables.same_table_of d, h) (ground arith)

  entry_at-with_entry_ne :
      (d d' t' : ℕ)
      → Tables m
      → table_of m d ≡ some i
      → (d' ≢ d) ⊎ (t' ≢ t)
      → entry_at (with_entry m i t e) d' t' ≡ entry_at m d' t'
  unfolding entry_at
  entry_at-with_entry_ne d d' t' valid h ne =
      rw (with_entry-SameTables.same_table_of d') (per_table (table_of m d') refl ne)
    where
      per_table :
          (found : Option ℕ)
          → table_of m d' ≡ found
          → (d' ≢ d) ⊎ (t' ≢ t)
          → (found >>= λ (j : ℕ). some ((with_entry m i t e).tables j t'))
            ≡ (found >>= λ (j : ℕ). some (m.tables j t'))
      per_table none k ne = refl
      per_table (some j) k (inr b) = ground arith
      per_table (some j) k (inl a) =
          rw (==_ne j i (λ q. a (valid.apart d' d i (k ∙ ap some q) h))) refl

pub record Changes (m : Mmu) (q : ℕ) (f : TableEntry → TableEntry) : Type 0 where
  pub after : Mmu
  pub changes : change_entry (q * 4096) f m ≡ some after
  pub same : SameTables m after
  pub here : page_entry after q ≡ (page_entry m q >>= λ (e : TableEntry). some (f e))
  pub elsewhere : (x : ℕ) → x ≢ q → page_entry after x ≡ page_entry m x

pub change_page :
    (m : Mmu) (q : ℕ) (f : TableEntry → TableEntry) {e : TableEntry}
    → Tables m
    → q < 1024 * 1024
    → page_entry m q ≡ some e
    → Changes m q f
unfolding change_entry find_entry entry_at
change_page m q f {e} valid h k =
    let (i, found, g) =
      >>=-eq-some (table_of m (q / 1024)) (λ (i : ℕ). some (m.tables i (q % 1024))) k in
    let there : table_of m (directory_index (q * 4096)) ≡ some i =
      ap (table_of m) (omega arith) ∙ found in
    let page : page_index (q * 4096) ≡ q % 1024 = omega arith in
    record {
      after = with_entry m i (q % 1024) (f e);
      changes = rw (there, page, some_unique refl g) refl;
      same = with_entry-SameTables m i (q % 1024) (f e);
      here = entry_at-with_entry m i (q % 1024) (f e) (q / 1024) found ∙ sym (rw k refl);
      elsewhere = λ x ne.
          entry_at-with_entry_ne m i (q % 1024) (f e) (q / 1024) (x / 1024) (x % 1024) valid found
            (elim (Bool-cases (x / 1024 == q / 1024)) [
              | inl a ↦ inr (λ z. ne (omega (arith, ==→eq (x / 1024) (q / 1024) a, z)))
              | inr a ↦ inl (==_false (x / 1024) (q / 1024) a)
            ]);
    }
