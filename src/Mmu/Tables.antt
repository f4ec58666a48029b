-- ===== src/Mmu/Tables.antt =====
-- The tables of kernel/arch/x86/mmu.cpp: no two directory entries share one, so a page that is written
-- changes no other page.
use uberos.Prelude.{
  ℕ, ◌+◌, ◌*◌, ◌/◌, ◌%◌, ◌^◌, ◌≤◌, ◌<◌, ◌≡◌, ◌≢◌, refl, sym, ap, ◌∙◌, Option, none, some, false,
  Bool-cases, ◌⊎◌, inl, inr, ==→eq, ==_false, >>=-eq-some, some_unique, none-some, leb-false, ◌==◌,
  ==_ne, ==_refl, ◌>>=◌, arith,
}
use uberos.Mmu.{
  Mmu, to_virtual, to_physical, create_table, init_directory, table_of, with_directory, cleared,
}
use uberos.Mmu.Entries.{TableEntry, DirectoryEntry, get_table, set_table, first_directory_entry}

-- The pool of tables lies in memory, and a table belongs to one directory entry.
pub record Tables (m : Mmu) : Type 0 where
  pub pool_aligned : m.tables_physical % 4096 ≡ 0
  pub pool_above : 0 < m.tables_physical
  pub pool_ends : m.tables_physical + m.tables_count * 4096 ≤ 2 ^ 32
  pub below : (d i : ℕ) → table_of m d ≡ some i → i < m.next_table_index
  pub apart : (d e i : ℕ) → table_of m d ≡ some i → table_of m e ≡ some i → d ≡ e

-- A directory entry that has had no table.
pub record Blank (e : DirectoryEntry) : Type 0 where
  pub absent : e.is_present ≡ false
  pub small : e.is_4mb ≡ false
  pub empty : e.target ≡ 0

unfoldable pub entry_at : Mmu → ℕ → ℕ → Option TableEntry
entry_at m d t = table_of m d >>= λ (i : ℕ). some (m.tables i t)

pub Blank-table_of :
    (m : Mmu) (d : ℕ) → 0 < m.tables_physical → Blank (m.directory d) → table_of m d ≡ none
unfolding table_of to_virtual get_table
Blank-table_of m d h b = rw (b.small, b.empty) (rw (leb-false m.tables_physical 0 h) refl)

new_table :
    (base n k target : ℕ)
    → base % 4096 ≡ 0
    → n < k
    → base + k * 4096 ≤ 2 ^ 32
    → (target % 16 + (base + n * 4096) % 2 ^ 32 / 4096 % 2 ^ 20 * 16) / 16 % 2 ^ 20 * 4096
      ≡ base + n * 4096
new_table base n k target a h e = omega arith

to_virtual-table :
    (m : Mmu) (n : ℕ) → n < m.tables_count → to_virtual m (m.tables_physical + n * 4096) ≡ some n
unfolding to_virtual
to_virtual-table m n h = ground arith

abbrev pub first_table : Mmu → ℕ → DirectoryEntry
unfolding set_table first_directory_entry to_physical
first_table m d =
    set_table (first_directory_entry (m.directory d)) (to_physical m m.next_table_index)

-- The state with a new table for a directory entry.
unfoldable pub opened : Mmu → ℕ → Mmu
unfolding first_table
opened m d =
    with_directory
      (cleared (record m { next_table_index = m.next_table_index + 1 }) m.next_table_index) d
      (first_table m d)

pub init_directory-opened :
    (m : Mmu) (d : ℕ)
    → Blank (m.directory d)
    → m.next_table_index < m.tables_count
    → init_directory d m ≡ some (opened m d)
unfolding init_directory create_table opened
init_directory-opened m d b h = ground (arith, b.absent)

opened_old : (m : Mmu) (d i t : ℕ) → i < m.next_table_index → (opened m d).tables i t ≡ m.tables i t
unfolding opened
opened_old m d i t k = ground arith

module _ (m : Mmu) (d : ℕ) (valid : Tables m) (blank : Blank (m.directory d))
    (room : m.next_table_index < m.tables_count) where
  pub table_of-opened : table_of (opened m d) d ≡ some m.next_table_index
  unfolding table_of opened get_table set_table first_directory_entry to_physical
  table_of-opened = rw (==_refl d) (
      rw
        (new_table m.tables_physical m.next_table_index m.tables_count (m.directory d).target
          valid.pool_aligned room valid.pool_ends)
        (to_virtual-table m m.next_table_index room))

  pub table_of-opened_ne : (d' : ℕ) → d' ≢ d → table_of (opened m d) d' ≡ table_of m d'
  unfolding table_of opened to_virtual
  table_of-opened_ne d' h = rw (==_ne d' d h) refl

  table_of-opened_cases :
      (d' i : ℕ)
      → table_of (opened m d) d' ≡ some i
      → ((d' ≡ d) × (i ≡ m.next_table_index)) ⊎ (table_of m d' ≡ some i)
  table_of-opened_cases d' i h = elim (Bool-cases (d' == d)) [
    | inl e ↦ inl (
      ==→eq d' d e,
      some_unique (sym (ap (table_of (opened m d)) (==→eq d' d e)) ∙ h) table_of-opened,
    )
    | inr e ↦ inr (sym (table_of-opened_ne d' (==_false d' d e)) ∙ h)
  ]

  pub opened-Tables : Tables (opened m d)
  unfolding opened
  opened-Tables = record {
    pool_aligned = valid.pool_aligned;
    pool_above = valid.pool_above;
    pool_ends = valid.pool_ends;
    below = λ d' i h. elim (table_of-opened_cases d' i h) [
      | inl (_, e) ↦ omega (arith, e)
      | inr e ↦ omega (arith, valid.below d' i e)
    ];
    apart =
        λ d1 d2 i h k. joined d1 d2 i (table_of-opened_cases d1 i h) (table_of-opened_cases d2 i k);
  }
    where
      joined :
          (d1 d2 i : ℕ)
          → ((d1 ≡ d) × (i ≡ m.next_table_index)) ⊎ (table_of m d1 ≡ some i)
          → ((d2 ≡ d) × (i ≡ m.next_table_index)) ⊎ (table_of m d2 ≡ some i)
          → d1 ≡ d2
      joined d1 d2 i (inl (a, e)) (inl (b, f)) = a ∙ sym b
      joined d1 d2 i (inl (a, e)) (inr f) = omega (arith, valid.below d2 i f)
      joined d1 d2 i (inr f) (inl (a, e)) = omega (arith, valid.below d1 i f)
      joined d1 d2 i (inr f) (inr g) = valid.apart d1 d2 i f g

  pub opened-kept :
      (d' i : ℕ)
      → d' ≢ d
      → table_of m d' ≡ some i
      → (table_of (opened m d) d' ≡ some i) × ((t : ℕ) → (opened m d).tables i t ≡ m.tables i t)
  opened-kept d' i h f = (table_of-opened_ne d' h ∙ f, λ t. opened_old m d i t (valid.below d' i f))

  -- The pages that were mapped stay as they are.
  pub entry_at-opened :
      (d' t : ℕ) (e : TableEntry) → entry_at m d' t ≡ some e → entry_at (opened m d) d' t ≡ some e
  unfolding entry_at
  entry_at-opened d' t e h =
      let (i, f, g) = >>=-eq-some (table_of m d') (λ (i : ℕ). some (m.tables i t)) h in
      rw
        (
          table_of-opened_ne d'
              (λ q. none-some (ap (table_of m) q ∙ Blank-table_of m d valid.pool_above blank) f),
          f,
        )
        (ap some (opened_old m d i t (valid.below d' i f)) ∙ g)

pub opened-absent :
    (m : Mmu) (d t : ℕ) → ((opened m d).tables m.next_table_index t).is_present ≡ false
unfolding opened
opened-absent m d t = ground arith
