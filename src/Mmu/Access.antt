-- ===== src/Mmu/Access.antt =====
-- What `_get_physical` and `_get_virtual_options` of kernel/arch/x86/mmu.cpp answer at a page.
use uberos.Prelude.{
  ℕ, ◌+◌, ◌*◌, ◌/◌, ◌%◌, ◌^◌, ◌≤◌, ◌<◌, ◌≡◌, refl, ap, ◌∙◌, none, some, false, Bool-cases, inl, inr,
  ◌==◌, ==→eq, >>=-eq-some, none-some, some_unique, leb-false, arith,
}
use uberos.Mmu.{Mmu, table_of, to_virtual, directory_index, page_index}
use uberos.Mmu.Entries.{MapOptions, TableEntry, get_table}
use uberos.Mmu.Ranges.{find_entry, get_physical, get_virtual_options, success}
use uberos.Mmu.Tables.{Tables, entry_at}
use uberos.Mmu.Mapped.{Page, executable}

pub has_table :
    (m : Mmu) (d i : ℕ)
    → Tables m
    → table_of m d ≡ some i
    → (get_table (m.directory d) == 0) ≡ false
unfolding table_of to_virtual
has_table m d i v h = elim (Bool-cases (get_table (m.directory d) == 0)) [
  | inr e ↦ e
  | inl e ↦ absurd (
      none-some
        (let z : to_virtual m (get_table (m.directory d)) ≡ none =
            rw (==→eq (get_table (m.directory d)) 0 e, leb-false m.tables_physical 0 v.pool_above)
              refl in
          z)
        h)
]

directory_index-page :
    (q offset : ℕ)
    → q < 1024 * 1024
    → offset < 4096
    → directory_index (q * 4096 + offset) ≡ q / 1024
directory_index-page q offset h k = omega arith

page_index-page : (q offset : ℕ) → offset < 4096 → page_index (q * 4096 + offset) ≡ q % 1024
page_index-page q offset k = omega arith

module _ {m : Mmu} {q a : ℕ} {o : MapOptions} (offset : ℕ) (page : Page m q a o)
    (h : q < 1024 * 1024) (k : offset < 4096) where
  find_entry-page :
      (i : ℕ) × (find_entry (q * 4096 + offset) m ≡ some (i, page.entry))
      × (table_of m (directory_index (q * 4096 + offset)) ≡ some i)
  unfolding find_entry entry_at
  find_entry-page =
      let (i, found, e) =
        >>=-eq-some (table_of m (q / 1024)) (λ (i : ℕ). some (m.tables i (q % 1024))) page.stands in
      let f : table_of m (directory_index (q * 4096 + offset)) ≡ some i =
        ap (table_of m) (directory_index-page q offset h k) ∙ found in
      (
        i,
        rw (f, page_index-page q offset k)
            (ap (λ (x : TableEntry). some (i, x)) (some_unique refl e)),
        f,
      )

  pub get_physical-page : a + 4096 ≤ 2 ^ 32 → get_physical (q * 4096 + offset) m ≡ some (a + offset)
  unfolding get_physical
  get_physical-page fits = rw (find_entry-page.1, page.shows) (ap some (omega arith))

  pub get_virtual_options-page :
      Tables m → get_virtual_options (q * 4096 + offset) m ≡ some (success (executable o))
  unfolding get_virtual_options
  get_virtual_options-page valid =
      let (i, e, f) = find_entry-page in
      rw (has_table m (directory_index (q * 4096 + offset)) i valid f, e, page.present, page.allows)
        refl
