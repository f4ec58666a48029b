-- ===== src/Mmu/Answers.antt =====
-- What `_get_physical` and `_get_virtual_options` of kernel/arch/x86/mmu.cpp answer, by the entry of the
-- page.
use uberos.Prelude.{
  ℕ, ◌+◌, ◌/◌, ◌%◌, ◌^◌, ◌≤◌, ◌<◌, ◌≡◌, refl, ap, Option, none, some, true, if◌then◌else◌, ◌>>=◌,
  >>=-eq-some, some_unique, arith, add32,
}
use uberos.Mmu.{Mmu, table_of, directory_index, page_index}
use uberos.Mmu.Entries.{MapOptions, TableEntry, get_address, set_address, options_of, with_options}
use uberos.Mmu.Ranges.{
  find_entry, get_physical, get_virtual_options, Try, success, page_does_not_exist,
}
use uberos.Mmu.Tables.{Tables, entry_at}
use uberos.Mmu.Mapped.{executable, caching_back}
use uberos.Mmu.Access.{has_table}
use uberos.Mmu.Changes.{page_entry}

abbrev pub physical_of : ℕ → TableEntry → Option ℕ
unfolding get_address
physical_of offset e = some (add32 (get_address e) offset)

abbrev pub answer : TableEntry → Try MapOptions
unfolding options_of
answer e = if e.is_present then success (options_of e) else page_does_not_exist

pub get_physical-entry :
    (m : Mmu) (b : ℕ)
    → b < 2 ^ 32
    → get_physical b m ≡ (page_entry m (b / 4096) >>= physical_of (b % 4096))
unfolding get_physical find_entry entry_at
get_physical-entry m b h =
    let d : directory_index b ≡ b / 4096 / 1024 = omega arith in
    rw d (by_table (table_of m (b / 4096 / 1024)))
  where
    by_table :
        (o : Option ℕ)
        → (o >>= (λ (i : ℕ). some (i, m.tables i (page_index b))) >>= λ (r : ℕ × TableEntry).
            physical_of (b % 4096) r.1)
          ≡ (o >>= (λ (i : ℕ). some (m.tables i (b / 4096 % 1024))) >>= physical_of (b % 4096))
    by_table none = refl
    by_table (some i) = refl

pub get_virtual_options-entry :
    (m : Mmu) (b : ℕ) (e : TableEntry)
    → Tables m
    → b < 2 ^ 32
    → page_entry m (b / 4096) ≡ some e
    → get_virtual_options b m ≡ some (answer e)
unfolding get_virtual_options find_entry entry_at
get_virtual_options-entry m b e v h k =
    let d : directory_index b ≡ b / 4096 / 1024 = omega arith in
    let (i, found, g) =
      >>=-eq-some (table_of m (b / 4096 / 1024)) (λ (i : ℕ). some (m.tables i (b / 4096 % 1024)))
        k in
    rw (d, has_table m (b / 4096 / 1024) i v found, found)
      (ap (λ (x : TableEntry). some (answer x)) (some_unique refl g))

pub physical_of-set_address :
    (offset physical : ℕ) (e : TableEntry)
    → physical % 4096 ≡ 0
    → physical + 4096 ≤ 2 ^ 32
    → offset < 4096
    → physical_of offset (set_address physical e) ≡ some (physical + offset)
unfolding set_address get_address
physical_of-set_address offset physical e a h k = ap some (omega arith)

pub physical_of-with_options :
    (offset : ℕ) (o : MapOptions) (e : TableEntry)
    → physical_of offset (with_options o e) ≡ physical_of offset e
unfolding with_options get_address
physical_of-with_options offset o e = refl

pub answer-set_address :
    (physical : ℕ) (e : TableEntry) → answer (set_address physical e) ≡ answer e
unfolding set_address options_of
answer-set_address physical e = refl

pub answer-with_options :
    (o : MapOptions) (e : TableEntry)
    → e.is_present ≡ true
    → answer (with_options o e) ≡ success (executable o)
unfolding with_options options_of
answer-with_options o e h = rw (h, caching_back o.caching) refl
