-- ===== src/Mmu/Ranges.antt =====
-- The operations of kernel/arch/x86/mmu.cpp on pages that are mapped already, and those on ranges.
use uberos.Prelude.{
  ℕ, zero, suc, ◌-◌, ◌*◌, ◌/◌, ◌%◌, Option, none, some, ltb, ◌==◌, if◌then◌else◌, add32, sub32,
  u32_mod, ◌>>=◌,
}
use uberos.Mmu.{
  Mmu, table_of, directory_index, page_index, with_entry, aligned, map_physical_low,
  map_physical_high,
}
use uberos.Mmu.Entries.{
  MapOptions, TableEntry, get_address, set_address, get_table, with_options, options_of,
}

-- The entry of the page at an address, and where it stands.
unfoldable pub find_entry : ℕ → Mmu → Option (ℕ × TableEntry)
unfolding table_of
find_entry address m = table_of m (directory_index address) >>= λ (index : ℕ).
    some (index, m.tables index (page_index address))

unfoldable pub get_physical : ℕ → Mmu → Option ℕ
unfolding find_entry get_address
get_physical address m =
    find_entry address m >>= λ (r : ℕ × TableEntry). some (add32 (get_address r.1) (address % 4096))

unfoldable pub change_entry : ℕ → (TableEntry → TableEntry) → Mmu → Option Mmu
unfolding find_entry
change_entry address f m = find_entry address m >>= λ (r : ℕ × TableEntry).
    some (with_entry m r.0 (page_index address) (f r.1))

unfoldable pub set_virtual_options : ℕ → MapOptions → Mmu → Option Mmu
unfolding change_entry with_options
set_virtual_options address options = change_entry address (with_options options)

pub data Try {ℓ} (A : Type ℓ) : Type ℓ where
  success : A → Try A
  page_does_not_exist : Try A

unfoldable pub get_virtual_options : ℕ → Mmu → Option (Try MapOptions)
unfolding find_entry options_of
get_virtual_options address m =
    if get_table (m.directory (directory_index address)) == 0
    then some page_does_not_exist
    else find_entry address m >>= λ (r : ℕ × TableEntry).
        some (if r.1.is_present then success (options_of r.1) else page_does_not_exist)

-- The pages after the first, on fuel.
unfoldable pub map_rest_low : ℕ → ℕ → ℕ → MapOptions → Mmu → Option Mmu
map_rest_low zero physical size options m = none
map_rest_low (suc k) physical size options m =
    let rest = map_physical_low (add32 physical 4096) options m >>= λ (r : ℕ × Mmu).
    map_rest_low k (add32 physical 4096) (size - 4096) options r.1 in
    if ltb 4096 size then rest else some m

unfoldable pub map_range_low : ℕ → ℕ → ℕ → MapOptions → Mmu → Option (ℕ × Mmu)
unfolding map_rest_low
map_range_low fuel physical size options m =
    map_physical_low physical options m >>= λ (r : ℕ × Mmu).
    map_rest_low fuel physical size options r.1 >>= λ (m' : Mmu). some (r.0, m')

-- The pages from the last to the first: the address of the one mapped last is the answer.
unfoldable pub map_pages_high : ℕ → ℕ → ℕ → MapOptions → Mmu → Option (ℕ × Mmu)
map_pages_high zero physical answer options m = some (answer, m)
map_pages_high (suc pages) physical answer options m =
    map_physical_high physical options m >>= λ (r : ℕ × Mmu).
    map_pages_high pages (sub32 physical 4096) r.0 options r.1

unfoldable pub map_range_high : ℕ → ℕ → MapOptions → Mmu → Option (ℕ × Mmu)
unfolding map_pages_high
map_range_high physical size options m =
    let pages = add32 (if ltb size 1 then 1 else size) 4095 / 4096 in
    map_pages_high pages (add32 physical ((pages - 1) * 4096 % u32_mod)) 0 options m

-- The loop of the range operations, on fuel.
unfoldable pub each_page : (ℕ → ℕ → Mmu → Option Mmu) → ℕ → ℕ → ℕ → ℕ → Mmu → Option Mmu
each_page f zero page end physical m = none
each_page f (suc k) page end physical m =
    let rest = f page physical m >>= λ (m' : Mmu).
    each_page f k (add32 page 4096) end (add32 physical 4096) m' in
    if ltb page end then rest else some m

unfoldable pub set_target : ℕ → ℕ → Mmu → Option Mmu
unfolding change_entry set_address
set_target page physical m =
    if physical % 4096 == 0 then change_entry page (set_address physical) m else none

unfoldable pub set_virtual_target : ℕ → ℕ → ℕ → ℕ → Mmu → Option Mmu
unfolding each_page set_target
set_virtual_target fuel address physical size m =
    each_page set_target fuel (aligned address) (add32 address size) physical m

abbrev pub options_at : MapOptions → ℕ → ℕ → Mmu → Option Mmu
unfolding set_virtual_options
options_at options page physical = set_virtual_options page options

unfoldable pub set_range_options : ℕ → ℕ → ℕ → MapOptions → Mmu → Option Mmu
unfolding each_page
set_range_options fuel address size options m =
    each_page (options_at options) fuel (aligned address) (add32 address size) 0 m
