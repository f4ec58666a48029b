-- ===== src/Mmu.antt =====
-- kernel/arch/x86/mmu.hpp and mmu.cpp: the page tables of 32-bit x86, with two regions of addresses
-- that are handed out, one from the lowest address upwards and one from the highest downwards.
-- An answer of `none` is a failed assertion or an access outside of the tables.
pub mod Entries
pub mod Pages
pub mod Ranges
pub mod Regions
pub mod Low
pub mod Steps
pub mod Mapped
pub mod Access
pub mod Changes
pub mod Loop
pub mod Answers
pub mod Changed
pub mod LowRange
pub mod High
pub mod HighSteps
pub mod HighMapped
pub mod HighRange
pub mod Tables
use Entries.{
  MapOptions, TableEntry, DirectoryEntry, table_entry, get_table, set_table, first_directory_entry,
  prepared, widened,
}
use uberos.Prelude.{
  ℕ, zero, suc, ◌+◌, ◌-◌, ◌*◌, ◌/◌, ◌%◌, ◌^◌, Option, none, some, Bool, true, false, not, ◌&&◌,
  ◌||◌, leb, ltb, ◌==◌, if◌then◌else◌, add32, u32_mod, ◌>>=◌, set_at,
}

-- The pool of tables, and the mapping of the kernel.
pub record Mmu : Type 0 where
  pub tables_physical : ℕ
  pub tables_count : ℕ
  pub next_table_index : ℕ
  pub tables : ℕ → ℕ → TableEntry
  pub directory : ℕ → DirectoryEntry
  pub next_low_directory_index : ℕ
  pub next_low_table_index : ℕ
  pub next_high_directory_index : ℕ
  pub next_high_table_index : ℕ

-- A table is named by its index in the pool.
unfoldable pub to_virtual : Mmu → ℕ → Option ℕ
to_virtual m address =
    let offset = address - m.tables_physical in
    if leb m.tables_physical address && (offset % 4096 == 0) && ltb (offset / 4096) m.tables_count
    then some (offset / 4096)
    else none

unfoldable pub to_physical : Mmu → ℕ → ℕ
to_physical m index = (m.tables_physical + index * 4096) % u32_mod

unfoldable pub create_table : Mmu → Option (ℕ × Mmu)
create_table m =
    if ltb m.next_table_index m.tables_count
    then some (m.next_table_index, record m { next_table_index = m.next_table_index + 1 })
    else none

abbrev pub directory_index : ℕ → ℕ
directory_index address = address / 2 ^ 22 % 1024

abbrev pub page_index : ℕ → ℕ
page_index address = address / 4096 % 1024

abbrev pub not_present : TableEntry → TableEntry
not_present e = record e { is_present = false }

abbrev pub cleared : Mmu → ℕ → Mmu
cleared m index = record m {
  tables = set_at m.tables index (λ (t : ℕ). not_present (m.tables index t));
}

abbrev pub with_directory : Mmu → ℕ → DirectoryEntry → Mmu
with_directory m d e = record m { directory = set_at m.directory d e }

-- The first table of a directory entry.
unfoldable pub init_directory : ℕ → Mmu → Option Mmu
unfolding create_table to_physical
init_directory d m =
    if (m.directory d).is_present
    then none
    else create_table m >>= λ (r : ℕ × Mmu). some (
        with_directory (cleared r.1 r.0) d
          (set_table (first_directory_entry (m.directory d)) (to_physical m r.0)))

unfoldable pub open_directory : Bool → ℕ → Mmu → Option Mmu
unfolding init_directory
open_directory first d m =
    if ltb d 1024 then (if first then init_directory d m else some m) else none

unfoldable pub table_of : Mmu → ℕ → Option ℕ
unfolding to_virtual
table_of m d = to_virtual m (get_table (m.directory d))

abbrev pub with_entry : Mmu → ℕ → ℕ → TableEntry → Mmu
with_entry m index t e = record m { tables = set_at m.tables index (set_at (m.tables index) t e) }

-- The page's entry, and what its directory entry must allow.
unfoldable pub write_page : ℕ → ℕ → ℕ → ℕ → MapOptions → Mmu → Mmu
write_page d index t physical options m =
    with_directory (with_entry m index t (table_entry (m.tables index t) physical options)) d
      (widened options (m.directory d))

unfoldable pub advance_low : Mmu → Option Mmu
advance_low m =
    let d = m.next_low_directory_index in
    if m.next_low_table_index == 1023
    then (if ltb (d + 1) 1024
        then some (record (with_directory m (d + 1) (prepared (m.directory (d + 1)))) {
          next_low_table_index = 0;
          next_low_directory_index = d + 1;
        })
        else none)
    else some (record m { next_low_table_index = m.next_low_table_index + 1 })

unfoldable pub advance_high : Mmu → Option Mmu
advance_high m =
    let d = m.next_high_directory_index in
    if m.next_high_table_index == 0
    then (if d == 0
        then none
        else some (record (with_directory m (d - 1) (prepared (m.directory (d - 1)))) {
          next_high_table_index = 1023;
          next_high_directory_index = d - 1;
        }))
    else some (record m { next_high_table_index = m.next_high_table_index - 1 })

-- The three parts of an address have their own bits.
abbrev pub virtual_address : ℕ → ℕ → ℕ → ℕ
virtual_address d t offset = d * 2 ^ 22 + t * 4096 + offset

abbrev pub aligned : ℕ → ℕ
aligned address = address - address % 4096

unfoldable pub is_first_low : Mmu → Bool
is_first_low m = m.next_low_table_index == 0

unfoldable pub is_first_high : Mmu → Bool
is_first_high m =
    (m.next_high_table_index == 1023)
    || ((m.next_high_directory_index == 1023) && (m.next_high_table_index == 1022))

unfoldable pub check_free : Mmu → ℕ → ℕ → Option ℕ
check_free m t index = if (m.tables index t).is_present then none else some index

unfoldable pub map_next_low : ℕ → MapOptions → Mmu → Option (ℕ × Mmu)
unfolding open_directory table_of write_page advance_low is_first_low check_free
map_next_low physical options m =
    let d = m.next_low_directory_index in
    let t = m.next_low_table_index in
    open_directory (is_first_low m) d m >>= λ (m1 : Mmu). table_of m1 d >>= λ (index : ℕ).
    check_free m1 t index >>= λ (free : ℕ).
    advance_low (write_page d free t (aligned physical) options m1) >>= λ (m2 : Mmu).
    some (virtual_address d t (physical % 4096), m2)

unfoldable pub map_next_high : ℕ → MapOptions → Mmu → Option (ℕ × Mmu)
unfolding open_directory table_of write_page advance_high is_first_high
map_next_high physical options m =
    let d = m.next_high_directory_index in
    let t = m.next_high_table_index in
    open_directory (is_first_high m) d m >>= λ (m1 : Mmu). table_of m1 d >>= λ (index : ℕ).
    advance_high (write_page d index t (aligned physical) options m1) >>= λ (m2 : Mmu).
    some (virtual_address d t (physical % 4096), m2)

unfoldable pub map_physical_low : ℕ → MapOptions → Mmu → Option (ℕ × Mmu)
unfolding map_next_low
map_physical_low physical options m =
    if ltb physical u32_mod then map_next_low physical options m else none

unfoldable pub map_physical_high : ℕ → MapOptions → Mmu → Option (ℕ × Mmu)
unfolding map_next_high
map_physical_high physical options m =
    if ltb physical u32_mod then map_next_high physical options m else none
