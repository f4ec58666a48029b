-- ===== src/Tests/Addresses.antt =====
-- Page tables with nothing mapped, and with one table of pages.
use uberos.Prelude.{
  ℕ, ◌+◌, ◌-◌, ◌/◌, ◌^◌, ◌<◌, ◌≡◌, refl, inl, inr, none, some, true, false, ◌==◌, if◌then◌else◌,
  arith, none-some, some_unique, Bool-cases, ◌∙◌, ap, ==→eq,
}
use uberos.Mmu.{Mmu, to_virtual, table_of, is_first_high, aligned}
use uberos.Mmu.Entries.{uncached, MapOptions, TableEntry, DirectoryEntry, get_table}
use uberos.Mmu.Ranges.{
  map_range_high, map_range_low, get_physical, get_virtual_options, success, set_virtual_target,
  set_range_options,
}
use uberos.Mmu.Tables.{Tables, Blank, Blank-table_of, entry_at}
use uberos.Mmu.Regions.{Valid, Keeps}
use uberos.Mmu.Mapped.{executable}
use uberos.Mmu.HighRange.{map_range_high-translates}
use uberos.Mmu.LowRange.{map_range_low-translates}
use uberos.Mmu.Changes.{page_entry}
use uberos.Mmu.Changed.{
  Inside, Outside, Entries, set_virtual_target-moves, set_range_options-get_virtual_options,
}

abbrev no_table : DirectoryEntry
no_table = record {
  is_present = false;
  is_writable = false;
  is_userspace_accessible = false;
  pat_write_through_caching = false;
  pat_disable_cache = false;
  is_accessed = false;
  is_dirty = false;
  is_4mb = false;
  target = 0;
}

abbrev no_page : TableEntry
no_page = record {
  is_present = false;
  is_writable = false;
  is_userspace_accessible = false;
  pat_write_through_caching = false;
  pat_disable_cache = false;
  is_accessed = false;
  is_dirty = false;
  pat = false;
  is_global = false;
  address = 0;
}

abbrev fresh : Mmu
fresh = record {
  tables_physical = 2 ^ 20;
  tables_count = 4;
  next_table_index = 0;
  tables = λ i t. no_page;
  directory = λ d. no_table;
  next_low_directory_index = 0;
  next_low_table_index = 0;
  next_high_directory_index = 1023;
  next_high_table_index = 1022;
}

no_table-Blank : Blank no_table
no_table-Blank = record { absent = refl; small = refl; empty = refl }

fresh-table_of : (d : ℕ) → table_of fresh d ≡ none
fresh-table_of d = Blank-table_of fresh d (omega arith) no_table-Blank

fresh-Valid : Valid fresh
unfolding is_first_high
fresh-Valid = record {
  tables = record {
    pool_aligned = omega arith;
    pool_above = omega arith;
    pool_ends = omega arith;
    below = λ d i h. absurd (none-some (fresh-table_of d) h);
    apart = λ d e i h k. absurd (none-some (fresh-table_of d) h);
  };
  bounds = record {
    low_page = omega arith;
    high_page = omega arith;
    high_directory = omega arith;
    apart = omega arith;
    skipped = λ e. omega arith;
  };
  between = λ d h k. no_table-Blank;
  low_table = inl (refl, no_table-Blank);
  high_table = inl (refl, no_table-Blank);
}

abbrev device_memory : MapOptions
device_memory = record {
  is_userspace = false;
  is_writable = true;
  is_executable = false;
  caching = uncached;
}

map_range_low-translates_example :
    (v : ℕ) × (m' : Mmu) × (map_range_low 3 753664 8000 device_memory fresh ≡ some (v, m'))
    × Valid m'
    × Keeps fresh m'
    × ((j : ℕ)
        → 0 + j < 8192
        → (get_physical (v + j) m' ≡ some (753664 + j))
          × (get_virtual_options (v + j) m' ≡ some (success (executable device_memory))))
map_range_low-translates_example =
    map_range_low-translates 3 fresh 753664 8000 device_memory fresh-Valid
      (record { addresses = omega arith; tables = omega arith }) (omega arith) (omega arith)

map_range_high-translates_example :
    (v : ℕ) × (m' : Mmu) × (map_range_high 753864 8000 device_memory fresh ≡ some (v, m'))
    × Valid m'
    × Keeps fresh m'
    × ((j : ℕ)
        → 200 + j < 8192
        → (get_physical (v + j) m' ≡ some (753864 + j))
          × (get_virtual_options (v + j) m' ≡ some (success (executable device_memory))))
map_range_high-translates_example =
    map_range_high-translates fresh 753864 8000 device_memory fresh-Valid
      (record { addresses = omega arith; tables = omega arith }) (omega arith) (omega arith)

-- One table, at the first directory entry, all of whose pages show the same physical page.
abbrev some_page : TableEntry
some_page = record no_page { is_present = true; address = 5 }

abbrev one_table : Mmu
one_table = record fresh {
  next_table_index = 1;
  tables = λ i t. some_page;
  directory =
      λ d. if d == 0 then record no_table { is_present = true; target = 4096 } else no_table;
}

one_table-first : table_of one_table 0 ≡ some 0
unfolding table_of to_virtual get_table
one_table-first = refl

one_table-other : (d : ℕ) → (d == 0) ≡ false → table_of one_table d ≡ none
unfolding table_of to_virtual get_table
one_table-other d e = rw e refl

one_table-table_of : (d i : ℕ) → table_of one_table d ≡ some i → (d ≡ 0) × (i ≡ 0)
one_table-table_of d i h = elim (Bool-cases (d == 0)) [
  | inl e ↦ (==→eq d 0 e, some_unique h (ap (table_of one_table) (==→eq d 0 e) ∙ one_table-first))
  | inr e ↦ absurd (none-some (one_table-other d e) h)
]

one_table-Tables : Tables one_table
one_table-Tables = record {
  pool_aligned = omega arith;
  pool_above = omega arith;
  pool_ends = omega arith;
  below = λ d i h. omega (arith, one_table-table_of d i h);
  apart = λ d e i h k. omega (arith, one_table-table_of d i h, one_table-table_of e i k);
}

one_table-entry : (q : ℕ) → q < 1024 → page_entry one_table q ≡ some some_page
unfolding entry_at
one_table-entry q h = let e : q / 1024 ≡ 0 = omega arith in rw (e, one_table-first) refl

one_table-Entries : Entries one_table 3 2
one_table-Entries x h k = (some_page, one_table-entry x (omega arith), refl)

set_virtual_target-moves_example :
    (m' : Mmu) × (set_virtual_target 3 12300 65536 8000 one_table ≡ some m')
    × ((b : ℕ)
        → b < 2 ^ 32
        → Inside 12300 8000 b
        → get_physical b m' ≡ some (65536 + (b - aligned 12300)))
    × ((b : ℕ) → b < 2 ^ 32 → Outside 12300 8000 b → get_physical b m' ≡ get_physical b one_table)
    × ((b : ℕ) (e : TableEntry)
        → b < 2 ^ 32
        → page_entry one_table (b / 4096) ≡ some e
        → get_virtual_options b m' ≡ get_virtual_options b one_table)
set_virtual_target-moves_example =
    set_virtual_target-moves one_table one_table-Tables 12300 8000 3 (omega arith) (omega arith)
      one_table-Entries 65536 (omega arith) (omega arith)

set_range_options-get_virtual_options_example :
    (m' : Mmu) × (set_range_options 3 12300 8000 device_memory one_table ≡ some m')
    × ((b : ℕ)
        → b < 2 ^ 32
        → Inside 12300 8000 b
        → get_virtual_options b m' ≡ some (success (executable device_memory)))
    × ((b : ℕ) (e : TableEntry)
        → b < 2 ^ 32
        → Outside 12300 8000 b
        → page_entry one_table (b / 4096) ≡ some e
        → get_virtual_options b m' ≡ get_virtual_options b one_table)
    × ((b : ℕ) → b < 2 ^ 32 → get_physical b m' ≡ get_physical b one_table)
set_range_options-get_virtual_options_example =
    set_range_options-get_virtual_options one_table one_table-Tables 12300 8000 3 (omega arith)
      (omega arith) one_table-Entries device_memory (omega arith)
