-- ===== src/Mmu/High.antt =====
-- `Mapping::_map_physical_high` of kernel/arch/x86/mmu.cpp for one page.
use uberos.Prelude.{
  true-false, ℕ, ◌+◌, ◌≤◌, ◌<◌, ◌≡◌, refl, some, true, false, inl, inr, ==_ne, arith, ltb, ltb-true,
}
use uberos.Mmu.{Mmu, table_of, is_first_high, open_directory}
use uberos.Mmu.Tables.{
  Tables, Blank, opened, opened-Tables, opened-absent, init_directory-opened, table_of-opened,
  opened-kept, entry_at-opened,
}
use uberos.Mmu.Regions.{
  LowTable, Bounds, Between, Valid, Keeps, SameLow, SameLow-Between, SameLow-LowTable,
  SameLow-Bounds,
}

-- The next high page has a table, and the rest of the table is free.
pub record HighReady (m : Mmu) (i : ℕ) : Type 0 where
  pub tables : Tables m
  pub bounds : Bounds m
  pub between : Between m
  pub low_table : LowTable m
  pub found : table_of m m.next_high_directory_index ≡ some i
  pub free : (t : ℕ) → t ≤ m.next_high_table_index → (m.tables i t).is_present ≡ false

pub record HighOpens (m : Mmu) : Type 0 where
  pub after : Mmu
  pub index : ℕ
  pub opens : open_directory (is_first_high m) m.next_high_directory_index m ≡ some after
  pub ready : HighReady after index
  pub same_directory : after.next_high_directory_index ≡ m.next_high_directory_index
  pub same_page : after.next_high_table_index ≡ m.next_high_table_index
  pub same_low : after.next_low_directory_index ≡ m.next_low_directory_index
  pub same_pool : after.tables_count ≡ m.tables_count
  pub keeps : Keeps m after
  pub uses : after.next_table_index ≤ m.next_table_index + 1
  pub uses_none : is_first_high m ≡ false → after.next_table_index ≡ m.next_table_index

high_directory_bound : (m : Mmu) → Bounds m → ltb m.next_high_directory_index 1024 ≡ true
high_directory_bound m b = ltb-true m.next_high_directory_index 1024 b.high_directory

HighOpens-later :
    (m : Mmu) (i : ℕ)
    → Valid m
    → is_first_high m ≡ false
    → table_of m m.next_high_directory_index ≡ some i
    → ((t : ℕ) → t ≤ m.next_high_table_index → (m.tables i t).is_present ≡ false)
    → HighOpens m
unfolding open_directory
HighOpens-later m i v h found free = record {
  after = m;
  index = i;
  opens = rw (high_directory_bound m v.bounds, h) refl;
  ready = record {
    tables = v.tables;
    bounds = v.bounds;
    between = v.between;
    low_table = v.low_table;
    found = found;
    free = free;
  };
  same_directory = refl;
  same_page = refl;
  same_low = refl;
  same_pool = refl;
  keeps = λ d t e p h. h;
  uses = omega arith;
  uses_none = λ h. refl;
}

module _ (m : Mmu) (v : Valid m) (blank : Blank (m.directory m.next_high_directory_index))
    (room : m.next_table_index < m.tables_count) where
  opened-SameLow : SameLow m (opened m m.next_high_directory_index)
  unfolding opened
  opened-SameLow = record {
    low_directory = refl;
    low_page = refl;
    high_backward = omega arith;
    other_entries = λ d h b. rw (==_ne d m.next_high_directory_index (omega arith)) b;
    low_table = λ i f.
        opened-kept m m.next_high_directory_index v.tables blank room m.next_low_directory_index i
          (omega (arith, v.bounds.apart)) f;
  }

  opened-HighReady : HighReady (opened m m.next_high_directory_index) m.next_table_index
  unfolding opened
  opened-HighReady = record {
    tables = opened-Tables m m.next_high_directory_index v.tables blank room;
    bounds =
        SameLow-Bounds opened-SameLow v.bounds v.bounds.high_page v.bounds.apart v.bounds.skipped;
    between = SameLow-Between opened-SameLow v.between;
    low_table = SameLow-LowTable opened-SameLow v.bounds v.low_table;
    found = table_of-opened m m.next_high_directory_index v.tables blank room;
    free = λ t a. opened-absent m m.next_high_directory_index t;
  }

  HighOpens-first : is_first_high m ≡ true → HighOpens m
  unfolding open_directory opened
  HighOpens-first h = record {
    after = opened m m.next_high_directory_index;
    index = m.next_table_index;
    opens =
        rw (high_directory_bound m v.bounds, h)
          (init_directory-opened m m.next_high_directory_index blank room);
    ready = opened-HighReady;
    same_directory = refl;
    same_page = refl;
    same_low = refl;
    same_pool = refl;
    keeps = λ d t e p h. entry_at-opened m m.next_high_directory_index v.tables blank room d t e h;
    uses = omega arith;
    uses_none = λ k. absurd (true-false h k);
  }

pub opens_high :
    (m : Mmu)
    → Valid m
    → (is_first_high m ≡ true → m.next_table_index < m.tables_count)
    → HighOpens m
opens_high m v room = elim v.high_table [
  | inl (h, blank) ↦ HighOpens-first m v blank (room h) h
  | inr (i, h, found, free) ↦ HighOpens-later m i v h found free
]
