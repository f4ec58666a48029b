-- ===== src/Mmu/Low.antt =====
-- `Mapping::_map_physical_low` of kernel/arch/x86/mmu.cpp for one page.
use uberos.Prelude.{
  ℕ, ◌+◌, ◌≤◌, ◌<◌, ◌≡◌, ◌≢◌, refl, some, true, false, inl, inr, ==_ne, arith, ==_true, ltb,
  ltb-true,
}
use uberos.Mmu.{Mmu, table_of, is_first_low, open_directory}
use uberos.Mmu.Tables.{
  Tables, Blank, opened, opened-Tables, opened-absent, init_directory-opened, table_of-opened,
  opened-kept, entry_at-opened,
}
use uberos.Mmu.Regions.{
  HighTable, Bounds, Between, Valid, Keeps, SameHigh, SameHigh-Between, SameHigh-HighTable,
  SameHigh-Bounds,
}

-- The next low page has a table, and the rest of the table is free.
pub record Ready (m : Mmu) (i : ℕ) : Type 0 where
  pub tables : Tables m
  pub bounds : Bounds m
  pub between : Between m
  pub high_table : HighTable m
  pub found : table_of m m.next_low_directory_index ≡ some i
  pub free : (t : ℕ) → m.next_low_table_index ≤ t → t < 1024 → (m.tables i t).is_present ≡ false

pub record Opens (m : Mmu) : Type 0 where
  pub after : Mmu
  pub index : ℕ
  pub opens : open_directory (is_first_low m) m.next_low_directory_index m ≡ some after
  pub ready : Ready after index
  pub same_directory : after.next_low_directory_index ≡ m.next_low_directory_index
  pub same_page : after.next_low_table_index ≡ m.next_low_table_index
  pub same_high : after.next_high_directory_index ≡ m.next_high_directory_index
  pub same_pool : after.tables_count ≡ m.tables_count
  pub keeps : Keeps m after
  pub uses : after.next_table_index ≤ m.next_table_index + 1
  pub uses_none : m.next_low_table_index ≢ 0 → after.next_table_index ≡ m.next_table_index

low_directory_bound : (m : Mmu) → Bounds m → ltb m.next_low_directory_index 1024 ≡ true
low_directory_bound m b =
    ltb-true m.next_low_directory_index 1024 (omega (arith, b.apart, b.high_directory))

Opens-later :
    (m : Mmu) (i : ℕ)
    → Valid m
    → m.next_low_table_index ≢ 0
    → table_of m m.next_low_directory_index ≡ some i
    → ((t : ℕ) → m.next_low_table_index ≤ t → t < 1024 → (m.tables i t).is_present ≡ false)
    → Opens m
unfolding open_directory is_first_low
Opens-later m i v h found free = record {
  after = m;
  index = i;
  opens = rw (low_directory_bound m v.bounds, ==_ne m.next_low_table_index 0 h) refl;
  ready = record {
    tables = v.tables;
    bounds = v.bounds;
    between = v.between;
    high_table = v.high_table;
    found = found;
    free = free;
  };
  same_directory = refl;
  same_page = refl;
  same_high = refl;
  same_pool = refl;
  keeps = λ d t e p h. h;
  uses = omega arith;
  uses_none = λ h. refl;
}

module _ (m : Mmu) (v : Valid m) (blank : Blank (m.directory m.next_low_directory_index))
    (room : m.next_table_index < m.tables_count) where
  opened-SameHigh : SameHigh m (opened m m.next_low_directory_index)
  unfolding opened
  opened-SameHigh = record {
    high_directory = refl;
    high_page = refl;
    low_forward = omega arith;
    other_entries = λ d h b. rw (==_ne d m.next_low_directory_index (omega arith)) b;
    high_table = λ i f.
        opened-kept m m.next_low_directory_index v.tables blank room m.next_high_directory_index i
          (omega (arith, v.bounds.apart)) f;
  }

  opened-Ready : Ready (opened m m.next_low_directory_index) m.next_table_index
  unfolding opened
  opened-Ready = record {
    tables = opened-Tables m m.next_low_directory_index v.tables blank room;
    bounds = SameHigh-Bounds opened-SameHigh v.bounds v.bounds.low_page v.bounds.apart;
    between = SameHigh-Between opened-SameHigh v.between;
    high_table = SameHigh-HighTable opened-SameHigh v.bounds v.high_table;
    found = table_of-opened m m.next_low_directory_index v.tables blank room;
    free = λ t a b. opened-absent m m.next_low_directory_index t;
  }

  Opens-first : m.next_low_table_index ≡ 0 → Opens m
  unfolding open_directory is_first_low opened
  Opens-first h = record {
    after = opened m m.next_low_directory_index;
    index = m.next_table_index;
    opens =
        rw (low_directory_bound m v.bounds, ==_true m.next_low_table_index 0 h)
          (init_directory-opened m m.next_low_directory_index blank room);
    ready = opened-Ready;
    same_directory = refl;
    same_page = refl;
    same_high = refl;
    same_pool = refl;
    keeps = λ d t e p h. entry_at-opened m m.next_low_directory_index v.tables blank room d t e h;
    uses = omega arith;
    uses_none = λ k. absurd (k h);
  }

pub opens :
    (m : Mmu)
    → Valid m
    → (m.next_low_table_index ≡ 0 → m.next_table_index < m.tables_count)
    → Opens m
opens m v room = elim v.low_table [
  | inl (h, blank) ↦ Opens-first m v blank (room h) h
  | inr (i, h, found, free) ↦ Opens-later m i v h found free
]
