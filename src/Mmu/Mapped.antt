-- ===== src/Mmu/Mapped.antt =====
-- Mapping the next low page: the page that `Mapping::_map_physical_low` of kernel/arch/x86/mmu.cpp
-- makes, and what it leaves as it was.
use uberos.Prelude.{
  ℕ, ◌+◌, ◌/◌, ◌%◌, ◌^◌, ◌≤◌, ◌<◌, ◌≡◌, ◌≢◌, refl, sym, ap, ◌∙◌, some, true, arith, ltb-true,
}
use uberos.Mmu.{
  Mmu, table_of, write_page, advance_low, map_physical_low, virtual_address, aligned, check_free,
}
use uberos.Mmu.Entries.{
  Caching, uncached, write_back, write_through, write_combining, writes_through, disables_cache,
  caching_of, MapOptions, TableEntry, table_entry, get_address, options_of,
}
use uberos.Mmu.Tables.{entry_at}
use uberos.Mmu.Regions.{low_position, Valid, Keeps}
use uberos.Mmu.Low.{Opens, opens}
use uberos.Mmu.Steps.{Finishes, finish}

-- The options that a page of x86 can hold: every page is executable.
abbrev pub executable : MapOptions → MapOptions
executable o = record o { is_executable = true }

-- The page number `q` shows the physical page at `a`, with these options.
pub record Page (m : Mmu) (q a : ℕ) (o : MapOptions) : Type 0 where
  pub entry : TableEntry
  pub stands : entry_at m (q / 1024) (q % 1024) ≡ some entry
  pub present : entry.is_present ≡ true
  pub shows : get_address entry ≡ a
  pub allows : options_of entry ≡ executable o

pub Keeps-Page : {m m' : Mmu} {q a : ℕ} {o : MapOptions} → Keeps m m' → Page m q a o → Page m' q a o
Keeps-Page {q = q} keeps page = record {
  entry = page.entry;
  stands = keeps (q / 1024) (q % 1024) page.entry page.present page.stands;
  present = page.present;
  shows = page.shows;
  allows = page.allows;
}

pub get_address-table_entry :
    (e : TableEntry) (p : ℕ) (o : MapOptions)
    → p < 2 ^ 32
    → get_address (table_entry e (aligned p) o) ≡ aligned p
unfolding get_address table_entry
get_address-table_entry e p o h = omega arith

pub caching_back : (c : Caching) → caching_of (writes_through c) (disables_cache c) ≡ c
caching_back uncached = refl
caching_back write_back = refl
caching_back write_through = refl
caching_back write_combining = refl

pub options_of-table_entry :
    (e : TableEntry) (p : ℕ) (o : MapOptions) → options_of (table_entry e p o) ≡ executable o
unfolding options_of table_entry
options_of-table_entry e p o = rw (caching_back o.caching) refl

pub table_entry_present :
    (e : TableEntry) (p : ℕ) (o : MapOptions) → (table_entry e p o).is_present ≡ true
unfolding table_entry
table_entry_present e p o = refl

pub record MapsLow (m : Mmu) (p : ℕ) (o : MapOptions) : Type 0 where
  pub after : Mmu
  pub maps :
      map_physical_low p o m
      ≡ some (virtual_address m.next_low_directory_index m.next_low_table_index (p % 4096), after)
  pub valid : Valid after
  pub position : low_position after ≡ low_position m + 1
  pub same_high : after.next_high_directory_index ≡ m.next_high_directory_index
  pub same_count : after.tables_count ≡ m.tables_count
  pub uses : after.next_table_index ≤ m.next_table_index + 1
  pub uses_none : m.next_low_table_index ≢ 0 → after.next_table_index ≡ m.next_table_index
  pub page : Page after (low_position m) (aligned p) o
  pub keeps : Keeps m after

module _ (m : Mmu) (p : ℕ) (o : MapOptions) (h : p < 2 ^ 32) (t : Opens m) where
  abbrev low_directory : ℕ
  low_directory = m.next_low_directory_index

  abbrev low_page : ℕ
  low_page = m.next_low_table_index

  opens_found : table_of t.after low_directory ≡ some t.index
  opens_found = ap (table_of t.after) (sym t.same_directory) ∙ t.ready.found

  opens_free : check_free t.after low_page t.index ≡ some t.index
  unfolding check_free
  opens_free =
      rw
        (t.ready.free low_page (omega (arith, t.same_page))
          (omega (arith, t.same_page, t.ready.bounds.low_page)))
        refl

  module _ (f : Finishes t.after t.index (aligned p) o) where
    finishes_here :
        advance_low (write_page low_directory t.index low_page (aligned p) o t.after) ≡ some f.after
    finishes_here =
        ap (λ (d : ℕ). advance_low (write_page d t.index low_page (aligned p) o t.after))
          (sym t.same_directory)
        ∙ ap
            (λ (e : ℕ).
              advance_low
                (write_page t.after.next_low_directory_index t.index e (aligned p) o t.after))
            (sym t.same_page)
        ∙ f.finishes

    map_physical_low-eq :
        map_physical_low p o m ≡ some (virtual_address low_directory low_page (p % 4096), f.after)
    unfolding map_physical_low
    map_physical_low-eq =
        rw (ltb-true p (2 ^ 32) h, t.opens, opens_found, opens_free, finishes_here) refl

    same_position : low_position t.after ≡ low_position m
    same_position = omega (arith, t.same_directory, t.same_page)

    position_entry :
        entry_at f.after (low_position m / 1024) (low_position m % 1024)
        ≡ some (table_entry (t.after.tables t.index t.after.next_low_table_index) (aligned p) o)
    position_entry =
        ap (λ (d : ℕ). entry_at f.after d (low_position m % 1024))
          (omega (arith, t.same_directory, t.same_page, t.ready.bounds.low_page))
        ∙ ap (entry_at f.after t.after.next_low_directory_index)
            (omega (arith, t.same_directory, t.same_page, t.ready.bounds.low_page))
        ∙ f.entry

    mapped : MapsLow m p o
    mapped = record {
      after = f.after;
      maps = map_physical_low-eq;
      valid = f.valid;
      position = omega (arith, f.position, same_position);
      same_high = f.same_high ∙ t.same_high;
      same_count = f.same_count ∙ t.same_pool;
      uses = omega (arith, f.same_next, t.uses);
      uses_none = λ q. f.same_next ∙ t.uses_none q;
      page = record {
        entry = table_entry (t.after.tables t.index t.after.next_low_table_index) (aligned p) o;
        stands = position_entry;
        present =
            table_entry_present (t.after.tables t.index t.after.next_low_table_index) (aligned p) o;
        shows = get_address-table_entry (t.after.tables t.index t.after.next_low_table_index) p o h;
        allows =
            options_of-table_entry (t.after.tables t.index t.after.next_low_table_index) (aligned p)
              o;
      };
      keeps = λ d e x present k. f.keeps d e x present (t.keeps d e x present k);
    }

pub maps_low :
    (m : Mmu) (p : ℕ) (o : MapOptions)
    → Valid m
    → p < 2 ^ 32
    → (m.next_low_table_index ≡ 0 → m.next_table_index < m.tables_count)
    → (m.next_low_table_index ≡ 1023 → m.next_low_directory_index + 1 < m.next_high_directory_index)
    → MapsLow m p o
maps_low m p o v h tables_left room =
    let t : Opens m = opens m v tables_left in
    mapped m p o h t (
      finish t.after t.index (aligned p) o t.ready
        (λ q. omega (arith, t.same_directory, t.same_high, room (sym t.same_page ∙ q))))
