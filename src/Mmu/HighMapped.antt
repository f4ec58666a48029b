-- ===== src/Mmu/HighMapped.antt =====
-- Mapping the next high page: the page that `Mapping::_map_physical_high` of kernel/arch/x86/mmu.cpp
-- makes, and what it leaves as it was.
use uberos.Prelude.{
  ℕ, ◌+◌, ◌/◌, ◌%◌, ◌^◌, ◌≤◌, ◌<◌, ◌≡◌, refl, sym, ap, ◌∙◌, some, true, false, arith, ltb-true,
}
use uberos.Mmu.{
  Mmu, table_of, write_page, advance_high, is_first_high, map_physical_high, virtual_address,
  aligned,
}
use uberos.Mmu.Entries.{MapOptions, table_entry}
use uberos.Mmu.Tables.{entry_at}
use uberos.Mmu.Regions.{high_position, Valid, Keeps}
use uberos.Mmu.High.{HighOpens, opens_high}
use uberos.Mmu.HighSteps.{HighFinishes, finish_high}
use uberos.Mmu.Mapped.{Page, get_address-table_entry, options_of-table_entry, table_entry_present}

pub record MapsHigh (m : Mmu) (p : ℕ) (o : MapOptions) : Type 0 where
  pub after : Mmu
  pub maps :
      map_physical_high p o m
      ≡ some (virtual_address m.next_high_directory_index m.next_high_table_index (p % 4096), after)
  pub valid : Valid after
  pub position : high_position after + 1 ≡ high_position m
  pub same_low : after.next_low_directory_index ≡ m.next_low_directory_index
  pub same_count : after.tables_count ≡ m.tables_count
  pub uses : after.next_table_index ≤ m.next_table_index + 1
  pub uses_none : is_first_high m ≡ false → after.next_table_index ≡ m.next_table_index
  pub page : Page after (high_position m) (aligned p) o
  pub keeps : Keeps m after

module _ (m : Mmu) (p : ℕ) (o : MapOptions) (h : p < 2 ^ 32) (t : HighOpens m) where
  abbrev high_directory : ℕ
  high_directory = m.next_high_directory_index

  abbrev high_page : ℕ
  high_page = m.next_high_table_index

  opens_found : table_of t.after high_directory ≡ some t.index
  opens_found = ap (table_of t.after) (sym t.same_directory) ∙ t.ready.found

  module _ (f : HighFinishes t.after t.index (aligned p) o) where
    finishes_here :
        advance_high (write_page high_directory t.index high_page (aligned p) o t.after)
        ≡ some f.after
    finishes_here =
        ap (λ (d : ℕ). advance_high (write_page d t.index high_page (aligned p) o t.after))
          (sym t.same_directory)
        ∙ ap
            (λ (e : ℕ).
              advance_high
                (write_page t.after.next_high_directory_index t.index e (aligned p) o t.after))
            (sym t.same_page)
        ∙ f.finishes

    map_physical_high-eq :
        map_physical_high p o m
        ≡ some (virtual_address high_directory high_page (p % 4096), f.after)
    unfolding map_physical_high
    map_physical_high-eq = rw (ltb-true p (2 ^ 32) h, t.opens, opens_found, finishes_here) refl

    same_position : high_position t.after ≡ high_position m
    same_position = omega (arith, t.same_directory, t.same_page)

    position_entry :
        entry_at f.after (high_position m / 1024) (high_position m % 1024)
        ≡ some (table_entry (t.after.tables t.index t.after.next_high_table_index) (aligned p) o)
    position_entry =
        ap (λ (d : ℕ). entry_at f.after d (high_position m % 1024))
          (omega (arith, t.same_directory, t.same_page, t.ready.bounds.high_page))
        ∙ ap (entry_at f.after t.after.next_high_directory_index)
            (omega (arith, t.same_directory, t.same_page, t.ready.bounds.high_page))
        ∙ f.entry

    mapped : MapsHigh m p o
    mapped = record {
      after = f.after;
      maps = map_physical_high-eq;
      valid = f.valid;
      position = omega (arith, f.position, same_position);
      same_low = f.same_low ∙ t.same_low;
      same_count = f.same_count ∙ t.same_pool;
      uses = omega (arith, f.same_next, t.uses);
      uses_none = λ q. f.same_next ∙ t.uses_none q;
      page = record {
        entry = table_entry (t.after.tables t.index t.after.next_high_table_index) (aligned p) o;
        stands = position_entry;
        present =
            table_entry_present (t.after.tables t.index t.after.next_high_table_index) (aligned p)
              o;
        shows =
            get_address-table_entry (t.after.tables t.index t.after.next_high_table_index) p o h;
        allows =
            options_of-table_entry (t.after.tables t.index t.after.next_high_table_index)
              (aligned p) o;
      };
      keeps = λ d e x present k. f.keeps d e x present (t.keeps d e x present k);
    }

pub maps_high :
    (m : Mmu) (p : ℕ) (o : MapOptions)
    → Valid m
    → p < 2 ^ 32
    → (is_first_high m ≡ true → m.next_table_index < m.tables_count)
    → (m.next_high_table_index ≡ 0 → m.next_low_directory_index + 1 < m.next_high_directory_index)
    → MapsHigh m p o
maps_high m p o v h tables_left room =
    let t : HighOpens m = opens_high m v tables_left in
    mapped m p o h t (
      finish_high t.after t.index (aligned p) o t.ready
        (λ q. omega (arith, t.same_directory, t.same_low, room (sym t.same_page ∙ q))))
