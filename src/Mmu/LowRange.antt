-- ===== src/Mmu/LowRange.antt =====
-- Mapping a range of physical memory in the low region, in kernel/arch/x86/mmu.cpp: the bytes of the
-- range follow one another from the address that is returned.
use uberos.Prelude.{
  ℕ, zero, suc, ◌+◌, ◌-◌, ◌*◌, ◌/◌, ◌%◌, ◌^◌, ◌≤◌, ◌<◌, ◌≡◌, refl, ap, ◌∙◌, subst, some, Bool-cases,
  inl, inr, ◌==◌, ==→eq, ==_false, arith, add32, ltb-true, ltb-false,
}
use uberos.Mmu.{Mmu, virtual_address, aligned}
use uberos.Mmu.Entries.{MapOptions}
use uberos.Mmu.Ranges.{map_rest_low, map_range_low, get_physical, get_virtual_options, success}
use uberos.Mmu.Tables.{Tables}
use uberos.Mmu.Regions.{low_position, Valid, Bounds, Keeps}
use uberos.Mmu.Mapped.{Page, Keeps-Page, executable, MapsLow, maps_low}
use uberos.Mmu.Access.{get_physical-page, get_virtual_options-page}

-- Room for so many pages below the high region, and for the tables that they need.
pub record Room (m : Mmu) (pages : ℕ) : Type 0 where
  pub addresses : low_position m + pages < m.next_high_directory_index * 1024
  pub tables :
      m.next_table_index + (low_position m + pages + 1023) / 1024
      ≤ m.tables_count + (low_position m + 1023) / 1024

pub room_for_one :
    (m : Mmu) (p : ℕ) (o : MapOptions) (n : ℕ)
    → Valid m
    → Room m (suc n)
    → p < 2 ^ 32
    → MapsLow m p o
room_for_one m p o n v room h =
    maps_low m p o v h (λ z. omega (arith, room.tables)) (λ z. omega (arith, room.addresses))

Room-left :
    (m : Mmu) (p : ℕ) (o : MapOptions) (n : ℕ)
    → Valid m
    → Room m (suc n)
    → (s : MapsLow m p o) → Room s.after n
Room-left m p o n v room s = record {
  addresses = omega (arith, room.addresses, s.position, s.same_high);
  tables = elim (Bool-cases (m.next_low_table_index == 0)) [
    | inl e ↦
        omega
          (arith, room.tables, s.position, s.same_count, s.uses, ==→eq m.next_low_table_index 0 e)
    | inr e ↦ omega (
      arith,
      room.tables,
      s.position,
      s.same_count,
      s.uses_none (==_false m.next_low_table_index 0 e),
    )
  ];
}

record MapsRest (m : Mmu) (fuel p size n : ℕ) (o : MapOptions) : Type 0 where
  after : Mmu
  maps : map_rest_low fuel p size o m ≡ some after
  valid : Valid after
  keeps : Keeps m after
  pages : (k : ℕ) → k < n → Page after (low_position m + k) (aligned p + 4096 * (k + 1)) o

pub Page_at :
    {m : Mmu} {q q' a a' : ℕ} {o : MapOptions} → q ≡ q' → a ≡ a' → Page m q a o → Page m q' a' o
Page_at {m} {q} {q'} {a} {a'} {o} e f page =
    subst (λ (x : ℕ). Page m x a' o) e (subst (λ (y : ℕ). Page m q y o) f page)

-- The pages after the first, from the next page and those after it.
pages_cons :
    (after m : Mmu) (p n : ℕ) (o : MapOptions) {q' : ℕ}
    → Page after (low_position m) (aligned (add32 p 4096)) o
    → add32 p 4096 ≡ p + 4096
    → q' ≡ low_position m + 1
    → ((k : ℕ) → k < n → Page after (q' + k) (aligned (add32 p 4096) + 4096 * (k + 1)) o)
    → (k : ℕ) → k < suc n
    → Page after (low_position m + k) (aligned p + 4096 * (k + 1)) o
pages_cons after m p n o first next e rest zero h =
    Page_at (omega arith) (omega (arith, next)) first
pages_cons after m p n o first next e rest (suc k) h =
    Page_at (omega (arith, e)) (omega (arith, next)) (rest k (omega arith))

-- All pages of a range, from its first and those after it.
all_pages :
    (after m : Mmu) (p n : ℕ) (o : MapOptions) {q' : ℕ}
    → Page after (low_position m) (aligned p) o
    → q' ≡ low_position m + 1
    → ((k : ℕ) → k < n → Page after (q' + k) (aligned p + 4096 * (k + 1)) o)
    → (k : ℕ) → k ≤ n
    → Page after (low_position m + k) (aligned p + 4096 * k) o
all_pages after m p n o first e rest zero h = Page_at (omega arith) (omega arith) first
all_pages after m p n o first e rest (suc k) h =
    Page_at (omega (arith, e)) (omega arith) (rest k (omega arith))

maps_rest :
    (n fuel : ℕ) (m : Mmu) (p size : ℕ) (o : MapOptions)
    → Valid m
    → Room m n
    → n < fuel
    → (size - 1) / 4096 ≡ n
    → p + 4096 * n < 2 ^ 32
    → MapsRest m fuel p size n o
unfolding map_rest_low
maps_rest n zero m p size o v room h e fits = elim h [ ]
maps_rest zero (suc fuel) m p size o v room h e fits = record {
  after = m;
  maps = rw (ltb-false 4096 size (omega (arith, e))) refl;
  valid = v;
  keeps = λ d t x q k. k;
  pages = λ k q. absurd (omega arith);
}
maps_rest (suc n) (suc fuel) m p size o v room h e fits =
    let next : add32 p 4096 ≡ p + 4096 = omega arith in
    let s : MapsLow m (add32 p 4096) o = room_for_one m (add32 p 4096) o n v room (omega arith) in
    let rest : MapsRest s.after fuel (add32 p 4096) (size - 4096) n o =
      maps_rest n fuel s.after (add32 p 4096) (size - 4096) o s.valid
        (Room-left m (add32 p 4096) o n v room s) (omega arith) (omega arith) (omega arith) in
    record {
      after = rest.after;
      maps = rw (ltb-true 4096 size (omega (arith, e)), s.maps, rest.maps) refl;
      valid = rest.valid;
      keeps = λ d t x q k. rest.keeps d t x q (s.keeps d t x q k);
      pages =
          pages_cons rest.after m p n o (Keeps-Page rest.keeps s.page) next s.position rest.pages;
    }

record MapsRange (m : Mmu) (fuel p size : ℕ) (o : MapOptions) : Type 0 where
  after : Mmu
  maps :
      map_range_low fuel p size o m
      ≡ some (virtual_address m.next_low_directory_index m.next_low_table_index (p % 4096), after)
  valid : Valid after
  keeps : Keeps m after
  pages : (k : ℕ) → k ≤ (size - 1) / 4096 → Page after (low_position m + k) (aligned p + 4096 * k) o

maps_range :
    (fuel : ℕ) (m : Mmu) (p size : ℕ) (o : MapOptions)
    → Valid m
    → Room m (suc ((size - 1) / 4096))
    → (size - 1) / 4096 < fuel
    → p + (size - 1) < 2 ^ 32
    → MapsRange m fuel p size o
unfolding map_range_low
maps_range fuel m p size o v room h fits =
    let n : ℕ = (size - 1) / 4096 in
    let s : MapsLow m p o = room_for_one m p o n v room (omega arith) in
    let rest : MapsRest s.after fuel p size n o =
      maps_rest n fuel s.after p size o s.valid (Room-left m p o n v room s) h refl (omega arith) in
    record {
      after = rest.after;
      maps = rw (s.maps, rest.maps) refl;
      valid = rest.valid;
      keeps = λ d t x q k. rest.keeps d t x q (s.keeps d t x q k);
      pages = all_pages rest.after m p n o (Keeps-Page rest.keeps s.page) s.position rest.pages;
    }

byte_of_page :
    (m after : Mmu) (p n j : ℕ) (o : MapOptions)
    → Bounds m
    → Tables after
    → Room m (suc n)
    → p + 4096 * n < 2 ^ 32
    → ((k : ℕ) → k ≤ n → Page after (low_position m + k) (aligned p + 4096 * k) o)
    → p % 4096 + j < 4096 * suc n
    → let v = virtual_address m.next_low_directory_index m.next_low_table_index (p % 4096) in
      (get_physical (v + j) after ≡ some (p + j))
      × (get_virtual_options (v + j) after ≡ some (success (executable o)))
byte_of_page m after p n j o bounds valid room fits pages h =
    let k : ℕ = (p % 4096 + j) / 4096 in
    let offset : ℕ = (p % 4096 + j) % 4096 in
    let page : Page after (low_position m + k) (aligned p + 4096 * k) o = pages k (omega arith) in
    let below : low_position m + k < 1024 * 1024 =
      omega (arith, room.addresses, bounds.high_directory) in
    let small : offset < 4096 = omega arith in
    let there : virtual_address m.next_low_directory_index m.next_low_table_index (p % 4096) + j
        ≡ (low_position m + k) * 4096 + offset =
      omega arith in
    (
      ap (λ (x : ℕ). get_physical x after) there
          ∙ get_physical-page offset page below small (omega arith)
          ∙ ap some (omega arith),
      ap (λ (x : ℕ). get_virtual_options x after) there
          ∙ get_virtual_options-page offset page below small valid,
    )

-- In a valid mapping with room for the pages and tables that the size needs, for a range that ends
-- below 2^32 and with one round of fuel for each page after the first and one more, the mapping of
-- a range in the low region succeeds; from the returned address on, each byte of the pages is at
-- the byte of physical memory that follows on from the given address, and has the options asked
-- for, every page being executable; the pages that were present stay, and the mapping stays valid.
pub map_range_low-translates :
    (fuel : ℕ) (m : Mmu) (p size : ℕ) (o : MapOptions)
    → Valid m
    → Room m (suc ((size - 1) / 4096))
    → (size - 1) / 4096 < fuel
    → p + (size - 1) < 2 ^ 32
    → (v : ℕ) × (m' : Mmu) × (map_range_low fuel p size o m ≡ some (v, m'))
      × Valid m'
      × Keeps m m'
      × ((j : ℕ)
          → p % 4096 + j < 4096 * suc ((size - 1) / 4096)
          → (get_physical (v + j) m' ≡ some (p + j))
            × (get_virtual_options (v + j) m' ≡ some (success (executable o))))
map_range_low-translates fuel m p size o v room h fits =
    let r : MapsRange m fuel p size o = maps_range fuel m p size o v room h fits in
    (
      virtual_address m.next_low_directory_index m.next_low_table_index (p % 4096),
      r.after,
      r.maps,
      r.valid,
      r.keeps,
      λ j k.
          byte_of_page m r.after p ((size - 1) / 4096) j o v.bounds r.valid.tables room
            (omega arith) r.pages k,
    )
