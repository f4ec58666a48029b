-- ===== src/Mmu/HighRange.antt =====
-- Mapping a range of physical memory in the high region, in kernel/arch/x86/mmu.cpp: the pages are
-- mapped from the last to the first, and the bytes of the range follow one another from the address that
-- is returned.
use uberos.Prelude.{
  ℕ, zero, suc, ◌+◌, ◌-◌, ◌*◌, ◌/◌, ◌%◌, ◌^◌, ◌≤◌, ◌<◌, ◌≡◌, refl, ap, ◌∙◌, some, true, Bool-cases,
  inl, inr, if◌then◌else◌, arith, add32, sub32, ltb, u32_mod,
}
use uberos.Mmu.{Mmu, virtual_address, aligned, is_first_high}
use uberos.Mmu.Entries.{MapOptions}
use uberos.Mmu.Ranges.{map_pages_high, map_range_high, get_physical, get_virtual_options, success}
use uberos.Mmu.Tables.{Tables}
use uberos.Mmu.Regions.{high_position, Valid, Bounds, Keeps}
use uberos.Mmu.Mapped.{Page, Keeps-Page, executable}
use uberos.Mmu.HighMapped.{MapsHigh, maps_high}
use uberos.Mmu.LowRange.{Page_at}
use uberos.Mmu.Access.{get_physical-page, get_virtual_options-page}

-- How many tables the region needs, from its lowest page up: one more at the very first page, which is
-- not the last of its table.
abbrev pub tables_above : ℕ → ℕ
tables_above position = (position + 1 + (position + 2) / 1048576) / 1024

-- Room for so many pages above the low region, and for the tables that they need.
pub record HighRoom (m : Mmu) (pages : ℕ) : Type 0 where
  pub addresses : (m.next_low_directory_index + 1) * 1024 + pages ≤ high_position m
  pub tables :
      m.next_table_index + tables_above (high_position m)
      ≤ m.tables_count + (high_position m + 1 - pages) / 1024

top_position : (m : Mmu) → Bounds m → high_position m < 1048575
top_position m b = ground (arith, b.high_page, b.high_directory, b.skipped)

first_counts :
    (m : Mmu)
    → Bounds m
    → is_first_high m ≡ true
    → tables_above (high_position m) ≡ high_position m / 1024 + 1
unfolding is_first_high
first_counts m b h = ground (arith, b.high_page, b.high_directory)

room_for_one_high :
    (m : Mmu) (p : ℕ) (o : MapOptions) (n : ℕ)
    → Valid m
    → HighRoom m (suc n)
    → p < 2 ^ 32
    → MapsHigh m p o
room_for_one_high m p o n v room h =
    maps_high m p o v h (λ z. omega (arith, room.tables, first_counts m v.bounds z))
      (λ z. omega (arith, room.addresses))

HighRoom-left :
    (m : Mmu) (p : ℕ) (o : MapOptions) (n : ℕ)
    → Valid m
    → HighRoom m (suc n)
    → (s : MapsHigh m p o) → HighRoom s.after n
HighRoom-left m p o n v room s = record {
  addresses = omega (arith, room.addresses, s.position, s.same_low);
  tables = elim (Bool-cases (is_first_high m)) [
    | inl e ↦ omega (
      arith,
      room.tables,
      s.position,
      s.same_count,
      s.uses,
      first_counts m v.bounds e,
      top_position m v.bounds,
    )
    | inr e ↦
        omega (arith, room.tables, s.position, s.same_count, s.uses_none e, top_position m v.bounds)
  ];
}

record MapsDown (m : Mmu) (n physical answer : ℕ) (o : MapOptions) : Type 0 where
  after : Mmu
  address : ℕ
  maps : map_pages_high n physical answer o m ≡ some (address, after)
  valid : Valid after
  keeps : Keeps m after
  pages : (k : ℕ) → k < n → Page after (high_position m - k) (aligned physical - 4096 * k) o
  last : (j : ℕ) → n ≡ suc j → address ≡ (high_position m - j) * 4096 + physical % 4096
  unmoved : n ≡ 0 → address ≡ answer

pages_down :
    (after m : Mmu) (physical n q' : ℕ) (o : MapOptions)
    → Page after (high_position m) (aligned physical) o
    → q' + 1 ≡ high_position m
    → 4096 * n ≤ physical
    → physical < 2 ^ 32
    → ((k : ℕ) → k < n → Page after (q' - k) (aligned (sub32 physical 4096) - 4096 * k) o)
    → (k : ℕ) → k < suc n
    → Page after (high_position m - k) (aligned physical - 4096 * k) o
pages_down after m physical n q' o first e low h rest zero k =
    Page_at (omega arith) (omega arith) first
pages_down after m physical n q' o first e low h rest (suc j) k =
    Page_at (omega (arith, e)) (omega arith) (rest j (omega arith))

-- The answer of the last round is the address of the lowest page.
last_down :
    (n : ℕ) (m t : Mmu) (physical answer : ℕ) (o : MapOptions)
    (rest : MapsDown t n (sub32 physical 4096) answer o)
    → answer ≡ high_position m * 4096 + physical % 4096
    → high_position t + 1 ≡ high_position m
    → 4096 * n ≤ physical
    → physical < 2 ^ 32
    → (j : ℕ) → suc n ≡ suc j
    → rest.address ≡ (high_position m - j) * 4096 + physical % 4096
last_down zero m t physical answer o rest a e low h j q = rest.unmoved refl ∙ a ∙ omega (arith, q)
last_down (suc n) m t physical answer o rest a e low h j q = rest.last n refl ∙ omega (arith, e, q)

maps_down :
    (n : ℕ) (m : Mmu) (physical answer : ℕ) (o : MapOptions)
    → Valid m
    → HighRoom m n
    → 4096 * (n - 1) ≤ physical
    → physical < 2 ^ 32
    → MapsDown m n physical answer o
unfolding map_pages_high
maps_down zero m physical answer o v room low h = record {
  after = m;
  address = answer;
  maps = refl;
  valid = v;
  keeps = λ d t x q k. k;
  pages = λ k q. absurd (omega arith);
  last = λ j q. absurd (omega (arith, q));
  unmoved = λ q. refl;
}
maps_down (suc n) m physical answer o v room low h =
    let s : MapsHigh m physical o = room_for_one_high m physical o n v room h in
    let v' : ℕ =
      virtual_address m.next_high_directory_index m.next_high_table_index (physical % 4096) in
    let rest : MapsDown s.after n (sub32 physical 4096) v' o =
      maps_down n s.after (sub32 physical 4096) v' o s.valid (HighRoom-left m physical o n v room s)
        (omega arith) (omega arith) in
    record {
      after = rest.after;
      address = rest.address;
      maps = rw s.maps rest.maps;
      valid = rest.valid;
      keeps = λ d t x q k. rest.keeps d t x q (s.keeps d t x q k);
      pages =
          pages_down rest.after m physical n (high_position s.after) o
            (Keeps-Page rest.keeps s.page) s.position (omega arith) h rest.pages;
      last = λ j q.
          last_down n m s.after physical v' o rest (omega arith) s.position (omega arith) h j q;
      unmoved = λ q. absurd (omega (arith, q));
    }

abbrev pub page_total : ℕ → ℕ
page_total size = suc ((size - 1) / 4096)

pages_of_size :
    (size : ℕ)
    → size ≤ 2 ^ 32 - 4096
    → add32 (if ltb size 1 then 1 else size) 4095 / 4096 ≡ page_total size
pages_of_size size h = ground arith

byte_of_high_page :
    (m after : Mmu) (p n j : ℕ) (o : MapOptions)
    → Bounds m
    → Tables after
    → HighRoom m (suc n)
    → p + 4096 * n < 2 ^ 32
    → ((k : ℕ) → k < suc n → Page after (high_position m - k) (aligned (p + 4096 * n) - 4096 * k) o)
    → p % 4096 + j < 4096 * suc n
    → let v = (high_position m - n) * 4096 + p % 4096 in
      (get_physical (v + j) after ≡ some (p + j))
      × (get_virtual_options (v + j) after ≡ some (success (executable o)))
byte_of_high_page m after p n j o bounds valid room fits pages h =
    let k : ℕ = (p % 4096 + j) / 4096 in
    let offset : ℕ = (p % 4096 + j) % 4096 in
    let page : Page after (high_position m - (n - k)) (aligned (p + 4096 * n) - 4096 * (n - k)) o =
      pages (n - k) (omega arith) in
    let below : high_position m - (n - k) < 1024 * 1024 = omega (arith, top_position m bounds) in
    let small : offset < 4096 = omega arith in
    let there : (high_position m - n) * 4096 + p % 4096 + j
        ≡ (high_position m - (n - k)) * 4096 + offset =
      omega (arith, room.addresses) in
    (
      ap (λ (x : ℕ). get_physical x after) there
          ∙ get_physical-page offset page below small (omega arith)
          ∙ ap some (omega arith),
      ap (λ (x : ℕ). get_virtual_options x after) there
          ∙ get_virtual_options-page offset page below small valid,
    )

-- In a valid mapping with room for the pages and tables that the size needs, for a size at least a
-- page below 2^32 and a range that ends below 2^32, the mapping of a range in the high region
-- succeeds; from the returned address on, each byte of the pages is at the byte of physical memory
-- that follows on from the given address, and has the options asked for, every page being
-- executable; the pages that were present stay, and the mapping stays valid.
pub map_range_high-translates :
    (m : Mmu) (p size : ℕ) (o : MapOptions)
    → Valid m
    → HighRoom m (page_total size)
    → size ≤ 2 ^ 32 - 4096
    → p + (size - 1) < 2 ^ 32
    → (v : ℕ) × (m' : Mmu) × (map_range_high p size o m ≡ some (v, m'))
      × Valid m'
      × Keeps m m'
      × ((j : ℕ)
          → p % 4096 + j < 4096 * page_total size
          → (get_physical (v + j) m' ≡ some (p + j))
            × (get_virtual_options (v + j) m' ≡ some (success (executable o))))
unfolding map_range_high
map_range_high-translates m p size o v room small fits =
    let n : ℕ = (size - 1) / 4096 in
    let r : MapsDown m (suc n) (p + 4096 * n) 0 o =
      maps_down (suc n) m (p + 4096 * n) 0 o v room (omega arith) (omega arith) in
    let top : add32 p ((suc n - 1) * 4096 % u32_mod) ≡ p + 4096 * n = omega arith in
    let address : r.address ≡ (high_position m - n) * 4096 + p % 4096 =
      r.last n refl ∙ omega arith in
    (
      r.address,
      r.after,
      rw (pages_of_size size small, top) r.maps,
      r.valid,
      r.keeps,
      λ j h.
          let (a, b) =
            byte_of_high_page m r.after p n j o v.bounds r.valid.tables room (omega arith) r.pages
              h in
          (
            ap (λ (x : ℕ). get_physical (x + j) r.after) address ∙ a,
            ap (λ (x : ℕ). get_virtual_options (x + j) r.after) address ∙ b,
          ),
    )
