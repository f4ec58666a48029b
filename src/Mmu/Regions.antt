-- ===== src/Mmu/Regions.antt =====
-- The two regions of addresses in kernel/arch/x86/mmu.cpp: what the counters say of the tables.
use uberos.Prelude.{
  sym, ℕ, ◌+◌, ◌*◌, ◌≤◌, ◌<◌, ◌≡◌, ◌≢◌, ◌⊎◌, refl, ap, ◌∙◌, some, true, false, inl, inr, arith,
}
use uberos.Mmu.{Mmu, table_of, is_first_high}
use uberos.Mmu.Entries.{TableEntry}
use uberos.Mmu.Tables.{Tables, Blank, entry_at}

-- How many pages below the region of low addresses end at.
abbrev pub low_position : Mmu → ℕ
low_position m = m.next_low_directory_index * 1024 + m.next_low_table_index

-- The page that is handed out next from the region of high addresses.
abbrev pub high_position : Mmu → ℕ
high_position m = m.next_high_directory_index * 1024 + m.next_high_table_index

abbrev pub LowTable : Mmu → Type 0
LowTable m =
    ((m.next_low_table_index ≡ 0) × Blank (m.directory m.next_low_directory_index))
    ⊎ ((i : ℕ) × (m.next_low_table_index ≢ 0)
        × (table_of m m.next_low_directory_index ≡ some i)
        × ((t : ℕ) → m.next_low_table_index ≤ t → t < 1024 → (m.tables i t).is_present ≡ false))

abbrev pub HighTable : Mmu → Type 0
HighTable m =
    ((is_first_high m ≡ true) × Blank (m.directory m.next_high_directory_index))
    ⊎ ((i : ℕ) × (is_first_high m ≡ false)
        × (table_of m m.next_high_directory_index ≡ some i)
        × ((t : ℕ) → t ≤ m.next_high_table_index → (m.tables i t).is_present ≡ false))

pub record Bounds (m : Mmu) : Type 0 where
  pub low_page : m.next_low_table_index < 1024
  pub high_page : m.next_high_table_index < 1024
  pub high_directory : m.next_high_directory_index < 1024
  pub apart : m.next_low_directory_index < m.next_high_directory_index
  pub skipped : m.next_high_directory_index ≡ 1023 → m.next_high_table_index < 1023

-- The directory entries between the regions have had no tables.
abbrev pub Between : Mmu → Type 0
Between m =
    (d : ℕ)
    → m.next_low_directory_index < d
    → d < m.next_high_directory_index
    → Blank (m.directory d)

pub record Valid (m : Mmu) : Type 0 where
  pub tables : Tables m
  pub bounds : Bounds m
  pub between : Between m
  pub low_table : LowTable m
  pub high_table : HighTable m

-- The pages that were present stay as they are.
abbrev pub Keeps : Mmu → Mmu → Type 0
Keeps m m' =
    (d t : ℕ) (e : TableEntry)
    → e.is_present ≡ true
    → entry_at m d t ≡ some e
    → entry_at m' d t ≡ some e

-- The table of a directory entry stays, and is not written.
abbrev pub KeepsTable : Mmu → Mmu → ℕ → Type 0
KeepsTable m m' d =
    (i : ℕ)
    → table_of m d ≡ some i
    → (table_of m' d ≡ some i) × ((t : ℕ) → m'.tables i t ≡ m.tables i t)

-- An operation on the low region leaves the high region alone.
pub record SameHigh (m m' : Mmu) : Type 0 where
  pub high_directory : m'.next_high_directory_index ≡ m.next_high_directory_index
  pub high_page : m'.next_high_table_index ≡ m.next_high_table_index
  pub low_forward : m.next_low_directory_index ≤ m'.next_low_directory_index
  pub other_entries :
      (d : ℕ) → m.next_low_directory_index < d → Blank (m.directory d) → Blank (m'.directory d)
  pub high_table : KeepsTable m m' m.next_high_directory_index

module _ {m m' : Mmu} (same : SameHigh m m') where
  pub SameHigh-Between : Between m → Between m'
  SameHigh-Between h d a b =
      same.other_entries d (omega (arith, same.low_forward))
        (h d (omega (arith, same.low_forward)) (rw (← same.high_directory) b))

  is_first_high_eq : is_first_high m' ≡ is_first_high m
  unfolding is_first_high
  is_first_high_eq = rw (same.high_directory, same.high_page) refl

  pub SameHigh-HighTable : Bounds m → HighTable m → HighTable m'
  SameHigh-HighTable bounds (inl (e, b)) = inl (
    is_first_high_eq ∙ e,
    rw same.high_directory (same.other_entries m.next_high_directory_index bounds.apart b),
  )
  SameHigh-HighTable bounds (inr (i, e, f, free)) = inr (
    i,
    is_first_high_eq ∙ e,
    ap (table_of m') same.high_directory ∙ (same.high_table i f).0,
    λ t h.
        ap (λ (x : TableEntry). x.is_present) ((same.high_table i f).1 t)
        ∙ free t (rw (← same.high_page) h),
  )

  pub SameHigh-Bounds :
      Bounds m
      → m'.next_low_table_index < 1024
      → m'.next_low_directory_index < m.next_high_directory_index
      → Bounds m'
  SameHigh-Bounds b page apart = record {
    low_page = page;
    high_page = rw same.high_page b.high_page;
    high_directory = rw same.high_directory b.high_directory;
    apart = rw same.high_directory apart;
    skipped = λ e. rw same.high_page (b.skipped (sym same.high_directory ∙ e));
  }

-- An operation on the high region leaves the low region alone.
pub record SameLow (m m' : Mmu) : Type 0 where
  pub low_directory : m'.next_low_directory_index ≡ m.next_low_directory_index
  pub low_page : m'.next_low_table_index ≡ m.next_low_table_index
  pub high_backward : m'.next_high_directory_index ≤ m.next_high_directory_index
  pub other_entries :
      (d : ℕ) → d < m.next_high_directory_index → Blank (m.directory d) → Blank (m'.directory d)
  pub low_table : KeepsTable m m' m.next_low_directory_index

module _ {m m' : Mmu} (same : SameLow m m') where
  pub SameLow-Between : Between m → Between m'
  SameLow-Between h d a b =
      same.other_entries d (omega (arith, same.high_backward))
        (h d (rw (← same.low_directory) a) (omega (arith, same.high_backward)))

  pub SameLow-LowTable : Bounds m → LowTable m → LowTable m'
  SameLow-LowTable bounds (inl (e, b)) = inl (
    same.low_page ∙ e,
    rw same.low_directory (same.other_entries m.next_low_directory_index bounds.apart b),
  )
  SameLow-LowTable bounds (inr (i, e, f, free)) = inr (
    i,
    λ q. e (sym same.low_page ∙ q),
    ap (table_of m') same.low_directory ∙ (same.low_table i f).0,
    λ t h k.
        ap (λ (x : TableEntry). x.is_present) ((same.low_table i f).1 t)
        ∙ free t (rw (← same.low_page) h) k,
  )

  pub SameLow-Bounds :
      Bounds m
      → m'.next_high_table_index < 1024
      → m.next_low_directory_index < m'.next_high_directory_index
      → (m'.next_high_directory_index ≡ 1023 → m'.next_high_table_index < 1023)
      → Bounds m'
  SameLow-Bounds b page apart skipped = record {
    low_page = rw same.low_page b.low_page;
    high_page = page;
    high_directory = omega (arith, same.high_backward, b.high_directory);
    apart = rw same.low_directory apart;
    skipped = skipped;
  }
