-- ===== src/Mmu/Changed.antt =====
-- `_set_virtual_target` and `_set_virtual_options` of kernel/arch/x86/mmu.cpp on a range, by what
-- `_get_physical` and `_get_virtual_options` answer afterwards.
use uberos.Prelude.{
  ℕ, ◌+◌, ◌-◌, ◌*◌, ◌/◌, ◌%◌, ◌^◌, ◌≤◌, ◌<◌, ◌≡◌, ◌⊎◌, refl, sym, ap, ◌∙◌, Option, some, true, inl,
  inr, ◌>>=◌, arith, add32, lt_or_le,
}
use uberos.Mmu.{Mmu, aligned}
use uberos.Mmu.Entries.{MapOptions, TableEntry, set_address, with_options}
use uberos.Mmu.Ranges.{
  get_physical, get_virtual_options, success, each_page, set_target, set_virtual_target, options_at,
  set_range_options, set_virtual_options,
}
use uberos.Mmu.Tables.{Tables}
use uberos.Mmu.Pages.{SameTables-Tables}
use uberos.Mmu.Mapped.{executable}
use uberos.Mmu.Answers.{
  physical_of, get_physical-entry, get_virtual_options-entry, physical_of-set_address,
  physical_of-with_options, answer-set_address, answer-with_options,
}
use uberos.Mmu.Changes.{page_entry}
use uberos.Mmu.Loop.{changed, patched_inside, patched_outside, Patches, Patches-all, ChangesBy}

-- The pages of a range, from the page `q` on.
abbrev pub Entries : Mmu → ℕ → ℕ → Type 0
Entries m q n =
    (x : ℕ)
    → q ≤ x
    → x < q + n
    → (e : TableEntry) × (page_entry m x ≡ some e) × (e.is_present ≡ true)

abbrev pub page_count : ℕ → ℕ → ℕ
page_count address size = (address + size + 4095) / 4096 - address / 4096

abbrev pub Inside : ℕ → ℕ → ℕ → Type 0
Inside address size b =
    (address / 4096 ≤ b / 4096) × (b / 4096 < address / 4096 + page_count address size)

abbrev pub Outside : ℕ → ℕ → ℕ → Type 0
Outside address size b =
    (b / 4096 < address / 4096) ⊎ (address / 4096 + page_count address size ≤ b / 4096)

set_target-ChangesBy : ChangesBy set_target set_address
unfolding set_target
set_target-ChangesBy page physical m h = rw h refl

options_at-ChangesBy : (o : MapOptions) → ChangesBy (options_at o) (λ p. with_options o)
unfolding set_virtual_options
options_at-ChangesBy o page physical m h = refl

module _ (m : Mmu) (valid : Tables m) (address size fuel : ℕ) (top : address + size ≤ 2 ^ 32 - 4096)
    (enough : page_count address size < fuel)
    (old : Entries m (address / 4096) (page_count address size)) where
  abbrev first : ℕ
  first = address / 4096

  abbrev count : ℕ
  count = page_count address size

  Patches-range :
      (F : ℕ → ℕ → Mmu → Option Mmu) (g : ℕ → TableEntry → TableEntry) (physical : ℕ)
      → ChangesBy F g
      → physical % 4096 ≡ 0
      → physical + 4096 * count < 2 ^ 32
      → Patches F g fuel first count (add32 address size) physical m
  Patches-range F g physical by a fits =
      Patches-all F g count fuel first (add32 address size) physical m by valid enough (omega arith)
        (omega arith) a fits (λ x h k. let (e, s, p) = old x h k in (e, s))

  side : (b : ℕ) → (Inside address size b) ⊎ (Outside address size b)
  side b = elim (lt_or_le (b / 4096) (address / 4096)) [
    | inl h ↦ inr (inl h)
    | inr h ↦ elim (lt_or_le (b / 4096) (address / 4096 + page_count address size)) [
      | inl k ↦ inl (h, k)
      | inr k ↦ inr (inr k)
    ]
  ]

  module _ {F : ℕ → ℕ → Mmu → Option Mmu} {g : ℕ → TableEntry → TableEntry} {physical : ℕ}
      (p : Patches F g fuel first count (add32 address size) physical m) where
    changed-Inside :
        (b : ℕ) (e : TableEntry)
        → Inside address size b
        → page_entry m (b / 4096) ≡ some e
        → page_entry p.after (b / 4096) ≡ some (g (physical + 4096 * (b / 4096 - first)) e)
    changed-Inside b e (h, k) s =
        p.entries (b / 4096)
        ∙ patched_inside g first count physical (page_entry m) (b / 4096) h k
        ∙ ap (changed (g (physical + 4096 * (b / 4096 - first)))) s

    changed-Outside :
        (b : ℕ) → Outside address size b → page_entry p.after (b / 4096) ≡ page_entry m (b / 4096)
    changed-Outside b h =
        p.entries (b / 4096) ∙ patched_outside g first count physical (page_entry m) (b / 4096) h

    get_physical-Outside :
        (b : ℕ) → b < 2 ^ 32 → Outside address size b → get_physical b p.after ≡ get_physical b m
    get_physical-Outside b h k =
        get_physical-entry p.after b h
        ∙ ap (λ (o : Option TableEntry). o >>= physical_of (b % 4096)) (changed-Outside b k)
        ∙ sym (get_physical-entry m b h)

    get_options-Outside :
        (b : ℕ) (e : TableEntry)
        → b < 2 ^ 32
        → Outside address size b
        → page_entry m (b / 4096) ≡ some e
        → get_virtual_options b p.after ≡ get_virtual_options b m
    get_options-Outside b e h k s =
        get_virtual_options-entry p.after b e (SameTables-Tables p.same valid) h
          (changed-Outside b k ∙ s)
        ∙ sym (get_virtual_options-entry m b e valid h s)

  -- For a range below the last page of the address space whose pages are all present, and an
  -- aligned physical address from which as many pages lie below 2^32, `_set_virtual_target`
  -- succeeds; each byte of the pages that the range touches is then at the byte of physical memory
  -- that is as far from the given address, the other bytes are where they were, and no page with
  -- an entry changes its options.
  pub set_virtual_target-moves :
      (physical : ℕ)
      → physical % 4096 ≡ 0
      → physical + 4096 * count < 2 ^ 32
      → (m' : Mmu) × (set_virtual_target fuel address physical size m ≡ some m')
        × ((b : ℕ)
            → b < 2 ^ 32
            → Inside address size b
            → get_physical b m' ≡ some (physical + (b - aligned address)))
        × ((b : ℕ) → b < 2 ^ 32 → Outside address size b → get_physical b m' ≡ get_physical b m)
        × ((b : ℕ) (e : TableEntry)
            → b < 2 ^ 32
            → page_entry m (b / 4096) ≡ some e
            → get_virtual_options b m' ≡ get_virtual_options b m)
  unfolding set_virtual_target
  set_virtual_target-moves physical a fits = (
    p.after,
    ap (λ (x : ℕ). each_page set_target fuel x (add32 address size) physical m) (omega arith)
        ∙ p.patches,
    λ b h k.
        let (e, s, q) = old (b / 4096) k.0 k.1 in
        get_physical-entry p.after b h
        ∙ ap (λ (o : Option TableEntry). o >>= physical_of (b % 4096)) (changed-Inside p b e k s)
        ∙ physical_of-set_address (b % 4096) (physical + 4096 * (b / 4096 - first)) e (omega arith)
            (omega (arith, k.0, k.1)) (omega arith)
        ∙ ap some (omega (arith, k.0)),
    get_physical-Outside p,
    λ b e h s. options_kept b e h s (side b),
  )
    where
      p : Patches set_target set_address fuel first count (add32 address size) physical m
      p = Patches-range set_target set_address physical set_target-ChangesBy a fits

      options_kept :
          (b : ℕ) (e : TableEntry)
          → b < 2 ^ 32
          → page_entry m (b / 4096) ≡ some e
          → (Inside address size b) ⊎ (Outside address size b)
          → get_virtual_options b p.after ≡ get_virtual_options b m
      options_kept b e h s (inr k) = get_options-Outside p b e h k s
      options_kept b e h s (inl k) =
          get_virtual_options-entry p.after b (set_address (physical + 4096 * (b / 4096 - first)) e)
            (SameTables-Tables p.same valid) h (changed-Inside p b e k s)
          ∙ ap some (answer-set_address (physical + 4096 * (b / 4096 - first)) e)
          ∙ sym (get_virtual_options-entry m b e valid h s)

  -- For a range below the last page of the address space whose pages are all present,
  -- `_set_virtual_options` succeeds; `_get_virtual_options` then answers the options, every page
  -- being executable, at each byte of the pages that the range touches, and what it did before at
  -- the other pages with an entry; `_get_physical` answers what it did.
  pub set_range_options-get_virtual_options :
      (o : MapOptions)
      → 4096 * count < 2 ^ 32
      → (m' : Mmu) × (set_range_options fuel address size o m ≡ some m')
        × ((b : ℕ)
            → b < 2 ^ 32
            → Inside address size b
            → get_virtual_options b m' ≡ some (success (executable o)))
        × ((b : ℕ) (e : TableEntry)
            → b < 2 ^ 32
            → Outside address size b
            → page_entry m (b / 4096) ≡ some e
            → get_virtual_options b m' ≡ get_virtual_options b m)
        × ((b : ℕ) → b < 2 ^ 32 → get_physical b m' ≡ get_physical b m)
  unfolding set_range_options
  set_range_options-get_virtual_options o fits = (
    p.after,
    ap (λ (x : ℕ). each_page (options_at o) fuel x (add32 address size) 0 m) (omega arith)
        ∙ p.patches,
    λ b h k.
        let (e, s, q) = old (b / 4096) k.0 k.1 in
        get_virtual_options-entry p.after b (with_options o e) (SameTables-Tables p.same valid) h
          (changed-Inside p b e k s)
        ∙ ap some (answer-with_options o e q),
    λ b e h k s. get_options-Outside p b e h k s,
    λ b h. target_kept b h (side b),
  )
    where
      p : Patches (options_at o) (λ x. with_options o) fuel first count (add32 address size) 0 m
      p =
          Patches-range (options_at o) (λ x. with_options o) 0 (options_at-ChangesBy o) refl
            (omega arith)

      target_kept :
          (b : ℕ)
          → b < 2 ^ 32
          → (Inside address size b) ⊎ (Outside address size b)
          → get_physical b p.after ≡ get_physical b m
      target_kept b h (inr k) = get_physical-Outside p b h k
      target_kept b h (inl k) =
          let (e, s, q) = old (b / 4096) k.0 k.1 in
          get_physical-entry p.after b h
          ∙ ap (λ (z : Option TableEntry). z >>= physical_of (b % 4096)) (changed-Inside p b e k s)
          ∙ physical_of-with_options (b % 4096) o e
          ∙ sym (ap (λ (z : Option TableEntry). z >>= physical_of (b % 4096)) s)
          ∙ sym (get_physical-entry m b h)
