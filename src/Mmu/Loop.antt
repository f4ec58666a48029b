-- ===== src/Mmu/Loop.antt =====
-- The loop over the pages of a range in kernel/arch/x86/mmu.cpp: it changes the entries of the range,
-- each in turn, and no others.
use uberos.Prelude.{
  ℕ, zero, suc, ◌+◌, ◌-◌, ◌*◌, ◌/◌, ◌%◌, ◌^◌, ◌≤◌, ◌<◌, ◌≡◌, ◌≢◌, ◌⊎◌, refl, sym, ap, ◌∙◌, Option,
  some, true, ◌&&◌, inl, inr, if◌then◌else◌, ◌>>=◌, arith, add32, ltb, leb, ltb-true, ltb-false,
  lt_or_le, leb-true, leb-false,
}
use uberos.Mmu.{Mmu}
use uberos.Mmu.Entries.{TableEntry}
use uberos.Mmu.Ranges.{change_entry, each_page}
use uberos.Mmu.Tables.{Tables}
use uberos.Mmu.Pages.{SameTables, SameTables-Tables}
use uberos.Mmu.Changes.{page_entry, Changes, change_page}

abbrev pub changed : (TableEntry → TableEntry) → Option TableEntry → Option TableEntry
changed f o = o >>= λ (e : TableEntry). some (f e)

-- What the page `x` has after a change of `n` pages from the page `q` on, in steps of physical memory.
abbrev pub patched :
    (ℕ → TableEntry → TableEntry) → ℕ → ℕ → ℕ → (ℕ → Option TableEntry) → ℕ → Option TableEntry
patched g q n physical old x =
    if leb q x && ltb x (q + n) then changed (g (physical + 4096 * (x - q))) (old x) else old x

pub record Patches (F : ℕ → ℕ → Mmu → Option Mmu) (g : ℕ → TableEntry → TableEntry)
    (fuel q n end physical : ℕ) (m : Mmu) : Type 0 where
  pub after : Mmu
  pub patches : each_page F fuel (q * 4096) end physical m ≡ some after
  pub same : SameTables m after
  pub entries : (x : ℕ) → page_entry after x ≡ patched g q n physical (page_entry m) x

abbrev pub ChangesBy : (ℕ → ℕ → Mmu → Option Mmu) → (ℕ → TableEntry → TableEntry) → Type 0
ChangesBy F g =
    (page physical : ℕ) (m : Mmu)
    → physical % 4096 ≡ 0
    → F page physical m ≡ change_entry page (g physical) m

SameTables-trans : {a b c : Mmu} → SameTables a b → SameTables b c → SameTables a c
SameTables-trans s t = record {
  same_physical = t.same_physical ∙ s.same_physical;
  same_count = t.same_count ∙ s.same_count;
  same_next = t.same_next ∙ s.same_next;
  same_table_of = λ d. t.same_table_of d ∙ s.same_table_of d;
}

module _ (g : ℕ → TableEntry → TableEntry) (q n physical : ℕ) (old : ℕ → Option TableEntry)
    (x : ℕ) where
  pub patched_inside :
      q ≤ x
      → x < q + n
      → patched g q n physical old x ≡ changed (g (physical + 4096 * (x - q))) (old x)
  patched_inside h k = rw (leb-true q x h, ltb-true x (q + n) k) refl

  pub patched_outside : (x < q) ⊎ (q + n ≤ x) → patched g q n physical old x ≡ old x
  patched_outside (inl h) = rw (leb-false q x h) refl
  patched_outside (inr h) = rw (leb-true q x (omega arith), ltb-false x (q + n) h) refl

patched_step :
    (g : ℕ → TableEntry → TableEntry) (q n physical : ℕ) (old new : ℕ → Option TableEntry)
    → new q ≡ changed (g physical) (old q)
    → ((x : ℕ) → x ≢ q → new x ≡ old x)
    → (x : ℕ) → (x < q) ⊎ (q ≤ x)
    → (x < q + 1) ⊎ (q + 1 ≤ x)
    → (x < q + suc n) ⊎ (q + suc n ≤ x)
    → patched g (q + 1) n (physical + 4096) new x ≡ patched g q (suc n) physical old x
patched_step g q n physical old new here elsewhere x (inl a) b c =
    patched_outside g (q + 1) n (physical + 4096) new x (inl (omega arith))
    ∙ elsewhere x (omega arith)
    ∙ sym (patched_outside g q (suc n) physical old x (inl a))
patched_step g q n physical old new here elsewhere x (inr a) (inl b) c =
    let e : x ≡ q = omega arith in
    patched_outside g (q + 1) n (physical + 4096) new x (inl b)
    ∙ ap new e
    ∙ here
    ∙ sym (ap (λ (y : ℕ). changed (g physical) (old y)) e)
    ∙ ap (λ (y : ℕ). changed (g y) (old x)) (omega arith)
    ∙ sym (patched_inside g q (suc n) physical old x a (omega arith))
patched_step g q n physical old new here elsewhere x (inr a) (inr b) (inl c) =
    patched_inside g (q + 1) n (physical + 4096) new x b (omega arith)
    ∙ ap (changed (g (physical + 4096 + 4096 * (x - (q + 1))))) (elsewhere x (omega arith))
    ∙ ap (λ (y : ℕ). changed (g y) (old x)) (omega arith)
    ∙ sym (patched_inside g q (suc n) physical old x a c)
patched_step g q n physical old new here elsewhere x (inr a) (inr b) (inr c) =
    patched_outside g (q + 1) n (physical + 4096) new x (inr (omega arith))
    ∙ elsewhere x (omega arith)
    ∙ sym (patched_outside g q (suc n) physical old x (inr c))

each_page_step :
    (F : ℕ → ℕ → Mmu → Option Mmu) (fuel page end physical : ℕ) (m : Mmu) {m1 m2 : Mmu}
    {page' physical' : ℕ}
    → ltb page end ≡ true
    → F page physical m ≡ some m1
    → add32 page 4096 ≡ page'
    → add32 physical 4096 ≡ physical'
    → each_page F fuel page' end physical' m1 ≡ some m2
    → each_page F (suc fuel) page end physical m ≡ some m2
unfolding each_page
each_page_step F fuel page end physical m h step e f rest = rw (h, step, e, f, rest) refl

pub Patches-all :
    (F : ℕ → ℕ → Mmu → Option Mmu) (g : ℕ → TableEntry → TableEntry) (n fuel q end physical : ℕ)
    (m : Mmu)
    → ChangesBy F g
    → Tables m
    → n < fuel
    → (end + 4095) / 4096 - q ≡ n
    → end ≤ 2 ^ 32 - 4096
    → physical % 4096 ≡ 0
    → physical + 4096 * n < 2 ^ 32
    → ((x : ℕ) → q ≤ x → x < q + n → (e : TableEntry) × (page_entry m x ≡ some e))
    → Patches F g fuel q n end physical m
unfolding each_page
Patches-all F g n zero q end physical m by v h e top a fits old = elim h [ ]
Patches-all F g zero (suc fuel) q end physical m by v h e top a fits old = record {
  after = m;
  patches = rw (ltb-false (q * 4096) end (omega arith)) refl;
  same = record {
    same_physical = refl;
    same_count = refl;
    same_next = refl;
    same_table_of = λ d. refl;
  };
  entries = λ x. sym (
      patched_outside g q 0 physical (page_entry m) x
        (elim (lt_or_le x q) [ inl h ↦ inl h | inr h ↦ inr (omega arith) ]));
}
Patches-all F g (suc n) (suc fuel) q end physical m by v h e top a fits old =
    let (x, there) = old q (omega arith) (omega arith) in
    let c : Changes m q (g physical) = change_page m q (g physical) v (omega arith) there in
    let next : add32 (q * 4096) 4096 ≡ (q + 1) * 4096 = omega arith in
    let next_physical : add32 physical 4096 ≡ physical + 4096 = omega arith in
    let rest : Patches F g fuel (q + 1) n end (physical + 4096) c.after =
      Patches-all F g n fuel (q + 1) end (physical + 4096) c.after by (SameTables-Tables c.same v)
        (omega arith) (omega arith) top (omega arith) (omega arith)
        (λ y b d.
          let (z, w) = old y (omega arith) (omega arith) in (z, c.elsewhere y (omega arith) ∙ w)) in
    record {
      after = rest.after;
      patches =
          each_page_step F fuel (q * 4096) end physical m (ltb-true (q * 4096) end (omega arith))
            (by (q * 4096) physical m a ∙ c.changes) next next_physical rest.patches;
      same = SameTables-trans c.same rest.same;
      entries = λ y.
          rest.entries y
          ∙ patched_step g q n physical (page_entry m) (page_entry c.after) c.here c.elsewhere y
              (lt_or_le y q) (lt_or_le y (q + 1)) (lt_or_le y (q + suc n));
    }
