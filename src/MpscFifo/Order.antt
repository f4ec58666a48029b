-- ===== src/MpscFifo/Order.antt =====
-- common/MpscFifo.hpp, whatever the order in which the steps of producers and consumer come: the items
-- come out in the order of the exchanges, and no item is read or changed after it is deleted.
use uberos.Prelude.{
  ℕ, ◌≡◌, ◌≢◌, ◌⊎◌, inl, inr, refl, sym, ap, ◌∙◌, subst, Option, none, some, true, false, List, [],
  ◌∷◌, ◌++◌, ◌==◌, ==_refl, ==_ne, ==_true, ==→eq, ==_false, Bool-cases, has, has-append,
  has-append_out, has-snoc_out, has-cons_out, true-false, set_at, arith,
}
use uberos.MpscFifo.{MpscFifo, exchange_in, store_next}
use uberos.MpscFifo.Waiting.{waiting, waiting-middle_ne, waiting-stored, waiting_some}

-- The next of `a` is `b`, or a push of `b` waits to make it so.
abbrev pub Edge : (ℕ → Option ℕ) → List (ℕ × ℕ) → ℕ → ℕ → Type 0
Edge next pending a b =
    ((next a ≡ some b) × (waiting a pending ≡ []))
    ⊎ ((next a ≡ none) × (waiting a pending ≡ b ∷ []))

abbrev pub Linked : ℕ → (ℕ → Option ℕ) → List (ℕ × ℕ) → ℕ → List ℕ → Type 0
Linked last next pending a [] = (a ≡ last) × (next a ≡ none) × (waiting a pending ≡ [])
Linked last next pending a (b ∷ q) = Edge next pending a b × Linked last next pending b q

abbrev pub Distinct : List ℕ → Type 0
Distinct [] = Unit {0}
Distinct (x ∷ xs) = (has x xs ≡ false) × Distinct xs

-- The queue holds the items `q`, the oldest first.
pub record Holds (s : MpscFifo) (q : List ℕ) : Type 0 where
  pub linked : Linked s.in_ s.next s.pending s.out q
  pub alive : (a : ℕ) → has a s.live ≡ has a (s.out ∷ q)
  pub idle : (a : ℕ) → has a (s.out ∷ q) ≡ false → waiting a s.pending ≡ []
  pub distinct : Distinct (s.out ∷ q)

pub Linked-last :
    (last : ℕ) (next : ℕ → Option ℕ) (pending : List (ℕ × ℕ)) (a : ℕ) (q : List ℕ)
    → Linked last next pending a q
    → has last (a ∷ q) ≡ true
Linked-last last next pending a [] h = ground (arith)
Linked-last last next pending a (b ∷ q) (e, h) = ground (arith, Linked-last last next pending b q h)

has-false_head : (x a : ℕ) (q : List ℕ) → has x (a ∷ q) ≡ false → x ≢ a
has-false_head x a q h = (has-cons_out x a q h).0

-- An edge that the exchange leaves alone.
Edge-exchange :
    (s : MpscFifo) (item a b : ℕ)
    → a ≢ item
    → a ≢ s.in_
    → Edge s.next s.pending a b
    → Edge (set_at s.next item none) ((s.in_, item) ∷ s.pending) a b
Edge-exchange s item a b h k e = rw (==_ne a item h, ==_ne s.in_ a (λ q. k (sym q))) e

Linked-exchange :
    (s : MpscFifo) (item a : ℕ) (q : List ℕ)
    → Linked s.in_ s.next s.pending a q
    → has item (a ∷ q) ≡ false
    → waiting item s.pending ≡ []
    → item ≢ s.in_
    → Distinct (a ∷ q)
    → Linked item (set_at s.next item none) ((s.in_, item) ∷ s.pending) a (q ++ item ∷ [])
Linked-exchange s item a [] (last, n, w) out quiet ne d = (
  inr (
    rw (==_ne a item (λ e. has-false_head item a [] out (sym e))) n,
    rw (==_true s.in_ a (sym last), w) refl,
  ),
  (refl, rw (==_refl item) refl, rw (==_ne s.in_ item (λ e. ne (sym e))) quiet),
)
Linked-exchange s item a (b ∷ q) (e, h) out quiet ne (d, ds) =
    let other : a ≢ s.in_ = λ e.
      true-false (Linked-last s.in_ s.next s.pending b q h)
        (subst (λ (x : ℕ). has x (b ∷ q) ≡ false) e d) in
    (
      Edge-exchange s item a b (λ e. has-false_head item a (b ∷ q) out (sym e)) other e,
      Linked-exchange s item b q h (has-cons_out item a (b ∷ q) out).1 quiet ne ds,
    )

Distinct-snoc :
    (item : ℕ) (q : List ℕ) → Distinct q → has item q ≡ false → Distinct (q ++ item ∷ [])
Distinct-snoc item [] d h = (refl, tt)
Distinct-snoc item (x ∷ q) (d, ds) h = (
  has-snoc_out x item q d (λ e. (has-cons_out item x q h).0 (sym e)),
  Distinct-snoc item q ds (has-cons_out item x q h).1,
)

module _ (old item : ℕ) (xs ys : List (ℕ × ℕ)) (s : MpscFifo)
    (split : s.pending ≡ xs ++ (old, item) ∷ ys) where
  still_waiting : (a : ℕ) → a ≢ old → waiting a (xs ++ ys) ≡ waiting a s.pending
  still_waiting a h = sym (ap (waiting a) split ∙ waiting-middle_ne a old item xs ys h)

  Edge-store :
      (a b : ℕ) → Edge s.next s.pending a b → Edge (set_at s.next old (some item)) (xs ++ ys) a b
  Edge-store a b e = elim (Bool-cases (a == old)) [
    | inr k ↦ rw (k, still_waiting a (==_false a old k)) e
    | inl k ↦ at_old (==→eq a old k) e
  ]
    where
      at_old :
          a ≡ old → Edge s.next s.pending a b → Edge (set_at s.next old (some item)) (xs ++ ys) a b
      at_old q (inl (n, w)) = absurd (
          waiting_some old item xs ys
            (sym (ap (waiting old) split) ∙ subst (λ (x : ℕ). waiting x s.pending ≡ []) q w))
      at_old q (inr (n, w)) =
          let (e, f) =
            waiting-stored old item b xs ys (
              sym (ap (waiting old) split) ∙ subst (λ (x : ℕ). waiting x s.pending ≡ b ∷ []) q w) in
          inl (rw (==_true a old q) (ap some e), ap (λ (x : ℕ). waiting x (xs ++ ys)) q ∙ f)

  not_quiet : (a : ℕ) → waiting a s.pending ≡ [] → a ≢ old
  not_quiet a w q =
      waiting_some old item xs ys
        (sym (ap (waiting old) split) ∙ subst (λ (x : ℕ). waiting x s.pending ≡ []) q w)

  Linked-store :
      (a : ℕ) (q : List ℕ)
      → Linked s.in_ s.next s.pending a q
      → Linked s.in_ (set_at s.next old (some item)) (xs ++ ys) a q
  Linked-store a [] (e, n, w) =
      (e, rw (==_ne a old (not_quiet a w)) n, still_waiting a (not_quiet a w) ∙ w)
  Linked-store a (b ∷ q) (e, h) = (Edge-store a b e, Linked-store b q h)

  pub store-Holds : (q : List ℕ) → Holds s q → Holds (store_next old item (xs ++ ys) s) q
  unfolding store_next
  store-Holds q h = record {
    linked = Linked-store s.out q h.linked;
    alive = h.alive;
    idle = λ a k. still_waiting a (not_quiet a (h.idle a k)) ∙ h.idle a k;
    distinct = h.distinct;
  }

pub exchange-Holds :
    (item : ℕ) (s : MpscFifo) (q : List ℕ)
    → has item s.live ≡ false
    → Holds s q
    → Holds (exchange_in item s) (q ++ item ∷ [])
unfolding exchange_in
exchange-Holds item s q fresh h =
    let out : has item (s.out ∷ q) ≡ false = sym (h.alive item) ∙ fresh in
    let ne : item ≢ s.in_ = λ e.
      true-false (Linked-last s.in_ s.next s.pending s.out q h.linked)
        (subst (λ (x : ℕ). has x (s.out ∷ q) ≡ false) e out) in
    record {
      linked = Linked-exchange s item s.out q h.linked out (h.idle item out) ne h.distinct;
      alive = λ a. ground (arith, h.alive a, has-append a q (item ∷ []));
      idle = λ a k.
          let o : has a (s.out ∷ q) ≡ false = (has-append_out a (s.out ∷ q) (item ∷ []) k).0 in
          rw
            (==_ne s.in_ a (λ e.
              true-false (Linked-last s.in_ s.next s.pending s.out q h.linked)
                (subst (λ (x : ℕ). has x (s.out ∷ q) ≡ false) (sym e) o)))
            (h.idle a o);
      distinct = Distinct-snoc item (s.out ∷ q) h.distinct out;
    }
