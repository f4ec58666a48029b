-- ===== src/MpscFifo/Pops.antt =====
-- The consumer of common/MpscFifo.hpp, and all runs of producers and consumer.
use uberos.Prelude.{
  ℕ, ◌≡◌, ◌≢◌, ◌⊎◌, inl, inr, refl, sym, ap, ◌∙◌, subst, none, some, true, false, List, [], ◌∷◌,
  ◌==◌, ==_ne, ==_true, ==→eq, ==_false, Bool-cases, has, has-cons_ne, true-false, if◌then◌else◌,
  arith,
}
use uberos.MpscFifo.{MpscFifo, without, advance_out, pop_next, pop_unknown}
use uberos.MpscFifo.Waiting.{waiting}
use uberos.MpscFifo.Order.{Edge, Holds, Linked-last}

has-without : (a x : ℕ) (xs : List ℕ) → a ≢ x → has a (without x xs) ≡ has a xs
has-without a x [] h = refl
has-without a x (y ∷ ys) h = ground (arith, has-without a x ys h)

has-without_self : (x : ℕ) (xs : List ℕ) → has x (without x xs) ≡ false
has-without_self x [] = refl
has-without_self x (y ∷ ys) = ground (arith, has-without_self x ys)

pub advance_out-Holds :
    (s : MpscFifo) (b : ℕ) (q : List ℕ)
    → Holds s (b ∷ q)
    → waiting s.out s.pending ≡ []
    → Holds (advance_out b s) q
unfolding advance_out
advance_out-Holds s b q h w = record {
  linked = h.linked.1;
  alive = λ a. alive a (Bool-cases (a == s.out));
  idle = λ a k. idle a k (Bool-cases (a == s.out));
  distinct = h.distinct.1;
}
  where
    alive :
        (a : ℕ)
        → ((a == s.out) ≡ true) ⊎ ((a == s.out) ≡ false)
        → has a (without s.out s.live) ≡ has a (b ∷ q)
    alive a (inl e) =
        subst (λ (x : ℕ). has x (without s.out s.live) ≡ has x (b ∷ q)) (sym (==→eq a s.out e))
          (has-without_self s.out s.live ∙ sym h.distinct.0)
    alive a (inr e) = has-without a s.out s.live (==_false a s.out e) ∙ h.alive a ∙ rw e refl

    idle :
        (a : ℕ)
        → has a (b ∷ q) ≡ false
        → ((a == s.out) ≡ true) ⊎ ((a == s.out) ≡ false)
        → waiting a s.pending ≡ []
    idle a k (inl e) = ap (λ (x : ℕ). waiting x s.pending) (==→eq a s.out e) ∙ w
    idle a k (inr e) = h.idle a (has-cons_ne a s.out (b ∷ q) (==_false a s.out e) k)

-- What `pop_unknown` answers, by the items that the queue holds.
abbrev pub Answers : MpscFifo → List ℕ → Type 0
Answers s q =
    ((q ≡ []) × (pop_unknown s ≡ (none, s)))
    ⊎ ((b : ℕ) × (r : List ℕ) × (q ≡ b ∷ r)
        × (((waiting s.out s.pending ≡ []) × (pop_unknown s ≡ (some b, advance_out b s)))
            ⊎ ((waiting s.out s.pending ≡ b ∷ []) × (pop_unknown s ≡ (none, s)))))

-- Of a queue that holds some items, `pop_unknown` answers null without changing anything if there
-- are none; with items it answers the oldest and takes it out, or, if the push of that very item
-- is between its two steps, answers null and changes nothing.
pub pop_unknown-oldest : (s : MpscFifo) (q : List ℕ) → Holds s q → Answers s q
unfolding pop_unknown pop_next
pop_unknown-oldest s [] h = inl (refl, rw (==_true s.out s.in_ h.linked.0) refl)
pop_unknown-oldest s (b ∷ r) h = inr (b, r, refl, by_edge h.linked.0)
  where
    ne : s.out ≢ s.in_
    ne e =
        true-false (Linked-last s.in_ s.next s.pending b r h.linked.1)
          (subst (λ (x : ℕ). has x (b ∷ r) ≡ false) e h.distinct.0)

    by_edge :
        Edge s.next s.pending s.out b
        → ((waiting s.out s.pending ≡ [])
            × ((if s.out == s.in_ then (none, s) else pop_next (s.next s.out) s)
                ≡ (some b, advance_out b s)))
          ⊎ ((waiting s.out s.pending ≡ b ∷ [])
              × ((if s.out == s.in_ then (none, s) else pop_next (s.next s.out) s) ≡ (none, s)))
    by_edge (inl (n, w)) = inl (w, rw (==_ne s.out s.in_ ne, n) refl)
    by_edge (inr (n, w)) = inr (w, rw (==_ne s.out s.in_ ne, n) refl)
