-- ===== src/MpscFifo/Runs.antt =====
-- All runs of producers and consumer of common/MpscFifo.hpp, from a new queue.
use uberos.Prelude.{
  Bool, false, ℕ, zero, suc, ◌<◌, ◌≡◌, inl, inr, refl, sym, ap, ◌∙◌, subst, Option, none, some,
  true, List, [], ◌∷◌, ◌++◌, Bool-cases, has, none-some, some_unique, arith, length,
}
use mathlib.Core.List.{append-nil, append_assoc}
use uberos.MpscFifo.{
  MpscFifo, new_fifo, advance_out, pop_unknown, pop_known, clear, Step, exchange, store, pop_next,
  pop_empty, pop_check, pop_null, pop_item, checking, Steps, done, later,
}
use uberos.MpscFifo.Waiting.{waiting, waiting_some}
use uberos.MpscFifo.Order.{Edge, Holds, store-Holds, exchange-Holds}
use uberos.MpscFifo.Pops.{Answers, pop_unknown-oldest, advance_out-Holds}

new_fifo-Holds : (item : ℕ) → Holds (new_fifo item) []
unfolding new_fifo
new_fifo-Holds item = record {
  linked = (refl, refl, refl);
  alive = λ a. refl;
  idle = λ a h. refl;
  distinct = (refl, tt);
}

checking-Holds : (b : Bool) {s : MpscFifo} {q : List ℕ} → Holds s q → Holds (checking b s) q
checking-Holds b h = record {
  linked = h.linked;
  alive = h.alive;
  idle = h.idle;
  distinct = h.distinct;
}

pop_next-Holds :
    (s : MpscFifo) (q : List ℕ) (item : ℕ)
    → Holds s q
    → (found : Option ℕ) → s.next s.out ≡ found
    → (pop_next found s).0 ≡ some item
    → (r : List ℕ) × (q ≡ item ∷ r) × Holds (pop_next found s).1 r
unfolding pop_next
pop_next-Holds s q item h none n e = absurd (none-some refl e)
pop_next-Holds s [] item h (some next) n e = absurd (none-some h.linked.1 n)
pop_next-Holds s (b ∷ r) item h (some next) n e = by_edge h.linked.0
  where
    by_edge :
        Edge s.next s.pending s.out b
        → (t : List ℕ) × (b ∷ r ≡ item ∷ t) × Holds (advance_out next s) t
    by_edge (inr (k, w)) = absurd (none-some k n)
    by_edge (inl (k, w)) =
        let same : b ≡ next = some_unique k n in
        (
          r,
          ap (λ (x : ℕ). x ∷ r) (same ∙ some_unique refl e),
          subst (λ (x : ℕ). Holds (advance_out x s) r) same (advance_out-Holds s b r h w),
        )

Step-Holds :
    {s t : MpscFifo} {ins outs : List ℕ} (q : List ℕ)
    → Holds s q
    → Step s ins outs t
    → (r : List ℕ) × (q ++ ins ≡ outs ++ r) × Holds t r
Step-Holds {s} q h (exchange item fresh) = (q ++ item ∷ [], refl, exchange-Holds item s q fresh h)
Step-Holds {s} q h (store before old item after split) =
    (q, append-nil q, store-Holds old item before after s split q h)
Step-Holds {s} q h (pop_empty c e) = (q, append-nil q, h)
Step-Holds {s} q h (pop_check c e) = (q, append-nil q, checking-Holds true h)
Step-Holds {s} q h (pop_null c e) = (q, append-nil q, checking-Holds false h)
Step-Holds {s} q h (pop_item item c e) =
    let (r, k, g) = pop_next-Holds s q item h (s.next s.out) refl e in
    (r, append-nil q ∙ k, checking-Holds false g)

-- Whatever steps producers and consumer take from a new queue, in whatever order, also between the
-- two steps of a push and between the two reads of a pop: the items popped, followed by those that
-- the queue still holds, are the items pushed, in the order of the exchanges.
pub Steps-order :
    (first : ℕ) {s : MpscFifo} {ins outs : List ℕ}
    → Steps (new_fifo first) ins outs s
    → (q : List ℕ) × (ins ≡ outs ++ q) × Holds s q
Steps-order first done = ([], refl, new_fifo-Holds first)
Steps-order first (later {t} {u} {ins} {outs} {more_ins} {more_outs} steps step) =
    let (q, e, h) = Steps-order first steps in
    let (r, f, g) = Step-Holds q h step in
    (
      r,
      ap (λ (x : List ℕ). x ++ more_ins) e
          ∙ append_assoc outs q more_ins
          ∙ ap (λ (x : List ℕ). outs ++ x) f
          ∙ sym (append_assoc outs more_outs r),
      g,
    )

-- Whatever steps producers and consumer take from a new queue, in whatever order, the first item
-- is allocated, and so is the item that a push between its two steps is about to change.
pub Steps-alive :
    (first : ℕ) {s : MpscFifo} {ins outs : List ℕ}
    → Steps (new_fifo first) ins outs s
    → (has s.out s.live ≡ true)
      × ((before after : List (ℕ × ℕ)) (old item : ℕ)
          → s.pending ≡ before ++ (old, item) ∷ after
          → has old s.live ≡ true)
Steps-alive first {s} steps =
    let (q, e, h) = Steps-order first steps in
    (
      h.alive s.out ∙ ground arith,
      λ before after old item split. elim (Bool-cases (has old s.live)) [
        | inl k ↦ k
        | inr k ↦ absurd (
            waiting_some old item before after
              (sym (ap (waiting old) split) ∙ h.idle old (sym (h.alive old) ∙ k)))
      ],
    )

pop_quiet :
    (s : MpscFifo) (b : ℕ) (r : List ℕ)
    → s.pending ≡ []
    → Answers s (b ∷ r)
    → pop_unknown s ≡ (some b, advance_out b s)
pop_quiet s b r quiet (inl (e, p)) = absurd (cc)
pop_quiet s b r quiet (inr (c, t, e, inl (w, p))) =
    p ∙ ap (λ (x : ℕ). (some x, advance_out x s)) (head_eq e)
  where
    head_eq : b ∷ r ≡ c ∷ t → c ≡ b
    head_eq q = cc
pop_quiet s b r quiet (inr (c, t, e, inr (w, p))) = absurd (unequal (ap (waiting s.out) quiet) w)
  where
    unequal : waiting s.out s.pending ≡ [] → waiting s.out s.pending ≡ c ∷ [] → ⊥
    unequal q z = cc

next_quiet :
    (s : MpscFifo) (b : ℕ) → s.pending ≡ [] → Edge s.next s.pending s.out b → s.next s.out ≡ some b
next_quiet s b quiet (inl (n, w)) = n
next_quiet s b quiet (inr (n, w)) = absurd (unequal (ap (waiting s.out) quiet) w)
  where
    unequal : waiting s.out s.pending ≡ [] → waiting s.out s.pending ≡ b ∷ [] → ⊥
    unequal q z = cc

-- With no push between its steps and an item in the queue, `pop_known` reads no null pointer, and it
-- answers what `pop_unknown` does: the oldest item.
pub pop_known-pop_unknown :
    (s : MpscFifo) (b : ℕ) (r : List ℕ)
    → Holds s (b ∷ r)
    → s.pending ≡ []
    → (pop_known s ≡ some (b, advance_out b s)) × (pop_unknown s ≡ (some b, advance_out b s))
unfolding pop_known
pop_known-pop_unknown s b r h quiet = (
  rw (next_quiet s b quiet h.linked.0, pop_known) refl,
  pop_quiet s b r quiet (pop_unknown-oldest s (b ∷ r) h),
)

still_quiet : (s : MpscFifo) (b : ℕ) → s.pending ≡ [] → (advance_out b s).pending ≡ []
unfolding advance_out
still_quiet s b quiet = quiet

-- With no push between its steps, `clear` ends, and leaves a queue without items.
pub clear-Holds :
    (q : List ℕ) (fuel : ℕ) (s : MpscFifo)
    → Holds s q
    → s.pending ≡ []
    → length q < fuel
    → (s' : MpscFifo) × (clear fuel s ≡ some s') × Holds s' []
unfolding clear
clear-Holds q zero s h quiet k = elim k [ ]
clear-Holds [] (suc fuel) s h quiet k = (s, rw (empty (pop_unknown-oldest s [] h), clear) refl, h)
  where
    empty : Answers s [] → pop_unknown s ≡ (none, s)
    empty (inl (e, p)) = p
    empty (inr (c, t, e, w)) = absurd (cc)
clear-Holds (b ∷ r) (suc fuel) s h quiet k =
    let (t, e, g) =
      clear-Holds r fuel (advance_out b s) (advance_out-Holds s b r h (ap (waiting s.out) quiet))
        (still_quiet s b quiet) (omega arith) in
    (t, rw (pop_quiet s b r quiet (pop_unknown-oldest s (b ∷ r) h), clear) e, g)
