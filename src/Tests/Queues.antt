-- ===== src/Tests/Queues.antt =====
-- A queue of threads' messages with two producers, whose steps interleave.
use uberos.Prelude.{ℕ, ◌≡◌, refl, inl, inr, true, List, [], ◌∷◌, ◌++◌, has, arith}
use uberos.MpscFifo.{
  MpscFifo, new_fifo, exchange_in, store_next, advance_out, pop_next, exchange, store, pop_check,
  pop_null, pop_item, Steps, done, later,
}
use uberos.MpscFifo.Order.{Holds}
use uberos.MpscFifo.Pops.{Answers, pop_unknown-oldest}
use uberos.MpscFifo.Runs.{Steps-order, Steps-alive}

-- The second producer stores first, and the consumer finds nothing.
abbrev both_exchanged : MpscFifo
unfolding exchange_in new_fifo
both_exchanged = exchange_in 30 (exchange_in 20 (new_fifo 10))

abbrev second_stored : MpscFifo
unfolding store_next
second_stored = store_next 20 30 ((10, 20) ∷ []) both_exchanged

abbrev both_stored : MpscFifo
unfolding store_next
both_stored = store_next 10 20 [] second_stored

abbrev one_popped : MpscFifo
unfolding advance_out
one_popped = advance_out 20 both_stored

second_stored-Steps : Steps (new_fifo 10) (20 ∷ 30 ∷ []) [] second_stored
unfolding new_fifo exchange_in store_next
second_stored-Steps =
    later (later (later done (exchange 20 refl)) (exchange 30 refl))
      (store [] 20 30 ((10, 20) ∷ []) refl)

-- The consumer looks before the first producer stores, and once more after.
one_popped-Steps : Steps (new_fifo 10) (20 ∷ 30 ∷ []) (20 ∷ []) one_popped
unfolding new_fifo exchange_in store_next advance_out pop_next
one_popped-Steps =
    later
      (later
        (later
          (later (later second_stored-Steps (pop_check refl (λ e. omega (arith, e))))
            (pop_null refl refl))
          (pop_check refl (λ e. omega (arith, e))))
        (store [] 10 20 [] refl))
      (pop_item 20 refl refl)

Steps-order_example : (q : List ℕ) × (20 ∷ 30 ∷ [] ≡ (20 ∷ []) ++ q) × Holds one_popped q
Steps-order_example = Steps-order 10 one_popped-Steps

Steps-alive_example :
    (has second_stored.out second_stored.live ≡ true)
    × ((before after : List (ℕ × ℕ)) (old item : ℕ)
        → second_stored.pending ≡ before ++ (old, item) ∷ after
        → has old second_stored.live ≡ true)
Steps-alive_example = Steps-alive 10 second_stored-Steps

second_stored-Holds : Holds second_stored (20 ∷ 30 ∷ [])
unfolding new_fifo exchange_in store_next
second_stored-Holds = record {
  linked = (inr (refl, refl), (inl (refl, refl), (refl, refl, refl)));
  alive = λ a. ground arith;
  idle = λ a h. ground arith;
  distinct = (refl, (refl, (refl, tt)));
}

pop_unknown-oldest_example : Answers second_stored (20 ∷ 30 ∷ [])
pop_unknown-oldest_example = pop_unknown-oldest second_stored (20 ∷ 30 ∷ []) second_stored-Holds

both_stored-Holds : Holds both_stored (20 ∷ 30 ∷ [])
unfolding new_fifo exchange_in store_next
both_stored-Holds = record {
  linked = (inl (refl, refl), (inl (refl, refl), (refl, refl, refl)));
  alive = λ a. ground arith;
  idle = λ a h. refl;
  distinct = (refl, (refl, (refl, tt)));
}
