-- ===== src/DriverApi/Vectors.antt =====
-- The arrays of drivers that a vector's interrupts go to.
use mathlib.Core.List.{append-nil}
use uberos.Prelude.{
  ℕ, suc, ◌≡◌, refl, ap, sym, ◌∙◌, List, [], ◌∷◌, ◌++◌, some, Bool, true, false, ◌==◌,
  if◌then◌else◌, ==_refl, ==_ne, has, has-cons_out, length, take, arith,
}
use uberos.PodArray.{push_back, remove}
use uberos.PodArray.Items.{remove-erase, remove-front}
use uberos.DriverApi.State.{Kernel, find_index, remove_first}
use uberos.DriverApi.Interrupts.{subscribe_interrupt, unsubscribe_interrupt, without, items_of}

find_index-middle :
    (d : ℕ) (xs ys : List ℕ)
    → has d xs ≡ false
    → find_index (λ e. e == d) (xs ++ d ∷ ys) ≡ some (length xs)
find_index-middle d [] ys h = rw (==_refl d) refl
find_index-middle d (x ∷ xs) ys h =
    rw
      (
        ==_ne x d (λ e. (has-cons_out d x xs h).0 (sym e)),
        find_index-middle d xs ys (has-cons_out d x xs h).1,
      )
      (ap some (omega arith))

-- What is left without a driver that stands behind others, or first.
after_removal : ℕ → List ℕ → List ℕ → List ℕ
after_removal d [] ys = take (length ys) (d ∷ d ∷ ys)
after_removal d (x ∷ xs) ys = (x ∷ xs) ++ ys

remove_first-at :
    (p : ℕ → Bool) (xs : List ℕ) (i : ℕ)
    → find_index p xs ≡ some i
    → remove_first p xs ≡ remove i xs
remove_first-at p xs i e = rw (e, remove_first) refl

remove_first-middle :
    (d : ℕ) (xs ys : List ℕ)
    → has d xs ≡ false
    → remove_first (λ e. e == d) (xs ++ d ∷ ys) ≡ after_removal d xs ys
unfolding after_removal
remove_first-middle d [] ys h =
    remove_first-at (λ e. e == d) (d ∷ ys) 0 (find_index-middle d [] ys h) ∙ remove-front d ys
remove_first-middle d (x ∷ xs) ys h =
    remove_first-at (λ e. e == d) ((x ∷ xs) ++ d ∷ ys) (length (x ∷ xs))
      (find_index-middle d (x ∷ xs) ys h)
    ∙ remove-erase x xs d ys

unsubscribed :
    (d v : ℕ) (k : Kernel)
    → (k.api d).subscribed_interrupts v ≡ true
    → (unsubscribe_interrupt d v k).interrupt_subscribers v ≡ without d (k.interrupt_subscribers v)
unfolding unsubscribe_interrupt
unsubscribed d v k h = rw (h, ==_refl v) refl

-- The end of the subscription of a driver to a vector whose array has the driver: if others stand
-- before its entry, the array is left without the entry and in order; if it is the first and `n`
-- drivers follow, the array is left with the first `n` items of: the driver, the driver again, and
-- those that followed it (so a driver that stood alone is gone; from `n` = 1 on it stays in the
-- array and the last one is lost, and from `n` = 2 on the last two are, and the driver stands
-- there twice).
pub unsubscribe_interrupt-middle :
    (d v : ℕ) (k : Kernel) (xs ys : List ℕ)
    → (k.api d).subscribed_interrupts v ≡ true
    → k.interrupt_subscribers v ≡ some (xs ++ d ∷ ys)
    → has d xs ≡ false
    → (unsubscribe_interrupt d v k).interrupt_subscribers v
      ≡ some (if length xs == 0 then take (length ys) (d ∷ d ∷ ys) else xs ++ ys)
unfolding after_removal
unsubscribe_interrupt-middle d v k [] ys s e h =
    unsubscribed d v k s ∙ ap (without d) e ∙ ap some (remove_first-middle d [] ys h)
unsubscribe_interrupt-middle d v k (x ∷ xs) ys s e h =
    unsubscribed d v k s
    ∙ ap (without d) e
    ∙ ap some (remove_first-middle d (x ∷ xs) ys h)
    ∙ rw (==_ne (suc (length xs)) 0 (omega arith)) refl

module _ (d v : ℕ) (k : Kernel) (new : (k.api d).subscribed_interrupts v ≡ false) where
  subscribed-array :
      (subscribe_interrupt d v k).interrupt_subscribers v
      ≡ some (push_back (items_of (k.interrupt_subscribers v)) d)
  unfolding subscribe_interrupt
  subscribed-array = rw (new, ==_refl v) refl

  subscribed-bit : ((subscribe_interrupt d v k).api d).subscribed_interrupts v ≡ true
  unfolding subscribe_interrupt
  subscribed-bit = rw (new, ==_refl d, ==_refl v) refl

last_removed : (d : ℕ) (xs : List ℕ) → after_removal d xs [] ≡ xs
unfolding after_removal
last_removed d [] = refl
last_removed d (x ∷ xs) = append-nil (x ∷ xs)

-- A driver that subscribes to a vector it is not among, and then ends the subscription, leaves the
-- vector's array as it was, but for an array that is made and stays.
pub unsubscribe_interrupt-subscribe_interrupt :
    (d v : ℕ) (k : Kernel)
    → (k.api d).subscribed_interrupts v ≡ false
    → has d (items_of (k.interrupt_subscribers v)) ≡ false
    → (unsubscribe_interrupt d v (subscribe_interrupt d v k)).interrupt_subscribers v
      ≡ some (items_of (k.interrupt_subscribers v))
unfolding push_back
unsubscribe_interrupt-subscribe_interrupt d v k new h =
    let xs = items_of (k.interrupt_subscribers v) in
    unsubscribed d v (subscribe_interrupt d v k) (subscribed-bit d v k new)
    ∙ ap (without d) (subscribed-array d v k new)
    ∙ ap some (remove_first-middle d xs [] h ∙ last_removed d xs)
