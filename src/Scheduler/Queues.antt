-- ===== src/Scheduler/Queues.antt =====
-- What the four lists of the scheduler hold, and how one `pop` or `push_back` changes that.
use uberos.Prelude.{
  ◌≡◌, ◌≢◌, refl, List, [], ◌∷◌, ◌++◌, true, false, arith, has, has-snoc_out, has-middle,
  has-middle_self, has-middle_out, sym, subst, if◌then◌else◌, ◌⊎◌, inl, inr,
}
use uberos.LList
use uberos.LList.{Ptr, null}
use uberos.LList.Links.{IsList, Disjoint, IsList-frame, ne_of_has, Distinct, Distinct-middle}
use uberos.LList.Middle.{pop-IsList}
use uberos.LList.Ends.{push_back-IsList}
use uberos.Scheduler.{
  ThreadState, active, sleeping, paused, terminated, same_state, CpuScheduler, queue, with_queue,
  view, pop, push_back,
}

-- The contents of the lists, by state.
abbrev pub Contents : Type 0
Contents = ThreadState → List Ptr

-- Each list is well formed and holds its part of the contents.
abbrev pub Lists : CpuScheduler → Contents → Type 0
Lists s q = (k : ThreadState) → IsList (view s k) (q k)

abbrev pub Apart : Contents → Type 0
Apart q = (j k : ThreadState) → j ≢ k → Disjoint (q j) (q k)

abbrev pub replace : Contents → ThreadState → List Ptr → Contents
replace q k xs j = if same_state j k then xs else q j

pub same_state-cases :
    (j k : ThreadState) → ((j ≡ k) × (same_state j k ≡ true)) ⊎ ((j ≢ k) × (same_state j k ≡ false))
same_state-cases j k = ground arith

pub same_state_refl : (k : ThreadState) → same_state k k ≡ true
same_state_refl k = ground arith

pub same_state-ne : (j k : ThreadState) → j ≢ k → same_state j k ≡ false
same_state-ne j k h = ground arith

view-with_queue :
    (s : CpuScheduler) (k : ThreadState) (r : LList.State) → view (with_queue s k r) k ≡ r
view-with_queue s active r = refl
view-with_queue s _ r = refl

view-with_queue_ne :
    (s : CpuScheduler) (j k : ThreadState) (r : LList.State)
    → j ≢ k
    → view (with_queue s k r) j ≡ record { links = r.links; list = queue s j }
view-with_queue_ne s active active r h = absurd (h refl)
view-with_queue_ne s sleeping sleeping r h = absurd (h refl)
view-with_queue_ne s paused paused r h = absurd (h refl)
view-with_queue_ne s terminated terminated r h = absurd (h refl)
view-with_queue_ne s _ _ r h = refl

-- A change of one list that writes only links of items which no other list holds.
with_queue-Lists :
    (s : CpuScheduler) (q : Contents) (k : ThreadState) (r : LList.State) (xs : List Ptr)
    → Lists s q
    → IsList r xs
    → ((j : ThreadState) (a : Ptr) → j ≢ k → has a (q j) ≡ true → r.links a ≡ s.links a)
    → Lists (with_queue s k r) (replace q k xs)
with_queue-Lists s q k r xs v w same j = elim (same_state-cases j k) [
  | inl (e, b) ↦ rw b (
      subst (λ i. IsList (view (with_queue s k r) i) xs) (sym e)
        (subst (λ t. IsList t xs) (sym (view-with_queue s k r)) w))
  | inr (ne, b) ↦ rw b (
      subst (λ t. IsList t (q j)) (sym (view-with_queue_ne s j k r ne))
        (IsList-frame (view s j) r.links (q j) (v j) (λ a m. same j a ne m)))
]

-- `pop` of a thread that stands in a list.
pub pop-Lists :
    (s : CpuScheduler) (q : Contents) (k : ThreadState) (xs : List Ptr) (x : Ptr) (ys : List Ptr)
    → Lists s q
    → Apart q
    → q k ≡ xs ++ x ∷ ys
    → Lists (pop k x s) (replace q k (xs ++ ys))
unfolding pop
pop-Lists s q k xs x ys v apart e =
    let popped = pop-IsList (view s k) xs x ys (subst (IsList (view s k)) e (v k)) in
    with_queue-Lists s q k _ (xs ++ ys) v popped.0 λ j a ne m.
      popped.1 a (has-middle_out a x xs ys (subst (λ zs. has a zs ≡ false) e (apart j k ne a m)))

-- `push_back` of a thread that stands in no list.
pub push_back-Lists :
    (s : CpuScheduler) (q : Contents) (k : ThreadState) (x : Ptr)
    → Lists s q
    → Apart q
    → x ≢ null
    → ((j : ThreadState) → has x (q j) ≡ false)
    → Lists (push_back k x s) (replace q k (q k ++ x ∷ []))
unfolding push_back
push_back-Lists s q k x v apart nn out =
    let pushed = push_back-IsList (view s k) (q k) x (v k) nn (out k) in
    with_queue-Lists s q k _ (q k ++ x ∷ []) v pushed.0
      λ j a ne m. pushed.1 a (others j a (apart j k ne a m) m)
  where
    others :
        (j : ThreadState) (a : Ptr)
        → has a (q k) ≡ false
        → has a (q j) ≡ true
        → has a (q k ++ x ∷ []) ≡ false
    others j a o m = has-snoc_out a x (q k) o (λ e. ne_of_has x a (q j) (out j) m (sym e))

module _ (q : Contents) (from : ThreadState) (xs : List Ptr) (x : Ptr) (ys : List Ptr)
    (e : q from ≡ xs ++ x ∷ ys) where
  -- The lists without the thread hold less than before, and the thread not at all.
  pub has-replaced :
      (i : ThreadState) (a : Ptr) → has a (replace q from (xs ++ ys) i) ≡ true → has a (q i) ≡ true
  has-replaced i a m = elim (same_state-cases i from) [
    | inl (same, b) ↦ rw (same, e) (has-middle a x xs ys (rw b at m))
    | inr (_, b) ↦ rw b at m
  ]

  replaced_out :
      (i : ThreadState) (a : Ptr)
      → has a (q i) ≡ false
      → has a (replace q from (xs ++ ys) i) ≡ false
  replaced_out i a o = elim (same_state-cases i from) [
    | inl (same, b) ↦ rw b (has-middle_out a x xs ys (rw (same, e) at o))
    | inr (_, b) ↦ rw b o
  ]

  pub Apart-replaced : Apart q → Apart (replace q from (xs ++ ys))
  Apart-replaced apart j k ne' a m = replaced_out k a (apart j k ne' a (has-replaced j a m))

  pub gone :
      Apart q
      → Distinct (xs ++ x ∷ ys)
      → (i : ThreadState) → has x (replace q from (xs ++ ys) i) ≡ false
  gone apart d i = elim (same_state-cases i from) [
    | inl (_, b) ↦ rw b (Distinct-middle xs x ys d)
    | inr (other, b) ↦ rw b (apart from i (λ r. other (sym r)) x (rw e (has-middle_self x xs ys)))
  ]
