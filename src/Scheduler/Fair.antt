-- ===== src/Scheduler/Fair.antt =====
-- Every active thread gets its turn.
use mathlib.Core.List.{append_assoc}
use uberos.Prelude.{
  ℕ, zero, suc, ◌≤◌, ◌≡◌, ◌≢◌, refl, ap, sym, ◌∙◌, subst, List, [], ◌∷◌, ◌++◌, Option, none, some,
  false, has, has-cons_out, has-append, length, arith,
}
use uberos.LList.{Ptr}
use uberos.Scheduler.{active, CpuScheduler, yield}
use uberos.Scheduler.Queues.{Contents}
use uberos.Scheduler.Moves.{Queues}
use uberos.Scheduler.Yield.{rotated, yield-Turn}

-- Calls of `yield` one after another.
abbrev pub yields : ℕ → CpuScheduler → Option CpuScheduler
yields zero s = some s
yields (suc n) s = elim (yield s) [ none ↦ none | some s' ↦ yields n s' ]

yields-some : (n : ℕ) (s s' : CpuScheduler) → yield s ≡ some s' → yields (suc n) s ≡ yields n s'
yields-some n s s' e = rw (e, yields) refl

-- When its turn comes, a thread is the current one.
abbrev pub Comes : ℕ → CpuScheduler → Ptr → Type 0
Comes n s y = (s' : CpuScheduler) × (yields n s ≡ some s') × (s'.current_thread ≡ y)

-- The active list after a turn.
rotated-active :
    (q : Contents) (x c y : Ptr) (xs ys : List Ptr)
    → rotated q (x ∷ xs ++ y ∷ ys) c active ≡ x ∷ xs ++ y ∷ (ys ++ c ∷ [])
rotated-active q x c y xs ys = ap (◌∷◌ x) (append_assoc xs (y ∷ ys) (c ∷ []))

kernel_out :
    (k x c y : Ptr) (xs ys : List Ptr)
    → has k (c ∷ x ∷ xs ++ y ∷ ys) ≡ false
    → has k (x ∷ xs ++ y ∷ (ys ++ c ∷ [])) ≡ false
kernel_out k x c y xs ys h = ground (
  arith,
  has-append k xs (y ∷ ys),
  has-append k xs (y ∷ (ys ++ c ∷ [])),
  has-append k ys (c ∷ []),
)

-- In a list of active threads that the current one heads and the kernel's own is not in, a thread
-- with so many others between the current one and itself is the current thread after one `yield`
-- more than these, if the total priority is not 0 and the bounds of the interval are in order.
pub yields-current :
    (s : CpuScheduler) (q : Contents) (xs : List Ptr) (y : Ptr) (ys : List Ptr)
    → Queues s q
    → q active ≡ s.current_thread ∷ xs ++ y ∷ ys
    → has s.kernel_thread (s.current_thread ∷ xs ++ y ∷ ys) ≡ false
    → s.total_active_priority ≢ 0
    → s.min_interval ≤ s.max_interval
    → Comes (suc (length xs)) s y
yields-current s q [] y ys v e out total bounds =
    let r =
      yield-Turn s q y ys v
        (λ c. (has-cons_out s.kernel_thread s.current_thread (y ∷ ys) out).0 (sym c)) e total
        bounds in
    (r.0, yields-some 0 s r.0 r.1, r.2.current)
yields-current s q (x ∷ xs) y ys v e out total bounds =
    let c : Ptr = s.current_thread in
    let r =
      yield-Turn s q x (xs ++ y ∷ ys) v
        (λ i. (has-cons_out s.kernel_thread c (x ∷ xs ++ y ∷ ys) out).0 (sym i)) e total bounds in
    let t = r.2 in
    let later =
      yields-current r.0 (rotated q (x ∷ xs ++ y ∷ ys) c) xs y (ys ++ c ∷ []) t.queues
        (rotated-active q x c y xs ys ∙ ap (λ i. i ∷ xs ++ y ∷ (ys ++ c ∷ [])) (sym t.current))
        (subst (λ i. has r.0.kernel_thread (i ∷ xs ++ y ∷ (ys ++ c ∷ [])) ≡ false) (sym t.current)
          (subst (λ k. has k (x ∷ xs ++ y ∷ (ys ++ c ∷ [])) ≡ false) (sym t.kernel)
            (kernel_out s.kernel_thread x c y xs ys out)))
        (λ z. total (sym t.total ∙ z)) (omega (arith, t.least, t.most)) in
    (later.0, yields-some (suc (length xs)) s r.0 r.1 ∙ later.1, later.2)
