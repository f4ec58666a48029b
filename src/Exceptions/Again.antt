-- ===== src/Exceptions/Again.antt =====
-- A subscription to an interrupt that no controller has.
use uberos.Prelude.{
  ℕ, ◌≡◌, ◌≢◌, refl, ap, sym, ◌∙◌, List, [], none, some, inl, inr, ◌⊎◌, ==_refl, Option-cases,
}
use uberos.PodArray.{push_back}
use uberos.DriverApi.State.{Kernel, IrqSubscription, success, iterate}
use uberos.Exceptions.{
  irq_subscribe, irq_not_available, set_irq_subscribers, subscription, find_controller,
  interrupt_type,
}

-- What a subscription does to an array that is there.
irq_subscribe-some :
    (irq callback data' : ℕ) (k : Kernel) (xs : List IrqSubscription)
    → k.irq_subscribers irq ≡ some xs
    → irq_subscribe irq callback data' k
      ≡ (success, set_irq_subscribers irq (some (push_back xs (subscription callback data'))) k)
unfolding irq_subscribe
irq_subscribe-some irq callback data' k xs e = rw (e, irq_subscribe) refl

irq_subscribe-found :
    (irq callback data' c : ℕ) (k : Kernel)
    → k.irq_subscribers irq ≡ none
    → find_controller (iterate k.drivers interrupt_type k) irq k ≡ some c
    → (irq_subscribe irq callback data' k).0 ≡ success
unfolding irq_subscribe
irq_subscribe-found irq callback data' c k e f = rw (e, irq_subscribe, f) refl

irq_subscribe-none :
    (irq callback data' : ℕ) (k : Kernel)
    → k.irq_subscribers irq ≡ none
    → find_controller (iterate k.drivers interrupt_type k) irq k ≡ none
    → irq_subscribe irq callback data' k ≡ (irq_not_available, set_irq_subscribers irq (some []) k)
unfolding irq_subscribe
irq_subscribe-none irq callback data' k e f = rw (e, irq_subscribe, f) refl

success_available : success ≢ irq_not_available
success_available e = cc

-- A subscription that fails since no controller has the interrupt leaves an empty array behind: the
-- next one to the same interrupt succeeds, and no controller is told of it.
pub irq_subscribe-again :
    (irq callback data' callback' data'' : ℕ) (k : Kernel)
    → (irq_subscribe irq callback data' k).0 ≡ irq_not_available
    → ((irq_subscribe irq callback' data'' (irq_subscribe irq callback data' k).1).0 ≡ success)
      × ((irq_subscribe irq callback' data'' (irq_subscribe irq callback data' k).1).1.outputs
          ≡ k.outputs)
irq_subscribe-again irq callback data' callback' data'' k h =
    first (Option-cases (k.irq_subscribers irq))
      (Option-cases (find_controller (iterate k.drivers interrupt_type k) irq k))
  where
    empty : Kernel
    empty = set_irq_subscribers irq (some []) k

    second : irq_subscribe irq callback' data'' empty ≡ (
      success,
      set_irq_subscribers irq (some (push_back [] (subscription callback' data''))) empty,
    )
    second = irq_subscribe-some irq callback' data'' empty [] (rw (==_refl irq) refl)

    first :
        (k.irq_subscribers irq ≡ none)
          ⊎ ((xs : List IrqSubscription) × (k.irq_subscribers irq ≡ some xs))
        → (find_controller (iterate k.drivers interrupt_type k) irq k ≡ none)
          ⊎ ((c : ℕ) × (find_controller (iterate k.drivers interrupt_type k) irq k ≡ some c))
        → ((irq_subscribe irq callback' data'' (irq_subscribe irq callback data' k).1).0 ≡ success)
          × ((irq_subscribe irq callback' data'' (irq_subscribe irq callback data' k).1).1.outputs
              ≡ k.outputs)
    first (inr (xs, e)) c =
        absurd (
          success_available
            (sym (ap (λ r. r.0) (irq_subscribe-some irq callback data' k xs e)) ∙ h))
    first (inl e) (inr (c, f)) =
        absurd (success_available (sym (irq_subscribe-found irq callback data' c k e f) ∙ h))
    first (inl e) (inl f) =
        rw (irq_subscribe-none irq callback data' k e f)
          (ap (λ r. r.0) second, ap (λ r. r.1.outputs) second)
