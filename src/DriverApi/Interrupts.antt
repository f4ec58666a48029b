-- ===== src/DriverApi/Interrupts.antt =====
-- The interrupts and the hardware interrupts of a driver in kernel/DriverApi.cpp, and how
-- kernel/drivers.cpp hands them on. A vector and an interrupt line are 8 bits wide.
use uberos.Prelude.{ℕ, List, [], ◌∷◌, Option, none, some, Bool, true, false, ◌==◌, if◌then◌else◌}
use uberos.PodArray.{push_back}
use uberos.DriverApi.State.{
  Kernel, Try, success, failure, update, set_api, is_active, remove_first, for_below,
}
use uberos.Exceptions.{irq_subscribe, irq_unsubscribe}

-- `on_driver_irq`, the callback of all drivers.
abbrev pub on_driver_irq : ℕ
on_driver_irq = 1

abbrev pub set_interrupt : ℕ → ℕ → Bool → Kernel → Kernel
set_interrupt d vector value k =
    set_api d
      (record (k.api d) {
        subscribed_interrupts = update (k.api d).subscribed_interrupts vector value;
      })
      k

abbrev pub set_irq : ℕ → ℕ → Bool → Kernel → Kernel
set_irq d irq value k =
    set_api d (record (k.api d) { subscribed_irqs = update (k.api d).subscribed_irqs irq value }) k

abbrev pub set_subscribers : ℕ → Option (List ℕ) → Kernel → Kernel
set_subscribers vector subscribers k = record k {
  interrupt_subscribers = update k.interrupt_subscribers vector subscribers;
}

-- The drivers in an array that may not have been made yet.
abbrev pub items_of : Option (List ℕ) → List ℕ
items_of none = []
items_of (some xs) = xs

unfoldable pub subscribe_interrupt : ℕ → ℕ → Kernel → Kernel
subscribe_interrupt d vector k =
    if (k.api d).subscribed_interrupts vector
    then k
    else set_interrupt d vector true
        (set_subscribers vector (some (push_back (items_of (k.interrupt_subscribers vector)) d)) k)

-- What is left of a vector's array without a driver.
abbrev pub without : ℕ → Option (List ℕ) → Option (List ℕ)
without d none = none
without d (some xs) = some (remove_first (λ e. e == d) xs)

unfoldable pub unsubscribe_interrupt : ℕ → ℕ → Kernel → Kernel
unsubscribe_interrupt d vector k =
    if (k.api d).subscribed_interrupts vector
    then set_interrupt d vector false
        (set_subscribers vector (without d (k.interrupt_subscribers vector)) k)
    else k

unfoldable pub unsubscribe_all_interrupts : ℕ → Kernel → Kernel
unsubscribe_all_interrupts d k =
    for_below 256
      (λ vector k'.
        if (k'.api d).subscribed_interrupts vector then unsubscribe_interrupt d vector k' else k')
      k

-- `_subscribe_driver_to_irq`
abbrev pub subscribe_driver_to_irq : ℕ → ℕ → Kernel → Try × Kernel
subscribe_driver_to_irq d irq k = irq_subscribe irq on_driver_irq d k

abbrev pub unsubscribe_driver_from_irq : ℕ → ℕ → Kernel → Kernel
unsubscribe_driver_from_irq d irq k = irq_unsubscribe irq on_driver_irq d k

-- The bit is set after a subscription that did not fail.
abbrev pub mark_irq : ℕ → ℕ → Try × Kernel → Try × Kernel
mark_irq d irq (success, k) = (success, set_irq d irq true k)
mark_irq d irq (failure message, k) = (failure message, k)

unfoldable pub subscribe_irq : ℕ → ℕ → Kernel → Try × Kernel
subscribe_irq d irq k =
    if (k.api d).subscribed_irqs irq
    then (success, k)
    else mark_irq d irq (subscribe_driver_to_irq d irq k)

unfoldable pub unsubscribe_irq : ℕ → ℕ → Kernel → Kernel
unsubscribe_irq d irq k =
    if (k.api d).subscribed_irqs irq
    then set_irq d irq false (unsubscribe_driver_from_irq d irq k)
    else k

unfoldable pub unsubscribe_all_irqs : ℕ → Kernel → Kernel
unsubscribe_all_irqs d k =
    for_below 256
      (λ irq k'. if (k'.api d).subscribed_irqs irq then unsubscribe_irq d irq k' else k') k

-- `drivers::_on_interrupt`: the first active driver with an answer for a vector. `on_interrupt` is the
-- drivers' own handler, 0 its null.
pub first_answer : (ℕ → ℕ → Kernel → ℕ × Kernel) → ℕ → List ℕ → Kernel → ℕ × Kernel
first_answer on_interrupt vector [] k = (0, k)
first_answer on_interrupt vector (d ∷ ds) k =
    let answered = on_interrupt d vector k in
    let next = first_answer on_interrupt vector ds answered.1 in
    let skipped = first_answer on_interrupt vector ds k in
    if is_active d k then (if answered.0 == 0 then next else answered) else skipped

pub on_interrupt_of : (ℕ → ℕ → Kernel → ℕ × Kernel) → ℕ → Kernel → ℕ × Kernel
unfolding first_answer
on_interrupt_of on_interrupt vector k =
    first_answer on_interrupt vector (items_of (k.interrupt_subscribers vector)) k
