-- ===== src/Exceptions.antt =====
-- The subscriptions to hardware interrupts of kernel/exceptions.cpp.
pub mod Again
use uberos.Prelude.{
  ℕ, zero, suc, ◌+◌, List, [], ◌++◌, ◌∷◌, Option, none, some, Bool, true, false, ◌&&◌, ◌==◌, leb,
  if◌then◌else◌, length,
}
use uberos.PodArray.{push_back, remove}
use uberos.DriverApi.State.{
  Kernel, Api, IrqSubscription, Output, enable_irq, disable_irq, Try, success, failure, update,
  output, iterate, remove_first,
}

-- `driver::Interrupt`'s type.
abbrev pub interrupt_type : ℕ
interrupt_type = 4035266960

-- `"IRQ not available"`
abbrev pub irq_not_available : Try
irq_not_available = failure 0

-- The first interrupt controller whose range has the interrupt.
abbrev pub find_controller : List ℕ → ℕ → Kernel → Option ℕ
find_controller [] irq k = none
find_controller (d ∷ ds) irq k =
    if leb (k.irq_range d).0 irq && leb irq (k.irq_range d).1
    then some d
    else find_controller ds irq k

abbrev pub set_irq_subscribers : ℕ → Option (List IrqSubscription) → Kernel → Kernel
set_irq_subscribers irq subscribers k = record k {
  irq_subscribers = update k.irq_subscribers irq subscribers;
}

abbrev pub subscription : ℕ → ℕ → IrqSubscription
subscription callback data' = record { subscriber = callback; subscriber_data = data' }

-- `irq::subscribe`: the array is made before a controller is looked for.
unfoldable pub irq_subscribe : ℕ → ℕ → ℕ → Kernel → Try × Kernel
irq_subscribe irq callback data' k = elim (k.irq_subscribers irq) [
  | some subscribers ↦ (
    success,
    set_irq_subscribers irq (some (push_back subscribers (subscription callback data'))) k,
  )
  | none ↦ elim (find_controller (iterate k.drivers interrupt_type k) irq k) [
    | none ↦ (irq_not_available, set_irq_subscribers irq (some []) k)
    | some controller ↦ (
      success,
      set_irq_subscribers irq (some (subscription callback data' ∷ []))
          (output (enable_irq controller irq) k),
    )
  ]
]

-- The controllers that the last subscriber's end disables the interrupt at.
abbrev pub disable_irqs : List ℕ → ℕ → Kernel → Kernel
disable_irqs [] irq k = k
disable_irqs (d ∷ ds) irq k = disable_irqs ds irq (
    if leb (k.irq_range d).0 irq && leb irq (k.irq_range d).1
    then output (disable_irq d irq) k
    else k)

abbrev pub matches : ℕ → ℕ → IrqSubscription → Bool
matches callback data' s = s.subscriber == callback && s.subscriber_data == data'

-- `irq::unsubscribe`
unfoldable pub irq_unsubscribe : ℕ → ℕ → ℕ → Kernel → Kernel
irq_unsubscribe irq callback data' k = elim (k.irq_subscribers irq) [
  | none ↦ k
  | some subscribers ↦
      let left = remove_first (matches callback data') subscribers in
      if length left == 0
      then disable_irqs (iterate k.drivers interrupt_type k) irq (set_irq_subscribers irq none k)
      else set_irq_subscribers irq (some left) k
]

-- The loop of `_on_irq`, for callbacks that leave the subscriptions to this interrupt alone.
pub call_subscribers : (ℕ → ℕ → ℕ → Kernel → Kernel) → ℕ → List IrqSubscription → Kernel → Kernel
call_subscribers call irq [] k = k
call_subscribers call irq (s ∷ ss) k =
    call_subscribers call irq ss (call s.subscriber irq s.subscriber_data k)
