-- ===== src/DriverApi/Taken.antt =====
-- The operations of kernel/DriverApi.cpp that take subscriptions away are such steps.
use uberos.Prelude.{
  ℕ, ◌≡◌, refl, ◌∙◌, List, [], ◌∷◌, none, some, Bool, true, false, ◌&&◌, ◌==◌, leb, if◌then◌else◌,
  length, inl, inr, ◌⊎◌, Option-cases,
}
use uberos.DriverApi.State.{
  Kernel, IrqSubscription, update, output, disable_irq, enable_io_space, enable_memory_space,
  iterate, remove_first,
}
use uberos.Exceptions.{irq_unsubscribe, disable_irqs, set_irq_subscribers, interrupt_type, matches}
use uberos.DriverApi.Interrupts.{
  set_interrupt, set_irq, set_subscribers, without, unsubscribe_interrupt,
  unsubscribe_all_interrupts, unsubscribe_irq, unsubscribe_all_irqs, on_driver_irq,
  unsubscribe_driver_from_irq,
}
use uberos.DriverApi.Devices.{disable_devices, unsubscribe_all_pci, unsubscribe_all_io_port}
use uberos.DriverApi.Lifecycle.{unsubscribe_all, unsubscribe_all_memory}
use uberos.DriverApi.Shrinks.{
  Shrinks, Shrinks-trans, Shrinks-same, Shrinks-api, for_below-Shrinks, Less-interrupts, Less-irqs,
  Less-memory, Less-pci, Less-ports,
}

module _ (d v : ℕ) where
  pub unsubscribe_interrupt-Shrinks : (k : Kernel) → Shrinks d k (unsubscribe_interrupt d v k)
  unfolding unsubscribe_interrupt
  unsubscribe_interrupt-Shrinks k = branch ((k.api d).subscribed_interrupts v)
    where
      taken : Kernel
      taken = set_interrupt d v false (set_subscribers v (without d (k.interrupt_subscribers v)) k)

      branch : (b : Bool) → Shrinks d k (if b then taken else k)
      branch false = Shrinks-same k k refl
      branch true =
          Shrinks-api k taken
            (record (k.api d) {
              subscribed_interrupts = update (k.api d).subscribed_interrupts v false;
            })
            refl (Less-interrupts (k.api d) v)

disable_irqs-api : (ds : List ℕ) (irq : ℕ) (k : Kernel) → (disable_irqs ds irq k).api ≡ k.api
disable_irqs-api [] irq k = refl
disable_irqs-api (d ∷ ds) irq k =
    disable_irqs-api ds irq (if in_range then output (disable_irq d irq) k else k) ∙ branch in_range
  where
    in_range : Bool
    in_range = leb (k.irq_range d).0 irq && leb irq (k.irq_range d).1

    branch : (b : Bool) → (if b then output (disable_irq d irq) k else k).api ≡ k.api
    branch true = refl
    branch false = refl

pub irq_unsubscribe-api :
    (irq callback data' : ℕ) (k : Kernel) → (irq_unsubscribe irq callback data' k).api ≡ k.api
unfolding irq_unsubscribe
irq_unsubscribe-api irq callback data' k = branch (Option-cases (k.irq_subscribers irq))
  where
    left : List IrqSubscription → List IrqSubscription
    left xs = remove_first (matches callback data') xs

    emptied :
        (xs : List IrqSubscription) (b : Bool)
        → (if b
            then disable_irqs
                (iterate k.drivers interrupt_type k)
                irq
                (set_irq_subscribers irq none k)
            else set_irq_subscribers irq (some (left xs)) k).api
          ≡ k.api
    emptied xs true =
        disable_irqs-api (iterate k.drivers interrupt_type k) irq (set_irq_subscribers irq none k)
    emptied xs false = refl

    branch :
        (k.irq_subscribers irq ≡ none)
          ⊎ ((xs : List IrqSubscription) × (k.irq_subscribers irq ≡ some xs))
        → (irq_unsubscribe irq callback data' k).api ≡ k.api
    branch (inl e) = rw (e, irq_unsubscribe) refl
    branch (inr (xs, e)) = rw (e, irq_unsubscribe) (emptied xs (length (left xs) == 0))

module _ (d v : ℕ) where
  pub unsubscribe_irq-Shrinks : (k : Kernel) → Shrinks d k (unsubscribe_irq d v k)
  unfolding unsubscribe_irq
  unsubscribe_irq-Shrinks k = branch ((k.api d).subscribed_irqs v)
    where
      left : Kernel
      left = unsubscribe_driver_from_irq d v k

      same : left.api ≡ k.api
      same = irq_unsubscribe-api v on_driver_irq d k

      branch : (b : Bool) → Shrinks d k (if b then set_irq d v false left else k)
      branch false = Shrinks-same k k refl
      branch true = Shrinks-trans (Shrinks-same k left same) (
          Shrinks-api left (set_irq d v false left)
            (record (left.api d) { subscribed_irqs = update (left.api d).subscribed_irqs v false })
            refl (Less-irqs (left.api d) v))

module _ (d : ℕ) (k : Kernel) where
  pub unsubscribe_all_interrupts-Shrinks : Shrinks d k (unsubscribe_all_interrupts d k)
  unfolding unsubscribe_all_interrupts
  unsubscribe_all_interrupts-Shrinks = for_below-Shrinks 256 _ k step
    where
      step :
          (v : ℕ) (k' : Kernel)
          → Shrinks d k'
              (if (k'.api d).subscribed_interrupts v then unsubscribe_interrupt d v k' else k')
      step v k' = branch ((k'.api d).subscribed_interrupts v)
        where
          branch : (b : Bool) → Shrinks d k' (if b then unsubscribe_interrupt d v k' else k')
          branch true = unsubscribe_interrupt-Shrinks d v k'
          branch false = Shrinks-same k' k' refl

  pub unsubscribe_all_irqs-Shrinks : Shrinks d k (unsubscribe_all_irqs d k)
  unfolding unsubscribe_all_irqs
  unsubscribe_all_irqs-Shrinks = for_below-Shrinks 256 _ k step
    where
      step :
          (v : ℕ) (k' : Kernel)
          → Shrinks d k' (if (k'.api d).subscribed_irqs v then unsubscribe_irq d v k' else k')
      step v k' = branch ((k'.api d).subscribed_irqs v)
        where
          branch : (b : Bool) → Shrinks d k' (if b then unsubscribe_irq d v k' else k')
          branch true = unsubscribe_irq-Shrinks d v k'
          branch false = Shrinks-same k' k' refl

  pub unsubscribe_all_memory-Shrinks : Shrinks d k (unsubscribe_all_memory d k)
  unsubscribe_all_memory-Shrinks =
      Shrinks-api k (unsubscribe_all_memory d k) (record (k.api d) { memory = [] }) refl
        (Less-memory (k.api d))

  pub unsubscribe_all_io_port-Shrinks : Shrinks d k (unsubscribe_all_io_port d k)
  unfolding unsubscribe_all_io_port
  unsubscribe_all_io_port-Shrinks =
      Shrinks-api k (unsubscribe_all_io_port d k) (record (k.api d) { subscribed_io_ports = [] })
        refl (Less-ports (k.api d))

pub disable_devices-api : (devices : List ℕ) (k : Kernel) → (disable_devices devices k).api ≡ k.api
disable_devices-api [] k = refl
disable_devices-api (x ∷ xs) k =
    disable_devices-api xs
      (output (enable_memory_space x false) (output (enable_io_space x false) k))

module _ (d : ℕ) (k : Kernel) where
  disabled_all : Kernel
  disabled_all = disable_devices (k.api d).subscribed_pci_devices k

  pub unsubscribe_all_pci-Shrinks : Shrinks d k (unsubscribe_all_pci d k)
  unfolding unsubscribe_all_pci disabled_all
  unsubscribe_all_pci-Shrinks =
      Shrinks-trans
        (Shrinks-same k disabled_all (disable_devices-api (k.api d).subscribed_pci_devices k))
        (Shrinks-api disabled_all (unsubscribe_all_pci d k)
          (record (disabled_all.api d) { subscribed_pci_devices = [] }) refl
          (Less-pci (disabled_all.api d)))

module _ (d : ℕ) (k : Kernel) where
  pub unsubscribe_all-Shrinks : Shrinks d k (unsubscribe_all d k)
  unfolding unsubscribe_all
  unsubscribe_all-Shrinks =
      let k1 : Kernel = unsubscribe_all_memory d k in
      let k2 : Kernel = unsubscribe_all_interrupts d k1 in
      let k3 : Kernel = unsubscribe_all_irqs d k2 in
      let k4 : Kernel = unsubscribe_all_pci d k3 in
      Shrinks-trans (unsubscribe_all_memory-Shrinks d k) (
        Shrinks-trans (unsubscribe_all_interrupts-Shrinks d k1) (
          Shrinks-trans (unsubscribe_all_irqs-Shrinks d k2) (
            Shrinks-trans (unsubscribe_all_pci-Shrinks d k3)
              (unsubscribe_all_io_port-Shrinks d k4))))
