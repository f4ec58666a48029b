-- ===== src/DriverApi/Removed.antt =====
-- What is left in the arrays of subscribers after the five calls that take all of a driver's
-- subscriptions away.
use uberos.Prelude.{
  ℕ, ◌<◌, ◌≡◌, ◌≢◌, refl, ap, ◌∙◌, Bool, true, false, if◌then◌else◌, inl, inr, Bool-cases, ==_refl,
}
use uberos.DriverApi.State.{Kernel, State}
use uberos.DriverApi.Interrupts.{
  without, unsubscribe_interrupt, unsubscribe_all_interrupts, unsubscribe_irq, unsubscribe_all_irqs,
}
use uberos.DriverApi.Devices.{unsubscribe_all_pci, unsubscribe_all_io_port}
use uberos.DriverApi.Lifecycle.{unsubscribe_all, unsubscribe_all_memory, set_state}
use uberos.DriverApi.Arrays.{
  without_irq, for_below-at, for_below-same, at_vector, at_line, given_up, SameArrays,
  disable_devices-SameArrays, unsubscribe_interrupt-vector, unsubscribe_interrupt-other_vector,
  unsubscribe_interrupt-line, unsubscribe_irq-line, unsubscribe_irq-other_line,
  unsubscribe_irq-vectors,
}

-- From the arrays of all vectors and lines that a driver was subscribed to, its entry is removed, as
-- `PodArray::remove` does it, and all other arrays are as they were.
pub record Removed (d : ℕ) (k k' : Kernel) : Type 0 where
  pub vectors :
      (v : ℕ)
      → v < 256
      → k'.interrupt_subscribers v ≡ (
          if (k.api d).subscribed_interrupts v
          then without d (k.interrupt_subscribers v)
          else k.interrupt_subscribers v)
  pub lines :
      (v : ℕ)
      → v < 256
      → k'.irq_subscribers v ≡ (
          if (k.api d).subscribed_irqs v
          then without_irq d (k.irq_subscribers v)
          else k.irq_subscribers v)

module _ (d : ℕ) where
  unsubscribe_all_interrupts-vector :
      (k : Kernel) (w : ℕ)
      → w < 256
      → at_vector d (unsubscribe_all_interrupts d k) w ≡ given_up d (without d) (at_vector d k w)
  unfolding unsubscribe_all_interrupts
  unsubscribe_all_interrupts-vector k w l =
      (for_below-at (at_vector d) (given_up d (without d)) 256 _ k here there w).0 l
    where
      here :
          (v : ℕ) (k' : Kernel)
          → at_vector d
              (if (k'.api d).subscribed_interrupts v then unsubscribe_interrupt d v k' else k')
              v
            ≡ given_up d (without d) (at_vector d k' v)
      here v k' = elim (Bool-cases ((k'.api d).subscribed_interrupts v)) [
        | inl e ↦
            ap (λ b. at_vector d (if b then unsubscribe_interrupt d v k' else k') v) e
            ∙ unsubscribe_interrupt-vector d v k'
        | inr e ↦ rw (e, e) refl
      ]

      there :
          (v w : ℕ) (k' : Kernel)
          → w ≢ v
          → at_vector d
              (if (k'.api d).subscribed_interrupts v then unsubscribe_interrupt d v k' else k')
              w
            ≡ at_vector d k' w
      there v w k' h = branch ((k'.api d).subscribed_interrupts v)
        where
          branch :
              (b : Bool)
              → at_vector d (if b then unsubscribe_interrupt d v k' else k') w ≡ at_vector d k' w
          branch true = unsubscribe_interrupt-other_vector d v w k' h
          branch false = refl

  unsubscribe_all_interrupts-line :
      (k : Kernel) (w : ℕ) → at_line d (unsubscribe_all_interrupts d k) w ≡ at_line d k w
  unfolding unsubscribe_all_interrupts
  unsubscribe_all_interrupts-line k w = for_below-same (λ k'. at_line d k' w) 256 _ k same
    where
      same :
          (v : ℕ) (k' : Kernel)
          → at_line d
              (if (k'.api d).subscribed_interrupts v then unsubscribe_interrupt d v k' else k')
              w
            ≡ at_line d k' w
      same v k' = branch ((k'.api d).subscribed_interrupts v)
        where
          branch :
              (b : Bool)
              → at_line d (if b then unsubscribe_interrupt d v k' else k') w ≡ at_line d k' w
          branch true = unsubscribe_interrupt-line d v w k'
          branch false = refl

  unsubscribe_all_irqs-line :
      (k : Kernel) (w : ℕ)
      → w < 256
      → at_line d (unsubscribe_all_irqs d k) w ≡ given_up d (without_irq d) (at_line d k w)
  unfolding unsubscribe_all_irqs
  unsubscribe_all_irqs-line k w l =
      (for_below-at (at_line d) (given_up d (without_irq d)) 256 _ k here there w).0 l
    where
      here :
          (v : ℕ) (k' : Kernel)
          → at_line d (if (k'.api d).subscribed_irqs v then unsubscribe_irq d v k' else k') v
            ≡ given_up d (without_irq d) (at_line d k' v)
      here v k' = elim (Bool-cases ((k'.api d).subscribed_irqs v)) [
        | inl e ↦
            ap (λ b. at_line d (if b then unsubscribe_irq d v k' else k') v) e
            ∙ unsubscribe_irq-line d v k'
        | inr e ↦ rw (e, e) refl
      ]

      there :
          (v w : ℕ) (k' : Kernel)
          → w ≢ v
          → at_line d (if (k'.api d).subscribed_irqs v then unsubscribe_irq d v k' else k') w
            ≡ at_line d k' w
      there v w k' h = branch ((k'.api d).subscribed_irqs v)
        where
          branch :
              (b : Bool) → at_line d (if b then unsubscribe_irq d v k' else k') w ≡ at_line d k' w
          branch true = unsubscribe_irq-other_line d v w k' h
          branch false = refl

  unsubscribe_all_irqs-vectors :
      (k : Kernel) → (unsubscribe_all_irqs d k).interrupt_subscribers ≡ k.interrupt_subscribers
  unfolding unsubscribe_all_irqs
  unsubscribe_all_irqs-vectors k = for_below-same (λ k'. k'.interrupt_subscribers) 256 _ k same
    where
      same :
          (v : ℕ) (k' : Kernel)
          → (if (k'.api d).subscribed_irqs v
              then unsubscribe_irq d v k'
              else k').interrupt_subscribers
            ≡ k'.interrupt_subscribers
      same v k' = branch ((k'.api d).subscribed_irqs v)
        where
          branch :
              (b : Bool)
              → (if b then unsubscribe_irq d v k' else k').interrupt_subscribers
                ≡ k'.interrupt_subscribers
          branch true = unsubscribe_irq-vectors d v k'
          branch false = refl

  devices_left : (k : Kernel) → SameArrays k (unsubscribe_all_io_port d (unsubscribe_all_pci d k))
  unfolding unsubscribe_all_io_port unsubscribe_all_pci
  devices_left k = disable_devices-SameArrays (k.api d).subscribed_pci_devices k

  -- The five calls remove the driver from the arrays of what it was subscribed to.
  pub unsubscribe_all-Removed :
      (s : State) (k : Kernel) → Removed d k (unsubscribe_all d (set_state d s k))
  unfolding unsubscribe_all
  unsubscribe_all-Removed s k =
      let k1 : Kernel = unsubscribe_all_memory d (set_state d s k) in
      let k2 : Kernel = unsubscribe_all_interrupts d k1 in
      let same = devices_left (unsubscribe_all_irqs d k2) in
      record {
        vectors = λ v l.
            ap (λ a. a v) (same.1 ∙ unsubscribe_all_irqs-vectors k2)
            ∙ ap (λ p. p.1) (unsubscribe_all_interrupts-vector k1 v l)
            ∙ rw (==_refl d) refl;
        lines = λ v l.
            ap (λ a. a v) same.0
            ∙ ap (λ p. p.1)
                (unsubscribe_all_irqs-line k2 v l
                  ∙ ap (given_up d (without_irq d)) (unsubscribe_all_interrupts-line k1 v))
            ∙ rw (==_refl d) refl;
      }
