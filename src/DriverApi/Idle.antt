-- ===== src/DriverApi/Idle.antt =====
-- What a driver that stopped or failed has left in its own record: nothing.
use uberos.Prelude.{
  ℕ, zero, suc, ◌<◌, ◌≤◌, ◌≡◌, refl, [], Bool, true, false, if◌then◌else◌, arith, inl, inr, ◌⊎◌,
  Bool-cases, ==_refl, lt_or_le,
}
use uberos.DriverApi.State.{Kernel, Api, for_below}
use uberos.DriverApi.Interrupts.{
  unsubscribe_interrupt, unsubscribe_all_interrupts, unsubscribe_irq, unsubscribe_all_irqs,
}
use uberos.DriverApi.Devices.{unsubscribe_all_pci, unsubscribe_all_io_port}
use uberos.DriverApi.Lifecycle.{unsubscribe_all, unsubscribe_all_memory}
use uberos.DriverApi.Shrinks.{Shrinks-trans}
use uberos.DriverApi.Taken.{
  unsubscribe_interrupt-Shrinks, unsubscribe_irq-Shrinks, unsubscribe_all_interrupts-Shrinks,
  unsubscribe_all_irqs-Shrinks, unsubscribe_all_pci-Shrinks, unsubscribe_all_io_port-Shrinks,
}

-- A record without subscriptions. An interrupt's number has 8 bits.
pub record Idle (a : Api) : Type 0 where
  pub interrupts : (v : ℕ) → v < 256 → a.subscribed_interrupts v ≡ false
  pub irqs : (v : ℕ) → v < 256 → a.subscribed_irqs v ≡ false
  pub memory : a.memory ≡ []
  pub pci : a.subscribed_pci_devices ≡ []
  pub ports : a.subscribed_io_ports ≡ []

module _ (d : ℕ) where
  -- A loop that clears each number, and never sets one again.
  for_below-clears :
      (bits : Kernel → ℕ → Bool) (n : ℕ) (f : ℕ → Kernel → Kernel) (k : Kernel)
      → ((v : ℕ) (k' : Kernel) → bits (f v k') v ≡ false)
      → ((v w : ℕ) (k' : Kernel) → bits k' w ≡ false → bits (f v k') w ≡ false)
      → (w : ℕ) → w < n
      → bits (for_below n f k) w ≡ false
  unfolding for_below
  for_below-clears bits zero f k clear keep w l = elim l [ ]
  for_below-clears bits (suc n) f k clear keep w l =
      split (lt_or_le w n) (for_below-clears bits n f k clear keep w)
    where
      split :
          (w < n) ⊎ (n ≤ w)
          → (w < n → bits (for_below n f k) w ≡ false)
          → bits (f n (for_below n f k)) w ≡ false
      split (inl h) ih = keep n w (for_below n f k) (ih h)
      split (inr h) ih = let e : w ≡ n = omega (arith, l) in rw e (clear n (for_below n f k))

  unsubscribe_interrupt-clears :
      (v : ℕ) (k : Kernel) → ((unsubscribe_interrupt d v k).api d).subscribed_interrupts v ≡ false
  unfolding unsubscribe_interrupt
  unsubscribe_interrupt-clears v k = elim (Bool-cases ((k.api d).subscribed_interrupts v)) [
    | inl e ↦ rw (e, ==_refl d, ==_refl v) refl
    | inr e ↦ rw e e
  ]

  unsubscribe_irq-clears :
      (v : ℕ) (k : Kernel) → ((unsubscribe_irq d v k).api d).subscribed_irqs v ≡ false
  unfolding unsubscribe_irq
  unsubscribe_irq-clears v k = elim (Bool-cases ((k.api d).subscribed_irqs v)) [
    | inl e ↦ rw (e, ==_refl d, ==_refl v) refl
    | inr e ↦ rw e e
  ]

  unsubscribe_all_interrupts-clears :
      (k : Kernel) (w : ℕ)
      → w < 256
      → ((unsubscribe_all_interrupts d k).api d).subscribed_interrupts w ≡ false
  unfolding unsubscribe_all_interrupts
  unsubscribe_all_interrupts-clears k =
      for_below-clears (λ k'. (k'.api d).subscribed_interrupts) 256 _ k clear keep
    where
      clear :
          (v : ℕ) (k' : Kernel)
          → ((if (k'.api d).subscribed_interrupts v then unsubscribe_interrupt d v k' else k').api
                d).subscribed_interrupts
              v
            ≡ false
      clear v k' = elim (Bool-cases ((k'.api d).subscribed_interrupts v)) [
        | inl e ↦ rw e (unsubscribe_interrupt-clears v k')
        | inr e ↦ rw e e
      ]

      keep :
          (v w : ℕ) (k' : Kernel)
          → (k'.api d).subscribed_interrupts w ≡ false
          → ((if (k'.api d).subscribed_interrupts v then unsubscribe_interrupt d v k' else k').api
                d).subscribed_interrupts
              w
            ≡ false
      keep v w k' h = branch ((k'.api d).subscribed_interrupts v)
        where
          branch :
              (b : Bool)
              → ((if b then unsubscribe_interrupt d v k' else k').api d).subscribed_interrupts w
                ≡ false
          branch true = (unsubscribe_interrupt-Shrinks d v k').own.interrupts w h
          branch false = h

  unsubscribe_all_irqs-clears :
      (k : Kernel) (w : ℕ) → w < 256 → ((unsubscribe_all_irqs d k).api d).subscribed_irqs w ≡ false
  unfolding unsubscribe_all_irqs
  unsubscribe_all_irqs-clears k =
      for_below-clears (λ k'. (k'.api d).subscribed_irqs) 256 _ k clear keep
    where
      clear :
          (v : ℕ) (k' : Kernel)
          → ((if (k'.api d).subscribed_irqs v then unsubscribe_irq d v k' else k').api
                d).subscribed_irqs
              v
            ≡ false
      clear v k' = elim (Bool-cases ((k'.api d).subscribed_irqs v)) [
        | inl e ↦ rw e (unsubscribe_irq-clears v k')
        | inr e ↦ rw e e
      ]

      keep :
          (v w : ℕ) (k' : Kernel)
          → (k'.api d).subscribed_irqs w ≡ false
          → ((if (k'.api d).subscribed_irqs v then unsubscribe_irq d v k' else k').api
                d).subscribed_irqs
              w
            ≡ false
      keep v w k' h = branch ((k'.api d).subscribed_irqs v)
        where
          branch :
              (b : Bool)
              → ((if b then unsubscribe_irq d v k' else k').api d).subscribed_irqs w ≡ false
          branch true = (unsubscribe_irq-Shrinks d v k').own.irqs w h
          branch false = h

  unsubscribe_all_memory-clears : (k : Kernel) → ((unsubscribe_all_memory d k).api d).memory ≡ []
  unsubscribe_all_memory-clears k = rw (==_refl d) refl

  unsubscribe_all_pci-clears :
      (k : Kernel) → ((unsubscribe_all_pci d k).api d).subscribed_pci_devices ≡ []
  unfolding unsubscribe_all_pci
  unsubscribe_all_pci-clears k = rw (==_refl d) refl

  unsubscribe_all_io_port-clears :
      (k : Kernel) → ((unsubscribe_all_io_port d k).api d).subscribed_io_ports ≡ []
  unfolding unsubscribe_all_io_port
  unsubscribe_all_io_port-clears k = rw (==_refl d) refl

  pub unsubscribe_all-Idle : (k : Kernel) → Idle ((unsubscribe_all d k).api d)
  unfolding unsubscribe_all
  unsubscribe_all-Idle k =
      let k1 : Kernel = unsubscribe_all_memory d k in
      let k2 : Kernel = unsubscribe_all_interrupts d k1 in
      let k3 : Kernel = unsubscribe_all_irqs d k2 in
      let k4 : Kernel = unsubscribe_all_pci d k3 in
      let s5 = unsubscribe_all_io_port-Shrinks d k4 in
      let s4 = Shrinks-trans (unsubscribe_all_pci-Shrinks d k3) s5 in
      let s3 = Shrinks-trans (unsubscribe_all_irqs-Shrinks d k2) s4 in
      let s2 = Shrinks-trans (unsubscribe_all_interrupts-Shrinks d k1) s3 in
      record {
        interrupts = λ v h. s3.own.interrupts v (unsubscribe_all_interrupts-clears k1 v h);
        irqs = λ v h. s4.own.irqs v (unsubscribe_all_irqs-clears k2 v h);
        memory = s2.own.memory (unsubscribe_all_memory-clears k);
        pci = s5.own.pci (unsubscribe_all_pci-clears k3);
        ports = unsubscribe_all_io_port-clears k4;
      }
