-- ===== src/DriverApi/Shrinks.antt =====
-- The steps that only take subscriptions away from one driver.
use uberos.Prelude.{
  ℕ, zero, suc, ◌≡◌, ◌≢◌, refl, ap, sym, ◌∙◌, subst, [], Bool, true, false, ◌==◌, if◌then◌else◌,
  ==_ne, ==_refl,
}
use uberos.DriverApi.State.{Kernel, Api, update, for_below}

-- What one driver had before and after.
pub record Less (a b : Api) : Type 0 where
  pub startup : b.startup ≡ a.startup
  pub state : b.state ≡ a.state
  pub interrupts : (v : ℕ) → a.subscribed_interrupts v ≡ false → b.subscribed_interrupts v ≡ false
  pub irqs : (v : ℕ) → a.subscribed_irqs v ≡ false → b.subscribed_irqs v ≡ false
  pub memory : a.memory ≡ [] → b.memory ≡ []
  pub pci : a.subscribed_pci_devices ≡ [] → b.subscribed_pci_devices ≡ []
  pub ports : a.subscribed_io_ports ≡ [] → b.subscribed_io_ports ≡ []

-- A step that leaves the other drivers alone.
pub record Shrinks (d : ℕ) (k k' : Kernel) : Type 0 where
  pub own : Less (k.api d) (k'.api d)
  pub other : (e : ℕ) → e ≢ d → k'.api e ≡ k.api e

pub Less-refl : (a : Api) → Less a a
Less-refl a = record {
  startup = refl;
  state = refl;
  interrupts = λ v h. h;
  irqs = λ v h. h;
  memory = λ h. h;
  pci = λ h. h;
  ports = λ h. h;
}

pub Less-trans : {a b c : Api} → Less a b → Less b c → Less a c
Less-trans f g = record {
  startup = g.startup ∙ f.startup;
  state = g.state ∙ f.state;
  interrupts = λ v h. g.interrupts v (f.interrupts v h);
  irqs = λ v h. g.irqs v (f.irqs v h);
  memory = λ h. g.memory (f.memory h);
  pci = λ h. g.pci (f.pci h);
  ports = λ h. g.ports (f.ports h);
}

module _ {d : ℕ} where
  pub Shrinks-trans : {k k' k'' : Kernel} → Shrinks d k k' → Shrinks d k' k'' → Shrinks d k k''
  Shrinks-trans f g = record {
    own = Less-trans f.own g.own;
    other = λ e h. g.other e h ∙ f.other e h;
  }

  -- Nothing of the drivers changes.
  pub Shrinks-same : (k k' : Kernel) → k'.api ≡ k.api → Shrinks d k k'
  Shrinks-same k k' e = record {
    own = subst (λ a. Less (k.api d) (a d)) (sym e) (Less-refl (k.api d));
    other = λ i h. ap (λ a. a i) e;
  }

  -- One driver's api changes.
  pub Shrinks-api :
      (k k' : Kernel) (b : Api) → k'.api ≡ update k.api d b → Less (k.api d) b → Shrinks d k k'
  Shrinks-api k k' b e l = record {
    own = subst (λ a. Less (k.api d) (a d)) (sym e) (rw (==_refl d) l);
    other = λ i h. ap (λ a. a i) e ∙ rw (==_ne i d h) refl;
  }

  pub for_below-Shrinks :
      (n : ℕ) (f : ℕ → Kernel → Kernel) (k : Kernel)
      → ((v : ℕ) (k' : Kernel) → Shrinks d k' (f v k'))
      → Shrinks d k (for_below n f k)
  unfolding for_below
  for_below-Shrinks zero f k h = Shrinks-same k k refl
  for_below-Shrinks (suc n) f k h =
      Shrinks-trans (for_below-Shrinks n f k h) (h n (for_below n f k))

-- A bit that is taken away.
off_false : (bits : ℕ → Bool) (i v : ℕ) → bits v ≡ false → update bits i false v ≡ false
off_false bits i v h = branch (v == i)
  where
    branch : (b : Bool) → (if b then false else bits v) ≡ false
    branch true = refl
    branch false = h

pub Less-interrupts :
    (a : Api) (i : ℕ)
    → Less a (record a { subscribed_interrupts = update a.subscribed_interrupts i false })
Less-interrupts a i = record {
  startup = refl;
  state = refl;
  interrupts = off_false a.subscribed_interrupts i;
  irqs = λ v h. h;
  memory = λ h. h;
  pci = λ h. h;
  ports = λ h. h;
}

pub Less-irqs :
    (a : Api) (i : ℕ) → Less a (record a { subscribed_irqs = update a.subscribed_irqs i false })
Less-irqs a i = record {
  startup = refl;
  state = refl;
  interrupts = λ v h. h;
  irqs = off_false a.subscribed_irqs i;
  memory = λ h. h;
  pci = λ h. h;
  ports = λ h. h;
}

pub Less-memory : (a : Api) → Less a (record a { memory = [] })
Less-memory a = record {
  startup = refl;
  state = refl;
  interrupts = λ v h. h;
  irqs = λ v h. h;
  memory = λ h. refl;
  pci = λ h. h;
  ports = λ h. h;
}

pub Less-pci : (a : Api) → Less a (record a { subscribed_pci_devices = [] })
Less-pci a = record {
  startup = refl;
  state = refl;
  interrupts = λ v h. h;
  irqs = λ v h. h;
  memory = λ h. h;
  pci = λ h. refl;
  ports = λ h. h;
}

pub Less-ports : (a : Api) → Less a (record a { subscribed_io_ports = [] })
Less-ports a = record {
  startup = refl;
  state = refl;
  interrupts = λ v h. h;
  irqs = λ v h. h;
  memory = λ h. h;
  pci = λ h. h;
  ports = λ h. refl;
}
