-- ===== src/DriverApi/Arrays.antt =====
-- What the end of one subscription leaves in the arrays of subscribers, and of loops over them.
use uberos.Prelude.{
  ℕ, zero, suc, ◌<◌, ◌≤◌, ◌≡◌, ◌≢◌, refl, ap, sym, ◌∙◌, subst, List, [], ◌∷◌, Option, none, some,
  Bool, true, false, ◌&&◌, ◌==◌, leb, if◌then◌else◌, length, arith, inl, inr, ◌⊎◌, Bool-cases,
  Option-cases, ==_refl, ==_ne, lt_or_le,
}
use uberos.DriverApi.State.{
  Kernel, IrqSubscription, output, disable_irq, enable_io_space, enable_memory_space, iterate,
  remove_first, for_below,
}
use uberos.Exceptions.{irq_unsubscribe, disable_irqs, set_irq_subscribers, interrupt_type, matches}
use uberos.DriverApi.Interrupts.{
  without, unsubscribe_interrupt, unsubscribe_irq, on_driver_irq, unsubscribe_driver_from_irq,
}
use uberos.DriverApi.Devices.{disable_devices}
use uberos.DriverApi.Taken.{irq_unsubscribe-api}

-- What is left of an interrupt line's array without a driver: no array, if it would be empty.
abbrev pub without_irq : ℕ → Option (List IrqSubscription) → Option (List IrqSubscription)
without_irq d none = none
without_irq d (some xs) =
    let left = remove_first (matches on_driver_irq d) xs in
    if length left == 0 then none else some left

-- A loop whose rounds change one place each, in the same way.
pub for_below-at :
    {X : Type 0} (read : Kernel → ℕ → X) (g : X → X) (n : ℕ) (f : ℕ → Kernel → Kernel) (k : Kernel)
    → ((v : ℕ) (k' : Kernel) → read (f v k') v ≡ g (read k' v))
    → ((v w : ℕ) (k' : Kernel) → w ≢ v → read (f v k') w ≡ read k' w)
    → (w : ℕ)
    → (w < n → read (for_below n f k) w ≡ g (read k w))
      × (n ≤ w → read (for_below n f k) w ≡ read k w)
unfolding for_below
for_below-at read g zero f k at other w = (λ l. absurd (omega (arith, l)), λ l. refl)
for_below-at read g (suc n) f k at other w =
    let ih = for_below-at read g n f k at other w in
    (
      λ l. split l ih (lt_or_le w n),
      λ l. other n w (for_below n f k) (omega arith) ∙ ih.1 (omega arith),
    )
  where
    split :
        w < suc n
        → (w < n → read (for_below n f k) w ≡ g (read k w))
          × (n ≤ w → read (for_below n f k) w ≡ read k w)
        → (w < n) ⊎ (n ≤ w)
        → read (f n (for_below n f k)) w ≡ g (read k w)
    split l ih (inl h) = other n w (for_below n f k) (omega arith) ∙ ih.0 h
    split l ih (inr h) =
        let e : n ≡ w = omega (arith, l) in
        subst (λ u. read (f n (for_below n f k)) u ≡ g (read k u)) e
          (at n (for_below n f k)
            ∙ ap g (subst (λ u. read (for_below n f k) u ≡ read k u) (sym e) (ih.1 h)))

-- A loop whose rounds leave something alone.
pub for_below-same :
    {X : Type 0} (read : Kernel → X) (n : ℕ) (f : ℕ → Kernel → Kernel) (k : Kernel)
    → ((v : ℕ) (k' : Kernel) → read (f v k') ≡ read k')
    → read (for_below n f k) ≡ read k
unfolding for_below
for_below-same read zero f k same = refl
for_below-same read (suc n) f k same = same n (for_below n f k) ∙ for_below-same read n f k same

module _ (d : ℕ) where
  -- The bit and the array of a vector, and of a line.
  abbrev pub at_vector : Kernel → ℕ → Bool × Option (List ℕ)
  at_vector k v = ((k.api d).subscribed_interrupts v, k.interrupt_subscribers v)

  abbrev pub at_line : Kernel → ℕ → Bool × Option (List IrqSubscription)
  at_line k v = ((k.api d).subscribed_irqs v, k.irq_subscribers v)

  -- What becomes of a bit and an array.
  abbrev pub given_up {ℓ} : {A : Type ℓ} → (A → A) → Bool × A → Bool × A
  given_up left (b, xs) = (false, if b then left xs else xs)

  pub unsubscribe_interrupt-vector :
      (v : ℕ) (k : Kernel)
      → at_vector (unsubscribe_interrupt d v k) v ≡ given_up (without d) (at_vector k v)
  unfolding unsubscribe_interrupt
  unsubscribe_interrupt-vector v k = elim (Bool-cases ((k.api d).subscribed_interrupts v)) [
    | inl e ↦ rw (e, ==_refl d, ==_refl v) refl
    | inr e ↦ rw (e, e) refl
  ]

  pub unsubscribe_interrupt-other_vector :
      (v w : ℕ) (k : Kernel) → w ≢ v → at_vector (unsubscribe_interrupt d v k) w ≡ at_vector k w
  unfolding unsubscribe_interrupt
  unsubscribe_interrupt-other_vector v w k h =
      elim (Bool-cases ((k.api d).subscribed_interrupts v)) [
        | inl e ↦ rw (e, ==_refl d, ==_ne w v h) refl
        | inr e ↦ rw e refl
      ]

  pub unsubscribe_interrupt-line :
      (v w : ℕ) (k : Kernel) → at_line (unsubscribe_interrupt d v k) w ≡ at_line k w
  unfolding unsubscribe_interrupt
  unsubscribe_interrupt-line v w k = elim (Bool-cases ((k.api d).subscribed_interrupts v)) [
    | inl e ↦ rw (e, ==_refl d) refl
    | inr e ↦ rw e refl
  ]

-- The arrays of both kinds are the same.
abbrev pub SameArrays : Kernel → Kernel → Type 0
SameArrays k k' =
    (k'.irq_subscribers ≡ k.irq_subscribers) × (k'.interrupt_subscribers ≡ k.interrupt_subscribers)

disable_irqs-SameArrays :
    (ds : List ℕ) (irq : ℕ) (k : Kernel) → SameArrays k (disable_irqs ds irq k)
disable_irqs-SameArrays [] irq k = (refl, refl)
disable_irqs-SameArrays (d ∷ ds) irq k =
    branch (leb (k.irq_range d).0 irq && leb irq (k.irq_range d).1)
      (disable_irqs-SameArrays ds irq (output (disable_irq d irq) k))
      (disable_irqs-SameArrays ds irq k)
  where
    next : Bool → Kernel
    next b = if b then output (disable_irq d irq) k else k

    branch :
        (b : Bool)
        → SameArrays k (disable_irqs ds irq (output (disable_irq d irq) k))
        → SameArrays k (disable_irqs ds irq k)
        → SameArrays k (disable_irqs ds irq (next b))
    branch true s t = s
    branch false s t = t

pub disable_devices-SameArrays :
    (devices : List ℕ) (k : Kernel) → SameArrays k (disable_devices devices k)
disable_devices-SameArrays [] k = (refl, refl)
disable_devices-SameArrays (device ∷ devices) k =
    disable_devices-SameArrays devices
      (output (enable_memory_space device false) (output (enable_io_space device false) k))

module _ (d irq : ℕ) (k : Kernel) where
  abbrev without_driver : Kernel
  without_driver = unsubscribe_driver_from_irq d irq k

  -- The end of one driver's subscription to a line, in the arrays of all lines and vectors.
  abbrev Unsubscribed : Kernel → Type 0
  Unsubscribed k' =
      (k'.irq_subscribers irq ≡ without_irq d (k.irq_subscribers irq))
      × ((w : ℕ) → w ≢ irq → k'.irq_subscribers w ≡ k.irq_subscribers w)
      × (k'.interrupt_subscribers ≡ k.interrupt_subscribers)

  without_driver-Unsubscribed : Unsubscribed without_driver
  unfolding irq_unsubscribe
  without_driver-Unsubscribed = branch (Option-cases (k.irq_subscribers irq))
    where
      left : List IrqSubscription → List IrqSubscription
      left xs = remove_first (matches on_driver_irq d) xs

      none_left : Kernel
      none_left = set_irq_subscribers irq none k

      emptied :
          (xs : List IrqSubscription) (b : Bool)
          → let k' : Kernel =
              (if b
                then disable_irqs (iterate k.drivers interrupt_type k) irq none_left
                else set_irq_subscribers irq (some (left xs)) k) in
            (k'.irq_subscribers irq ≡ (if b then none else some (left xs)))
            × ((w : ℕ) → w ≢ irq → k'.irq_subscribers w ≡ k.irq_subscribers w)
            × (k'.interrupt_subscribers ≡ k.interrupt_subscribers)
      emptied xs true =
          let s = disable_irqs-SameArrays (iterate k.drivers interrupt_type k) irq none_left in
          (
            ap (λ a. a irq) s.0 ∙ rw (==_refl irq) refl,
            λ w h. ap (λ a. a w) s.0 ∙ rw (==_ne w irq h) refl,
            s.1,
          )
      emptied xs false = (rw (==_refl irq) refl, λ w h. rw (==_ne w irq h) refl, refl)

      branch :
          (k.irq_subscribers irq ≡ none)
            ⊎ ((xs : List IrqSubscription) × (k.irq_subscribers irq ≡ some xs))
          → Unsubscribed without_driver
      branch (inl e) = rw (e, irq_unsubscribe) (e, λ w h. refl, refl)
      branch (inr (xs, e)) = rw (e, irq_unsubscribe) (emptied xs (length (left xs) == 0))

module _ (d : ℕ) where
  pub unsubscribe_irq-line :
      (v : ℕ) (k : Kernel)
      → at_line d (unsubscribe_irq d v k) v ≡ given_up d (without_irq d) (at_line d k v)
  unfolding unsubscribe_irq
  unsubscribe_irq-line v k = elim (Bool-cases ((k.api d).subscribed_irqs v)) [
    | inl e ↦
        rw (e, ==_refl d, ==_refl v) (ap (λ a. (false, a)) (without_driver-Unsubscribed d v k).0)
    | inr e ↦ rw (e, e) refl
  ]

  pub unsubscribe_irq-other_line :
      (v w : ℕ) (k : Kernel) → w ≢ v → at_line d (unsubscribe_irq d v k) w ≡ at_line d k w
  unfolding unsubscribe_irq
  unsubscribe_irq-other_line v w k h = elim (Bool-cases ((k.api d).subscribed_irqs v)) [
    | inl e ↦
        rw (e, ==_refl d, ==_ne w v h)
          ((λ i. (
            (irq_unsubscribe-api v on_driver_irq d k i d).subscribed_irqs w,
            (without_driver-Unsubscribed d v k).1 w h i,
          )))
    | inr e ↦ rw e refl
  ]

  pub unsubscribe_irq-vectors :
      (v : ℕ) (k : Kernel) → (unsubscribe_irq d v k).interrupt_subscribers ≡ k.interrupt_subscribers
  unfolding unsubscribe_irq
  unsubscribe_irq-vectors v k = elim (Bool-cases ((k.api d).subscribed_irqs v)) [
    | inl e ↦ rw e (without_driver-Unsubscribed d v k).2
    | inr e ↦ rw e refl
  ]
