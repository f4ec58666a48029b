-- ===== src/DriverApi/Exclusive.antt =====
-- A PCI device and a port are one driver's at most, in every state that the operations reach.
use uberos.Prelude.{
  ℕ, ◌≡◌, ◌≢◌, refl, ap, sym, ◌∙◌, subst, List, [], ◌∷◌, Option, none, some, Bool, true, false,
  ◌==◌, inl, inr, ◌⊎◌, Bool-cases, ==_refl, ==_ne, ==→eq, ==_false, true-false, has, has-snoc,
  arith,
}
use uberos.PodArray.{push_back, remove}
use uberos.PodArray.Items.{has-remove}
use uberos.DriverApi.State.{Kernel, Api, update, remove_first, find_index}
use uberos.DriverApi.Devices.{PciOptions, any_driver, enable_device}

-- No two drivers have a thing, and each that has one is listed.
pub record Exclusive (drivers : List ℕ) (things : ℕ → List ℕ) : Type 0 where
  pub alone : (d e x : ℕ) → has x (things d) ≡ true → has x (things e) ≡ true → d ≡ e
  pub listed : (d x : ℕ) → has x (things d) ≡ true → has d drivers ≡ true

-- Things that are taken away or stay.
pub Exclusive-fewer :
    {drivers : List ℕ} (f g : ℕ → List ℕ)
    → ((d x : ℕ) → has x (g d) ≡ true → has x (f d) ≡ true)
    → Exclusive drivers f
    → Exclusive drivers g
Exclusive-fewer f g fewer ex = record {
  alone = λ d e x h k. ex.alone d e x (fewer d x h) (fewer e x k);
  listed = λ d x h. ex.listed d x (fewer d x h);
}

any_driver-false :
    (ds : List ℕ) (p : ℕ → Bool) (d : ℕ) → any_driver ds p ≡ false → has d ds ≡ true → p d ≡ false
any_driver-false [] p d h k = absurd (true-false k refl)
any_driver-false (e ∷ ds) p d h k = split (Bool-cases (d == e)) (any_driver-false ds p d)
  where
    split :
        ((d == e) ≡ true) ⊎ ((d == e) ≡ false)
        → (any_driver ds p ≡ false → has d ds ≡ true → p d ≡ false)
        → p d ≡ false
    split (inl q) later = ap p (==→eq d e q) ∙ ground arith
    split (inr q) later = later (ground arith) (ground arith)

-- A thing that no listed driver has, given to a listed one.
Exclusive-more :
    (drivers : List ℕ) (f g : ℕ → List ℕ) (d x : ℕ)
    → has d drivers ≡ true
    → any_driver drivers (λ e. has x (f e)) ≡ false
    → g d ≡ push_back (f d) x
    → ((e : ℕ) → e ≢ d → g e ≡ f e)
    → Exclusive drivers f
    → Exclusive drivers g
unfolding push_back
Exclusive-more drivers f g d x l free own other ex = record {
  alone = alone_more;
  listed = λ e y h. elim (Bool-cases (e == d)) [
    | inl q ↦ subst (λ i. has i drivers ≡ true) (sym (==→eq e d q)) l
    | inr q ↦ ex.listed e y (subst (λ ys. has y ys ≡ true) (other e (==_false e d q)) h)
  ];
}
  where
    Origin : ℕ → ℕ → Type 0
    Origin e y = (has y (f e) ≡ true) ⊎ ((e ≡ d) × (y ≡ x))

    origin : (e y : ℕ) → has y (g e) ≡ true → Origin e y
    origin e y h = elim (Bool-cases (e == d)) [
      | inl q ↦
          (let at : e ≡ d = ==→eq e d q in
            elim (has-snoc y x (f d) (subst (λ ys. has y ys ≡ true) (ap g at ∙ own) h)) [
              | inl z ↦ inr (at, z)
              | inr z ↦ inl (subst (λ i. has y (f i) ≡ true) (sym at) z)
            ])
      | inr q ↦ inl (subst (λ ys. has y ys ≡ true) (other e (==_false e d q)) h)
    ]

    taken : (e : ℕ) → has x (f e) ≡ true → ⊥
    taken e h = true-false h (any_driver-false drivers (λ i. has x (f i)) e free (ex.listed e x h))

    alone_more : (e i y : ℕ) → has y (g e) ≡ true → has y (g i) ≡ true → e ≡ i
    alone_more e i y h k = both (origin e y h) (origin i y k)
      where
        both : Origin e y → Origin i y → e ≡ i
        both (inl a) (inl b) = ex.alone e i y a b
        both (inl a) (inr b) = absurd (taken e (subst (λ z. has z (f e) ≡ true) b.1 a))
        both (inr a) (inl b) = absurd (taken i (subst (λ z. has z (f i) ≡ true) a.1 b))
        both (inr a) (inr b) = a.0 ∙ sym b.0

pub has-remove_first :
    (a x : ℕ) (xs : List ℕ) → has a (remove_first (λ e. e == x) xs) ≡ true → has a xs ≡ true
has-remove_first a x xs h = split (find_index (λ e. e == x) xs) h
  where
    left : Option ℕ → List ℕ
    left o = elim o as (λ _. List ℕ) [ none ↦ xs | some i ↦ remove i xs ]

    split : (o : Option ℕ) → has a (left o) ≡ true → has a xs ≡ true
    split none k = k
    split (some i) k = has-remove a i xs k

-- The devices and the ports that each driver has.
abbrev pub pci_of : Kernel → ℕ → List ℕ
pci_of k d = (k.api d).subscribed_pci_devices

abbrev pub ports_of : Kernel → ℕ → List ℕ
ports_of k d = (k.api d).subscribed_io_ports

-- Devices and ports, each one driver's.
pub record Owned (k : Kernel) : Type 0 where
  pub pci : Exclusive k.drivers (pci_of k)
  pub ports : Exclusive k.drivers (ports_of k)

-- A driver's devices and ports after a step that leaves the other drivers and the list alone.
module _ (d : ℕ) (k k' : Kernel) (same : k'.drivers ≡ k.drivers)
    (other : (e : ℕ) → e ≢ d → k'.api e ≡ k.api e) where
  fewer_of :
      (things : Api → List ℕ)
      → ((x : ℕ) → has x (things (k'.api d)) ≡ true → has x (things (k.api d)) ≡ true)
      → Exclusive k.drivers (λ e. things (k.api e))
      → Exclusive k'.drivers (λ e. things (k'.api e))
  fewer_of things less ex =
      subst (λ ds. Exclusive ds (λ e. things (k'.api e))) (sym same)
        (Exclusive-fewer (λ e. things (k.api e)) (λ e. things (k'.api e)) each ex)
    where
      each : (e x : ℕ) → has x (things (k'.api e)) ≡ true → has x (things (k.api e)) ≡ true
      each e x h = elim (Bool-cases (e == d)) [
        | inl q ↦
            (let at : e ≡ d = ==→eq e d q in
              subst (λ i. has x (things (k.api i)) ≡ true) (sym at)
                (less x (subst (λ i. has x (things (k'.api i)) ≡ true) at h)))
        | inr q ↦ subst (λ a. has x (things a) ≡ true) (other e (==_false e d q)) h
      ]

  more_of :
      (things : Api → List ℕ) (x : ℕ)
      → has d k.drivers ≡ true
      → any_driver k.drivers (λ e. has x (things (k.api e))) ≡ false
      → things (k'.api d) ≡ push_back (things (k.api d)) x
      → Exclusive k.drivers (λ e. things (k.api e))
      → Exclusive k'.drivers (λ e. things (k'.api e))
  more_of things x l free own ex =
      subst (λ ds. Exclusive ds (λ e. things (k'.api e))) (sym same)
        (Exclusive-more k.drivers (λ e. things (k.api e)) (λ e. things (k'.api e)) d x l free own
          (λ e h. ap things (other e h)) ex)

unfold_api : (d e : ℕ) (k : Kernel) (b : Api) → e ≢ d → update k.api d b e ≡ k.api e
unfold_api d e k b h = rw (==_ne e d h) refl

own_api : (d : ℕ) (k : Kernel) (b : Api) → update k.api d b d ≡ b
own_api d k b = rw (==_refl d) refl

-- A device's calls change no driver.
pub enable_device-api :
    (device : ℕ) (options : PciOptions) (k : Kernel)
    → ((enable_device device options k).api ≡ k.api)
      × ((enable_device device options k).drivers ≡ k.drivers)
enable_device-api device options k = branch options.bus_mastering options.interrupts
  where
    branch :
        (a b : Bool)
        → ((enable_device device (record options { bus_mastering = a; interrupts = b }) k).api
            ≡ k.api)
          × ((enable_device device (record options { bus_mastering = a; interrupts = b }) k).drivers
              ≡ k.drivers)
    branch true true = (refl, refl)
    branch true false = (refl, refl)
    branch false true = (refl, refl)
    branch false false = (refl, refl)

abbrev devices_field : Api → List ℕ
devices_field a = a.subscribed_pci_devices

abbrev ports_field : Api → List ℕ
ports_field a = a.subscribed_io_ports

module _ (d : ℕ) (k k' : Kernel) (b : Api) (own : Owned k) (same : k'.drivers ≡ k.drivers)
    (changed : k'.api ≡ update k.api d b) where
  at_own : k'.api d ≡ b
  at_own = ap (λ a. a d) changed ∙ own_api d k b

  at_other : (e : ℕ) → e ≢ d → k'.api e ≡ k.api e
  at_other e h = ap (λ a. a e) changed ∙ unfold_api d e k b h

  fewer_things :
      (things : Api → List ℕ)
      → ((x : ℕ) → has x (things b) ≡ true → has x (things (k.api d)) ≡ true)
      → Exclusive k.drivers (λ e. things (k.api e))
      → Exclusive k'.drivers (λ e. things (k'.api e))
  fewer_things things less ex =
      fewer_of d k k' same at_other things
        (λ x h. less x (subst (λ a. has x (things a) ≡ true) at_own h)) ex

  -- One driver's devices and ports become fewer, or stay.
  pub Owned-fewer :
      ((x : ℕ) → has x b.subscribed_pci_devices ≡ true → has x (pci_of k d) ≡ true)
      → ((x : ℕ) → has x b.subscribed_io_ports ≡ true → has x (ports_of k d) ≡ true)
      → Owned k'
  Owned-fewer less less' = record {
    pci = fewer_things devices_field less own.pci;
    ports = fewer_things ports_field less' own.ports;
  }

  -- A listed driver is given a device that nobody has.
  pub Owned-pci :
      (x : ℕ)
      → has d k.drivers ≡ true
      → any_driver k.drivers (λ e. has x (pci_of k e)) ≡ false
      → b.subscribed_pci_devices ≡ push_back (pci_of k d) x
      → b.subscribed_io_ports ≡ ports_of k d
      → Owned k'
  Owned-pci x l free e e' = record {
    pci = more_of d k k' same at_other devices_field x l free (ap devices_field at_own ∙ e) own.pci;
    ports = fewer_things ports_field (λ y h. subst (λ ys. has y ys ≡ true) e' h) own.ports;
  }

  pub Owned-port :
      (x : ℕ)
      → has d k.drivers ≡ true
      → any_driver k.drivers (λ e. has x (ports_of k e)) ≡ false
      → b.subscribed_io_ports ≡ push_back (ports_of k d) x
      → b.subscribed_pci_devices ≡ pci_of k d
      → Owned k'
  Owned-port x l free e e' = record {
    ports = more_of d k k' same at_other ports_field x l free (ap ports_field at_own ∙ e) own.ports;
    pci = fewer_things devices_field (λ y h. subst (λ ys. has y ys ≡ true) e' h) own.pci;
  }
