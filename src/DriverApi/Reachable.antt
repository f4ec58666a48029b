-- ===== src/DriverApi/Reachable.antt =====
-- The states that the subscriptions to devices and ports reach, as a step relation.
use uberos.Prelude.{
  ℕ, ◌≡◌, refl, ap, List, [], ◌∷◌, ◌++◌, true, false, inl, inr, ◌⊎◌, Bool-cases, true-false, has,
  arith, has-append,
}
use uberos.PodArray.{push_back}
use uberos.DriverApi.State.{Kernel, Api, update, output, enable_io_space, enable_memory_space}
use uberos.DriverApi.Devices.{
  PciOptions, any_driver, subscribe_pci, unsubscribe_pci, unsubscribe_all_pci, subscribe_io_port,
  unsubscribe_io_port, unsubscribe_all_io_port, disable_devices, enable_device, set_pci_devices,
  set_io_ports, is_subscribed_to_pci, is_subscribed_to_io_port,
}
use uberos.DriverApi.Taken.{disable_devices-api}
use uberos.DriverApi.Exclusive.{
  Exclusive, Owned, Owned-fewer, Owned-pci, Owned-port, has-remove_first, enable_device-api, pci_of,
  ports_of,
}
use uberos.Drivers.{install_driver}

-- One call of an operation. A driver subscribes once it is installed.
pub data Step (k : Kernel) : Kernel → Type 0 where
  installs : (d : ℕ) → Step k (install_driver d k)
  takes_pci :
      (d device : ℕ) (options : PciOptions)
      → has d k.drivers ≡ true
      → Step k (subscribe_pci d device options k).1
  leaves_pci : (d device : ℕ) → Step k (unsubscribe_pci d device k)
  leaves_all_pci : (d : ℕ) → Step k (unsubscribe_all_pci d k)
  takes_port : (d port : ℕ) → has d k.drivers ≡ true → Step k (subscribe_io_port d port k).1
  leaves_port : (d port : ℕ) → Step k (unsubscribe_io_port d port k)
  leaves_all_ports : (d : ℕ) → Step k (unsubscribe_all_io_port d k)

-- Calls one after another.
pub data Steps : Kernel → Kernel → Type 0 where
  none_more : (k : Kernel) → Steps k k
  then_step : (k k' k'' : Kernel) → Steps k k' → Step k' k'' → Steps k k''

subscribe_pci-Owned :
    (d device : ℕ) (options : PciOptions) (k : Kernel)
    → has d k.drivers ≡ true
    → Owned k
    → Owned (subscribe_pci d device options k).1
unfolding subscribe_pci
subscribe_pci-Owned d device options k l own =
    branch (Bool-cases (is_subscribed_to_pci d device k))
      (Bool-cases (any_driver k.drivers (λ e. is_subscribed_to_pci e device k)))
  where
    given : Kernel
    given = set_pci_devices d (push_back (pci_of k d) device) k

    branch :
        (is_subscribed_to_pci d device k ≡ true) ⊎ (is_subscribed_to_pci d device k ≡ false)
        → (any_driver k.drivers (λ e. is_subscribed_to_pci e device k) ≡ true)
          ⊎ (any_driver k.drivers (λ e. is_subscribed_to_pci e device k) ≡ false)
        → Owned (subscribe_pci d device options k).1
    branch (inl a) b = rw a own
    branch (inr a) (inl b) = rw (a, b) own
    branch (inr a) (inr b) =
        let called = enable_device-api device options given in
        rw (a, b)
          (Owned-pci d k (enable_device device options given)
            (record (k.api d) { subscribed_pci_devices = push_back (pci_of k d) device }) own
            called.1 called.0 device l b refl refl)

subscribe_io_port-Owned :
    (d port : ℕ) (k : Kernel)
    → has d k.drivers ≡ true
    → Owned k
    → Owned (subscribe_io_port d port k).1
unfolding subscribe_io_port
subscribe_io_port-Owned d port k l own =
    branch (Bool-cases (is_subscribed_to_io_port d port k))
      (Bool-cases (any_driver k.drivers (λ e. is_subscribed_to_io_port e port k)))
  where
    branch :
        (is_subscribed_to_io_port d port k ≡ true) ⊎ (is_subscribed_to_io_port d port k ≡ false)
        → (any_driver k.drivers (λ e. is_subscribed_to_io_port e port k) ≡ true)
          ⊎ (any_driver k.drivers (λ e. is_subscribed_to_io_port e port k) ≡ false)
        → Owned (subscribe_io_port d port k).1
    branch (inl a) b = rw a own
    branch (inr a) (inl b) = rw (a, b) own
    branch (inr a) (inr b) =
        rw (a, b)
          (Owned-port d k (set_io_ports d (push_back (ports_of k d) port) k)
            (record (k.api d) { subscribed_io_ports = push_back (ports_of k d) port }) own refl refl
            port l b refl refl)

none_has : (xs : List ℕ) (x : ℕ) → has x [] ≡ true → has x xs ≡ true
none_has xs x h = absurd (true-false h refl)

disable_devices-drivers :
    (devices : List ℕ) (k : Kernel) → (disable_devices devices k).drivers ≡ k.drivers
disable_devices-drivers [] k = refl
disable_devices-drivers (x ∷ xs) k =
    disable_devices-drivers xs
      (output (enable_memory_space x false) (output (enable_io_space x false) k))

Exclusive-installed :
    (d : ℕ) (drivers : List ℕ) (things : ℕ → List ℕ)
    → Exclusive drivers things
    → Exclusive (drivers ++ d ∷ []) things
Exclusive-installed d drivers things ex = record {
  alone = ex.alone;
  listed = λ e x h. (let l = ex.listed e x h in ground (arith, has-append e drivers (d ∷ [])));
}

Step-Owned : (k k' : Kernel) → Step k k' → Owned k → Owned k'
unfolding unsubscribe_pci unsubscribe_io_port unsubscribe_all_io_port unsubscribe_all_pci push_back
Step-Owned k k' (installs d) own = record {
  pci = Exclusive-installed d k.drivers (pci_of k) own.pci;
  ports = Exclusive-installed d k.drivers (ports_of k) own.ports;
}
Step-Owned k k' (takes_pci d device options l) own = subscribe_pci-Owned d device options k l own
Step-Owned k k' (leaves_pci d device) own =
    Owned-fewer d k _ _ own refl refl (λ x. has-remove_first x device (pci_of k d)) (λ x h. h)
Step-Owned k k' (leaves_all_pci d) own =
    Owned-fewer d k k' (record (k.api d) { subscribed_pci_devices = [] }) own
      (disable_devices-drivers (k.api d).subscribed_pci_devices k)
      (ap (λ (a : ℕ → Api). update a d (record (a d) { subscribed_pci_devices = [] }))
        (disable_devices-api (k.api d).subscribed_pci_devices k))
      (none_has (pci_of k d)) (λ x h. h)
Step-Owned k k' (takes_port d port l) own = subscribe_io_port-Owned d port k l own
Step-Owned k k' (leaves_port d port) own =
    Owned-fewer d k _ _ own refl refl (λ x h. h) (λ x. has-remove_first x port (ports_of k d))
Step-Owned k k' (leaves_all_ports d) own =
    Owned-fewer d k _ _ own refl refl (λ x h. h) (none_has (ports_of k d))

Steps-Owned : (k k' : Kernel) → Steps k k' → Owned k → Owned k'
Steps-Owned k k' (none_more _) own = own
Steps-Owned k k'' (then_step _ k' _ before s) own =
    Step-Owned k' k'' s (Steps-Owned k k' before own)

-- No driver has subscribed to a device or a port.
abbrev pub Unsubscribed : Kernel → Type 0
Unsubscribed k = (d x : ℕ) → (has x (pci_of k d) ≡ false) × (has x (ports_of k d) ≡ false)

-- From a state without subscriptions, whatever order the drivers are installed and the operations
-- are called in, if a driver subscribes only once it is installed, no PCI device and no port is
-- ever subscribed to by two drivers.
pub Steps-exclusive :
    (k k' : Kernel)
    → Unsubscribed k
    → Steps k k'
    → ((d e device : ℕ) → has device (pci_of k' d) ≡ true → has device (pci_of k' e) ≡ true → d ≡ e)
      × ((d e port : ℕ) → has port (ports_of k' d) ≡ true → has port (ports_of k' e) ≡ true → d ≡ e)
Steps-exclusive k k' empty s = (end.pci.alone, end.ports.alone)
  where
    start : Owned k
    start = record {
      pci = record {
        alone = λ d e x h l. absurd (true-false h (empty d x).0);
        listed = λ d x h. absurd (true-false h (empty d x).0);
      };
      ports = record {
        alone = λ d e x h l. absurd (true-false h (empty d x).1);
        listed = λ d x h. absurd (true-false h (empty d x).1);
      };
    }

    end : Owned k'
    end = Steps-Owned k k' s start
