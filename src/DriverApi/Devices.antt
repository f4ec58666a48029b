-- ===== src/DriverApi/Devices.antt =====
-- The PCI devices and the ports of a driver in kernel/DriverApi.cpp. Each is one driver's at a time.
use uberos.Prelude.{ℕ, List, [], ◌∷◌, Bool, true, false, ◌||◌, ◌==◌, if◌then◌else◌, has}
use uberos.PodArray.{push_back, clear}
use uberos.DriverApi.State.{
  Kernel, enable_io_space, enable_memory_space, enable_bus_mastering, enable_interrupts, Try,
  success, failure, set_api, output, remove_first,
}

pub record PciOptions : Type 0 where
  pub io_space : Bool
  pub memory_space : Bool
  pub bus_mastering : Bool
  pub interrupts : Bool

abbrev pub set_pci_devices : ℕ → List ℕ → Kernel → Kernel
set_pci_devices d devices k = set_api d (record (k.api d) { subscribed_pci_devices = devices }) k

abbrev pub set_io_ports : ℕ → List ℕ → Kernel → Kernel
set_io_ports d ports k = set_api d (record (k.api d) { subscribed_io_ports = ports }) k

abbrev pub is_subscribed_to_pci : ℕ → ℕ → Kernel → Bool
is_subscribed_to_pci d device k = has device (k.api d).subscribed_pci_devices

abbrev pub is_subscribed_to_io_port : ℕ → ℕ → Kernel → Bool
is_subscribed_to_io_port d port k = has port (k.api d).subscribed_io_ports

-- Whether one of the drivers has subscribed.
abbrev pub any_driver : List ℕ → (ℕ → Bool) → Bool
any_driver [] p = false
any_driver (d ∷ ds) p = p d || any_driver ds p

-- `"PCI device not available - already in use"` and `"I/O port not available - already in use"`
abbrev pub pci_in_use : Try
pci_in_use = failure 1

abbrev pub port_in_use : Try
port_in_use = failure 2

-- The calls of a device that was subscribed to.
abbrev pub enable_device : ℕ → PciOptions → Kernel → Kernel
enable_device device options k =
    let spaces =
      output (enable_memory_space device options.memory_space)
        (output (enable_io_space device options.io_space) k) in
    let mastering =
      if options.bus_mastering then output (enable_bus_mastering device true) spaces else spaces in
    if options.interrupts then output (enable_interrupts device true) mastering else mastering

unfoldable pub subscribe_pci : ℕ → ℕ → PciOptions → Kernel → Try × Kernel
subscribe_pci d device options k =
    if is_subscribed_to_pci d device k
    then (success, k)
    else if any_driver k.drivers (λ e. is_subscribed_to_pci e device k)
    then (pci_in_use, k)
    else (
      success,
      enable_device device options
          (set_pci_devices d (push_back (k.api d).subscribed_pci_devices device) k),
    )

unfoldable pub unsubscribe_pci : ℕ → ℕ → Kernel → Kernel
unsubscribe_pci d device k =
    set_pci_devices d (remove_first (λ e. e == device) (k.api d).subscribed_pci_devices) k

abbrev pub disable_devices : List ℕ → Kernel → Kernel
disable_devices [] k = k
disable_devices (device ∷ devices) k =
    disable_devices devices
      (output (enable_memory_space device false) (output (enable_io_space device false) k))

unfoldable pub unsubscribe_all_pci : ℕ → Kernel → Kernel
unsubscribe_all_pci d k =
    set_pci_devices d (clear (k.api d).subscribed_pci_devices)
      (disable_devices (k.api d).subscribed_pci_devices k)

unfoldable pub subscribe_io_port : ℕ → ℕ → Kernel → Try × Kernel
subscribe_io_port d port k =
    if is_subscribed_to_io_port d port k
    then (success, k)
    else if any_driver k.drivers (λ e. is_subscribed_to_io_port e port k)
    then (port_in_use, k)
    else (success, set_io_ports d (push_back (k.api d).subscribed_io_ports port) k)

unfoldable pub unsubscribe_io_port : ℕ → ℕ → Kernel → Kernel
unsubscribe_io_port d port k =
    set_io_ports d (remove_first (λ e. e == port) (k.api d).subscribed_io_ports) k

unfoldable pub unsubscribe_all_io_port : ℕ → Kernel → Kernel
unsubscribe_all_io_port d k = set_io_ports d (clear (k.api d).subscribed_io_ports) k
