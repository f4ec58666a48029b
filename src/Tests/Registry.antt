-- ===== src/Tests/Registry.antt =====
-- A kernel with two drivers, of the types 7 and 8.
use uberos.Prelude.{ℕ, ◌+◌, ◌≡◌, refl, List, [], ◌∷◌, Option, none, some, Bool, true, false, has}
use uberos.DriverApi.State.{Kernel, Api, State, inactive, active, on_demand, success, failure}
use uberos.DriverApi.Interrupts.{subscribe_interrupt, unsubscribe_interrupt}
use uberos.DriverApi.Devices.{subscribe_io_port}
use uberos.DriverApi.Lifecycle.{Hooks}
use uberos.DriverApi.Outcomes.{Quiet}
use uberos.DriverApi.Exclusive.{pci_of, ports_of}
use uberos.DriverApi.Reachable.{Steps, none_more, then_step, takes_port, Steps-exclusive}
use uberos.DriverApi.Vectors.{unsubscribe_interrupt-middle}
use uberos.Exceptions.{irq_subscribe, irq_not_available}
use uberos.Exceptions.Again.{irq_subscribe-again}
use uberos.Drivers.{start_driver, stop_driver, find_and_activate}
use uberos.Drivers.Outcomes.{
  StartedOrFailed, start_driver-StartedOrFailed, StoppedOrNot, stop_driver-StoppedOrNot,
}
use uberos.Drivers.Activation.{Found, find_and_activate-Found}

abbrev fresh : State → Bool → Api
fresh state subscribed = record {
  startup = on_demand;
  state = state;
  subscribed_irqs = λ v. false;
  subscribed_interrupts = λ v. subscribed;
  memory = [];
  subscribed_pci_devices = [];
  subscribed_io_ports = [];
}

abbrev kernel : State → Bool → Option (List ℕ) → Kernel
kernel state subscribed array = record {
  drivers = 1 ∷ 2 ∷ [];
  type_ids = λ d. (d + 6) ∷ [];
  irq_range = λ d. (0, 0);
  api = λ d. fresh state subscribed;
  references = λ d. [];
  referenced = λ r. 0;
  interrupt_subscribers = λ v. array;
  irq_subscribers = λ v. none;
  outputs = [];
}

abbrev quiet_hooks : Hooks
quiet_hooks = record {
  on_start = λ d k. (success, k);
  on_stop = λ d k. (success, k);
  on_terminated = λ r k. k;
  can_stop_driver = λ d k. true;
  can_restart_driver = λ d k. true;
}

abbrev idle : Kernel
idle = kernel inactive false none

-- The start fails after the driver has subscribed to an interrupt.
abbrev failing_hooks : Hooks
failing_hooks = record quiet_hooks { on_start = λ d k. (failure 9, subscribe_interrupt d 32 k) }

start_driver-StartedOrFailed_example :
    StartedOrFailed 1 (failure 9, subscribe_interrupt 1 32 idle) (start_driver failing_hooks 1 idle)
start_driver-StartedOrFailed_example = start_driver-StartedOrFailed failing_hooks 1 idle refl

callbacks-Quiet : Quiet quiet_hooks
callbacks-Quiet r k = (refl, refl, refl)

abbrev listening : Kernel
listening = kernel active true (some (2 ∷ 1 ∷ []))

stop_driver-StoppedOrNot_example :
    StoppedOrNot 1 (success, listening) (stop_driver quiet_hooks 1 listening)
stop_driver-StoppedOrNot_example =
    stop_driver-StoppedOrNot quiet_hooks callbacks-Quiet 1 listening refl refl

find_and_activate-Found_example :
    Found quiet_hooks (2 ∷ []) idle (find_and_activate quiet_hooks 8 idle)
find_and_activate-Found_example = find_and_activate-Found quiet_hooks 8 idle

one_step : Steps idle (subscribe_io_port 1 96 idle).1
one_step =
    then_step idle idle (subscribe_io_port 1 96 idle).1 (none_more idle) (takes_port 1 96 refl)

Steps-exclusive_example :
    ((d e device : ℕ)
      → has device (pci_of (subscribe_io_port 1 96 idle).1 d) ≡ true
      → has device (pci_of (subscribe_io_port 1 96 idle).1 e) ≡ true
      → d ≡ e)
    × ((d e port : ℕ)
        → has port (ports_of (subscribe_io_port 1 96 idle).1 d) ≡ true
        → has port (ports_of (subscribe_io_port 1 96 idle).1 e) ≡ true
        → d ≡ e)
Steps-exclusive_example =
    Steps-exclusive idle (subscribe_io_port 1 96 idle).1 (λ d x. (refl, refl)) one_step

not_available : (irq_subscribe 5 1 1 idle).0 ≡ irq_not_available
unfolding irq_subscribe
not_available = refl

irq_subscribe-again_example :
    ((irq_subscribe 5 1 2 (irq_subscribe 5 1 1 idle).1).0 ≡ success)
    × ((irq_subscribe 5 1 2 (irq_subscribe 5 1 1 idle).1).1.outputs ≡ [])
irq_subscribe-again_example = irq_subscribe-again 5 1 1 1 2 idle not_available

unsubscribe_interrupt-middle_example :
    (unsubscribe_interrupt 1 32 (kernel active true (some (1 ∷ 2 ∷ [])))).interrupt_subscribers 32
    ≡ some (1 ∷ [])
unsubscribe_interrupt-middle_example =
    unsubscribe_interrupt-middle 1 32 (kernel active true (some (1 ∷ 2 ∷ []))) [] (2 ∷ []) refl refl
      refl
