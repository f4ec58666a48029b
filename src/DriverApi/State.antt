-- ===== src/DriverApi/State.antt =====
-- What the kernel keeps of its drivers: kernel/DriverApi.hpp's fields of each driver, the lists of
-- kernel/drivers.cpp and kernel/exceptions.cpp, and the calls that leave this code, in their order.
-- A driver, a PCI device, a port and a reference are named by their addresses.
use uberos.Prelude.{
  ℕ, zero, suc, ◌+◌, List, [], ◌++◌, ◌∷◌, Option, none, some, Bool, true, false, not, ◌||◌, ◌==◌,
  if◌then◌else◌,
}
use uberos.PodArray.{remove}
use uberos.DriverApi.Memory.{MemoryRange}

pub data Startup : Type 0 where
  disabled on_demand automatic : Startup

pub data State : Type 0 where
  inactive active failed : State

-- `DriverApi`; a `Bitmask256` is the function of its bits.
pub record Api : Type 0 where
  pub startup : Startup
  pub state : State
  pub subscribed_irqs : ℕ → Bool
  pub subscribed_interrupts : ℕ → Bool
  pub memory : List MemoryRange
  pub subscribed_pci_devices : List ℕ
  pub subscribed_io_ports : List ℕ

-- `IrqSubscription`
pub record IrqSubscription : Type 0 where
  pub subscriber : ℕ
  pub subscriber_data : ℕ

-- The calls of other code: events, interrupt controllers and PCI devices.
pub data Output : Type 0 where
  driver_installed driver_started driver_stopped : ℕ → Output
  enable_irq disable_irq : ℕ → ℕ → Output
  enable_io_space enable_memory_space enable_bus_mastering enable_interrupts : ℕ → Bool → Output

pub record Kernel : Type 0 where
  pub drivers : List ℕ
  pub type_ids : ℕ → List ℕ
  pub irq_range : ℕ → ℕ × ℕ
  pub api : ℕ → Api
  pub references : ℕ → List ℕ
  pub referenced : ℕ → ℕ
  pub interrupt_subscribers : ℕ → Option (List ℕ)
  pub irq_subscribers : ℕ → Option (List IrqSubscription)
  pub outputs : List Output

-- `Try<>`, with the message of a failure as a number.
pub data Try : Type 0 where
  success : Try
  failure : ℕ → Try

-- A function with another value at one place.
abbrev pub update {ℓ} : {A : Type ℓ} → (ℕ → A) → ℕ → A → ℕ → A
update f i v j = if j == i then v else f j

abbrev pub set_api : ℕ → Api → Kernel → Kernel
set_api d a k = record k { api = update k.api d a }

abbrev pub output : Output → Kernel → Kernel
output o k = record k { outputs = k.outputs ++ o ∷ [] }

abbrev pub is_active : ℕ → Kernel → Bool
is_active d k = is_active_state (k.api d).state
  where
    is_active_state : State → Bool
    is_active_state active = true
    is_active_state inactive = false
    is_active_state failed = false

abbrev pub is_disabled : ℕ → Kernel → Bool
is_disabled d k = is_disabled_startup (k.api d).startup
  where
    is_disabled_startup : Startup → Bool
    is_disabled_startup disabled = true
    is_disabled_startup on_demand = false
    is_disabled_startup automatic = false

abbrev pub is_enabled : ℕ → Kernel → Bool
is_enabled d k = not (is_disabled d k)

-- Whether a type id stands in the chain of a driver's types.
abbrev pub is_type : List ℕ → ℕ → Bool
is_type [] type_id = false
is_type (t ∷ ts) type_id = t == type_id || is_type ts type_id

-- `drivers::iterate`: the drivers of a type, in the order of the list.
abbrev pub iterate : List ℕ → ℕ → Kernel → List ℕ
iterate [] type_id k = []
iterate (d ∷ ds) type_id k =
    let rest = iterate ds type_id k in if is_type (k.type_ids d) type_id then d ∷ rest else rest

-- The place of the first item that a test takes.
abbrev pub find_index {ℓ} : {A : Type ℓ} → (A → Bool) → List A → Option ℕ
find_index p [] = none
find_index p (x ∷ xs) =
    if p x then some 0 else elim (find_index p xs) [ none ↦ none | some i ↦ some (i + 1) ]

-- The loop `for(i...) if(... matches) { remove(i); break; }`.
abbrev pub remove_first {ℓ} : {A : Type ℓ} → (A → Bool) → List A → List A
remove_first p xs = elim (find_index p xs) [ none ↦ xs | some i ↦ remove i xs ]

-- A loop over the numbers below a bound.
unfoldable pub for_below : ℕ → (ℕ → Kernel → Kernel) → Kernel → Kernel
for_below zero f k = k
for_below (suc n) f k = f n (for_below n f k)
