-- ===== src/Drivers.antt =====
-- The list of drivers of kernel/drivers.cpp. What is written to the log is left out. A loop over the
-- drivers walks the list as it was when the loop began: no driver is installed while one starts.
pub mod Outcomes
pub mod Activation
use uberos.Prelude.{
  ℕ, zero, suc, ◌+◌, List, [], ◌++◌, ◌∷◌, Option, none, some, Bool, true, false, not, ◌&&◌, ◌==◌,
  if◌then◌else◌,
}
use uberos.PodArray.{push_back}
use uberos.DriverApi.State.{
  Kernel, Output, driver_installed, driver_started, driver_stopped, Try, success, failure, output,
  is_active, is_disabled, is_enabled, is_type, iterate,
}
use uberos.DriverApi.Memory.{is_subscribed_to_memory}
use uberos.DriverApi.Lifecycle.{Hooks}
use uberos.DriverApi.Lifecycle

abbrev pub install_driver : ℕ → Kernel → Kernel
install_driver d k = output (driver_installed d) (record k { drivers = push_back k.drivers d })

-- `"Unable to start driver"`, `"This driver cannot be stopped"`, `"Unable to stop driver"`, `"This
-- driver cannot be restarted"` and `"Unable to restart driver"`
abbrev pub unable_to_start : Try
unable_to_start = failure 3

abbrev pub cannot_be_stopped : Try
cannot_be_stopped = failure 4

abbrev pub unable_to_stop : Try
unable_to_stop = failure 5

abbrev pub cannot_be_restarted : Try
cannot_be_restarted = failure 6

abbrev pub unable_to_restart : Try
unable_to_restart = failure 7

-- What follows the driver's own start: an error counts only for a driver that is not active.
abbrev pub check_started : ℕ → Try × Kernel → Try × Kernel
check_started d (failure message, k) =
    if not (is_active d k) then (failure message, k) else (success, output (driver_started d) k)
check_started d (success, k) =
    if not (is_active d k) then (unable_to_start, k) else (success, output (driver_started d) k)

-- What follows the driver's own stop: the test is of the startup, not of the state.
abbrev pub check_stopped : ℕ → Try × Kernel → Try × Kernel
check_stopped d (failure message, k) = (failure message, k)
check_stopped d (success, k) =
    if not (is_disabled d k) then (unable_to_stop, k) else (success, output (driver_stopped d) k)

-- What follows the driver's own restart.
abbrev pub check_active : ℕ → Kernel → Try × Kernel
check_active d k =
    if not (is_active d k) then (unable_to_restart, k) else (success, output (driver_started d) k)

abbrev pub check_restarted : ℕ → Try × Kernel → Try × Kernel
check_restarted d (failure message, k) =
    let k' = output (driver_stopped d) k in
    if not (is_active d k') then (failure message, k') else check_active d k'
check_restarted d (success, k) = check_active d k

-- The first active driver of a list.
abbrev pub first_active : List ℕ → Kernel → Option ℕ
first_active [] k = none
first_active (d ∷ ds) k = if is_active d k then some d else first_active ds k

abbrev pub find_active : ℕ → Kernel → Option ℕ
find_active type_id k = first_active (iterate k.drivers type_id k) k

module _ (hooks : Hooks) where
  unfoldable pub start_driver : ℕ → Kernel → Try × Kernel
  start_driver d k =
      if is_active d k then (success, k) else check_started d (Lifecycle.start_driver hooks d k)

  unfoldable pub stop_driver : ℕ → Kernel → Try × Kernel
  stop_driver d k =
      if not (is_active d k)
      then (success, k)
      else if not (hooks.can_stop_driver d k)
      then (cannot_be_stopped, k)
      else check_stopped d (Lifecycle.stop_driver hooks d k)

  unfoldable pub restart_driver : ℕ → Kernel → Try × Kernel
  unfolding start_driver
  restart_driver d k =
      if not (is_active d k)
      then start_driver d k
      else if not (hooks.can_restart_driver d k)
      then (cannot_be_restarted, k)
      else check_restarted d (Lifecycle.restart_driver hooks d k)

  -- The loop of `find_and_activate` over the candidates.
  unfoldable pub activate_first : List ℕ → Kernel → Option ℕ × Kernel
  activate_first [] k = (none, k)
  activate_first (d ∷ ds) k =
      let skipped = activate_first ds k in
      let next = activate_first ds (start_driver d k).1 in
      if is_enabled d k
      then elim (start_driver d k).0 [
        | success ↦ (some d, (start_driver d k).1)
        | failure message ↦ next
      ]
      else skipped

  unfoldable pub find_and_activate : ℕ → Kernel → Option ℕ × Kernel
  unfolding activate_first
  find_and_activate type_id k = elim (find_active type_id k) [
    | some d ↦ (some d, k)
    | none ↦ activate_first (iterate k.drivers type_id k) k
  ]

-- `find_first`, and `find_next` from the drivers that follow.
abbrev pub find_first : List ℕ → ℕ → Kernel → Option ℕ
find_first [] type_id k = none
find_first (d ∷ ds) type_id k =
    if is_type (k.type_ids d) type_id then some d else find_first ds type_id k

-- The drivers after one.
abbrev pub following : ℕ → List ℕ → List ℕ
following after [] = []
following after (d ∷ ds) = if d == after then ds else following after ds

abbrev pub find_next : ℕ → ℕ → Kernel → Option ℕ
find_next after type_id k = find_first (following after k.drivers) type_id k

abbrev pub memory_in_use : List ℕ → ℕ → ℕ → Kernel → Bool
memory_in_use [] address size k = false
memory_in_use (d ∷ ds) address size k =
    if not (is_active d k)
    then memory_in_use ds address size k
    else if is_subscribed_to_memory address size (k.api d).memory
    then true
    else memory_in_use ds address size k

abbrev pub is_memory_in_use : ℕ → ℕ → Kernel → Bool
is_memory_in_use address size k = memory_in_use k.drivers address size k
