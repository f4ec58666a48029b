-- ===== src/DriverApi/Lifecycle.antt =====
-- How a driver starts, stops and fails: the end of kernel/DriverApi.cpp. The driver's own `_on_start`
-- and `_on_stop`, and the callbacks of the references to it, are arguments. A callback leaves the
-- list of references alone, which the loop over them walks.
use uberos.Prelude.{ℕ, List, [], ◌∷◌, Bool, ◌==◌, if◌then◌else◌}
use uberos.PodArray.{clear}
use uberos.DriverApi.State.{
  Kernel, State, inactive, active, failed, Try, success, failure, update, set_api, is_active,
}
use uberos.DriverApi.Interrupts.{unsubscribe_all_interrupts, unsubscribe_all_irqs}
use uberos.DriverApi.Devices.{unsubscribe_all_pci, unsubscribe_all_io_port}

-- The driver's own code, and that of the references to it.
pub record Hooks : Type 0 where
  pub on_start : ℕ → Kernel → Try × Kernel
  pub on_stop : ℕ → Kernel → Try × Kernel
  pub on_terminated : ℕ → Kernel → Kernel
  pub can_stop_driver : ℕ → Kernel → Bool
  pub can_restart_driver : ℕ → Kernel → Bool

abbrev pub set_state : ℕ → State → Kernel → Kernel
set_state d state k = set_api d (record (k.api d) { state = state }) k

abbrev pub unsubscribe_all_memory : ℕ → Kernel → Kernel
unsubscribe_all_memory d k = set_api d (record (k.api d) { memory = clear (k.api d).memory }) k

-- The five calls that a stop, a failed start and a failure share.
unfoldable pub unsubscribe_all : ℕ → Kernel → Kernel
unsubscribe_all d k = unsubscribe_all_io_port d (
    unsubscribe_all_pci d
      (unsubscribe_all_irqs d (unsubscribe_all_interrupts d (unsubscribe_all_memory d k))))

unfoldable pub fail_driver : ℕ → Kernel → Kernel
unfolding unsubscribe_all
fail_driver d k = unsubscribe_all d (set_state d failed k)

-- `LList::clear`, in what a walk from the head then meets: every link is taken away, but the head still
-- points at the first item.
abbrev pub unlinked : List ℕ → List ℕ
unlinked [] = []
unlinked (r ∷ rs) = r ∷ []

-- `references.clear()`
abbrev pub clear_references : ℕ → Kernel → Kernel
clear_references d k = record k { references = update k.references d (unlinked (k.references d)) }

-- The rest of `start_driver` after `_on_start`.
abbrev pub started : ℕ → Try × Kernel → Try × Kernel
started d (success, k) = (success, set_state d active k)
started d (failure message, k) = (failure message, unsubscribe_all d (set_state d failed k))

module _ (hooks : Hooks) where
  -- `DriverReference::terminate`
  abbrev pub terminate : ℕ → Kernel → Kernel
  terminate r k =
      if k.referenced r == 0
      then k
      else hooks.on_terminated r (record k { referenced = update k.referenced r 0 })

  abbrev pub terminate_all : List ℕ → Kernel → Kernel
  terminate_all [] k = k
  terminate_all (r ∷ rs) k = terminate_all rs (terminate r k)

  unfoldable pub start_driver : ℕ → Kernel → Try × Kernel
  start_driver d k = if is_active d k then (success, k) else started d (hooks.on_start d k)

  -- The rest of `stop_driver` after `_on_stop`.
  abbrev pub stopped : ℕ → Try × Kernel → Try × Kernel
  stopped d (success, k) =
      let left = unsubscribe_all d (set_state d inactive k) in
      (success, clear_references d (terminate_all (left.references d) left))
  stopped d (failure message, k) = (failure message, k)

  unfoldable pub stop_driver : ℕ → Kernel → Try × Kernel
  stop_driver d k = if is_active d k then stopped d (hooks.on_stop d k) else (success, k)

  -- The rest of `restart_driver` after `stop_driver`.
  abbrev pub restarted : ℕ → Try × Kernel → Try × Kernel
  restarted d (success, k) = if is_active d k then (success, k) else start_driver d k
  restarted d (failure message, k) = (failure message, k)

  unfoldable pub restart_driver : ℕ → Kernel → Try × Kernel
  unfolding start_driver stop_driver
  restart_driver d k = restarted d (stop_driver d k)
