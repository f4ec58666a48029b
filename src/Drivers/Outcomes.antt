-- ===== src/Drivers/Outcomes.antt =====
-- How the operations on the list of drivers end.
use uberos.Prelude.{
  ℕ, ◌≡◌, ◌≢◌, refl, ap, sym, ◌∙◌, [], ◌∷◌, ◌++◌, Bool, true, false, not, if◌then◌else◌, inl, inr,
  ◌⊎◌, Bool-cases,
}
use uberos.DriverApi.State.{
  Kernel, inactive, failed, Try, success, failure, driver_started, driver_stopped, output,
  is_active, is_disabled,
}
use uberos.DriverApi.Lifecycle.{Hooks}
use uberos.DriverApi.Lifecycle
use uberos.DriverApi.Outcomes.{
  Quiet, Released, Started, start_driver-Started, Stopped, stop_driver-Stopped, is_active-failed,
}
use uberos.Drivers.{start_driver, check_started, stop_driver, check_stopped, unable_to_stop}

-- How a start through the list ends, by what the driver's `_on_start` left.
abbrev pub StartedOrFailed : ℕ → Try × Kernel → Try × Kernel → Type 0
StartedOrFailed d (success, k) r =
    (r.0 ≡ success)
    × (is_active d r.1 ≡ true)
    × ((e : ℕ) → e ≢ d → r.1.api e ≡ k.api e)
    × (r.1.outputs ≡ k.outputs ++ driver_started d ∷ [])
    × (r.1.interrupt_subscribers ≡ k.interrupt_subscribers)
    × (r.1.irq_subscribers ≡ k.irq_subscribers)
StartedOrFailed d (failure message, k) r = (r.0 ≡ failure message) × Released d failed k r.1

success_not_failure : (message : ℕ) → success ≢ failure message
success_not_failure message e = cc

module _ (hooks : Hooks) (d : ℕ) where
  check_started-StartedOrFailed :
      (h r : Try × Kernel) → Started d h r → StartedOrFailed d h (check_started d r)
  check_started-StartedOrFailed (success, k) (success, k') s =
      rw s.1 (refl, s.1, s.2, ap (λ o. o ++ driver_started d ∷ []) s.3, s.4, s.5)
  check_started-StartedOrFailed (success, k) (failure message, k') s =
      absurd (success_not_failure message (sym s.0))
  check_started-StartedOrFailed (failure message, k) (success, k') s =
      absurd (success_not_failure message s.0)
  check_started-StartedOrFailed (failure message, k) (failure m, k') s =
      rw (is_active-failed d k' s.1.state) s

  -- The start of a driver that is not active succeeds exactly when its own `_on_start` does; the
  -- driver is then active, and the event that it started is the only call that follows; after a
  -- failure it is marked failed, its own record has no subscription any more, also of those that
  -- `_on_start` made, and for each vector and line that the record had, `PodArray::remove` (which
  -- keeps a first item) has removed its entry from the array of subscribers; all other such arrays
  -- are as `_on_start` left them, and so are the other drivers' records, in both cases.
  pub start_driver-StartedOrFailed :
      (k : Kernel)
      → is_active d k ≡ false
      → StartedOrFailed d (hooks.on_start d k) (start_driver hooks d k)
  unfolding start_driver
  start_driver-StartedOrFailed k e = rw e (
      check_started-StartedOrFailed (hooks.on_start d k) (Lifecycle.start_driver hooks d k)
        (start_driver-Started hooks d k e))

  -- Whatever the driver's own code does, a start that succeeds leaves the driver active.
  pub start_driver-active :
      (k : Kernel)
      → (start_driver hooks d k).0 ≡ success
      → is_active d (start_driver hooks d k).1 ≡ true
  unfolding start_driver
  start_driver-active k = split (Bool-cases (is_active d k))
    where
      ended : (h r : Try × Kernel) → StartedOrFailed d h r → r.0 ≡ success → is_active d r.1 ≡ true
      ended (success, k) r s e = s.1
      ended (failure message, k) r s e = absurd (success_not_failure message (sym e ∙ s.0))

      split :
          (is_active d k ≡ true) ⊎ (is_active d k ≡ false)
          → (start_driver hooks d k).0 ≡ success
          → is_active d (start_driver hooks d k).1 ≡ true
      split (inl a) = rw a (λ e. a)
      split (inr a) =
          ended (hooks.on_start d k) (start_driver hooks d k) (start_driver-StartedOrFailed k a)

-- How a stop through the list ends, by what the driver's `_on_stop` left.
abbrev pub StoppedOrNot : ℕ → Try × Kernel → Try × Kernel → Type 0
StoppedOrNot d (success, k) r =
    (r.0 ≡ (if is_disabled d k then success else unable_to_stop)) × Released d inactive k r.1
StoppedOrNot d (failure message, k) r = r ≡ (failure message, k)

module _ (hooks : Hooks) (quiet : Quiet hooks) (d : ℕ) where
  is_disabled-startup :
      (k k' : Kernel) → (k'.api d).startup ≡ (k.api d).startup → is_disabled d k' ≡ is_disabled d k
  is_disabled-startup k k' e = rw e refl

  check_stopped-StoppedOrNot :
      (h r : Try × Kernel) → Stopped d h r → StoppedOrNot d h (check_stopped d r)
  check_stopped-StoppedOrNot (success, k) (success, k') s =
      rw (is_disabled-startup k k' s.1.startup) (branch (is_disabled d k))
    where
      noted : Kernel
      noted = output (driver_stopped d) k'

      ending : Bool → Try × Kernel
      ending b = if not b then (unable_to_stop, k') else (success, noted)

      branch :
          (b : Bool)
          → ((ending b).0 ≡ (if b then success else unable_to_stop))
            × Released d inactive k (ending b).1
      branch true = (
        refl,
        record {
          state = s.1.state;
          startup = s.1.startup;
          idle = s.1.idle;
          other = s.1.other;
          removed = record { vectors = s.1.removed.vectors; lines = s.1.removed.lines };
        },
      )
      branch false = (refl, s.1)
  check_stopped-StoppedOrNot (success, k) (failure message, k') s =
      absurd (success_not_failure message (sym s.0))
  check_stopped-StoppedOrNot (failure message, k) (success, k') s =
      absurd (success_not_failure message (ap (λ r. r.0) s))
  check_stopped-StoppedOrNot (failure message, k) (failure m, k') s = s

  -- For callbacks of references that leave the driver's list of references, the drivers' records
  -- and the arrays of subscribers alone, the stop of an active driver that may be stopped: when
  -- its `_on_stop` succeeds, the driver is inactive, its own record has no subscription any more,
  -- and for each vector and line that the record had, `PodArray::remove` (which keeps a first
  -- item) has removed its entry from the array of subscribers; all other such arrays and the other
  -- drivers' records are as `_on_stop` left them; but success is reported only for a driver that
  -- is disabled, for every other one "Unable to stop driver" is; when `_on_stop` fails, its
  -- failure is the result, and everything is as it left it.
  pub stop_driver-StoppedOrNot :
      (k : Kernel)
      → is_active d k ≡ true
      → hooks.can_stop_driver d k ≡ true
      → StoppedOrNot d (hooks.on_stop d k) (stop_driver hooks d k)
  unfolding stop_driver
  stop_driver-StoppedOrNot k a c =
      rw (a, c)
        (check_stopped-StoppedOrNot (hooks.on_stop d k) (Lifecycle.stop_driver hooks d k)
          (stop_driver-Stopped hooks quiet d k a))
