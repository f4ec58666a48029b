-- ===== src/DriverApi/Outcomes.antt =====
-- How the starts and stops of a driver end.
use uberos.Prelude.{
  ℕ, ◌≡◌, ◌≢◌, refl, ap, sym, ◌∙◌, subst, List, [], ◌∷◌, Bool, true, false, ◌==◌, if◌then◌else◌,
  ==_refl, ==_ne,
}
use uberos.DriverApi.State.{
  Kernel, State, inactive, active, failed, Try, success, failure, update, is_active,
}
use uberos.DriverApi.Lifecycle.{
  Hooks, unsubscribe_all, fail_driver, set_state, start_driver, started, stop_driver, stopped,
  terminate, terminate_all, clear_references,
}
use uberos.DriverApi.Taken.{unsubscribe_all-Shrinks}
use uberos.DriverApi.Idle.{Idle, unsubscribe_all-Idle}
use uberos.DriverApi.Removed.{Removed, unsubscribe_all-Removed}

module _ (d : ℕ) (k : Kernel) where
  set_state-state : (s : State) → ((set_state d s k).api d).state ≡ s
  set_state-state s = rw (==_refl d) refl

  set_state-startup : (s : State) → ((set_state d s k).api d).startup ≡ (k.api d).startup
  set_state-startup s = rw (==_refl d) refl

  set_state-other : (s : State) (e : ℕ) → e ≢ d → (set_state d s k).api e ≡ k.api e
  set_state-other s e h = rw (==_ne e d h) refl

-- A driver put into a state, with no subscription in its own record, the other drivers' records as they
-- were, and its entry removed from the arrays of the vectors and lines that it was subscribed to.
pub record Released (d : ℕ) (s : State) (k k' : Kernel) : Type 0 where
  pub state : (k'.api d).state ≡ s
  pub startup : (k'.api d).startup ≡ (k.api d).startup
  pub idle : Idle (k'.api d)
  pub other : (e : ℕ) → e ≢ d → k'.api e ≡ k.api e
  pub removed : Removed d k k'

-- A driver that is put into a state and gives up its subscriptions.
pub unsubscribe_all-Released :
    (d : ℕ) (s : State) (k : Kernel) → Released d s k (unsubscribe_all d (set_state d s k))
unsubscribe_all-Released d s k =
    let k' : Kernel = set_state d s k in
    let less = unsubscribe_all-Shrinks d k' in
    record {
      state = less.own.state ∙ set_state-state d k s;
      startup = less.own.startup ∙ set_state-startup d k s;
      idle = unsubscribe_all-Idle d k';
      other = λ e h. less.other e h ∙ set_state-other d k s e h;
      removed = unsubscribe_all-Removed d s k;
    }

-- The drivers and the arrays of subscribers are the same.
abbrev pub Same : Kernel → Kernel → Type 0
Same k k' =
    (k'.api ≡ k.api)
    × (k'.interrupt_subscribers ≡ k.interrupt_subscribers)
    × (k'.irq_subscribers ≡ k.irq_subscribers)

-- Callbacks of references that leave the drivers and the arrays of subscribers alone.
abbrev pub Quiet : Hooks → Type 0
Quiet hooks = (r : ℕ) (k : Kernel) → Same k (hooks.on_terminated r k)

-- A change that leaves them as they are keeps what was released.
Released-Same :
    (d : ℕ) (s : State) (k k' k'' : Kernel) → Released d s k k' → Same k' k'' → Released d s k k''
Released-Same d s k k' k'' r e = record {
  state = ap (λ a. (a d).state) e.0 ∙ r.state;
  startup = ap (λ a. (a d).startup) e.0 ∙ r.startup;
  idle = subst (λ a. Idle (a d)) (sym e.0) r.idle;
  other = λ i h. ap (λ a. a i) e.0 ∙ r.other i h;
  removed = record {
    vectors = λ v l. ap (λ a. a v) e.1 ∙ r.removed.vectors v l;
    lines = λ v l. ap (λ a. a v) e.2 ∙ r.removed.lines v l;
  };
}

-- `fail_driver` marks a driver failed and releases its subscriptions.
pub fail_driver-Released : (d : ℕ) (k : Kernel) → Released d failed k (fail_driver d k)
unfolding fail_driver
fail_driver-Released d k = unsubscribe_all-Released d failed k

is_active-state : (d : ℕ) (k : Kernel) → (k.api d).state ≡ active → is_active d k ≡ true
is_active-state d k e = rw e refl

pub is_active-failed : (d : ℕ) (k : Kernel) → (k.api d).state ≡ failed → is_active d k ≡ false
is_active-failed d k e = rw e refl

pub is_active-inactive : (d : ℕ) (k : Kernel) → (k.api d).state ≡ inactive → is_active d k ≡ false
is_active-inactive d k e = rw e refl

-- How `start_driver` of a driver that is not active ends, by what its `_on_start` left.
abbrev pub Started : ℕ → Try × Kernel → Try × Kernel → Type 0
Started d (success, k) r =
    (r.0 ≡ success)
    × (is_active d r.1 ≡ true)
    × ((e : ℕ) → e ≢ d → r.1.api e ≡ k.api e)
    × (r.1.outputs ≡ k.outputs)
    × (r.1.interrupt_subscribers ≡ k.interrupt_subscribers)
    × (r.1.irq_subscribers ≡ k.irq_subscribers)
Started d (failure message, k) r = (r.0 ≡ failure message) × Released d failed k r.1

module _ (hooks : Hooks) (d : ℕ) where
  started-Started : (r : Try × Kernel) → Started d r (started d r)
  started-Started (success, k) = (
    refl,
    is_active-state d (set_state d active k) (set_state-state d k active),
    set_state-other d k active,
    refl,
    refl,
    refl,
  )
  started-Started (failure message, k) = (refl, unsubscribe_all-Released d failed k)

  -- The start of a driver that is not active succeeds exactly when its own `_on_start` does. The
  -- driver is then active; after a failure it is marked failed and its subscriptions are released,
  -- also those that `_on_start` made. The other drivers' records stay as `_on_start` left them.
  pub start_driver-Started :
      (k : Kernel) → is_active d k ≡ false → Started d (hooks.on_start d k) (start_driver hooks d k)
  unfolding start_driver
  start_driver-Started k e = rw e (started-Started (hooks.on_start d k))

  terminate-Same : Quiet hooks → (r : ℕ) (k : Kernel) → Same k (terminate hooks r k)
  terminate-Same quiet r k = branch (k.referenced r == 0)
    where
      cleared : Kernel
      cleared = record k { referenced = update k.referenced r 0 }

      branch : (b : Bool) → Same k (if b then k else hooks.on_terminated r cleared)
      branch true = (refl, refl, refl)
      branch false = quiet r cleared

  terminate_all-Same : Quiet hooks → (rs : List ℕ) (k : Kernel) → Same k (terminate_all hooks rs k)
  terminate_all-Same quiet [] k = (refl, refl, refl)
  terminate_all-Same quiet (r ∷ rs) k =
      let s = terminate-Same quiet r k in
      let t = terminate_all-Same quiet rs (terminate hooks r k) in (t.0 ∙ s.0, t.1 ∙ s.1, t.2 ∙ s.2)

-- How `stop_driver` of an active driver ends, by what its `_on_stop` left.
abbrev pub Stopped : ℕ → Try × Kernel → Try × Kernel → Type 0
Stopped d (success, k) r = (r.0 ≡ success) × Released d inactive k r.1
Stopped d (failure message, k) r = r ≡ (failure message, k)

module _ (hooks : Hooks) (quiet : Quiet hooks) (d : ℕ) where
  stopped-Stopped : (r : Try × Kernel) → Stopped d r (stopped hooks d r)
  stopped-Stopped (failure message, k) = refl
  stopped-Stopped (success, k) =
      let left : Kernel = unsubscribe_all d (set_state d inactive k) in
      let ended : Kernel = terminate_all hooks (left.references d) left in
      (
        refl,
        Released-Same d inactive k left (clear_references d ended)
            (unsubscribe_all-Released d inactive k)
            (terminate_all-Same hooks d quiet (left.references d) left),
      )

  -- For quiet callbacks of references, the stop of an active driver succeeds exactly when its own
  -- `_on_stop` does. The driver is then inactive and its subscriptions are released; after a failure
  -- everything is as `_on_stop` left it.
  pub stop_driver-Stopped :
      (k : Kernel) → is_active d k ≡ true → Stopped d (hooks.on_stop d k) (stop_driver hooks d k)
  unfolding stop_driver
  stop_driver-Stopped k e = rw e (stopped-Stopped (hooks.on_stop d k))
