-- ===== src/Drivers/Activation.antt =====
-- What `find_and_activate` tries, and what it gives.
use uberos.Prelude.{
  ℕ, ◌≡◌, refl, sym, ap, ◌∙◌, List, [], ◌∷◌, ◌++◌, Option, none, some, Bool, true, false,
  if◌then◌else◌, inl, inr, ◌⊎◌,
}
use uberos.DriverApi.State.{Kernel, Try, success, failure, is_active, is_enabled, iterate}
use uberos.DriverApi.Lifecycle.{Hooks}
use uberos.Drivers.{start_driver, first_active, find_active, activate_first, find_and_activate}
use uberos.Drivers.Outcomes.{start_driver-active}

-- No driver of a list is active.
abbrev pub NoneActive : List ℕ → Kernel → Type 0
NoneActive [] k = Unit {0}
NoneActive (d ∷ ds) k = (is_active d k ≡ false) × NoneActive ds k

-- Each driver of a list was tried in turn, without success: a disabled one was passed over, and an
-- enabled one was started and failed. The start of the next one finds what the last one left.
pub data Tried (hooks : Hooks) : List ℕ → Kernel → Kernel → Type 0 where
  all_tried : {k : Kernel} → Tried hooks [] k k
  passed_over :
      {d : ℕ} {ds : List ℕ} {k k' : Kernel}
      → is_enabled d k ≡ false
      → Tried hooks ds k k'
      → Tried hooks (d ∷ ds) k k'
  refused :
      {d : ℕ} {ds : List ℕ} {k k1 k' : Kernel} {message : ℕ}
      → is_enabled d k ≡ true
      → start_driver hooks d k ≡ (failure message, k1)
      → Tried hooks ds k1 k'
      → Tried hooks (d ∷ ds) k k'

-- The list up to a driver, and after it.
abbrev pub Split : List ℕ → List ℕ → ℕ → Type 0
Split ds before d = (after : List ℕ) × (ds ≡ before ++ d ∷ after)

module _ (hooks : Hooks) where
  -- A driver was started, after those before it in the list were tried in vain.
  abbrev pub Activated : List ℕ → Kernel → ℕ → Kernel → Type 0
  Activated ds k d k' =
      (before : List ℕ) × Split ds before d
      × ((k1 : Kernel) × Tried hooks before k k1
          × (is_enabled d k1 ≡ true)
          × (start_driver hooks d k1 ≡ (success, k')))

  -- What the loop over the candidates gives.
  abbrev LoopEnd : List ℕ → Kernel → Option ℕ × Kernel → Type 0
  LoopEnd ds k (none, k') = Tried hooks ds k k'
  LoopEnd ds k (some d, k') = Activated ds k d k'

  -- What a search for an active driver among the drivers of a type gives. If one is active, the first
  -- such driver, and nothing is started; otherwise the first one whose start succeeds, which is active
  -- then, and if there is none, all were tried in vain.
  abbrev pub Found : List ℕ → Kernel → Option ℕ × Kernel → Type 0
  Found ds k (none, k') = NoneActive ds k × Tried hooks ds k k'
  Found ds k (some d, k') =
      (is_active d k' ≡ true)
      × (((before : List ℕ) × Split ds before d × NoneActive before k × (k' ≡ k))
          ⊎ (NoneActive ds k × Activated ds k d k'))

  later_LoopEnd :
      (d : ℕ) (ds : List ℕ) (k k1 : Kernel) (r : Option ℕ × Kernel)
      → ((es : List ℕ) (k' : Kernel) → Tried hooks es k1 k' → Tried hooks (d ∷ es) k k')
      → LoopEnd ds k1 r
      → LoopEnd (d ∷ ds) k r
  later_LoopEnd d ds k k1 (none, k') first t = first ds k' t
  later_LoopEnd d ds k k1 (some e, k') first (before, (after, s), (k2, t, b, e')) =
      (d ∷ before, (after, ap (λ xs. d ∷ xs) s), (k2, first before k2 t, b, e'))

  activate_first-LoopEnd : (ds : List ℕ) (k : Kernel) → LoopEnd ds k (activate_first hooks ds k)
  unfolding activate_first
  activate_first-LoopEnd [] k = all_tried
  activate_first-LoopEnd (d ∷ ds) k =
      branch (is_enabled d k) refl (start_driver hooks d k) refl (activate_first-LoopEnd ds k)
        (activate_first-LoopEnd ds (start_driver hooks d k).1)
    where
      attempt : Try × Kernel → Option ℕ × Kernel
      attempt r = elim r.0 as (λ _. Option ℕ × Kernel) [
        | success ↦ (some d, r.1)
        | failure message ↦ activate_first hooks ds r.1
      ]

      branch :
          (b : Bool)
          → is_enabled d k ≡ b
          → (r : Try × Kernel) → start_driver hooks d k ≡ r
          → LoopEnd ds k (activate_first hooks ds k)
          → LoopEnd ds r.1 (activate_first hooks ds r.1)
          → LoopEnd (d ∷ ds) k (if b then attempt r else activate_first hooks ds k)
      branch false e r s f g =
          later_LoopEnd d ds k k (activate_first hooks ds k) (λ es k' t. passed_over e t) f
      branch true e (success, k') s f g = ([], (ds, refl), (k, all_tried, e, s))
      branch true e (failure message, k') s f g =
          later_LoopEnd d ds k k' (activate_first hooks ds k') (λ es k'' t. refused e s t) g

  -- A first active driver, or none.
  abbrev Search : List ℕ → Kernel → Option ℕ → Type 0
  Search ds k none = NoneActive ds k
  Search ds k (some d) =
      (is_active d k ≡ true) × ((before : List ℕ) × Split ds before d × NoneActive before k)

  first_active-Search : (ds : List ℕ) (k : Kernel) → Search ds k (first_active ds k)
  first_active-Search [] k = tt
  first_active-Search (d ∷ ds) k =
      branch (is_active d k) refl (first_active ds k) (first_active-Search ds k)
    where
      branch :
          (b : Bool)
          → is_active d k ≡ b
          → (o : Option ℕ) → Search ds k o
          → Search (d ∷ ds) k (if b then some d else o)
      branch true a o f = (a, ([], (ds, refl), tt))
      branch false a none f = (a, f)
      branch false a (some e) (f, (before, (after, s), n)) =
          (f, (d ∷ before, (after, ap (λ xs. d ∷ xs) s), (a, n)))

  found_later :
      (ds : List ℕ) (k : Kernel) (r : Option ℕ × Kernel)
      → NoneActive ds k
      → LoopEnd ds k r
      → Found ds k r
  found_later ds k (none, k') n t = (n, t)
  found_later ds k (some d, k') n (before, s, (k1, t, b, e)) = (
    ap (λ r. is_active d r.1) (sym e) ∙ start_driver-active hooks d k1 (ap (λ r. r.0) e),
    inr (n, (before, s, (k1, t, b, e))),
  )

  -- `find_and_activate`, over the drivers of a type as the list has them when it begins (no driver
  -- is installed while one starts): if one of them is active, it gives the first such one and
  -- changes nothing; otherwise it starts the enabled ones in turn, each in what the one before
  -- left, until one start succeeds: it gives that driver, which is active then, or none after all
  -- of them failed.
  pub find_and_activate-Found :
      (type_id : ℕ) (k : Kernel)
      → Found (iterate k.drivers type_id k) k (find_and_activate hooks type_id k)
  unfolding find_and_activate
  find_and_activate-Found type_id k =
      branch (find_active type_id k) (first_active-Search (iterate k.drivers type_id k) k)
    where
      ds : List ℕ
      ds = iterate k.drivers type_id k

      branch :
          (o : Option ℕ)
          → Search ds k o
          → Found ds k (elim o as (λ _. Option ℕ × Kernel) [
            | some d ↦ (some d, k)
            | none ↦ activate_first hooks ds k
          ])
      branch none n = found_later ds k (activate_first hooks ds k) n (activate_first-LoopEnd ds k)
      branch (some d) (a, (before, s, n)) = (a, inl (before, s, n, refl))
