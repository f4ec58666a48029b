-- ===== src/LList/Refinement.antt =====
-- The intrusive list as a sequence: what the methods do to the abstract sequence of items, and that
-- the links implement it.
use uberos.Prelude
use uberos.Prelude.{
  ℕ, ◌+◌, ◌%◌, ◌≡◌, ◌≢◌, refl, ap, sym, ◌∙◌, subst, List, [], ◌∷◌, ◌++◌, Option, none, some, Bool,
  true, false, arith, has, u32_mod,
}
use uberos.LList.{
  Ptr, null, State, push_front, push_back, pop_front, pop, insert_before, insert_after, contains,
  length,
}
use uberos.LList.Links.{IsList}
use uberos.LList.Ends.{push_front-IsList, push_back-IsList, pop_front-IsList}
use uberos.LList.Middle.{pop-IsList, insert_before-IsList}
use uberos.LList.After.{insert_after-IsList}
use uberos.LList.Walk.{contains-has, length-size}

-- A call of a method.
pub data Call : Type 0 where
  pushes_front pushes_back pops : Ptr → Call
  pops_front : Call
  inserts_before inserts_after : Ptr → Ptr → Call

-- What the call does to a list.
abbrev pub perform : Call → State → State
perform (pushes_front item) s = push_front item s
perform (pushes_back item) s = push_back item s
perform (pops item) s = pop item s
perform pops_front s = (pop_front s).1
perform (inserts_before after item) s = insert_before after item s
perform (inserts_after before item) s = insert_after before item s

abbrev pub perform_all : List Call → State → State
perform_all [] s = s
perform_all (c ∷ cs) s = perform_all cs (perform c s)

-- An item that may enter a sequence.
abbrev pub New : Ptr → List Ptr → Type 0
New item xs = (item ≢ null) × (has item xs ≡ false)

-- What the call does to a sequence, and where it is allowed.
pub data Change : List Ptr → Call → List Ptr → Type 0 where
  in_front : (xs : List Ptr) (item : Ptr) → New item xs → Change xs (pushes_front item) (item ∷ xs)
  at_end :
      (xs : List Ptr) (item : Ptr) → New item xs → Change xs (pushes_back item) (xs ++ item ∷ [])
  taken_out :
      (xs : List Ptr) (item : Ptr) (ys : List Ptr) → Change (xs ++ item ∷ ys) (pops item) (xs ++ ys)
  first_out : (item : Ptr) (xs : List Ptr) → Change (item ∷ xs) pops_front xs
  before_one :
      (xs : List Ptr) (after item : Ptr) (ys : List Ptr)
      → New item (xs ++ after ∷ ys)
      → Change (xs ++ after ∷ ys) (inserts_before after item) (xs ++ item ∷ after ∷ ys)
  after_one :
      (xs : List Ptr) (before item : Ptr) (ys : List Ptr)
      → New item (xs ++ before ∷ ys)
      → Change (xs ++ before ∷ ys) (inserts_after before item) (xs ++ before ∷ item ∷ ys)

pub data Changes : List Ptr → List Call → List Ptr → Type 0 where
  unchanged : (xs : List Ptr) → Changes xs [] xs
  and_then :
      (xs : List Ptr) (c : Call) (ys : List Ptr) (cs : List Call) (zs : List Ptr)
      → Change xs c ys
      → Changes ys cs zs
      → Changes xs (c ∷ cs) zs

perform-IsList :
    (s : State) (xs : List Ptr) (c : Call) (ys : List Ptr)
    → Change xs c ys
    → IsList s xs
    → IsList (perform c s) ys
perform-IsList s _ _ _ (in_front xs item n) v = (push_front-IsList s xs item v n.0 n.1).0
perform-IsList s _ _ _ (at_end xs item n) v = (push_back-IsList s xs item v n.0 n.1).0
perform-IsList s _ _ _ (taken_out xs item ys) v = (pop-IsList s xs item ys v).0
perform-IsList s _ _ _ (first_out item xs) v = (pop_front-IsList s item xs v).1
perform-IsList s _ _ _ (before_one xs after item ys n) v =
    (insert_before-IsList s xs after item ys v n.0 n.1).0
perform-IsList s _ _ _ (after_one xs before item ys n) v =
    (insert_after-IsList s xs before item ys v n.0 n.1).0

perform_all-IsList :
    (s : State) (xs : List Ptr) (cs : List Call) (ys : List Ptr)
    → Changes xs cs ys
    → IsList s xs
    → IsList (perform_all cs s) ys
perform_all-IsList s _ _ _ (unchanged xs) v = v
perform_all-IsList s _ _ _ (and_then xs c ys cs zs one more) v =
    perform_all-IsList (perform c s) ys cs zs more (perform-IsList s xs c ys one v)

-- The links implement the sequence: any calls of `push_front`, `push_back`, `pop`, `pop_front`,
-- `insert_before` and `insert_after` that the abstract sequence allows, made on a well-formed list,
-- leave a well-formed list of the items that the sequence then has, in its order; `length` and
-- `contains`, with one round of fuel more than items, then end and answer for that sequence (`length`
-- modulo 2^32).
pub perform_all-refines :
    (s : State) (xs : List Ptr) (cs : List Call) (ys : List Ptr)
    → IsList s xs
    → Changes xs cs ys
    → IsList (perform_all cs s) ys
      × (length (Prelude.length ys + 1) (perform_all cs s) ≡ some (Prelude.length ys % u32_mod))
      × ((item : Ptr)
          → contains (Prelude.length ys + 1) item (perform_all cs s) ≡ some (has item ys))
perform_all-refines s xs cs ys v c =
    let w = perform_all-IsList s xs cs ys c v in
    (
      w,
      length-size (perform_all cs s) ys (Prelude.length ys + 1) w (omega arith) ∙ ap some w.size,
      λ item. contains-has (perform_all cs s) ys item (Prelude.length ys + 1) w (omega arith),
    )
