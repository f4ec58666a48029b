-- ===== src/LList/Walk.antt =====
-- The walks along a list: `contains` and `length`. One round of fuel more than items is enough.
use uberos.Prelude.{
  ℕ, zero, suc, ◌+◌, ◌%◌, ◌<◌, ◌≡◌, refl, List, [], ◌∷◌, some, arith, has, u32_mod, add32, ◌∙◌, ap,
  Bool, true, ◌||◌, ◌==◌, if◌then◌else◌,
}
use uberos.Prelude
use uberos.LList.{Ptr, null, Store, State, contains_loop, contains, length_loop, length}
use uberos.LList.Links.{Links, first, Distinct, IsList, or_else-ne}

found :
    (x object : Ptr) (rest : Bool)
    → (if x == object then some true else some rest) ≡ some (object == x || rest)
found x object rest = ground arith

contains_loop-has :
    (k : ℕ) (s : Store) (object before : Ptr) (xs : List Ptr)
    → Prelude.length xs < k
    → Distinct xs
    → Links s before xs null
    → contains_loop k s object (first xs null) ≡ some (has object xs)
unfolding contains_loop
contains_loop-has zero s object before xs fuel d h = elim fuel [ ]
contains_loop-has (suc k) s object before [] fuel d h = refl
contains_loop-has (suc k) s object before (x ∷ xs) fuel d h =
    let rest = contains_loop-has k s object x xs (omega arith) d.2 h.2 in
    or_else-ne x _ _ d.0 ∙ rw (h.1, rest) (found x object (has object xs))

-- `contains` ends, and says whether the item is in the list.
pub contains-has :
    (t : State) (xs : List Ptr) (object : Ptr) (fuel : ℕ)
    → IsList t xs
    → Prelude.length xs < fuel
    → contains fuel object t ≡ some (has object xs)
unfolding contains
contains-has t xs object fuel v enough =
    rw v.head (contains_loop-has fuel t.links object null xs enough v.distinct v.chain)

length_loop-length :
    (k : ℕ) (s : Store) (before : Ptr) (xs : List Ptr) (count : ℕ)
    → Prelude.length xs < k
    → count < u32_mod
    → Distinct xs
    → Links s before xs null
    → length_loop k s (first xs null) count ≡ some ((count + Prelude.length xs) % u32_mod)
unfolding length_loop
length_loop-length zero s before xs count fuel small d h = elim fuel [ ]
length_loop-length (suc k) s before [] count fuel small d h = ap some (omega arith)
length_loop-length (suc k) s before (x ∷ xs) count fuel small d h =
    let rest = length_loop-length k s x xs (add32 count 1) (omega arith) (omega arith) d.2 h.2 in
    or_else-ne x _ _ d.0 ∙ rw h.1 (rest ∙ ap some (omega arith))

-- `length` ends, and counts what `size` says.
pub length-size :
    (t : State) (xs : List Ptr) (fuel : ℕ)
    → IsList t xs
    → Prelude.length xs < fuel
    → length fuel t ≡ some t.list.size
unfolding length
length-size t xs fuel v enough =
    rw (v.head, v.size)
      (length_loop-length fuel t.links null xs 0 enough (omega arith) v.distinct v.chain
        ∙ ap some (omega arith))
