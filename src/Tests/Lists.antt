-- ===== src/Tests/Lists.antt =====
-- A list of three items, and an array of three values.
use uberos.Prelude.{ℕ, ◌≡◌, ◌≢◌, refl, [], ◌∷◌, some, has, arith, ◌==◌, if◌then◌else◌}
use uberos.LList
use uberos.LList.{
  LListItem, State, Store, push_front, push_back, pop_front, pop, insert_before, insert_after,
  contains, empty,
}
use uberos.LList.Links.{IsList}
use uberos.LList.Refinement.{
  Changes, unchanged, and_then, pops, inserts_before, taken_out, before_one, perform_all,
  perform_all-refines,
}
use uberos.PodArray.Capacity.{push_back_call, insert_call, AllInside, additions-AllInside}

abbrev item : ℕ → ℕ → LListItem
item before after = record { next = after; prev = before }

abbrev three_links : Store
three_links a =
    if a == 1 then item 0 2 else if a == 2 then item 1 3 else if a == 3 then item 2 0 else item 0 0

abbrev three_items : State
three_items = record { links = three_links; list = record { head = 1; tail = 3; size = 3 } }

three_items-IsList : IsList three_items (1 ∷ 2 ∷ 3 ∷ [])
three_items-IsList = record {
  chain = (refl, refl, (refl, refl, (refl, refl, tt)));
  distinct = (ground arith, refl, (ground arith, refl, (ground arith, refl, tt)));
  head = refl;
  tail = refl;
  size = refl;
}

abbrev four : ℕ
four = 4

four_ne : four ≢ 0
four_ne = ground arith

-- Item 2 leaves, and item 4 enters in front of item 3.
two_calls : Changes (1 ∷ 2 ∷ 3 ∷ []) (pops 2 ∷ inserts_before 3 4 ∷ []) (1 ∷ 4 ∷ 3 ∷ [])
two_calls =
    and_then (1 ∷ 2 ∷ 3 ∷ []) (pops 2) (1 ∷ 3 ∷ []) (inserts_before 3 4 ∷ []) (1 ∷ 4 ∷ 3 ∷ [])
      (taken_out (1 ∷ []) 2 (3 ∷ []))
      (and_then (1 ∷ 3 ∷ []) (inserts_before 3 4) (1 ∷ 4 ∷ 3 ∷ []) [] (1 ∷ 4 ∷ 3 ∷ [])
        (before_one (1 ∷ []) 3 4 [] (four_ne, refl)) (unchanged (1 ∷ 4 ∷ 3 ∷ [])))

perform_all-refines_example :
    IsList (perform_all (pops 2 ∷ inserts_before 3 4 ∷ []) three_items) (1 ∷ 4 ∷ 3 ∷ [])
    × (LList.length 4 (perform_all (pops 2 ∷ inserts_before 3 4 ∷ []) three_items) ≡ some 3)
    × ((item : ℕ)
        → contains 4 item (perform_all (pops 2 ∷ inserts_before 3 4 ∷ []) three_items)
          ≡ some (has item (1 ∷ 4 ∷ 3 ∷ [])))
perform_all-refines_example =
    perform_all-refines three_items (1 ∷ 2 ∷ 3 ∷ []) (pops 2 ∷ inserts_before 3 4 ∷ [])
      (1 ∷ 4 ∷ 3 ∷ []) three_items-IsList two_calls

abbrev five : ℕ
five = 5

additions-AllInside_example : AllInside (push_back_call ∷ insert_call ∷ []) 8 8
additions-AllInside_example =
    additions-AllInside (push_back_call ∷ insert_call ∷ []) 8 8 (ground arith) (ground arith)
