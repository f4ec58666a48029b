-- ===== src/DriverApi/Ranges.antt =====
-- The loops of DriverApi.Memory over an index, as functions on the list of ranges.
use uberos.Prelude.{
  ℕ, zero, suc, ◌+◌, ◌<◌, ◌≡◌, refl, ap, sym, ◌∙◌, List, [], ◌∷◌, ◌++◌, none, some, Bool, true,
  false, leb, ltb, if◌then◌else◌, arith, length, length-append, get_elem?, get_elem?-append,
  get_elem?-append_nil, set, set-append, Bool-cases, inl, inr,
}
use mathlib.Core.List.{append-nil}
use uberos.PodArray.{push_back, remove, insert}
use uberos.PodArray.Items.{remove-erase, insert-append}
use uberos.DriverApi.Memory.{MemoryRange, range, Answer, physical, mapped, absorb, grow, place}

-- A grown range and those behind it that it reaches.
unfoldable pub swallow : ℕ → MemoryRange → List MemoryRange → List MemoryRange
swallow end cur [] = cur ∷ []
swallow end cur (next ∷ rest) =
    if leb next.start end
    then swallow end (record cur { end = if leb next.end cur.end then cur.end else next.end }) rest
    else cur ∷ next ∷ rest

abbrev pub grown_left : ℕ → MemoryRange → MemoryRange
grown_left start r = record r { start = if ltb start r.start then start else r.start }

-- The ranges with a new one among them.
unfoldable pub join : ℕ → ℕ → List MemoryRange → List MemoryRange
unfolding swallow
join start end [] = range start end ∷ []
join start end (r ∷ rest) =
    if ltb end r.start
    then range start end ∷ r ∷ rest
    else if ltb r.end start
    then r ∷ join start end rest
    else if ltb r.end end
    then swallow end (record (grown_left start r) { end = end }) rest
    else grown_left start r ∷ rest

-- The index of the item behind a prefix and one item more.
pub append-one :
    (xs : List MemoryRange) (x : MemoryRange) (ys : List MemoryRange)
    → xs ++ x ∷ ys ≡ (xs ++ x ∷ []) ++ ys
append-one [] x ys = refl
append-one (z ∷ zs) x ys = ap (◌∷◌ z) (append-one zs x ys)

pub length-one : (xs : List MemoryRange) (x : MemoryRange) → length (xs ++ x ∷ []) ≡ length xs + 1
length-one xs x = omega (arith, length-append xs (x ∷ []))

next-append :
    (xs : List MemoryRange) (x y : MemoryRange) (ys : List MemoryRange)
    → get_elem? (xs ++ x ∷ y ∷ ys) (length xs + 1) ≡ some y
next-append xs x y ys =
    ap (get_elem? (xs ++ x ∷ y ∷ ys)) (sym (length-one xs x))
    ∙ ap (λ zs. get_elem? zs (length (xs ++ x ∷ []))) (append-one xs x (y ∷ ys))
    ∙ get_elem?-append (xs ++ x ∷ []) y ys

next-append_nil :
    (xs : List MemoryRange) (x : MemoryRange) → get_elem? (xs ++ x ∷ []) (length xs + 1) ≡ none
next-append_nil xs x =
    ap (get_elem? (xs ++ x ∷ [])) (sym (length-one xs x)) ∙ get_elem?-append_nil (xs ++ x ∷ [])

remove-next :
    (xs : List MemoryRange) (x y : MemoryRange) (ys : List MemoryRange)
    → remove (length xs + 1) (xs ++ x ∷ y ∷ ys) ≡ xs ++ x ∷ ys
remove-next [] x y ys = remove-erase x [] y ys
remove-next (z ∷ zs) x y ys =
    ap (λ i. remove i (z ∷ zs ++ x ∷ y ∷ ys)) (sym (length-one (z ∷ zs) x))
    ∙ ap (remove (length (z ∷ zs ++ x ∷ []))) (append-one (z ∷ zs) x (y ∷ ys))
    ∙ remove-erase z (zs ++ x ∷ []) y ys
    ∙ sym (append-one (z ∷ zs) x ys)

abbrev pub grown_right : MemoryRange → MemoryRange → MemoryRange
grown_right next cur = record cur { end = if leb next.end cur.end then cur.end else next.end }

absorb-step :
    (k i end : ℕ) (xs : List MemoryRange) (cur next : MemoryRange)
    → get_elem? xs (i + 1) ≡ some next
    → get_elem? xs i ≡ some cur
    → absorb (suc k) i end xs ≡ (
        if leb next.start end
        then absorb k i end (remove (i + 1) (set xs i (grown_right next cur)))
        else some xs)
unfolding absorb
absorb-step k i end xs cur next e f = rw (e, absorb, f, absorb)

absorb-last :
    (k : ℕ) (before : List MemoryRange) (end : ℕ) (cur : MemoryRange)
    → absorb (suc k) (length before) end (before ++ cur ∷ []) ≡ some (before ++ cur ∷ [])
unfolding absorb
absorb-last k before end cur = rw (next-append_nil before cur, absorb)

-- A test that chooses between two arrays with the same prefix.
some_branch :
    (b : Bool) (before xs ys : List MemoryRange)
    → (if b then some (before ++ xs) else some (before ++ ys))
      ≡ some (before ++ (if b then xs else ys))
some_branch true before xs ys = refl
some_branch false before xs ys = refl

absorb-swallow :
    (k : ℕ) (before : List MemoryRange) (end : ℕ) (cur : MemoryRange) (rest : List MemoryRange)
    → length rest < k
    → absorb k (length before) end (before ++ cur ∷ rest) ≡ some (before ++ swallow end cur rest)
unfolding swallow
absorb-swallow zero before end cur rest fuel = elim fuel [ ]
absorb-swallow (suc k) before end cur [] fuel = absorb-last k before end cur
absorb-swallow (suc k) before end cur (next ∷ rest) fuel =
    absorb-step k (length before) end (before ++ cur ∷ next ∷ rest) cur next
      (next-append before cur next rest) (get_elem?-append before cur (next ∷ rest))
    ∙ rw
        (
          set-append before cur (next ∷ rest) (grown_right next cur),
          remove-next before (grown_right next cur) next rest,
          absorb-swallow k before end (grown_right next cur) rest (omega arith),
        )
        (some_branch (leb next.start end) before _ _)

grow-join :
    (before : List MemoryRange) (start end : ℕ) (r : MemoryRange) (rest : List MemoryRange)
    → grow (length (before ++ r ∷ rest)) (length before) start end r (before ++ r ∷ rest)
      ≡ some (
          before
          ++ (if ltb r.end end
              then swallow end (record (grown_left start r) { end = end }) rest
              else grown_left start r ∷ rest))
unfolding grow
grow-join before start end r rest =
    rw
      (
        set-append before r rest (record (grown_left start r) { end = end }),
        set-append before r rest (grown_left start r),
        absorb-swallow (length (before ++ r ∷ rest)) before end
            (record (grown_left start r) { end = end }) rest
            (omega (arith, length-append before (r ∷ rest))),
      )
      (some_branch (ltb r.end end) before _ _)

-- Whether the loop of `subscribe_memory` stops at a range that lies behind the new one.
pub answer : ℕ → ℕ → List MemoryRange → Answer
answer start end [] = mapped
answer start end (r ∷ rest) =
    if ltb end r.start then physical else if ltb r.end start then answer start end rest else mapped

module _ (k i start end : ℕ) (xs : List MemoryRange) where
  place-nil :
      get_elem? xs i ≡ none
      → place (suc k) i start end xs ≡ some (mapped, push_back xs (range start end))
  unfolding place
  place-nil e = rw (e, place)

  module _ (r : MemoryRange) (e : get_elem? xs i ≡ some r) where
    place-before :
        ltb end r.start ≡ true
        → place (suc k) i start end xs ≡ some (physical, insert i (range start end) xs)
    unfolding place
    place-before h = rw (e, place, h)

    place-on :
        ltb end r.start ≡ false
        → ltb r.end start ≡ true
        → place (suc k) i start end xs ≡ place k (i + 1) start end xs
    unfolding place
    place-on h h' = rw (e, place, h, h')

    place-grow :
        (ys : List MemoryRange)
        → ltb end r.start ≡ false
        → ltb r.end start ≡ false
        → grow (length xs) i start end r xs ≡ some ys
        → place (suc k) i start end xs ≡ some (mapped, ys)
    unfolding place
    place-grow ys h h' g = rw (e, place, h, h', g, place)

push_back-nil :
    (before : List MemoryRange) (v : MemoryRange) → push_back (before ++ []) v ≡ before ++ v ∷ []
unfolding push_back
push_back-nil before v = rw append-nil

pub place-join :
    (k : ℕ) (before : List MemoryRange) (start end : ℕ) (rest : List MemoryRange)
    → length rest < k
    → place k (length before) start end (before ++ rest)
      ≡ some (answer start end rest, before ++ join start end rest)
unfolding answer join
place-join zero before start end rest fuel = elim fuel [ ]
place-join (suc k) before start end [] fuel =
    place-nil k (length before) start end (before ++ [])
      (rw append-nil (get_elem?-append_nil before))
    ∙ ap (λ ys. some (mapped, ys)) (push_back-nil before (range start end))
place-join (suc k) before start end (r ∷ rest) fuel =
    let at = get_elem?-append before r rest in
    elim (Bool-cases (ltb end r.start)) [
      | inl h ↦
          place-before k (length before) start end (before ++ r ∷ rest) r at h
          ∙ rw (h, insert-append before (range start end) (r ∷ rest))
      | inr h ↦ elim (Bool-cases (ltb r.end start)) [
        | inl h' ↦
            place-on k (length before) start end (before ++ r ∷ rest) r at h h'
            ∙ rw (h, h') (next (place-join k (before ++ r ∷ []) start end rest (omega arith)))
        | inr h' ↦
            place-grow k (length before) start end (before ++ r ∷ rest) r at _ h h'
              (grow-join before start end r rest)
            ∙ rw (h, h')
      ]
    ]
  where
    next :
        place k (length (before ++ r ∷ [])) start end ((before ++ r ∷ []) ++ rest)
          ≡ some (answer start end rest, (before ++ r ∷ []) ++ join start end rest)
        → place k (length before + 1) start end (before ++ r ∷ rest)
          ≡ some (answer start end rest, before ++ r ∷ join start end rest)
    next ih =
        rw
          (
            ← length-one before r,
            append-one before r rest,
            append-one before r (join start end rest),
          )
          ih
