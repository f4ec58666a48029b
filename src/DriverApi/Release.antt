-- ===== src/DriverApi/Release.antt =====
-- The loop of `unsubscribe_memory` as a function on the list of ranges. The two agree as long as the
-- freed range does not cover the first subscription: `PodArray::remove(0)` leaves the first item in
-- its place, and then the loop goes on until nothing is left.
use uberos.Prelude.{
  ℕ, zero, suc, ◌+◌, ◌≤◌, ◌<◌, ◌≡◌, refl, ap, ◌∙◌, List, [], ◌∷◌, ◌++◌, none, some, Bool, true,
  false, ◌&&◌, leb, ltb, if◌then◌else◌, arith, length, get_elem?, get_elem?-append,
  get_elem?-append_nil, set-append, add32, Bool-cases, ◌⊎◌, inl, inr, take, length-take_le,
  true-false, leb-false, leb-true,
}
use mathlib.Core.List.{append-nil}
use uberos.PodArray.{remove, insert}
use uberos.PodArray.Items.{remove-erase, remove-front, insert-append}
use uberos.DriverApi.Memory.{MemoryRange, range, cut, release, unsubscribe_memory}
use uberos.DriverApi.Ranges.{append-one, length-one}

abbrev pub covered : ℕ → ℕ → MemoryRange → Bool
covered start end r = leb start r.start && leb r.end end

-- The ranges without a freed one.
unfoldable pub subtract : ℕ → ℕ → List MemoryRange → List MemoryRange
subtract start end [] = []
subtract start end (r ∷ rest) =
    let others = subtract start end rest in
    if leb end r.start
    then r ∷ rest
    else if leb r.end start
    then r ∷ others
    else if covered start end r
    then others
    else if ltb r.start start
    then (if ltb end r.end
        then range r.start start ∷ range end r.end ∷ rest
        else range r.start start ∷ others)
    else if ltb end r.end
    then range end r.end ∷ others
    else r ∷ others

module _ (k i start end : ℕ) (xs : List MemoryRange) where
  release-nil : get_elem? xs i ≡ none → release (suc k) i start end xs ≡ some xs
  unfolding release
  release-nil e = rw (e, release)

  release-step :
      (r : MemoryRange)
      → get_elem? xs i ≡ some r
      → release (suc k) i start end xs ≡ (
          if leb end r.start
          then some xs
          else if leb r.end start
          then release k (i + 1) start end xs
          else if covered start end r
          then release k i start end (remove i xs)
          else release k (i + 1) start end (cut i start end r xs))
  unfolding release
  release-step r e = rw (e, release)

insert-second :
    (before : List MemoryRange) (x v : MemoryRange) (ys : List MemoryRange)
    → insert (length before + 1) v (before ++ x ∷ ys) ≡ before ++ x ∷ v ∷ ys
insert-second before x v ys =
    rw (← length-one before x, append-one before x ys, append-one before x (v ∷ ys))
      (insert-append (before ++ x ∷ []) v ys)

cut-append :
    (before : List MemoryRange) (start end : ℕ) (r : MemoryRange) (rest : List MemoryRange)
    → cut (length before) start end r (before ++ r ∷ rest)
      ≡ before
        ++ (if ltb r.start start
            then (if ltb end r.end
                then range r.start start ∷ range end r.end ∷ rest
                else range r.start start ∷ rest)
            else if ltb end r.end
            then range end r.end ∷ rest
            else r ∷ rest)
unfolding cut
cut-append before start end r rest =
    rw
      (
        set-append before r rest (range r.start start),
        set-append before r rest (range end r.end),
        insert-second before (range r.start start) (range end r.end) rest,
      )
      (branches (ltb r.start start) (ltb end r.end))
  where
    branches :
        (a b : Bool)
        → (if a
            then (if b
                then before ++ range r.start start ∷ range end r.end ∷ rest
                else before ++ range r.start start ∷ rest)
            else if b
            then before ++ range end r.end ∷ rest
            else before ++ r ∷ rest)
          ≡ before
            ++ (if a
                then (if b
                    then range r.start start ∷ range end r.end ∷ rest
                    else range r.start start ∷ rest)
                else if b
                then range end r.end ∷ rest
                else r ∷ rest)
    branches true true = refl
    branches true false = refl
    branches false true = refl
    branches false false = refl

module _ (k : ℕ) (before : List MemoryRange) (start end : ℕ) (rest : List MemoryRange) where
  -- The loop goes on behind one more range.
  abbrev GoesOn : Type 0
  GoesOn =
      (r : MemoryRange)
      → release k (length before + 1) start end (before ++ r ∷ rest)
        ≡ some (before ++ r ∷ subtract start end rest)

  abbrev Stops : Type 0
  Stops =
      (r : MemoryRange) (e : ℕ)
      → release k (length before + 1) start end (before ++ r ∷ range end e ∷ rest)
        ≡ some (before ++ r ∷ range end e ∷ rest)

  abbrev Again : MemoryRange → Type 0
  Again r =
      covered start end r ≡ true
      → release k (length before) start end (remove (length before) (before ++ r ∷ rest))
        ≡ some (before ++ subtract start end rest)

  release-cons :
      (r : MemoryRange)
      → GoesOn
      → Stops
      → Again r
      → release (suc k) (length before) start end (before ++ r ∷ rest)
        ≡ some (before ++ subtract start end (r ∷ rest))
  unfolding subtract
  release-cons r on stop again =
      release-step k (length before) start end (before ++ r ∷ rest) r
        (get_elem?-append before r rest)
      ∙ elim (Bool-cases (leb end r.start)) [
        | inl h ↦ rw h
        | inr h ↦ elim (Bool-cases (leb r.end start)) [
          | inl h' ↦ rw (h, h') (on r)
          | inr h' ↦ elim (Bool-cases (covered start end r)) [
            | inl c ↦ rw (h, h', c) (again c)
            | inr c ↦
                rw (h, h', c, cut-append before start end r rest)
                  (cuts (Bool-cases (ltb r.start start)) (Bool-cases (ltb end r.end)))
          ]
        ]
      ]
    where
      cuts :
          ((ltb r.start start ≡ true) ⊎ (ltb r.start start ≡ false))
          → ((ltb end r.end ≡ true) ⊎ (ltb end r.end ≡ false))
          → release k (length before + 1) start end (
              before
              ++ (if ltb r.start start
                  then (if ltb end r.end
                      then range r.start start ∷ range end r.end ∷ rest
                      else range r.start start ∷ rest)
                  else if ltb end r.end
                  then range end r.end ∷ rest
                  else r ∷ rest))
            ≡ some (
                before
                ++ (if ltb r.start start
                    then (if ltb end r.end
                        then range r.start start ∷ range end r.end ∷ rest
                        else range r.start start ∷ subtract start end rest)
                    else if ltb end r.end
                    then range end r.end ∷ subtract start end rest
                    else r ∷ subtract start end rest))
      cuts (inl a) (inl b) = rw (a, b) (stop (range r.start start) r.end)
      cuts (inl a) (inr b) = rw (a, b) (on (range r.start start))
      cuts (inr a) (inl b) = rw (a, b) (on (range end r.end))
      cuts (inr a) (inr b) = rw (a, b) (on r)

leb_refl : (a : ℕ) → leb a a ≡ true
leb_refl a = ground arith

release-stop :
    (k : ℕ) (before : List MemoryRange) (start end e : ℕ) (r : MemoryRange)
    (rest : List MemoryRange)
    → release (suc k) (length before + 1) start end (before ++ r ∷ range end e ∷ rest)
      ≡ some (before ++ r ∷ range end e ∷ rest)
release-stop k before start end e r rest =
    release-step k (length before + 1) start end (before ++ r ∷ range end e ∷ rest) (range end e) (
      rw (← length-one before r, append-one before r (range end e ∷ rest))
        (get_elem?-append (before ++ r ∷ []) (range end e) rest))
    ∙ rw (leb_refl end)

release-subtract :
    (k : ℕ) (b : MemoryRange) (bs : List MemoryRange) (start end : ℕ) (rest : List MemoryRange)
    → length rest + 1 < k
    → release k (length (b ∷ bs)) start end ((b ∷ bs) ++ rest)
      ≡ some ((b ∷ bs) ++ subtract start end rest)
release-subtract zero b bs start end rest fuel = elim fuel [ ]
release-subtract (suc k) b bs start end [] fuel =
    release-nil k (length (b ∷ bs)) start end ((b ∷ bs) ++ [])
      (rw append-nil (get_elem?-append_nil (b ∷ bs)))
    ∙ unfold subtract in refl
release-subtract (suc zero) b bs start end (r ∷ rest) fuel = absurd (omega arith)
release-subtract (suc (suc k)) b bs start end (r ∷ rest) fuel =
    release-cons (suc k) (b ∷ bs) start end rest r
      (λ r'. goes_on r' (release-subtract (suc k) b (bs ++ r' ∷ []) start end rest (omega arith)))
      (λ r' e. release-stop k (b ∷ bs) start end e r' rest)
      (λ c.
        ap (release (suc k) (length (b ∷ bs)) start end) (remove-erase b bs r rest)
        ∙ release-subtract (suc k) b bs start end rest (omega arith))
  where
    goes_on :
        (r' : MemoryRange)
        → release (suc k) (length (b ∷ bs ++ r' ∷ [])) start end ((b ∷ bs ++ r' ∷ []) ++ rest)
          ≡ some ((b ∷ bs ++ r' ∷ []) ++ subtract start end rest)
        → release (suc k) (length (b ∷ bs) + 1) start end ((b ∷ bs) ++ r' ∷ rest)
          ≡ some ((b ∷ bs) ++ r' ∷ subtract start end rest)
    goes_on r' ih =
        rw
          (
            ← length-one (b ∷ bs) r',
            append-one bs r' rest,
            append-one bs r' (subtract start end rest),
          )
          ih

release-uncovered :
    (k : ℕ) (start end : ℕ) (r : MemoryRange) (rest : List MemoryRange)
    → covered start end r ≡ false
    → length rest + 1 < k
    → release (suc k) 0 start end (r ∷ rest) ≡ some (subtract start end (r ∷ rest))
release-uncovered zero start end r rest c fuel = elim fuel [ ]
release-uncovered (suc k) start end r rest c fuel =
    release-cons (suc k) [] start end rest r
      (λ r'. release-subtract (suc k) r' [] start end rest fuel)
      (λ r' e. release-stop k [] start end e r' rest) (λ c'. absurd (true-false c' c))

release-covered :
    (k : ℕ) (start end : ℕ) (r : MemoryRange) (rest : List MemoryRange)
    → start ≤ r.start
    → r.start < r.end
    → r.end ≤ end
    → length rest + 1 < k
    → release k 0 start end (r ∷ rest) ≡ some []
release-covered zero start end r rest a b c fuel = elim fuel [ ]
release-covered (suc zero) start end r rest a b c fuel = absurd (omega arith)
release-covered (suc (suc k)) start end r rest a b c fuel =
    release-step (suc k) 0 start end (r ∷ rest) r refl
    ∙ rw
        (
          leb-false end r.start (omega arith),
          leb-false r.end start (omega arith),
          leb-true start r.start a,
          leb-true r.end end c,
          remove-front r rest,
        )
        (again rest fuel (λ ys h. release-covered (suc k) start end r ys a b c h))
  where
    again :
        (zs : List MemoryRange)
        → length zs + 1 < suc (suc k)
        → ((ys : List MemoryRange)
            → length ys + 1 < suc k
            → release (suc k) 0 start end (r ∷ ys) ≡ some [])
        → release (suc k) 0 start end (take (length zs) (r ∷ r ∷ zs)) ≡ some []
    again [] f ih = release-nil k 0 start end [] refl
    again (y ∷ ys) f ih =
        ih (take (length ys) (r ∷ y ∷ ys))
          (omega (arith, length-take_le (length ys) (r ∷ y ∷ ys) (omega arith)))

fuel_form : (n : ℕ) → suc n + 2 ≡ suc (n + 2)
fuel_form n = omega arith

-- `unsubscribe_memory` of a range that does not cover the first subscription.
pub unsubscribe_memory-subtract :
    (start size : ℕ) (r : MemoryRange) (rest : List MemoryRange)
    → covered start (add32 start size) r ≡ false
    → unsubscribe_memory start size (r ∷ rest) ≡ some (subtract start (add32 start size) (r ∷ rest))
unfolding unsubscribe_memory
unsubscribe_memory-subtract start size r rest c =
    ap (λ k. release k 0 start (add32 start size) (r ∷ rest)) (fuel_form (length rest))
    ∙ release-uncovered (length rest + 2) start (add32 start size) r rest c (omega arith)

-- `unsubscribe_memory` of a range that covers a non-empty first subscription drops every
-- subscription, also those outside the range.
pub unsubscribe_memory-first :
    (start size : ℕ) (r : MemoryRange) (rest : List MemoryRange)
    → start ≤ r.start
    → r.start < r.end
    → r.end ≤ add32 start size
    → unsubscribe_memory start size (r ∷ rest) ≡ some []
unfolding unsubscribe_memory
unsubscribe_memory-first start size r rest a b c =
    release-covered (length (r ∷ rest) + 2) start (add32 start size) r rest a b c (omega arith)
