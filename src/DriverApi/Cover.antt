-- ===== src/DriverApi/Cover.antt =====
-- What the memory subscriptions stand for: the set of addresses that the ranges cover.
use uberos.Prelude.{
  ℕ, ◌≤◌, ◌<◌, ◌≡◌, refl, List, [], ◌∷◌, Bool, true, false, ◌&&◌, ◌||◌, not, leb, ltb, arith, ◌∙◌,
  Bool-cases, leb→le, ltb→lt, ◌⊎◌, inl, inr,
}
use uberos.DriverApi.Memory.{MemoryRange, range}
use uberos.DriverApi.Ranges.{swallow, join, grown_left, grown_right}
use uberos.DriverApi.Release.{subtract, covered}

abbrev pub inside : ℕ → MemoryRange → Bool
inside x r = leb r.start x && ltb x r.end

-- Whether an address is subscribed.
abbrev pub covers : ℕ → List MemoryRange → Bool
covers x [] = false
covers x (r ∷ rs) = inside x r || covers x rs

-- The ranges lie above `low`, in the order of their addresses, and do not overlap.
abbrev pub Sorted : ℕ → List MemoryRange → Type 0
Sorted low [] = Unit {0}
Sorted low (r ∷ rs) = (low ≤ r.start) × (r.start ≤ r.end) × Sorted r.end rs

Sorted-weaken : (low low' : ℕ) (xs : List MemoryRange) → low' ≤ low → Sorted low xs → Sorted low' xs
Sorted-weaken low low' [] h s = tt
Sorted-weaken low low' (r ∷ rs) h s = (omega arith, s.1, s.2)

-- No address below `low` is covered.
pub covers-below :
    (x low : ℕ) (xs : List MemoryRange) → Sorted low xs → x < low → covers x xs ≡ false
covers-below x low [] s h = refl
covers-below x low (r ∷ rs) s h = ground (arith, covers-below x r.end rs s.2)

-- The cases of `subtract`, with what the tests say of the numbers.
subtract-cases :
    (P : List MemoryRange → Type 0) (start end : ℕ) (r : MemoryRange) (rs : List MemoryRange)
    → (end ≤ r.start → P (r ∷ rs))
    → (r.end ≤ start → P (r ∷ subtract start end rs))
    → (start ≤ r.start → r.end ≤ end → P (subtract start end rs))
    → (r.start < start → end < r.end → P (range r.start start ∷ range end r.end ∷ rs))
    → (r.start < start
        → start < r.end
        → r.end ≤ end
        → P (range r.start start ∷ subtract start end rs))
    → (start ≤ r.start → r.start < end → end < r.end → P (range end r.end ∷ subtract start end rs))
    → P (subtract start end (r ∷ rs))
unfolding subtract
subtract-cases P start end r rs behind ahead whole both left right =
    elim (Bool-cases (leb end r.start)) [
      | inl a ↦ rw a (behind (leb→le _ _ a))
      | inr a ↦ elim (Bool-cases (leb r.end start)) [
        | inl b ↦ rw (a, b) (ahead (leb→le _ _ b))
        | inr b ↦ elim (Bool-cases (ltb r.start start)) [
          | inl c ↦ elim (Bool-cases (ltb end r.end)) [
            | inl d ↦ rw (a, b, uncovered (inl c), c, d) (both (ltb→lt _ _ c) (ltb→lt _ _ d))
            | inr d ↦
                rw (a, b, uncovered (inl c), c, d)
                  (left (ltb→lt _ _ c) (ground (arith, b)) (ground (arith, d)))
          ]
          | inr c ↦ elim (Bool-cases (ltb end r.end)) [
            | inl d ↦
                rw (a, b, uncovered (inr d), c, d)
                  (right (ground (arith, c)) (ground (arith, a)) (ltb→lt _ _ d))
            | inr d ↦ rw (a, b, whole_covered c d) (whole (ground (arith, c)) (ground (arith, d)))
          ]
        ]
      ]
    ]
  where
    uncovered : (ltb r.start start ≡ true) ⊎ (ltb end r.end ≡ true) → covered start end r ≡ false
    uncovered (inl c) = ground arith
    uncovered (inr d) = ground arith

    whole_covered : ltb r.start start ≡ false → ltb end r.end ≡ false → covered start end r ≡ true
    whole_covered c d = ground arith

pub subtract-Sorted :
    (low start end : ℕ) (xs : List MemoryRange)
    → start ≤ end
    → Sorted low xs
    → Sorted low (subtract start end xs)
subtract-Sorted low start end [] h s = unfold subtract in tt
subtract-Sorted low start end (r ∷ rs) h s =
    let rest = subtract-Sorted r.end start end rs h s.2 in
    subtract-cases (Sorted low) start end r rs (λ a. s) (λ a. (s.0, s.1, rest))
      (λ a b. Sorted-weaken r.end low _ (omega arith) rest)
      (λ a b. (s.0, omega arith, (h, omega arith, s.2)))
      (λ a b c. (s.0, omega arith, Sorted-weaken r.end start _ (omega arith) rest))
      (λ a b c. (omega arith, omega arith, rest))

pub covers-subtract :
    (x low start end : ℕ) (xs : List MemoryRange)
    → start ≤ end
    → Sorted low xs
    → covers x (subtract start end xs) ≡ (covers x xs && not (inside x (range start end)))
covers-subtract x low start end [] h s = unfold subtract in refl
covers-subtract x low start end (r ∷ rs) h s =
    let ih = covers-subtract x r.end start end rs h s.2 in
    let below = covers-below x r.end rs s.2 in
    subtract-cases (λ ys. covers x ys ≡ (covers x (r ∷ rs) && not (inside x (range start end))))
      start end r rs (λ a. ground (arith, below)) (λ a. ground (arith, ih))
      (λ a b. ground (arith, ih)) (λ a b. ground (arith, below)) (λ a b c. ground (arith, ih))
      (λ a b c. ground (arith, ih))

-- A growing range: how it stands to those behind it, which lie above `low`.
record Growing (low end : ℕ) (cur : MemoryRange) : Type 0 where
  ordered : cur.start ≤ cur.end
  before : cur.start ≤ low
  reaches : end ≤ cur.end
  within : (cur.end ≤ low) ⊎ (cur.end ≤ end)

Growing-next :
    (low end : ℕ) (cur n : MemoryRange)
    → Growing low end cur
    → low ≤ n.start
    → n.start ≤ n.end
    → Growing n.end end (grown_right n cur)
Growing-next low end cur n g a b = record {
  ordered = ground arith;
  before = ground arith;
  reaches = ground arith;
  within = ground arith;
}

swallow-cases :
    (P : List MemoryRange → Type 0) (end : ℕ) (cur n : MemoryRange) (rest : List MemoryRange)
    → (n.start ≤ end → P (swallow end (grown_right n cur) rest))
    → (end < n.start → P (cur ∷ n ∷ rest))
    → P (swallow end cur (n ∷ rest))
unfolding swallow
swallow-cases P end cur n rest reached apart = elim (Bool-cases (leb n.start end)) [
  | inl a ↦ rw a (reached (leb→le _ _ a))
  | inr a ↦ rw a (apart (ground (arith, a)))
]

swallow-Sorted :
    (low bound end : ℕ) (cur : MemoryRange) (rest : List MemoryRange)
    → low ≤ cur.start
    → Growing bound end cur
    → Sorted bound rest
    → Sorted low (swallow end cur rest)
swallow-Sorted low bound end cur [] h g s = unfold swallow in (h, g.ordered, tt)
swallow-Sorted low bound end cur (n ∷ rest) h g s =
    swallow-cases (Sorted low) end cur n rest
      (λ a.
        swallow-Sorted low n.end end (grown_right n cur) rest h
          (Growing-next bound end cur n g s.0 s.1) s.2)
      (λ a. (h, g.ordered, (ground arith, s.1, s.2)))

covers-swallow :
    (x bound end : ℕ) (cur : MemoryRange) (rest : List MemoryRange)
    → Growing bound end cur
    → Sorted bound rest
    → covers x (swallow end cur rest) ≡ (inside x cur || covers x rest)
covers-swallow x bound end cur [] g s = unfold swallow in refl
covers-swallow x bound end cur (n ∷ rest) g s =
    swallow-cases (λ ys. covers x ys ≡ (inside x cur || covers x (n ∷ rest))) end cur n rest
      (λ a.
        covers-swallow x n.end end (grown_right n cur) rest (Growing-next bound end cur n g s.0 s.1)
          s.2
        ∙ merged a)
      (λ a. refl)
  where
    merged :
        n.start ≤ end
        → (inside x (grown_right n cur) || covers x rest)
          ≡ (inside x cur || (inside x n || covers x rest))
    merged a = ground (arith, g.before, g.reaches, g.ordered, s.0, s.1)

-- The cases of `join`.
join-cases :
    (P : List MemoryRange → Type 0) (start end : ℕ) (r : MemoryRange) (rest : List MemoryRange)
    → (end < r.start → P (range start end ∷ r ∷ rest))
    → (r.end < start → P (r ∷ join start end rest))
    → (r.start ≤ end
        → start ≤ r.end
        → r.end < end
        → P (swallow end (record (grown_left start r) { end = end }) rest))
    → (r.start ≤ end → start ≤ r.end → end ≤ r.end → P (grown_left start r ∷ rest))
    → P (join start end (r ∷ rest))
unfolding join
join-cases P start end r rest behind ahead longer shorter = elim (Bool-cases (ltb end r.start)) [
  | inl a ↦ rw a (behind (ltb→lt _ _ a))
  | inr a ↦ elim (Bool-cases (ltb r.end start)) [
    | inl b ↦ rw (a, b) (ahead (ltb→lt _ _ b))
    | inr b ↦ elim (Bool-cases (ltb r.end end)) [
      | inl c ↦ rw (a, b, c) (longer (ground (arith, a)) (ground (arith, b)) (ltb→lt _ _ c))
      | inr c ↦ rw (a, b, c) (shorter (ground (arith, a)) (ground (arith, b)) (ground (arith, c)))
    ]
  ]
]

Growing-first :
    (start end : ℕ) (r : MemoryRange)
    → start ≤ end
    → r.start ≤ r.end
    → start ≤ r.end
    → r.end < end
    → Growing r.end end (record (grown_left start r) { end = end })
Growing-first start end r h a b c = record {
  ordered = ground arith;
  before = ground arith;
  reaches = ground arith;
  within = inr (ground arith);
}

pub join-Sorted :
    (low start end : ℕ) (xs : List MemoryRange)
    → low ≤ start
    → start ≤ end
    → Sorted low xs
    → Sorted low (join start end xs)
join-Sorted low start end [] l h s = unfold join in (l, h, tt)
join-Sorted low start end (r ∷ rest) l h s =
    join-cases (Sorted low) start end r rest (λ a. (l, h, (omega arith, s.1, s.2)))
      (λ a. (s.0, s.1, join-Sorted r.end start end rest (omega arith) h s.2))
      (λ a b c.
        swallow-Sorted low r.end end _ rest (ground arith) (Growing-first start end r h s.1 b c)
          s.2)
      (λ a b c. (ground arith, ground arith, s.2))

pub covers-join :
    (x low start end : ℕ) (xs : List MemoryRange)
    → start ≤ end
    → Sorted low xs
    → covers x (join start end xs) ≡ (inside x (range start end) || covers x xs)
covers-join x low start end [] h s = unfold join in refl
covers-join x low start end (r ∷ rest) h s =
    join-cases (λ ys. covers x ys ≡ (inside x (range start end) || covers x (r ∷ rest))) start end r
      rest (λ a. refl) (λ a. ground (arith, covers-join x r.end start end rest h s.2))
      (λ a b c.
        covers-swallow x r.end end _ rest (Growing-first start end r h s.1 b c) s.2
        ∙ ground (arith, s.1))
      (λ a b c. ground (arith, s.1))
