-- ===== src/MemoryPool/Search.antt =====
-- The two searches of `malloc` find the smallest block that is large enough.
use uberos.Prelude.{
  ℕ, ◌≤◌, ◌<◌, ◌≡◌, refl, ap, sym, List, [], ◌∷◌, true, false, ◌&&◌, leb, if◌then◌else◌, arith,
  Option, none, some, Bool-cases, inl, inr, ◌⊎◌, leb→le, true-false, subst,
}
use uberos.MemoryPool.{
  MemoryPoolBlock, page_size, find_forward, find_backward, find_block, Found, starts,
}
use uberos.MemoryPool.Blocks.{Adds, Sorted}

-- All blocks are too small.
abbrev pub TooSmall : ℕ → List MemoryPoolBlock → Type 0
TooSmall required [] = Unit {0}
TooSmall required (b ∷ bs) = (b.size < required) × TooSmall required bs

-- No block that is large enough is smaller than `found`.
abbrev pub NoSmaller : ℕ → MemoryPoolBlock → List MemoryPoolBlock → Type 0
NoSmaller required found [] = Unit {0}
NoSmaller required found (b ∷ bs) =
    (required ≤ b.size → found.size ≤ b.size) × NoSmaller required found bs

-- What a search gives: a smallest block that is large enough and the others in order, or nothing if
-- all are too small.
abbrev pub Fit : ℕ → ℕ → List MemoryPoolBlock → Option Found → Type 0
Fit required low bs none = TooSmall required bs
Fit required low bs (some (b, others)) =
    (required ≤ b.size) × Sorted low others × Adds others b bs × NoSmaller required b others

Sorted-NoSmaller :
    (required : ℕ) (b : MemoryPoolBlock) (bs : List MemoryPoolBlock) (low : ℕ)
    → b.size ≤ low
    → Sorted low bs
    → NoSmaller required b bs
Sorted-NoSmaller required b [] low h s = tt
Sorted-NoSmaller required b (c ∷ bs) low h s =
    (λ k. omega arith, Sorted-NoSmaller required b bs c.size (omega arith) s.1)

Sorted-lower :
    (low low' : ℕ) (bs : List MemoryPoolBlock) → low' ≤ low → Sorted low bs → Sorted low' bs
Sorted-lower low low' [] h s = tt
Sorted-lower low low' (b ∷ bs) h s = (omega arith, s.1)

-- The first block is found.
Fit-here :
    (required low : ℕ) (b : MemoryPoolBlock) (bs : List MemoryPoolBlock)
    → Sorted low (b ∷ bs)
    → required ≤ b.size
    → Fit required low (b ∷ bs) (some (b, bs))
Fit-here required low b bs s h = (
  h,
  Sorted-lower b.size low bs s.0 s.1,
  λ f. refl,
  Sorted-NoSmaller required b bs b.size (omega arith) s.1,
)

abbrev behind : MemoryPoolBlock → Option Found → Option Found
behind b none = none
behind b (some (found, others)) = some (found, b ∷ others)

-- The first block is too small.
Fit-behind :
    (required low : ℕ) (b : MemoryPoolBlock) (bs : List MemoryPoolBlock) (o : Option Found)
    → Sorted low (b ∷ bs)
    → b.size < required
    → Fit required b.size bs o
    → Fit required low (b ∷ bs) (behind b o)
Fit-behind required low b bs none s h v = (h, v)
Fit-behind required low b bs (some (found, others)) s h v =
    (v.0, (s.0, v.1), λ f. omega (arith, v.2 f), (λ k. absurd (omega arith), v.3))

find_forward-behind :
    (required : ℕ) (b : MemoryPoolBlock) (bs : List MemoryPoolBlock)
    → find_forward required (b ∷ bs)
      ≡ (if leb required b.size then some (b, bs) else behind b (find_forward required bs))
unfolding find_forward
find_forward-behind required b bs =
    ap (λ o. if leb required b.size then some (b, bs) else o) (same (find_forward required bs))
  where
    same :
        (o : Option Found)
        → (elim o as (λ _. Option Found) [
          | none ↦ none
          | some (found, others) ↦ some (found, b ∷ others)
        ])
          ≡ behind b o
    same none = refl
    same (some (found, others)) = refl

find_forward-Fit :
    (required low : ℕ) (bs : List MemoryPoolBlock)
    → Sorted low bs
    → Fit required low bs (find_forward required bs)
find_forward-Fit required low [] s = unfold find_forward in tt
find_forward-Fit required low (b ∷ bs) s =
    subst (Fit required low (b ∷ bs)) (sym (find_forward-behind required b bs))
      (branch (Bool-cases (leb required b.size)) (find_forward-Fit required b.size bs s.1))
  where
    branch :
        (leb required b.size ≡ true) ⊎ (leb required b.size ≡ false)
        → Fit required b.size bs (find_forward required bs)
        → Fit required low
            (b ∷ bs)
            (if leb required b.size then some (b, bs) else behind b (find_forward required bs))
    branch (inl h) v = rw h (Fit-here required low b bs s (leb→le _ _ h))
    branch (inr h) v = rw h (Fit-behind required low b bs _ s (ground (arith, h)) v)

-- What the backward search gives behind `prev`: a block, and then `prev` is too small; or none, and
-- then all blocks are too small unless `prev` is large enough.
abbrev Back : ℕ → ℕ → Option MemoryPoolBlock → List MemoryPoolBlock → Option Found → Type 0
Back required low prev bs none = starts required prev ≡ true → TooSmall required bs
Back required low prev bs (some found) =
    (starts required prev ≡ true) × Fit required low bs (some found)

abbrev Under : ℕ → Option MemoryPoolBlock → Type 0
Under low none = Unit {0}
Under low (some prev) = prev.size ≤ low

abbrev stop_at :
    ℕ
    → Option MemoryPoolBlock
    → MemoryPoolBlock
    → List MemoryPoolBlock
    → Option Found
    → Option Found
stop_at required prev b bs none =
    if leb required b.size && starts required prev then some (b, bs) else none
stop_at required prev b bs (some (found, others)) = some (found, b ∷ others)

find_backward-stop_at :
    (required : ℕ) (prev : Option MemoryPoolBlock) (b : MemoryPoolBlock) (bs : List MemoryPoolBlock)
    → find_backward required prev (b ∷ bs)
      ≡ stop_at required prev b bs (find_backward required (some b) bs)
unfolding find_backward
find_backward-stop_at required prev b bs = same (find_backward required (some b) bs)
  where
    same :
        (o : Option Found)
        → (elim o as (λ _. Option Found) [
          | some (found, others) ↦ some (found, b ∷ others)
          | none ↦ if leb required b.size && starts required prev then some (b, bs) else none
        ])
          ≡ stop_at required prev b bs o
    same none = refl
    same (some (found, others)) = refl

-- A block that stands above one which is too small.
starts_small :
    (required low : ℕ) (prev : Option MemoryPoolBlock)
    → Under low prev
    → low < required
    → starts required prev ≡ true
starts_small required low none u h = refl
starts_small required low (some prev) u h = ground (arith, u, h)

stop_at-Back :
    (required low : ℕ) (prev : Option MemoryPoolBlock) (b : MemoryPoolBlock)
    (bs : List MemoryPoolBlock) (o : Option Found)
    → Under low prev
    → Sorted low (b ∷ bs)
    → Back required b.size (some b) bs o
    → Back required low prev (b ∷ bs) (stop_at required prev b bs o)
stop_at-Back required low prev b bs (some (found, others)) u s v =
    let small : b.size < required = ground (arith, v.0) in
    (
      starts_small required low prev u (omega arith),
      Fit-behind required low b bs (some (found, others)) s small v.1,
    )
stop_at-Back required low prev b bs none u s v =
    branch (Bool-cases (leb required b.size)) (Bool-cases (starts required prev))
  where
    branch :
        (leb required b.size ≡ true) ⊎ (leb required b.size ≡ false)
        → (starts required prev ≡ true) ⊎ (starts required prev ≡ false)
        → Back required low prev (b ∷ bs) (stop_at required prev b bs none)
    branch (inl h) (inl k) = rw (h, k) (k, Fit-here required low b bs s (leb→le _ _ h))
    branch (inl h) (inr k) = rw (h, k) λ e. absurd (true-false e k)
    branch (inr h) k = rw h λ e. (ground (arith, h), v (ground (arith, h)))

find_backward-Back :
    (required low : ℕ) (prev : Option MemoryPoolBlock) (bs : List MemoryPoolBlock)
    → Under low prev
    → Sorted low bs
    → Back required low prev bs (find_backward required prev bs)
find_backward-Back required low prev [] u s = unfold find_backward in λ e. tt
find_backward-Back required low prev (b ∷ bs) u s =
    subst (Back required low prev (b ∷ bs)) (sym (find_backward-stop_at required prev b bs)) (
      stop_at-Back required low prev b bs _ u s
        (find_backward-Back required b.size (some b) bs (omega arith) s.1))

Back-Fit :
    (required low : ℕ) (bs : List MemoryPoolBlock) (o : Option Found)
    → Back required low none bs o
    → Fit required low bs o
Back-Fit required low bs none v = v refl
Back-Fit required low bs (some found) v = v.1

-- `malloc`'s search through free blocks in the order of their sizes, forward or backward, gives a
-- smallest block that is large enough and leaves the others in order; it gives none only if all are
-- too small.
pub find_block-Fit :
    (required low : ℕ) (bs : List MemoryPoolBlock)
    → Sorted low bs
    → Fit required low bs (find_block required bs)
unfolding find_block
find_block-Fit required low bs s = branch (Bool-cases (leb page_size required))
  where
    branch :
        (leb page_size required ≡ true) ⊎ (leb page_size required ≡ false)
        → Fit required low bs (
            if leb page_size required
            then find_backward required none bs
            else find_forward required bs)
    branch (inl h) =
        rw h (Back-Fit required low bs _ (find_backward-Back required low none bs tt s))
    branch (inr h) = rw h (find_forward-Fit required low bs s)
