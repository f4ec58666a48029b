-- ===== src/MemoryPool/Blocks.antt =====
-- What the lists of free blocks stand for: the addresses they hold, and the order of their sizes.
use uberos.Prelude.{
  ℕ, ◌+◌, ◌≤◌, ◌<◌, ◌≡◌, refl, sym, List, [], ◌∷◌, ◌&&◌, leb, ltb, if◌then◌else◌, arith, Option,
  none, some, Bool-cases, inl, inr, leb→le, subst,
}
use uberos.MemoryPool.{MemoryPoolBlock, header_size, insert_forward, insert_backward, or_front}

-- A sum over the blocks. An equation for every summand is one of the blocks but for their order.
abbrev pub sum : (MemoryPoolBlock → ℕ) → List MemoryPoolBlock → ℕ
sum f [] = 0
sum f (b ∷ bs) = f b + sum f bs

-- Whether an address lies in a block, its header included.
abbrev pub inside : ℕ → MemoryPoolBlock → ℕ
inside x b = if leb b.address x && ltb x (b.address + header_size + b.size) then 1 else 0

-- The number of blocks that an address lies in.
abbrev pub count : ℕ → List MemoryPoolBlock → ℕ
count x = sum (inside x)

-- The blocks after one has come to them, up to order.
abbrev pub Adds : List MemoryPoolBlock → MemoryPoolBlock → List MemoryPoolBlock → Type 0
Adds bs r ys = (f : MemoryPoolBlock → ℕ) → sum f ys ≡ f r + sum f bs

-- The blocks are at least `low` bytes large, and in the order of their sizes.
abbrev pub Sorted : ℕ → List MemoryPoolBlock → Type 0
Sorted low [] = Unit {0}
Sorted low (b ∷ bs) = (low ≤ b.size) × Sorted b.size bs

Sorted-weaken :
    (low low' : ℕ) (bs : List MemoryPoolBlock) → low' ≤ low → Sorted low bs → Sorted low' bs
Sorted-weaken low low' [] h s = tt
Sorted-weaken low low' (b ∷ bs) h s = (omega arith, s.1)

insert_forward-cases :
    (P : List MemoryPoolBlock → Type 0) (r b : MemoryPoolBlock) (bs : List MemoryPoolBlock)
    → (r.size ≤ b.size → P (r ∷ b ∷ bs))
    → (b.size < r.size → P (b ∷ insert_forward r bs))
    → P (insert_forward r (b ∷ bs))
unfolding insert_forward
insert_forward-cases P r b bs here later = elim (Bool-cases (leb r.size b.size)) [
  | inl h ↦ rw h (here (leb→le _ _ h))
  | inr h ↦ rw h (later (ground (arith, h)))
]

pub insert_forward-Sorted :
    (low : ℕ) (r : MemoryPoolBlock) (bs : List MemoryPoolBlock)
    → low ≤ r.size
    → Sorted low bs
    → Sorted low (insert_forward r bs)
insert_forward-Sorted low r [] h s = unfold insert_forward in (h, tt)
insert_forward-Sorted low r (b ∷ bs) h s =
    insert_forward-cases (Sorted low) r b bs (λ a. (h, (a, s.1)))
      (λ a. (s.0, insert_forward-Sorted b.size r bs (omega arith) s.1))

pub insert_forward-Adds :
    (r : MemoryPoolBlock) (bs : List MemoryPoolBlock) → Adds bs r (insert_forward r bs)
insert_forward-Adds r [] f = unfold insert_forward in refl
insert_forward-Adds r (b ∷ bs) f =
    insert_forward-cases (λ ys. sum f ys ≡ f r + (f b + sum f bs)) r b bs (λ a. refl)
      (λ a. omega (arith, insert_forward-Adds r bs f))

-- What the backward search leaves: the new block is in, or all blocks are larger.
abbrev Put : ℕ → MemoryPoolBlock → List MemoryPoolBlock → Option (List MemoryPoolBlock) → Type 0
Put low r bs none = (l : ℕ) → l ≤ r.size → Sorted l (r ∷ bs)
Put low r bs (some ys) = Sorted low ys × Adds bs r ys

abbrev put_behind :
    (r b : MemoryPoolBlock) (bs : List MemoryPoolBlock)
    → Option (List MemoryPoolBlock)
    → Option (List MemoryPoolBlock)
put_behind r b bs o = elim o [
  | some others ↦ some (b ∷ others)
  | none ↦ if leb b.size r.size then some (b ∷ r ∷ bs) else none
]

put_behind-Put :
    (low : ℕ) (r b : MemoryPoolBlock) (bs : List MemoryPoolBlock)
    (o : Option (List MemoryPoolBlock))
    → Sorted low (b ∷ bs)
    → Put b.size r bs o
    → Put low r (b ∷ bs) (put_behind r b bs o)
put_behind-Put low r b bs (some others) s v = ((s.0, v.0), λ x. omega (arith, v.1 x))
put_behind-Put low r b bs none s v = elim (Bool-cases (leb b.size r.size)) [
  | inl h ↦ rw h ((s.0, v b.size (leb→le _ _ h)), λ x. omega arith)
  | inr h ↦ rw h (λ l k. (k, (ground (arith, h), s.1)))
]

insert_backward-behind :
    (r b : MemoryPoolBlock) (bs : List MemoryPoolBlock)
    → insert_backward r (b ∷ bs) ≡ put_behind r b bs (insert_backward r bs)
unfolding insert_backward
insert_backward-behind r b bs = refl

insert_backward-Put :
    (low : ℕ) (r : MemoryPoolBlock) (bs : List MemoryPoolBlock)
    → Sorted low bs
    → Put low r bs (insert_backward r bs)
insert_backward-Put low r [] s = unfold insert_backward in λ l h. (h, tt)
insert_backward-Put low r (b ∷ bs) s =
    subst (Put low r (b ∷ bs)) (sym (insert_backward-behind r b bs))
      (put_behind-Put low r b bs (insert_backward r bs) s (insert_backward-Put b.size r bs s.1))

or_front-Put :
    (low : ℕ) (r : MemoryPoolBlock) (bs : List MemoryPoolBlock) (o : Option (List MemoryPoolBlock))
    → low ≤ r.size
    → Put low r bs o
    → Sorted low (or_front r bs o) × Adds bs r (or_front r bs o)
or_front-Put low r bs none h v = (v low h, λ x. refl)
or_front-Put low r bs (some ys) h v = v

pub insert_backward-front :
    (low : ℕ) (r : MemoryPoolBlock) (bs : List MemoryPoolBlock)
    → low ≤ r.size
    → Sorted low bs
    → Sorted low (or_front r bs (insert_backward r bs))
      × Adds bs r (or_front r bs (insert_backward r bs))
insert_backward-front low r bs h s =
    or_front-Put low r bs (insert_backward r bs) h (insert_backward-Put low r bs s)
