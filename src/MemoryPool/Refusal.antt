-- ===== src/MemoryPool/Refusal.antt =====
-- `malloc` where all free blocks are too small.
use uberos.Prelude.{
  ℕ, ◌≤◌, ◌≡◌, refl, List, [], ◌∷◌, Bool, true, false, ◌&&◌, leb, if◌then◌else◌, arith, Option,
  none, some,
}
use uberos.MemoryPool.{MemoryPoolBlock, MemoryPool, Found, find_block, align, malloc, compact}
use uberos.MemoryPool.Blocks.{sum, count}
use uberos.MemoryPool.Search.{Fit, TooSmall, find_block-Fit}
use uberos.MemoryPool.Claim.{WellFormed}
use uberos.MemoryPool.Compact.{compact-WellFormed}

-- The sum of those blocks that are large enough is 0 if there are none.
abbrev pub large : ℕ → MemoryPoolBlock → ℕ
large required b = if leb required b.size then 1 else 0

pub TooSmall-sum :
    (required : ℕ) (bs : List MemoryPoolBlock) → TooSmall required bs → sum (large required) bs ≡ 0
TooSmall-sum required [] t = refl
TooSmall-sum required (b ∷ bs) t = ground (arith, t.0, TooSmall-sum required bs t.1)

pub large-one : (required : ℕ) (b : MemoryPoolBlock) → required ≤ b.size → large required b ≡ 1
large-one required b h = ground (arith, h)

unfit :
    (required : ℕ) (b : MemoryPoolBlock) (others bs : List MemoryPoolBlock)
    → Fit required 0 bs (some (b, others))
    → TooSmall required bs
    → ⊥
unfit required b others bs fit t =
    omega (arith, TooSmall-sum required bs t, fit.2 (large required), large-one required b fit.0)

abbrev Answered : Type 0
Answered = Option MemoryPoolBlock × MemoryPool

malloc-missed :
    (alignment size : ℕ) (p p' : MemoryPool)
    → find_block (align size alignment) p.available_blocks ≡ none
    → compact p ≡ some p'
    → malloc alignment size p
      ≡ some
          (none, (if p.needs_compacting && leb (align size alignment) p.available then p' else p))
unfolding malloc
malloc-missed alignment size p p' e f =
    rw (e, malloc, f, malloc) (both (p.needs_compacting && leb (align size alignment) p.available))
  where
    missed : MemoryPool → Option Answered
    missed q = some (none, q)

    both : (b : Bool) → (if b then missed p' else missed p) ≡ missed (if b then p' else p)
    both true = refl
    both false = refl

-- `malloc` of a pool in which all free blocks are too small returns nothing, and leaves the pool as
-- it was, but for merging and sorting the free blocks: `used` and `available` are the same, and every
-- address lies in as many free blocks as before. (No free block lies at address 0.)
pub malloc-TooSmall :
    (alignment size : ℕ) (p : MemoryPool)
    → WellFormed p
    → count 0 p.available_blocks ≡ 0
    → TooSmall (align size alignment) p.available_blocks
    → (p' : MemoryPool) × (malloc alignment size p ≡ some (none, p'))
      × WellFormed p'
      × ((x : ℕ) → count x p'.available_blocks ≡ count x p.available_blocks)
      × (p'.available ≡ p.available)
      × (p'.used ≡ p.used)
malloc-TooSmall alignment size p v z small =
    let (p', e, w, counts, a, u) = compact-WellFormed p v z in
    branch (p.needs_compacting && leb (align size alignment) p.available) p' w counts a u (
      malloc-missed alignment size p p'
        (missed (find_block (align size alignment) p.available_blocks) refl
          (find_block-Fit (align size alignment) 0 p.available_blocks v.sorted))
        e)
  where
    missed :
        (o : Option Found)
        → find_block (align size alignment) p.available_blocks ≡ o
        → Fit (align size alignment) 0 p.available_blocks o
        → find_block (align size alignment) p.available_blocks ≡ none
    missed none e fit = e
    missed (some (b, others)) e fit =
        absurd (unfit (align size alignment) b others p.available_blocks fit small)

    branch :
        (b : Bool) (p' : MemoryPool)
        → WellFormed p'
        → ((x : ℕ) → count x p'.available_blocks ≡ count x p.available_blocks)
        → p'.available ≡ p.available
        → p'.used ≡ p.used
        → malloc alignment size p ≡ some (none, (if b then p' else p))
        → (q : MemoryPool) × (malloc alignment size p ≡ some (none, q))
          × WellFormed q
          × ((x : ℕ) → count x q.available_blocks ≡ count x p.available_blocks)
          × (q.available ≡ p.available)
          × (q.used ≡ p.used)
    branch true p' w counts a u e = (p', e, w, counts, a, u)
    branch false p' w counts a u e = (p, e, v, λ x. refl, refl, refl)
