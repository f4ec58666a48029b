-- ===== src/MemoryPool/Free.antt =====
-- `free`, and a block that is handed out and taken back.
use uberos.Prelude.{ℕ, ◌+◌, ◌≤◌, ◌<◌, ◌≡◌, ap, ◌∙◌, arith, some, u32_mod, sub32}
use uberos.MemoryPool.{MemoryPoolBlock, MemoryPool, header_size, align, malloc, free}
use uberos.MemoryPool.Blocks.{count, inside, Adds, Sorted}
use uberos.MemoryPool.Search.{TooSmall}
use uberos.MemoryPool.Claim.{
  WellFormed, Accounted, claim_block-blocks, claim_block-used, claim_block-WellFormed,
  claim_block-Accounted, block_in_space,
}
use uberos.MemoryPool.Malloc.{malloc-Handed}

-- `free` of a block that ends within the address space.
free-blocks :
    (r : MemoryPoolBlock) (p : MemoryPool)
    → WellFormed p
    → r.address + header_size + r.size ≤ u32_mod
    → WellFormed (free r p) × Adds p.available_blocks r (free r p).available_blocks
unfolding free
free-blocks r p v e =
    let c = claim_block-WellFormed r p v e in
    (record { sorted = c.sorted; in_space = c.in_space }, (claim_block-blocks r p v.sorted).1)

free-used : (r : MemoryPoolBlock) (p : MemoryPool) → (free r p).used ≡ sub32 p.used r.size
unfolding free
free-used r p = ap (λ u. sub32 u r.size) (claim_block-used r p)

free-Accounted :
    (r : MemoryPoolBlock) (p : MemoryPool) (extra : ℕ)
    → Sorted 0 p.available_blocks
    → Accounted extra p
    → Accounted extra (free r p)
unfolding free
free-Accounted r p extra s a = claim_block-Accounted r p extra s a

-- A block that `malloc` has handed out and `free` takes back leaves the pool as it was, but for the
-- way in which the free memory is cut into blocks: every address lies in as many free blocks as
-- before, `used` is the same, and the free blocks are in order and accounted for.
pub free-malloc :
    (alignment size : ℕ) (p : MemoryPool)
    → WellFormed p
    → p.used < u32_mod
    → (TooSmall (align size alignment) p.available_blocks → ⊥)
    → (r : MemoryPoolBlock) × (p' : MemoryPool) × (malloc alignment size p ≡ some (some r, p'))
      × WellFormed (free r p')
      × ((x : ℕ) → count x (free r p').available_blocks ≡ count x p.available_blocks)
      × ((free r p').used ≡ p.used)
      × ((extra : ℕ) → Accounted extra p → Accounted extra (free r p'))
free-malloc alignment size p v small large =
    let (r, p', e, h) = malloc-Handed alignment size p v large in
    let within =
      block_in_space r (λ x. count x p'.available_blocks) (λ x. count x p.available_blocks) h.parts
        v.in_space in
    let f = free-blocks r p' h.formed within in
    (
      r,
      p',
      e,
      f.0,
      λ x. omega (arith, f.1 (inside x), h.parts x),
      free-used r p' ∙ omega (arith, h.used, within, small),
      λ extra a. free-Accounted r p' extra h.formed.sorted (h.accounted extra a),
    )
