-- ===== src/MemoryPool/Claim.antt =====
-- A well-formed pool, and what `claim_block` does to it.
use uberos.Prelude.{
  ℕ, ◌+◌, ◌-◌, ◌%◌, ◌≤◌, ◌<◌, ◌≡◌, refl, ◌∙◌, true, false, leb, if◌then◌else◌, arith, Bool-cases,
  inl, inr, ◌⊎◌, u32_mod, add32,
}
use uberos.MemoryPool.{
  MemoryPoolBlock, MemoryPool, header_size, page_size, claim_block, or_front, insert_backward,
  insert_forward,
}
use uberos.MemoryPool.Blocks.{
  sum, count, inside, Adds, Sorted, insert_forward-Sorted, insert_forward-Adds,
  insert_backward-front,
}

-- The free blocks are in the order of their sizes, and end within the address space.
pub record WellFormed (p : MemoryPool) : Type 0 where
  pub sorted : Sorted 0 p.available_blocks
  pub in_space : (x : ℕ) → u32_mod ≤ x → count x p.available_blocks ≡ 0

abbrev pub size_of : MemoryPoolBlock → ℕ
size_of b = b.size

-- `available` is the sum of the free blocks' sizes, but for a fixed difference: the pool starts with
-- the size of its memory, and the first block is a header smaller.
abbrev pub Accounted : ℕ → MemoryPool → Type 0
Accounted extra p = p.available ≡ (sum size_of p.available_blocks + extra) % u32_mod

-- `claim_block` puts the block among the free blocks, which stay in the order of their sizes, on both
-- searches; apart from the order no other block comes or goes.
pub claim_block-blocks :
    (r : MemoryPoolBlock) (p : MemoryPool)
    → Sorted 0 p.available_blocks
    → Sorted 0 (claim_block r p).available_blocks
      × Adds p.available_blocks r (claim_block r p).available_blocks
unfolding claim_block
claim_block-blocks r p s = branch (Bool-cases (leb page_size r.size))
  where
    branch :
        (leb page_size r.size ≡ true) ⊎ (leb page_size r.size ≡ false)
        → let ys =
            (if leb page_size r.size
              then or_front r p.available_blocks (insert_backward r p.available_blocks)
              else insert_forward r p.available_blocks) in
          Sorted 0 ys × Adds p.available_blocks r ys
    branch (inl h) = rw h (insert_backward-front 0 r p.available_blocks (omega arith) s)
    branch (inr h) = rw h (
      insert_forward-Sorted 0 r p.available_blocks (omega arith) s,
      insert_forward-Adds r p.available_blocks,
    )

pub claim_block-available :
    (r : MemoryPoolBlock) (p : MemoryPool) → (claim_block r p).available ≡ add32 p.available r.size
unfolding claim_block
claim_block-available r p = refl

pub claim_block-used : (r : MemoryPoolBlock) (p : MemoryPool) → (claim_block r p).used ≡ p.used
unfolding claim_block
claim_block-used r p = refl

pub inside_end :
    (r : MemoryPoolBlock) (x : ℕ)
    → u32_mod ≤ x
    → r.address + header_size + r.size ≤ u32_mod
    → inside x r ≡ 0
inside_end r x h k = ground arith

pub claim_block-WellFormed :
    (r : MemoryPoolBlock) (p : MemoryPool)
    → WellFormed p
    → r.address + header_size + r.size ≤ u32_mod
    → WellFormed (claim_block r p)
claim_block-WellFormed r p v e =
    let c = claim_block-blocks r p v.sorted in
    record {
      sorted = c.0;
      in_space = λ x h. omega (arith, c.1 (inside x), v.in_space x h, inside_end r x h e);
    }

pub claim_block-Accounted :
    (r : MemoryPoolBlock) (p : MemoryPool) (extra : ℕ)
    → Sorted 0 p.available_blocks
    → Accounted extra p
    → Accounted extra (claim_block r p)
claim_block-Accounted r p extra s a =
    claim_block-available r p ∙ omega (arith, (claim_block-blocks r p s).1 size_of, a)

-- A block whose last byte lies in the address space.
end_in_space : (b : MemoryPoolBlock) → inside (b.address + header_size + b.size - 1) b ≡ 1
end_in_space b = ground arith

pub block_in_space :
    (b : MemoryPoolBlock) (n m : ℕ → ℕ)
    → ((x : ℕ) → m x ≡ inside x b + n x)
    → ((x : ℕ) → u32_mod ≤ x → m x ≡ 0)
    → b.address + header_size + b.size ≤ u32_mod
block_in_space b n m adds space =
    elim (Bool-cases (leb (b.address + header_size + b.size) u32_mod)) [
      | inl h ↦ ground (arith, h)
      | inr h ↦ absurd (beyond (ground (arith, h)))
    ]
  where
    beyond : u32_mod < b.address + header_size + b.size → ⊥
    beyond h = omega (
      arith,
      adds (b.address + header_size + b.size - 1),
      space (b.address + header_size + b.size - 1) (omega arith),
      end_in_space b,
    )
