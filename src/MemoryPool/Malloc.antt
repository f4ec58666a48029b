-- ===== src/MemoryPool/Malloc.antt =====
-- `malloc` where a free block is large enough.
use uberos.Prelude.{
  ℕ, ◌+◌, ◌-◌, ◌≤◌, ◌<◌, ◌≡◌, refl, ap, sym, ◌∙◌, List, true, false, if◌then◌else◌, arith, Option,
  none, some, Bool-cases, inl, inr, ◌⊎◌, u32_mod, add32, sub32,
}
use uberos.MemoryPool.{
  MemoryPoolBlock, MemoryPool, header_size, new_block, splits, Found, claim_block, take_block,
  find_block, align, malloc,
}
use uberos.MemoryPool.Blocks.{count, inside}
use uberos.MemoryPool.Search.{Fit, TooSmall, find_block-Fit}
use uberos.MemoryPool.Claim.{
  WellFormed, size_of, Accounted, claim_block-blocks, claim_block-used, claim_block-WellFormed,
  claim_block-Accounted, block_in_space,
}

-- A block that has been handed out, and the pool after it.
pub record Handed (alignment required : ℕ) (p : MemoryPool) (r : MemoryPoolBlock) (p' : MemoryPool)
    : Type 0 where
  pub large_enough : required ≤ r.size
  pub tight : (r.size ≡ required) ⊎ (splits alignment (r.size - required) ≡ false)
  pub formed : WellFormed p'
  pub parts : (x : ℕ) → count x p.available_blocks ≡ inside x r + count x p'.available_blocks
  pub used : p'.used ≡ add32 p.used r.size
  pub accounted : (extra : ℕ) → Accounted extra p → Accounted extra p'

module _ (alignment required : ℕ) (b : MemoryPoolBlock) (others : List MemoryPoolBlock)
    (p : MemoryPool) (v : WellFormed p)
    (fit : Fit required 0 p.available_blocks (some (b, others))) where
  abbrev popped : MemoryPool
  popped = record p { available = sub32 p.available b.size; available_blocks = others }

  abbrev tail : MemoryPoolBlock
  tail = new_block (add32 (add32 b.address header_size) required) (sub32 b.size required)

  within : b.address + header_size + b.size ≤ u32_mod
  within =
      block_in_space b (λ x. count x others) (λ x. count x p.available_blocks)
        (λ x. fit.2 (inside x)) v.in_space

  popped-WellFormed : WellFormed popped
  popped-WellFormed = record {
    sorted = fit.1;
    in_space = λ x h. omega (arith, fit.2 (inside x), v.in_space x h);
  }

  popped-Accounted : (extra : ℕ) → Accounted extra p → Accounted extra popped
  popped-Accounted extra a = omega (arith, fit.2 size_of, a, within)

  remaining : sub32 b.size required ≡ b.size - required
  remaining = omega (arith, fit.0, within)

  whole-Handed :
      splits alignment (sub32 b.size required) ≡ false
      → Handed alignment required p b (record popped { used = add32 popped.used b.size })
  whole-Handed h = record {
    large_enough = fit.0;
    tight = inr (ap (splits alignment) (sym remaining) ∙ h);
    formed = record { sorted = popped-WellFormed.sorted; in_space = popped-WellFormed.in_space };
    parts = λ x. fit.2 (inside x);
    used = refl;
    accounted = popped-Accounted;
  }

  module _ (h : header_size < b.size - required) where
    tail-address : tail.address ≡ b.address + header_size + required
    tail-address = omega (arith, within, fit.0, h)

    tail-size : tail.size ≡ b.size - required - header_size
    tail-size = omega (arith, within, fit.0, h)

    inside_parts :
        (x start size : ℕ)
        → start ≡ b.address + header_size + required
        → size ≡ b.size - required - header_size
        → inside x b
          ≡ inside x (record b { size = required })
            + inside x (record { address = start; size = size })
    inside_parts x start size e f = ground (arith, fit.0)

    cut-Handed :
        Handed alignment required p
          (record b { size = required })
          (record (claim_block tail popped) {
            used = add32 (claim_block tail popped).used required;
          })
    cut-Handed =
        let c =
          claim_block-WellFormed tail popped popped-WellFormed
            (omega (arith, tail-address, tail-size, within, fit.0)) in
        record {
          large_enough = omega arith;
          tight = inl refl;
          formed = record { sorted = c.sorted; in_space = c.in_space };
          parts = λ x. omega (
            arith,
            fit.2 (inside x),
            inside_parts x tail.address tail.size tail-address tail-size,
            (claim_block-blocks tail popped fit.1).1 (inside x),
          );
          used = ap (λ u. add32 u required) (claim_block-used tail popped);
          accounted =
              λ extra a. claim_block-Accounted tail popped extra fit.1 (popped-Accounted extra a);
        }

  abbrev cut : MemoryPoolBlock × MemoryPool
  cut = (
    record b { size = required },
    record (claim_block tail popped) { used = add32 (claim_block tail popped).used required },
  )

  abbrev whole : MemoryPoolBlock × MemoryPool
  whole = (b, record popped { used = add32 popped.used b.size })

  take_block-Handed :
      let (r, p') = take_block alignment required (b, others) p in Handed alignment required p r p'
  unfolding take_block
  take_block-Handed = branch (Bool-cases (splits alignment (sub32 b.size required)))
    where
      long : splits alignment (sub32 b.size required) ≡ true → header_size < b.size - required
      long h = ground (arith, h, remaining)

      branch :
          (splits alignment (sub32 b.size required) ≡ true)
            ⊎ (splits alignment (sub32 b.size required) ≡ false)
          → let (r, p') = (if splits alignment (sub32 b.size required) then cut else whole) in
            Handed alignment required p r p'
      branch (inl h) = rw h (cut-Handed (long h))
      branch (inr h) = rw h (whole-Handed h)

malloc-found :
    (alignment size : ℕ) (p : MemoryPool) (found : Found)
    → find_block (align size alignment) p.available_blocks ≡ some found
    → malloc alignment size p
      ≡ some (let (r, p') = take_block alignment (align size alignment) found p in (some r, p'))
unfolding malloc
malloc-found alignment size p found e = rw (e, malloc)

-- `malloc` of a pool in which a free block is large enough hands out a block: at least as large as
-- required, and larger only where the tail could not be a block of its own. Every address lies in as
-- many of the free blocks and the new one as it did in free blocks before, the free blocks stay in
-- order, and `used` and `available` are accounted for.
pub malloc-Handed :
    (alignment size : ℕ) (p : MemoryPool)
    → WellFormed p
    → (TooSmall (align size alignment) p.available_blocks → ⊥)
    → (r : MemoryPoolBlock) × (p' : MemoryPool) × (malloc alignment size p ≡ some (some r, p'))
      × Handed alignment (align size alignment) p r p'
malloc-Handed alignment size p v large =
    branch (find_block required p.available_blocks) refl
      (find_block-Fit required 0 p.available_blocks v.sorted)
  where
    required : ℕ
    required = align size alignment

    branch :
        (o : Option Found)
        → find_block (align size alignment) p.available_blocks ≡ o
        → Fit (align size alignment) 0 p.available_blocks o
        → (r : MemoryPoolBlock) × (p' : MemoryPool) × (malloc alignment size p ≡ some (some r, p'))
          × Handed alignment (align size alignment) p r p'
    branch none e fit = absurd (large fit)
    branch (some (b, others)) e fit =
        let t = take_block alignment (align size alignment) (b, others) p in
        (
          t.0,
          t.1,
          malloc-found alignment size p (b, others) e,
          take_block-Handed alignment (align size alignment) b others p v fit,
        )
