-- ===== src/Tests/Pool.antt =====
-- A pool with three free blocks, two of them neighbours.
use uberos.Prelude.{
  ℕ, ◌≡◌, refl, List, [], ◌∷◌, true, some, none, arith, Option, Bool, false, not, ◌&&◌, ◌==◌, leb,
  if◌then◌else◌, ◌+◌, ◌*◌, ◌⊎◌, inl, inr, Bool-cases, ap, sym, true-false, u32_mod, ◌≢◌, ◌≤◌,
}
use uberos.PagedPool
use uberos.PagedPool.Growth.{Lawful, Returned, malloc-Returned}
use uberos.MemoryPool.{page_size, MemoryPoolBlock, MemoryPool, align, malloc, free, compact}
use uberos.MemoryPool.Blocks.{count, Sorted}
use uberos.MemoryPool.Search.{TooSmall}
use uberos.MemoryPool.Claim.{WellFormed, Accounted}
use uberos.MemoryPool.Malloc.{Handed, malloc-Handed}
use uberos.MemoryPool.Free.{free-malloc}
use uberos.MemoryPool.Compact.{compact-WellFormed}
use uberos.MemoryPool.Refusal.{malloc-TooSmall}

abbrev block : ℕ → ℕ → MemoryPoolBlock
block address size = record { address = address; size = size }

abbrev three_blocks : List MemoryPoolBlock
three_blocks = block 1000 40 ∷ block 1052 60 ∷ block 5000 200 ∷ []

abbrev pool : MemoryPool
pool = record {
  available = 336;
  used = 500;
  needs_compacting = true;
  available_blocks = three_blocks;
}

pool-Sorted : Sorted 0 three_blocks
pool-Sorted = (ground arith, (ground arith, (ground arith, tt)))

pool-WellFormed : WellFormed pool
pool-WellFormed = record { sorted = pool-Sorted; in_space = λ x h. ground (arith, h) }

fits : TooSmall (align 50 4) three_blocks → ⊥
unfolding align
fits t = omega (arith, t.1.0)

malloc-Handed_example :
    (r : MemoryPoolBlock) × (p : MemoryPool) × (malloc 4 50 pool ≡ some (some r, p))
    × Handed 4 (align 50 4) pool r p
malloc-Handed_example = malloc-Handed 4 50 pool pool-WellFormed fits

free-malloc_example :
    (r : MemoryPoolBlock) × (p : MemoryPool) × (malloc 4 50 pool ≡ some (some r, p))
    × WellFormed (free r p)
    × ((x : ℕ) → count x (free r p).available_blocks ≡ count x three_blocks)
    × ((free r p).used ≡ 500)
    × ((extra : ℕ) → Accounted extra pool → Accounted extra (free r p))
free-malloc_example = free-malloc 4 50 pool pool-WellFormed (ground arith) fits

compact-WellFormed_example :
    (p : MemoryPool) × (compact pool ≡ some p)
    × WellFormed p
    × ((x : ℕ) → count x p.available_blocks ≡ count x three_blocks)
    × (p.available ≡ 336)
    × (p.used ≡ 500)
compact-WellFormed_example = compact-WellFormed pool pool-WellFormed refl

too_small : TooSmall (align 300 4) three_blocks
unfolding align
too_small = (ground arith, (ground arith, (ground arith, tt)))

malloc-TooSmall_example :
    (p : MemoryPool) × (malloc 4 300 pool ≡ some (none, p))
    × WellFormed p
    × ((x : ℕ) → count x p.available_blocks ≡ count x three_blocks)
    × (p.available ≡ 336)
    × (p.used ≡ 500)
malloc-TooSmall_example = malloc-TooSmall 4 300 pool pool-WellFormed refl too_small

-- Pages from address `s` on, up to 8 MB.
abbrev bump : ℕ → ℕ → Option ℕ × ℕ
bump n s =
    (if not (s == 0) && leb (s + page_size * n) 8388608 then some s else none, s + page_size * n)

bump_placed :
    (n s a : ℕ)
    → (not (s == 0) && leb (s + page_size * n) 8388608) ≡ true
    → s ≡ a
    → (a ≢ 0) × (a + page_size * n ≤ u32_mod)
bump_placed n s a c h = (ground (arith, c, h), ground (arith, c, h))

bump-Lawful : Lawful bump
bump-Lawful n s s' a e =
    given (Bool-cases (not (s == 0) && leb (s + page_size * n) 8388608))
      (ap (λ (t : Option ℕ × ℕ). t.0) e)
  where
    or_zero : Option ℕ → ℕ
    or_zero none = 0
    or_zero (some x) = x

    is_some : Option ℕ → Bool
    is_some none = false
    is_some (some x) = true

    given :
        ((not (s == 0) && leb (s + page_size * n) 8388608) ≡ true)
          ⊎ ((not (s == 0) && leb (s + page_size * n) 8388608) ≡ false)
        → (if not (s == 0) && leb (s + page_size * n) 8388608 then some s else none) ≡ some a
        → (a ≢ 0) × (a + page_size * n ≤ u32_mod)
    given (inl c) h = bump_placed n s a c (ap or_zero (rw c at h))
    given (inr c) h = absurd (true-false refl (sym (ap is_some (rw c at h))))

malloc-Returned_example :
    (t : Option MemoryPoolBlock × MemoryPool × ℕ) × (PagedPool.malloc bump 2 4 300 (pool, 65536)
      ≡ some t)
    × Returned bump bump-Lawful (align 300 4) pool 65536 t
malloc-Returned_example =
    malloc-Returned bump bump-Lawful 300 pool 65536 (ground arith) (pool-WellFormed, refl)
