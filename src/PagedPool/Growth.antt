-- ===== src/PagedPool/Growth.antt =====
-- `malloc` of the paged pool ends: after pages for the block have been added, the pool has one.
use uberos.Prelude.{
  ℕ, suc, ◌+◌, ◌-◌, ◌*◌, ◌%◌, ◌≤◌, ◌<◌, ◌≡◌, ◌≢◌, refl, ap, sym, ◌∙◌, Option, none, some, Bool,
  true, false, leb, ltb, if◌then◌else◌, add32, u32_mod, arith, Bool-cases, inl, inr, ◌⊎◌, subst,
  ltb→lt,
}
use uberos.MemoryPool
use uberos.MemoryPool.{
  MemoryPoolBlock, MemoryPool, header_size, page_size, new_block, align, claim_block, find_block,
  Found,
}
use uberos.MemoryPool.Blocks.{count, inside}
use uberos.MemoryPool.Search.{Fit, TooSmall, find_block-Fit}
use uberos.MemoryPool.Claim.{WellFormed, claim_block-blocks, claim_block-WellFormed}
use uberos.MemoryPool.Malloc.{malloc-Handed}
use uberos.MemoryPool.Refusal.{malloc-TooSmall, large, TooSmall-sum, large-one}
use uberos.PagedPool.{page_count, add_pages, add_page, add_for, malloc_loop, malloc, then_go}

align-align : (size : ℕ) → size + page_size < u32_mod → align (align size 4) 4 ≡ align size 4
unfolding align
align-align size h = ground arith

align_bound : (size : ℕ) → size + page_size < u32_mod → align size 4 < size + 4
unfolding align
align_bound size h = ground arith

-- Pages for the block, as `add_for` counts them.
abbrev pub pages : ℕ → ℕ
pages required = if leb page_size (add32 header_size required) then page_count required else 1

pages_enough :
    (required : ℕ) → required + 8192 < u32_mod → header_size + required ≤ page_size * pages required
unfolding page_count
pages_enough required h = ground arith

new_block-size :
    (address count required : ℕ)
    → header_size + required ≤ page_size * count
    → page_size * count < u32_mod
    → (new_block address (page_size * count % u32_mod)).size ≡ page_size * count - header_size
new_block-size address count required h k = omega arith

-- What the allocator promises: the pages that it gives are not at address 0, and end within the
-- address space.
abbrev pub Lawful : {S : Type 0} → (ℕ → S → Option ℕ × S) → Type 0
Lawful {S} allocate_pages =
    (n : ℕ) (s s' : S) (a : ℕ)
    → allocate_pages n s ≡ (some a, s')
    → (a ≢ 0) × (a + page_size * n ≤ u32_mod)

-- A well-formed pool without a block at address 0.
abbrev pub Sound : MemoryPool → Type 0
Sound p = WellFormed p × (count 0 p.available_blocks ≡ 0)

inside_zero : (b : MemoryPoolBlock) → b.address ≢ 0 → inside 0 b ≡ 0
inside_zero b h = ground (arith, h)

claimed :
    (b : MemoryPoolBlock) (required : ℕ) (p : MemoryPool)
    → Sound p
    → required ≤ b.size
    → b.address ≢ 0
    → b.address + header_size + b.size ≤ u32_mod
    → Sound (claim_block b p)
      × (TooSmall required (claim_block b p).available_blocks → ⊥)
      × ((x : ℕ)
          → count x (claim_block b p).available_blocks ≡ inside x b + count x p.available_blocks)
claimed b required p v h z e =
    let c = claim_block-blocks b p v.0.sorted in
    (
      (claim_block-WellFormed b p v.0 e, omega (arith, c.1 (inside 0), inside_zero b z, v.1)),
      (λ t. omega (arith, TooSmall-sum required _ t, c.1 (large required), large-one required b h)),
      λ x. c.1 (inside x),
    )

-- So many pages at an address, as one block.
abbrev pub grant : ℕ → ℕ → MemoryPoolBlock
grant n address = new_block address (page_size * n % u32_mod)

-- A pool has too little memory for a block, or no free block that is large enough.
abbrev pub Lacks : ℕ → MemoryPool → Type 0
Lacks required p = (p.available < required) ⊎ TooSmall required p.available_blocks

module _ {S : Type 0} (allocate_pages : ℕ → S → Option ℕ × S) (lawful : Lawful allocate_pages) where
  -- After so many pages were asked for in the state `s`: the pool is sound; if they came, it has a
  -- block that is large enough, and covers them too.
  abbrev Added : ℕ → ℕ → MemoryPool → S → Bool × MemoryPool × S → Type 0
  Added n required p s (true, p', s') =
      Sound p'
      × (TooSmall required p'.available_blocks → ⊥)
      × ((a : ℕ) × (allocate_pages n s ≡ (some a, s'))
          × ((x : ℕ)
              → count x p'.available_blocks ≡ inside x (grant n a) + count x p.available_blocks))
  Added n required p s (false, p', s') = (p' ≡ p) × (allocate_pages n s ≡ (none, s'))

  add_pages-Added :
      (required n : ℕ) (p : MemoryPool) (s : S)
      → Sound p
      → header_size + required ≤ page_size * n
      → Added n required p s (add_pages allocate_pages n (p, s))
  unfolding add_pages
  add_pages-Added required n p s v h = branch (allocate_pages n s).0 (allocate_pages n s).1 refl
    where
      branch :
          (o : Option ℕ) (s' : S)
          → allocate_pages n s ≡ (o, s')
          → Added n required p s (elim o as (λ _. Bool × MemoryPool × S) [
            | none ↦ (false, p, s')
            | some address ↦ (true, claim_block (new_block address (page_size * n % u32_mod)) p, s')
          ])
      branch none s' e = (refl, e)
      branch (some a) s' e =
          let l = lawful n s s' a e in
          let size = new_block-size a n required h (omega (arith, l.0, l.1)) in
          let c =
            claimed (grant n a) required p v (omega (arith, size, h)) l.0
              (omega (arith, size, h, l.1)) in
          (c.0, c.1, (a, e, c.2))

  add_for-Added :
      (required : ℕ) (p : MemoryPool) (s : S)
      → Sound p
      → required + 8192 < u32_mod
      → Added (pages required) required p s (add_for allocate_pages required (p, s))
  unfolding add_for add_page
  add_for-Added required p s v h =
      let enough = pages_enough required h in
      branch enough (Bool-cases (leb page_size (add32 header_size required)))
    where
      branch :
          header_size + required ≤ page_size * pages required
          → (leb page_size (add32 header_size required) ≡ true)
            ⊎ (leb page_size (add32 header_size required) ≡ false)
          → Added (pages required) required p s (
              if leb page_size (add32 header_size required)
              then add_pages allocate_pages (page_count required) (p, s)
              else add_pages allocate_pages 1 (p, s))
      branch enough (inl k) =
          rw k (add_pages-Added required (page_count required) p s v (rw k at enough))
      branch enough (inr k) = rw k (add_pages-Added required 1 p s v (rw k at enough))

  -- What `malloc` of a pool `p` returns, with the allocator in the state `s`. Either a block that is
  -- large enough, taken from the pool's free blocks, and no page was asked for; or one taken from them
  -- and the pages that were asked for, once, because the pool lacked a block; or nothing, because it
  -- lacked one and the pages were refused, and the free blocks cover what they did.
  abbrev pub Returned : ℕ → MemoryPool → S → Option MemoryPoolBlock × MemoryPool × S → Type 0
  Returned required p s (some r, p', s') =
      (required ≤ r.size)
      × Sound p'
      × (((s' ≡ s)
            × ((x : ℕ) → count x p.available_blocks ≡ inside x r + count x p'.available_blocks))
          ⊎ (Lacks required p
              × ((a : ℕ) × (allocate_pages (pages required) s ≡ (some a, s'))
                  × ((x : ℕ)
                      → inside x (grant (pages required) a) + count x p.available_blocks
                        ≡ inside x r + count x p'.available_blocks))))
  Returned required p s (none, p', s') =
      Sound p'
      × Lacks required p
      × (allocate_pages (pages required) s ≡ (none, s'))
      × ((x : ℕ) → count x p'.available_blocks ≡ count x p.available_blocks)

  abbrev Ends : ℕ → MemoryPool → S → Option (Option MemoryPoolBlock × MemoryPool × S) → Type 0
  Ends required p s o =
      (t : Option MemoryPoolBlock × MemoryPool × S) × (o ≡ some t) × Returned required p s t

  module _ (k required : ℕ) (p : MemoryPool) (s : S) where
    malloc_loop-given :
        (r : MemoryPoolBlock) (p' : MemoryPool)
        → MemoryPool.malloc 4 required p ≡ some (some r, p')
        → malloc_loop allocate_pages (suc k) 4 required (p, s) ≡ some (some r, p', s)
    unfolding malloc_loop
    malloc_loop-given r p' e = rw (e, malloc_loop)

    malloc_loop-missed :
        (p' : MemoryPool)
        → MemoryPool.malloc 4 required p ≡ some (none, p')
        → malloc_loop allocate_pages (suc k) 4 required (p, s)
          ≡ then_go allocate_pages
              (add_for allocate_pages required (p', s))
              (malloc_loop allocate_pages k 4 required)
    unfolding malloc_loop
    malloc_loop-missed p' e = rw (e, malloc_loop)

  -- A round with a block that is large enough is the last one.
  last_round :
      (k required : ℕ) (p : MemoryPool) (s : S)
      → align required 4 ≡ required
      → Sound p
      → (TooSmall required p.available_blocks → ⊥)
      → (r : MemoryPoolBlock) × (p' : MemoryPool) × (malloc_loop allocate_pages
            (suc k)
            4
            required
            (p, s)
          ≡ some (some r, p', s))
        × (required ≤ r.size)
        × Sound p'
        × ((x : ℕ) → count x p.available_blocks ≡ inside x r + count x p'.available_blocks)
  last_round k required p s a v large_enough =
      let (r, p', e, h) = malloc-Handed 4 required p v.0 (rw a large_enough) in
      (
        r,
        p',
        malloc_loop-given k required p s r p' e,
        subst (λ n. n ≤ r.size) a h.large_enough,
        (h.formed, omega (arith, h.parts 0, v.1)),
        h.parts,
      )

  -- After the pages were asked for, for a pool that covers what `p` does.
  then_go-Ends :
      (k required : ℕ) (p q : MemoryPool) (s : S) (t : Bool × MemoryPool × S)
      → align required 4 ≡ required
      → Lacks required p
      → Sound q
      → ((x : ℕ) → count x q.available_blocks ≡ count x p.available_blocks)
      → Added (pages required) required q s t
      → Ends required p s (then_go allocate_pages t (malloc_loop allocate_pages (suc k) 4 required))
  then_go-Ends k required p q s (false, q', s') a lacks v same (e, refused) = (
    (none, q', s'),
    refl,
    (subst Sound (sym e) v, lacks, refused, λ x. ap (λ b. count x b.available_blocks) e ∙ same x),
  )
  then_go-Ends k required p q s (true, q', s') a lacks v same
        (sound, large_enough, (at, given, adds)) =
      let (r, p', e, h, f, parts) = last_round k required q' s' a sound large_enough in
      (
        (some r, p', s'),
        e,
        (h, f, inr (lacks, (at, given, λ x. omega (arith, same x, adds x, parts x)))),
      )

  malloc_loop-Ends :
      (k required : ℕ) (p : MemoryPool) (s : S)
      → align required 4 ≡ required
      → required + 8192 < u32_mod
      → Sound p
      → Ends required p s (malloc_loop allocate_pages (suc (suc k)) 4 required (p, s))
  malloc_loop-Ends k required p s a h v =
      branch (find_block required p.available_blocks)
        (find_block-Fit required 0 p.available_blocks v.0.sorted)
    where
      branch :
          (o : Option Found)
          → Fit required 0 p.available_blocks o
          → Ends required p s (malloc_loop allocate_pages (suc (suc k)) 4 required (p, s))
      branch (some (b, others)) fit =
          let (r, p', e, l, f, parts) = last_round (suc k) required p s a v λ t. omega (
            arith,
            TooSmall-sum required p.available_blocks t,
            fit.2 (large required),
            large-one required b fit.0,
          ) in
          ((some r, p', s), e, (l, f, inl (refl, parts)))
      branch none small =
          let (p', e, w, counts, _, _) = malloc-TooSmall 4 required p v.0 v.1 (rw a small) in
          let sound : Sound p' = (w, counts 0 ∙ v.1) in
          subst (Ends required p s) (sym (malloc_loop-missed (suc k) required p s p' e)) (
            then_go-Ends k required p p' s (add_for allocate_pages required (p', s)) a (inr small)
              sound counts (add_for-Added required p' s sound h))

  -- `malloc` of the paged pool, aligned to 4, on a well-formed pool without a block at address 0,
  -- ends in at most two rounds, and the pool stays so; it returns a block of at least the aligned
  -- size, and covers afterwards, with the block, what it did before; or it had too little memory
  -- or no block large enough, asked once for the pages that the size needs, and then returns a
  -- block and covers the pages too if they came, or returns nothing and covers what it did if they
  -- were refused. The size must leave room below 2^32, and the allocator give pages within the
  -- address space and not at 0.
  pub malloc-Returned :
      (size : ℕ) (p : MemoryPool) (s : S)
      → size + 12288 < u32_mod
      → Sound p
      → (t : Option MemoryPoolBlock × MemoryPool × S) × (malloc allocate_pages 2 4 size (p, s)
          ≡ some t)
        × Returned (align size 4) p s t
  unfolding malloc
  malloc-Returned size p s h v = branch (Bool-cases (ltb p.available (align size 4)))
    where
      a : align (align size 4) 4 ≡ align size 4
      a = align-align size (omega arith)

      bound : align size 4 + 8192 < u32_mod
      bound = omega (arith, align_bound size (omega arith))

      branch :
          (ltb p.available (align size 4) ≡ true) ⊎ (ltb p.available (align size 4) ≡ false)
          → Ends (align size 4) p s (
              if ltb p.available (align size 4)
              then then_go allocate_pages
                  (add_for allocate_pages (align size 4) (p, s))
                  (malloc_loop allocate_pages 2 4 (align size 4))
              else malloc_loop allocate_pages 2 4 (align size 4) (p, s))
      branch (inl k) = rw k (
          then_go-Ends 1 (align size 4) p p s (add_for allocate_pages (align size 4) (p, s)) a
            (inl (ltb→lt p.available (align size 4) k)) v (λ x. refl)
            (add_for-Added (align size 4) p s v bound))
      branch (inr k) = rw k (malloc_loop-Ends 0 (align size 4) p s a bound v)
