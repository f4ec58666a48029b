-- ===== src/MemoryPool/Compact.antt =====
-- `compact`.
use uberos.Prelude.{ℕ, ◌+◌, ◌≡◌, refl, sym, ◌∙◌, List, [], ◌∷◌, false, arith, some, subst, length}
use uberos.MemoryPool.{MemoryPoolBlock, MemoryPool, insert_forward, merge_loop, sort_loop, compact}
use uberos.MemoryPool.Blocks.{
  sum, count, inside, Sorted, insert_forward-Sorted, insert_forward-Adds,
}
use uberos.MemoryPool.Claim.{WellFormed}
use uberos.MemoryPool.Merge.{merge_loop-count}

sort_loop-step :
    (sorted : List MemoryPoolBlock) (b : MemoryPoolBlock) (bs : List MemoryPoolBlock)
    → sort_loop sorted (b ∷ bs) ≡ sort_loop (insert_forward b sorted) bs
unfolding sort_loop
sort_loop-step sorted b bs = refl

abbrev Sorts : List MemoryPoolBlock → List MemoryPoolBlock → List MemoryPoolBlock → Type 0
Sorts sorted bs ys = Sorted 0 ys × ((f : MemoryPoolBlock → ℕ) → sum f ys ≡ sum f sorted + sum f bs)

sort_loop-Sorts :
    (sorted bs : List MemoryPoolBlock) → Sorted 0 sorted → Sorts sorted bs (sort_loop sorted bs)
sort_loop-Sorts sorted [] s = unfold sort_loop in (s, λ f. omega arith)
sort_loop-Sorts sorted (b ∷ bs) s =
    let v =
      sort_loop-Sorts (insert_forward b sorted) bs
        (insert_forward-Sorted 0 b sorted (omega arith) s) in
    subst (Sorts sorted (b ∷ bs)) (sym (sort_loop-step sorted b bs))
      (v.0, λ f. omega (arith, v.1 f, insert_forward-Adds b sorted f))

compact-merged :
    (p : MemoryPool) (ys : List MemoryPoolBlock)
    → merge_loop (length p.available_blocks + 1) [] p.available_blocks ≡ some ys
    → compact p ≡ some (record p { available_blocks = sort_loop [] ys; needs_compacting = false })
unfolding compact
compact-merged p ys e = rw (e, compact)

-- `compact` ends: it merges and sorts the free blocks, so that every address lies in as many of them
-- as before, and counts no byte as used or available. (No free block lies at address 0.)
pub compact-WellFormed :
    (p : MemoryPool)
    → WellFormed p
    → count 0 p.available_blocks ≡ 0
    → (p' : MemoryPool) × (compact p ≡ some p')
      × WellFormed p'
      × ((x : ℕ) → count x p'.available_blocks ≡ count x p.available_blocks)
      × (p'.available ≡ p.available)
      × (p'.used ≡ p.used)
compact-WellFormed p v z =
    let (ys, e, counts) =
      merge_loop-count (length p.available_blocks + 1) [] p.available_blocks (omega arith)
        (λ x h. omega (arith, v.in_space x h), omega (arith, z)) in
    let s = sort_loop-Sorts [] ys tt in
    let same : ((x : ℕ) → count x (sort_loop [] ys) ≡ count x p.available_blocks) =
      λ x. omega (arith, s.1 (inside x), counts x) in
    (
      record p { available_blocks = sort_loop [] ys; needs_compacting = false },
      compact-merged p ys e,
      record { sorted = s.0; in_space = λ x h. same x ∙ v.in_space x h },
      same,
      refl,
      refl,
    )
