-- ===== src/MemoryPool/Merge.antt =====
-- The first loop of `compact`, which merges neighbours.
use uberos.Prelude.{
  ℕ, ◌+◌, ◌≤◌, ◌<◌, ◌≡◌, ◌≢◌, refl, ap, sym, ◌∙◌, List, [], ◌∷◌, ◌++◌, true, false, if◌then◌else◌,
  arith, Option, none, some, Bool-cases, inl, inr, ◌⊎◌, subst, u32_mod, length, zero, suc, ==→eq,
  ◌==◌,
}
use uberos.MemoryPool.{
  MemoryPoolBlock, header_size, Found, find_at, end_of, merged, grow_block, merge_loop,
}
use uberos.MemoryPool.Blocks.{sum, count, inside, Adds}
use uberos.MemoryPool.Claim.{block_in_space}

-- A block that begins at the address, and the others.
abbrev At : ℕ → List MemoryPoolBlock → Option Found → Type 0
At a bs none = Unit {0}
At a bs (some (o, others)) = (o.address ≡ a) × Adds others o bs × (length bs ≡ length others + 1)

abbrev behind_first : MemoryPoolBlock → Option Found → Option Found
behind_first b none = none
behind_first b (some (found, others)) = some (found, b ∷ others)

find_at-behind :
    (a : ℕ) (b : MemoryPoolBlock) (bs : List MemoryPoolBlock)
    → find_at a (b ∷ bs) ≡ (if b.address == a then some (b, bs) else behind_first b (find_at a bs))
unfolding find_at
find_at-behind a b bs = ap (λ o. if b.address == a then some (b, bs) else o) (same (find_at a bs))
  where
    same :
        (o : Option Found)
        → (elim o as (λ _. Option Found) [
          | none ↦ none
          | some (found, others) ↦ some (found, b ∷ others)
        ])
          ≡ behind_first b o
    same none = refl
    same (some (found, others)) = refl

At-behind :
    (a : ℕ) (b : MemoryPoolBlock) (bs : List MemoryPoolBlock) (o : Option Found)
    → At a bs o
    → At a (b ∷ bs) (behind_first b o)
At-behind a b bs none v = tt
At-behind a b bs (some (found, others)) v = (v.0, λ f. omega (arith, v.1 f), omega (arith, v.2))

find_at-At : (a : ℕ) (bs : List MemoryPoolBlock) → At a bs (find_at a bs)
find_at-At a [] = unfold find_at in tt
find_at-At a (b ∷ bs) =
    subst (At a (b ∷ bs)) (sym (find_at-behind a b bs))
      (branch (Bool-cases (b.address == a)) (find_at-At a bs))
  where
    branch :
        ((b.address == a) ≡ true) ⊎ ((b.address == a) ≡ false)
        → At a bs (find_at a bs)
        → At a (b ∷ bs) (if b.address == a then some (b, bs) else behind_first b (find_at a bs))
    branch (inl h) v = rw h (==→eq _ _ h, λ f. refl, omega arith)
    branch (inr h) v = rw h (At-behind a b bs _ v)

-- How often an address lies in the blocks before one, in it and in those behind it.
abbrev around : List MemoryPoolBlock → MemoryPoolBlock → List MemoryPoolBlock → ℕ → ℕ
around before b behind x = count x before + inside x b + count x behind

-- No block lies outside the address space, or at address 0.
abbrev pub Placed : (ℕ → ℕ) → Type 0
Placed n = ((x : ℕ) → u32_mod ≤ x → n x ≡ 0) × (n 0 ≡ 0)

-- Two neighbours as one block.
inside_merged :
    (x start size : ℕ) (b o : MemoryPoolBlock)
    → o.address ≡ b.address + header_size + b.size
    → size ≡ b.size + header_size + o.size
    → inside x (record b { size = size }) ≡ inside x b + inside x o
inside_merged x start size b o e f = ground arith

not_null : (o : MemoryPoolBlock) → inside 0 o ≡ 0 → o.address ≢ 0
not_null o h e = ground (arith, h, e)

merged-inside :
    (x : ℕ) (b o : MemoryPoolBlock)
    → b.address + header_size + b.size ≤ u32_mod
    → o.address + header_size + o.size ≤ u32_mod
    → inside 0 o ≡ 0
    → o.address ≡ end_of b
    → inside x (merged b o) ≡ inside x b + inside x o
merged-inside x b o h k z e =
    let ne = not_null o z in
    let at : o.address ≡ b.address + header_size + b.size = omega (arith, h, e, ne) in
    inside_merged x 0 (merged b o).size b o at (omega (arith, h, k, at))

-- A block that has grown, those before it and those behind it.
record Grown (before : List MemoryPoolBlock) (b : MemoryPoolBlock) (behind : List MemoryPoolBlock)
    (o : Option (List MemoryPoolBlock × MemoryPoolBlock × List MemoryPoolBlock)) : Type 0 where
  before' : List MemoryPoolBlock
  block' : MemoryPoolBlock
  behind' : List MemoryPoolBlock
  result : o ≡ some (before', block', behind')
  shorter : length behind' ≤ length behind
  same : (x : ℕ) → around before' block' behind' x ≡ around before b behind x

module _ (k : ℕ) (before : List MemoryPoolBlock) (b : MemoryPoolBlock)
    (behind : List MemoryPoolBlock) where
  grow_block-before :
      (other : MemoryPoolBlock) (others : List MemoryPoolBlock)
      → find_at (end_of b) before ≡ some (other, others)
      → grow_block (suc k) before b behind ≡ grow_block k others (merged b other) behind
  unfolding grow_block
  grow_block-before other others e = rw (e, grow_block)

  grow_block-behind :
      (other : MemoryPoolBlock) (others : List MemoryPoolBlock)
      → find_at (end_of b) before ≡ none
      → find_at (end_of b) behind ≡ some (other, others)
      → grow_block (suc k) before b behind ≡ grow_block k before (merged b other) others
  unfolding grow_block
  grow_block-behind other others e f = rw (e, grow_block, f, grow_block)

  grow_block-done :
      find_at (end_of b) before ≡ none
      → find_at (end_of b) behind ≡ none
      → grow_block (suc k) before b behind ≡ some (before, b, behind)
  unfolding grow_block
  grow_block-done e f = rw (e, grow_block, f, grow_block)

Placed-same : (n m : ℕ → ℕ) → ((x : ℕ) → m x ≡ n x) → Placed n → Placed m
Placed-same n m e v = (λ x h. e x ∙ v.0 x h, e 0 ∙ v.1)

module _ (before : List MemoryPoolBlock) (b : MemoryPoolBlock) (behind : List MemoryPoolBlock)
    (v : Placed (around before b behind)) where
  merges :
      (o : MemoryPoolBlock) (n : ℕ → ℕ)
      → ((x : ℕ) → around before b behind x ≡ inside x b + inside x o + n x)
      → o.address ≡ end_of b
      → (x : ℕ) → inside x (merged b o) ≡ inside x b + inside x o
  merges o n e at x =
      merged-inside x b o
        (block_in_space b (λ y. inside y o + n y) (around before b behind) (λ y. omega (arith, e y))
          v.0)
        (block_in_space o (λ y. inside y b + n y) (around before b behind) (λ y. omega (arith, e y))
          v.0)
        (omega (arith, e 0, v.1)) at

Grown-on :
    (before before1 : List MemoryPoolBlock) (b b1 : MemoryPoolBlock)
    (behind behind1 : List MemoryPoolBlock)
    (o o1 : Option (List MemoryPoolBlock × MemoryPoolBlock × List MemoryPoolBlock))
    → o ≡ o1
    → length behind1 ≤ length behind
    → ((x : ℕ) → around before1 b1 behind1 x ≡ around before b behind x)
    → Grown before1 b1 behind1 o1
    → Grown before b behind o
Grown-on before before1 b b1 behind behind1 o o1 e short same g = record {
  before' = g.before';
  block' = g.block';
  behind' = g.behind';
  result = e ∙ g.result;
  shorter = omega (arith, g.shorter);
  same = λ x. g.same x ∙ same x;
}

-- A block grows until no other begins at its end; every round takes one block, so that one round
-- more than other blocks is enough.
grow_block-Grown :
    (k : ℕ) (before : List MemoryPoolBlock) (b : MemoryPoolBlock) (behind : List MemoryPoolBlock)
    → length before + length behind < k
    → Placed (around before b behind)
    → Grown before b behind (grow_block k before b behind)
grow_block-Grown zero before b behind fuel v = elim fuel [ ]
grow_block-Grown (suc k) before b behind fuel v =
    branch (find_at (end_of b) before) refl (find_at-At (end_of b) before)
      (find_at (end_of b) behind) refl (find_at-At (end_of b) behind) (grow_block-Grown k)
  where
    branch :
        (o : Option Found)
        → find_at (end_of b) before ≡ o
        → At (end_of b) before o
        → (o' : Option Found) → find_at (end_of b) behind ≡ o'
        → At (end_of b) behind o'
        → ((xs : List MemoryPoolBlock) (c : MemoryPoolBlock) (ys : List MemoryPoolBlock)
            → length xs + length ys < k
            → Placed (around xs c ys)
            → Grown xs c ys (grow_block k xs c ys))
        → Grown before b behind (grow_block (suc k) before b behind)
    branch (some (o, others)) e a o' f a' ih =
        let m =
          merges before b behind v o (λ x. count x others + count x behind)
            (λ x. omega (arith, a.1 (inside x))) a.0 in
        let same : ((x : ℕ) → around others (merged b o) behind x ≡ around before b behind x) =
          λ x. omega (arith, m x, a.1 (inside x)) in
        Grown-on before others b (merged b o) behind behind _ _
          (grow_block-before k before b behind o others e) (omega arith) same
          (ih others (merged b o) behind (omega (arith, a.2)) (Placed-same _ _ same v))
    branch none e a (some (o, others)) f a' ih =
        let m =
          merges before b behind v o (λ x. count x before + count x others)
            (λ x. omega (arith, a'.1 (inside x))) a'.0 in
        let same : ((x : ℕ) → around before (merged b o) others x ≡ around before b behind x) =
          λ x. omega (arith, m x, a'.1 (inside x)) in
        Grown-on before before b (merged b o) behind others _ _
          (grow_block-behind k before b behind o others e f) (omega (arith, a'.2)) same
          (ih before (merged b o) others (omega (arith, a'.2)) (Placed-same _ _ same v))
    branch none e a none f a' ih = record {
      before' = before;
      block' = b;
      behind' = behind;
      result = grow_block-done k before b behind e f;
      shorter = omega arith;
      same = λ x. refl;
    }

sum-append :
    (f : MemoryPoolBlock → ℕ) (xs ys : List MemoryPoolBlock)
    → sum f (xs ++ ys) ≡ sum f xs + sum f ys
sum-append f [] ys = omega arith
sum-append f (x ∷ xs) ys = omega (arith, sum-append f xs ys)

merge_loop-grown :
    (k : ℕ) (before : List MemoryPoolBlock) (b : MemoryPoolBlock)
    (behind before' : List MemoryPoolBlock) (b' : MemoryPoolBlock) (behind' : List MemoryPoolBlock)
    → grow_block (length before + length behind + 1) before b behind ≡ some (before', b', behind')
    → merge_loop (suc k) before (b ∷ behind) ≡ merge_loop k (before' ++ b' ∷ []) behind'
unfolding merge_loop
merge_loop-grown k before b behind before' b' behind' e = rw (e, merge_loop)

-- The loop ends, and every address lies in as many blocks as before.
pub merge_loop-count :
    (k : ℕ) (before behind : List MemoryPoolBlock)
    → length behind < k
    → Placed (λ x. count x before + count x behind)
    → (ys : List MemoryPoolBlock) × (merge_loop k before behind ≡ some ys)
      × ((x : ℕ) → count x ys ≡ count x before + count x behind)
merge_loop-count zero before behind fuel v = elim fuel [ ]
merge_loop-count (suc k) before [] fuel v = (before, (unfold merge_loop in refl), λ x. omega arith)
merge_loop-count (suc k) before (b ∷ behind) fuel v =
    let g =
      grow_block-Grown (length before + length behind + 1) before b behind (omega arith)
        (Placed-same _ _ (λ x. omega arith) v) in
    let same : ((x : ℕ)
        → count x (g.before' ++ g.block' ∷ []) + count x g.behind'
          ≡ count x before + count x (b ∷ behind)) =
      λ x. omega (arith, sum-append (inside x) g.before' (g.block' ∷ []), g.same x) in
    let (ys, e, counts) =
      merge_loop-count k (g.before' ++ g.block' ∷ []) g.behind' (omega (arith, g.shorter))
        (Placed-same _ _ same v) in
    (
      ys,
      merge_loop-grown k before b behind g.before' g.block' g.behind' g.result ∙ e,
      λ x. counts x ∙ same x,
    )
