-- ===== src/MemoryPool.antt =====
-- common/MemoryPool.hpp: the allocator of the kernel's heap. The free blocks are the sequence that
-- `availableBlocks` links together (LList), each with its address and the size in its header. A
-- block that is handed out is given back with the header that `malloc` has left in front of it.
pub mod Blocks
pub mod Search
pub mod Claim
pub mod Malloc
pub mod Free
pub mod Merge
pub mod Compact
pub mod Refusal
use uberos.Prelude.{
  ℕ, zero, suc, ◌+◌, ◌-◌, ◌%◌, List, [], ◌∷◌, ◌++◌, Option, none, some, Bool, true, false, ◌&&◌,
  ◌==◌, leb, ltb, if◌then◌else◌, length, add32, sub32,
}

-- `MemoryPoolBlock`; `size` is that of the data behind the header.
pub record MemoryPoolBlock : Type 0 where
  pub address : ℕ
  pub size : ℕ

-- `next`, `prev` and `size`, 4 bytes each.
abbrev pub header_size : ℕ
header_size = 12

abbrev pub page_size : ℕ
page_size = 4096

-- The constructor of a block in `size` bytes of memory.
abbrev pub new_block : ℕ → ℕ → MemoryPoolBlock
new_block address size = record { address = address; size = sub32 size header_size }

-- The pool.
pub record MemoryPool : Type 0 where
  pub available : ℕ
  pub used : ℕ
  pub needs_compacting : Bool
  pub available_blocks : List MemoryPoolBlock

-- The constructor, for an address that is not null.
abbrev pub new_pool : ℕ → ℕ → MemoryPool
new_pool address size = record {
  available = size;
  used = 0;
  needs_compacting = false;
  available_blocks = new_block address size ∷ [];
}

unfoldable pub align : ℕ → ℕ → ℕ
align x alignment = add32 x (if x % alignment == 0 then 0 else alignment - x % alignment)

-- The forward search of `claim_block`: before the first block that is at least as large, or last.
pub insert_forward : MemoryPoolBlock → List MemoryPoolBlock → List MemoryPoolBlock
insert_forward reclaim [] = reclaim ∷ []
insert_forward reclaim (block ∷ blocks) =
    if leb reclaim.size block.size
    then reclaim ∷ block ∷ blocks
    else block ∷ insert_forward reclaim blocks

-- The backward search: the blocks behind this one are tried first; `none` if all are larger.
pub insert_backward : MemoryPoolBlock → List MemoryPoolBlock → Option (List MemoryPoolBlock)
insert_backward reclaim [] = none
insert_backward reclaim (block ∷ blocks) = elim (insert_backward reclaim blocks) [
  | some others ↦ some (block ∷ others)
  | none ↦ if leb block.size reclaim.size then some (block ∷ reclaim ∷ blocks) else none
]

-- The new block goes to the front if the search has found no place behind another.
abbrev pub or_front :
    MemoryPoolBlock → List MemoryPoolBlock → Option (List MemoryPoolBlock) → List MemoryPoolBlock
or_front reclaim blocks none = reclaim ∷ blocks
or_front reclaim blocks (some others) = others

pub claim_block : MemoryPoolBlock → MemoryPool → MemoryPool
unfolding insert_forward insert_backward
claim_block reclaim p = record p {
  available = add32 p.available reclaim.size;
  available_blocks =
      if leb page_size reclaim.size
      then or_front reclaim p.available_blocks (insert_backward reclaim p.available_blocks)
      else insert_forward reclaim p.available_blocks;
}

-- A block that the search has found, and the list without it.
abbrev pub Found : Type 0
Found = MemoryPoolBlock × List MemoryPoolBlock

-- The forward search of `malloc`.
pub find_forward : ℕ → List MemoryPoolBlock → Option Found
find_forward required [] = none
find_forward required (block ∷ blocks) =
    let rest : Option Found = elim (find_forward required blocks) [
      | none ↦ none
      | some (found, others) ↦ some (found, block ∷ others)
    ] in
    if leb required block.size then some (block, blocks) else rest

-- `!block->prev||block->prev->size<requiredSize`
abbrev pub starts : ℕ → Option MemoryPoolBlock → Bool
starts required none = true
starts required (some prev) = ltb prev.size required

-- The backward search: the blocks behind this one are tried first.
pub find_backward : ℕ → Option MemoryPoolBlock → List MemoryPoolBlock → Option Found
find_backward required prev [] = none
find_backward required prev (block ∷ blocks) = elim (find_backward required (some block) blocks) [
  | some (found, others) ↦ some (found, block ∷ others)
  | none ↦ if leb required block.size && starts required prev then some (block, blocks) else none
]

pub find_block : ℕ → List MemoryPoolBlock → Option Found
unfolding find_forward find_backward
find_block required blocks =
    if leb page_size required
    then find_backward required none blocks
    else find_forward required blocks

-- Whether the tail of a block is large enough for a block of its own.
abbrev pub splits : ℕ → ℕ → Bool
splits alignment remaining = ltb header_size remaining && leb alignment remaining

-- The found block is handed out, and the tail that it does not need goes back.
pub take_block : ℕ → ℕ → Found → MemoryPool → MemoryPoolBlock × MemoryPool
take_block alignment required (block, others) p =
    let remaining = sub32 block.size required in
    let popped = record p { available = sub32 p.available block.size; available_blocks = others } in
    let cut = record block { size = required } in
    let tail = new_block (add32 (add32 block.address header_size) required) remaining in
    let claimed = claim_block tail popped in
    if splits alignment remaining
    then (cut, record claimed { used = add32 claimed.used required })
    else (block, record popped { used = add32 popped.used block.size })

-- The first block that begins at an address, and the list without it.
pub find_at : ℕ → List MemoryPoolBlock → Option Found
find_at address [] = none
find_at address (block ∷ blocks) =
    let rest : Option Found = elim (find_at address blocks) [
      | none ↦ none
      | some (found, others) ↦ some (found, block ∷ others)
    ] in
    if block.address == address then some (block, blocks) else rest

abbrev pub end_of : MemoryPoolBlock → ℕ
end_of block = add32 (add32 block.address header_size) block.size

abbrev pub merged : MemoryPoolBlock → MemoryPoolBlock → MemoryPoolBlock
merged block other = record block { size = add32 block.size (add32 header_size other.size) }

-- `searchForNext`: a block takes in those that begin at its end, among the blocks before it and
-- those behind it.
pub grow_block :
    ℕ
    → List MemoryPoolBlock
    → MemoryPoolBlock
    → List MemoryPoolBlock
    → Option (List MemoryPoolBlock × MemoryPoolBlock × List MemoryPoolBlock)
unfolding find_at
grow_block zero before block behind = none
grow_block (suc k) before block behind = elim (find_at (end_of block) before) [
  | some (other, others) ↦ grow_block k others (merged block other) behind
  | none ↦ elim (find_at (end_of block) behind) [
    | some (other, others) ↦ grow_block k before (merged block other) others
    | none ↦ some (before, block, behind)
  ]
]

-- The first loop of `compact`, at the block behind `before`.
pub merge_loop : ℕ → List MemoryPoolBlock → List MemoryPoolBlock → Option (List MemoryPoolBlock)
unfolding grow_block
merge_loop zero before behind = none
merge_loop (suc k) before [] = some before
merge_loop (suc k) before (block ∷ behind) =
    elim (grow_block (length before + length behind + 1) before block behind) [
      | none ↦ none
      | some (before', block', behind') ↦ merge_loop k (before' ++ block' ∷ []) behind'
    ]

-- The second loop of `compact`.
pub sort_loop : List MemoryPoolBlock → List MemoryPoolBlock → List MemoryPoolBlock
unfolding insert_forward
sort_loop sorted [] = sorted
sort_loop sorted (block ∷ blocks) = sort_loop (insert_forward block sorted) blocks

-- `compact`, which always answers false; `none` means that the fuel of a loop ran out.
pub compact : MemoryPool → Option MemoryPool
unfolding merge_loop sort_loop
compact p = elim (merge_loop (length p.available_blocks + 1) [] p.available_blocks) [
  | none ↦ none
  | some blocks ↦
      some (record p { available_blocks = sort_loop [] blocks; needs_compacting = false })
]

-- `malloc`: the block whose data is handed out, or nothing.
unfoldable pub malloc : ℕ → ℕ → MemoryPool → Option (Option MemoryPoolBlock × MemoryPool)
unfolding align find_block take_block
malloc alignment size p =
    let required = align size alignment in
    let retried : Option (Option MemoryPoolBlock × MemoryPool) = elim (compact p) [
      | none ↦ none
      | some p' ↦ some (none, p')
    ] in
    elim (find_block required p.available_blocks) [
      | some found ↦
          let (block, p') = take_block alignment required found p in some (some block, p')
      | none ↦ if p.needs_compacting && leb required p.available then retried else some (none, p)
    ]

-- `free`
pub free : MemoryPoolBlock → MemoryPool → MemoryPool
unfolding claim_block
free block p =
    let p' = claim_block block p in
    record p' { used = sub32 p'.used block.size; needs_compacting = true }
