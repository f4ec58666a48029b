-- ===== src/PagedPool.antt =====
-- kernel/memory/PagedPool.hpp: the kernel's heap, a pool that asks for more pages when it runs out.
-- The page allocator is an interface: a function from a number of pages and its state `S` to an
-- address, if there is one, and its new state.
pub mod Growth
use uberos.Prelude.{
  ℕ, zero, suc, ◌+◌, ◌-◌, ◌*◌, ◌/◌, ◌%◌, Option, none, some, Bool, true, false, leb, ltb,
  if◌then◌else◌, add32, u32_mod,
}
use uberos.MemoryPool
use uberos.MemoryPool.{
  MemoryPoolBlock, MemoryPool, header_size, page_size, new_block, align, claim_block,
}

-- The pages that a block of this size needs, with its header.
pub page_count : ℕ → ℕ
page_count required = add32 (add32 header_size required) (page_size - 1) / page_size

module _ {S : Type 0} (allocate_pages : ℕ → S → Option ℕ × S) where
  -- `add_pages`: the new pages are one free block.
  pub add_pages : ℕ → MemoryPool × S → Bool × MemoryPool × S
  add_pages count (p, s) =
      let (answer, s') = allocate_pages count s in
      elim answer [
        | none ↦ (false, p, s')
        | some address ↦ (true, claim_block (new_block address (page_size * count % u32_mod)) p, s')
      ]

  pub add_page : MemoryPool × S → Bool × MemoryPool × S
  unfolding add_pages
  add_page = add_pages 1

  -- Pages for a block of the required size.
  pub add_for : ℕ → MemoryPool × S → Bool × MemoryPool × S
  unfolding add_pages add_page page_count
  add_for required t =
      if leb page_size (add32 header_size required)
      then add_pages (page_count required) t
      else add_page t

  -- What `malloc` does after it has asked for pages: it gives up, or goes on.
  abbrev pub then_go :
      Bool × MemoryPool × S
      → (MemoryPool × S → Option (Option MemoryPoolBlock × MemoryPool × S))
      → Option (Option MemoryPoolBlock × MemoryPool × S)
  then_go (false, p, s) go = some (none, p, s)
  then_go (true, p, s) go = go (p, s)

  -- The loop of `malloc`, on fuel; `none` means that the fuel ran out.
  malloc_loop : ℕ → ℕ → ℕ → MemoryPool × S → Option (Option MemoryPoolBlock × MemoryPool × S)
  unfolding add_for
  malloc_loop zero alignment required t = none
  malloc_loop (suc k) alignment required (p, s) = elim (MemoryPool.malloc alignment required p) [
    | none ↦ none
    | some (some block, p') ↦ some (some block, p', s)
    | some (none, p') ↦ then_go (add_for required (p', s)) (malloc_loop k alignment required)
  ]

  pub malloc : ℕ → ℕ → ℕ → MemoryPool × S → Option (Option MemoryPoolBlock × MemoryPool × S)
  unfolding malloc_loop add_for
  malloc fuel alignment size (p, s) =
      let required = align size alignment in
      if ltb p.available required
      then then_go (add_for required (p, s)) (malloc_loop fuel alignment required)
      else malloc_loop fuel alignment required (p, s)
