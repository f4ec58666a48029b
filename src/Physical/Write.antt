-- ===== src/Physical/Write.antt =====
-- What `write_physical` does to the rest of a page.
use uberos.Prelude.{
  ℕ, suc, ◌+◌, ◌-◌, ◌^◌, ◌<◌, ◌≤◌, ◌≡◌, refl, ap, some, ◌&&◌, leb, ltb, if◌then◌else◌, add32, arith,
  ltb-false,
}
use uberos.Stdlib.Memory.{Bytes}
use uberos.Physical.{page_size, copy_between, first_page, write_pages, write_physical}

write_pages-end :
    (k : ℕ) (written : Bytes) (address size page offset : ℕ) (physical : Bytes)
    → add32 address size ≤ page
    → write_pages (suc k) written address size page offset physical ≡ some physical
unfolding write_pages
write_pages-end k written address size page offset physical h =
    rw (ltb-false page (add32 address size) h) refl

-- Of a range within one page that ends more than a page below 2^32, `write_physical` overwrites all
-- bytes from the address to the page's end, also those behind the range, with the bytes that follow
-- the data; it changes no others, and ends at once.
pub write_physical-page :
    (k : ℕ) (written : Bytes) (address size : ℕ) (physical : Bytes)
    → address + size + page_size < 2 ^ 32
    → address + size ≤ first_page address + page_size
    → (after : Bytes) × (write_physical (suc k) written address size physical ≡ some after)
      × ((a : ℕ)
          → after a ≡ (
              if leb address a && ltb a (first_page address + page_size)
              then written (a - address)
              else physical a))
unfolding write_physical
write_physical-page k written address size physical room within =
    let offset : ℕ = address - first_page address in
    let after : Bytes =
      copy_between physical (first_page address + offset) written 0 (page_size - offset) in
    (
      after,
      write_pages-end k written address size (add32 (first_page address) page_size)
          (page_size - offset) after (omega arith),
      pointwise,
    )
  where
    same : (i j : ℕ) → i ≡ j → written i ≡ written j
    same i j e = ap written e

    pointwise :
        (a : ℕ)
        → copy_between physical
            (first_page address + (address - first_page address))
            written
            0
            (page_size - (address - first_page address))
            a
          ≡ (if leb address a && ltb a (first_page address + page_size)
              then written (a - address)
              else physical a)
    pointwise a = ground (
      arith,
      same (0 + (a - (first_page address + (address - first_page address)))) (a - address),
    )
