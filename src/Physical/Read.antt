-- ===== src/Physical/Read.antt =====
-- What `read_physical` gives.
use uberos.Prelude.{
  ℕ, zero, suc, ◌+◌, ◌-◌, ◌*◌, ◌^◌, ◌<◌, ◌≤◌, ◌≡◌, refl, ap, sym, ◌∙◌, subst, Option, some, ltb,
  if◌then◌else◌, add32, arith, inl, inr, ◌⊎◌, ltb-true, ltb-false, lt_or_le,
}
use uberos.Stdlib.Memory.{Bytes}
use uberos.Physical.{page_size, least, copy_between, first_page, read_pages, read_physical}

-- A buffer with the first bytes of a range read.
abbrev pub Filled : Bytes → ℕ → ℕ → Bytes → Bytes → Type 0
Filled physical address n before buffer =
    (a : ℕ) → buffer a ≡ (if ltb a n then physical (address + a) else before a)

-- What the whole read leaves.
abbrev pub ReadAll : Bytes → ℕ → ℕ → Bytes → Option Bytes → Type 0
ReadAll physical address size before o =
    (buffer : Bytes) × (o ≡ some buffer) × Filled physical address size before buffer

module _ (physical : Bytes) (address size : ℕ) (before : Bytes) where
  copy-Filled :
      (offset length : ℕ) (buffer : Bytes)
      → Filled physical address offset before buffer
      → Filled physical address
          (offset + length)
          before
          (copy_between buffer offset physical (address + offset) length)
  copy-Filled offset length buffer f a =
      ground (arith, f a, same (address + offset + (a - offset)) (address + a))
    where
      same : (i j : ℕ) → i ≡ j → physical i ≡ physical j
      same i j e = ap physical e

  read_pages-end :
      (k page offset : ℕ) (buffer : Bytes)
      → add32 address size ≤ page
      → read_pages (suc k) physical address size page offset buffer ≡ some buffer
  unfolding read_pages
  read_pages-end k page offset buffer h = rw (ltb-false page (add32 address size) h) refl

  read_pages-next :
      (k page offset : ℕ) (buffer : Bytes)
      → page < add32 address size
      → read_pages (suc k) physical address size page offset buffer
        ≡ read_pages k physical address size
            (add32 page page_size)
            (add32 offset page_size)
            (copy_between buffer offset physical page (least page_size (size - offset)))
  unfolding read_pages
  read_pages-next k page offset buffer h = rw (ltb-true page (add32 address size) h) refl

  least-next :
      (offset : ℕ)
      → offset < size
      → offset + least page_size (size - offset) ≡ least (offset + page_size) size
  least-next offset h = ground arith

  least-here : (offset : ℕ) → offset < size → least offset size ≡ offset
  least-here offset h = ground arith

  least-all : (offset : ℕ) → size ≤ offset → least offset size ≡ size
  least-all offset h = ground arith

  module _ (room : address + size + page_size < 2 ^ 32) where
    read_pages-all :
        (k page offset : ℕ) (buffer : Bytes)
        → page ≡ address + offset
        → offset < size + page_size
        → size + page_size ≤ offset + k * page_size
        → Filled physical address (least offset size) before buffer
        → ReadAll physical address size before
            (read_pages k physical address size page offset buffer)
    read_pages-all zero page offset buffer at l fuel f = absurd (omega arith)
    read_pages-all (suc k) page offset buffer at l fuel f =
        split (lt_or_le offset size) (λ page' at' h g.
          read_pages-all k page' (add32 offset page_size)
            (copy_between buffer offset physical page (least page_size (size - offset))) at'
            (omega (arith, h)) (omega (arith, h)) g)
      where
        split :
            (offset < size) ⊎ (size ≤ offset)
            → ((page' : ℕ)
                → page' ≡ address + add32 offset page_size
                → offset < size
                → Filled physical address
                    (least (add32 offset page_size) size)
                    before
                    (copy_between buffer offset physical page (least page_size (size - offset)))
                → ReadAll physical address size before (
                    read_pages k physical address size page'
                      (add32 offset page_size)
                      (copy_between buffer offset physical page (least page_size (size - offset)))))
            → ReadAll physical address size before
                (read_pages (suc k) physical address size page offset buffer)
        split (inl h) next =
            let filled =
              copy-Filled offset (least page_size (size - offset)) buffer
                (subst (λ n. Filled physical address n before buffer) (least-here offset h) f) in
            let size_here : offset + least page_size (size - offset)
                ≡ least (add32 offset page_size) size =
              least-next offset h ∙ ap (λ n. least n size) (omega arith) in
            let g = next (add32 page page_size) (omega arith) h (
              subst
                (λ n.
                  Filled physical address n before
                    (copy_between buffer offset physical page (least page_size (size - offset))))
                size_here
                (subst
                  (λ p.
                    Filled physical address (offset + least page_size (size - offset)) before
                      (copy_between buffer offset physical p (least page_size (size - offset))))
                  (sym at) filled)) in
            (g.0, read_pages-next k page offset buffer (omega arith) ∙ g.1, g.2)
        split (inr h) next = (
          buffer,
          read_pages-end k page offset buffer (omega arith),
          subst (λ n. Filled physical address n before buffer) (least-all offset h) f,
        )

    nothing-Filled : Filled physical address 0 before before
    nothing-Filled a = ground arith

    first-Filled :
        (length : ℕ)
        → Filled physical address length before (
            copy_between before 0 physical
              (first_page address + (address - first_page address))
              length)
    first-Filled length =
        subst (λ p. Filled physical address length before (copy_between before 0 physical p length))
          (omega arith)
          (subst
            (λ n.
              Filled physical address n before
                (copy_between before 0 physical (address + 0) length))
            (omega arith) (copy-Filled 0 length before nothing-Filled))

-- Of a range that ends more than a page below 2^32, and with fuel for as many pages as the size has and
-- two more, `read_physical` fills the buffer's first bytes, as many as the size, with the bytes of
-- the range, across all the pages that it touches, and writes no byte of the buffer behind them.
pub read_physical-ReadAll :
    (fuel : ℕ) (physical : Bytes) (address size : ℕ) (buffer : Bytes)
    → address + size + page_size < 2 ^ 32
    → size + 2 * page_size ≤ fuel * page_size
    → ReadAll physical address size buffer (read_physical fuel physical address size buffer)
unfolding read_physical
read_physical-ReadAll zero physical address size buffer room enough = absurd (omega arith)
read_physical-ReadAll (suc k) physical address size buffer room enough =
    split (lt_or_le (page_size - (address - first_page address)) size)
  where
    offset : ℕ
    offset = address - first_page address

    filled :
        (length : ℕ)
        → Filled physical address length buffer
            (copy_between buffer 0 physical (first_page address + offset) length)
    filled = first-Filled physical address size buffer room

    split :
        (page_size - offset < size) ⊎ (size ≤ page_size - offset)
        → ReadAll physical address size buffer (
            read_pages
              (suc k)
              physical
              address
              size
              (add32 (first_page address) page_size)
              (least size (page_size - offset))
              (copy_between buffer 0 physical
                (first_page address + offset)
                (least size (page_size - offset))))
    split (inl h) =
        let rest : ℕ = page_size - offset in
        let length : least size rest ≡ rest = ground arith in
        subst
          (λ n. ReadAll physical address size buffer (
            read_pages (suc k) physical address size (add32 (first_page address) page_size) n
              (copy_between buffer 0 physical (first_page address + offset) n)))
          (sym length)
          (read_pages-all physical address size buffer room (suc k)
            (add32 (first_page address) page_size) rest
            (copy_between buffer 0 physical (first_page address + offset) rest) (omega arith)
            (omega arith) (omega arith)
            (subst
              (λ n.
                Filled physical address n buffer
                  (copy_between buffer 0 physical (first_page address + offset) rest))
              (sym (least-here physical address size buffer rest h)) (filled rest)))
    split (inr h) =
        let length : least size (page_size - offset) ≡ size = ground arith in
        subst
          (λ n. ReadAll physical address size buffer (
            read_pages (suc k) physical address size (add32 (first_page address) page_size) n
              (copy_between buffer 0 physical (first_page address + offset) n)))
          (sym length)
          (
            copy_between buffer 0 physical (first_page address + offset) size,
            read_pages-end physical address size buffer k (add32 (first_page address) page_size)
                size (copy_between buffer 0 physical (first_page address + offset) size)
                (omega arith),
            filled size,
          )
