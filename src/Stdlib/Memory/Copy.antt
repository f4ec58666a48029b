-- ===== src/Stdlib/Memory/Copy.antt =====
-- What the copies leave in memory.
use uberos.Prelude.{
  ℕ, zero, suc, ◌+◌, ◌-◌, ◌%◌, ◌≤◌, ◌≡◌, refl, ap, ◌∙◌, Bool, true, false, ◌&&◌, ◌==◌, leb, ltb,
  if◌then◌else◌, arith, Bool-cases, inl, inr, ◌⊎◌, ==→eq,
}
use uberos.Stdlib.Memory.{
  Bytes, write, copy_up, copy_down, memmove, memcpy_backwards_aligned, write8, align_source,
  copy_blocks, same_alignment, memcpy_forwards_aligned, memcpy_aligned,
}

-- Memory with `bytes` bytes from `src` on in place of those from `dest` on, as it was before.
abbrev pub copied : Bytes → ℕ → ℕ → ℕ → Bytes
copied m dest src bytes a = if leb dest a && ltb a (dest + bytes) then m (src + (a - dest)) else m a

same_byte : (m : Bytes) (a b : ℕ) → a ≡ b → m a ≡ m b
same_byte m a b e = ap m e

-- A copy upwards reads no byte that it has written: the target lies below, or the ranges are apart.
abbrev pub Upwards : ℕ → ℕ → ℕ → Type 0
Upwards d s bytes = (d ≤ s) ⊎ (s + bytes ≤ d)

abbrev pub Downwards : ℕ → ℕ → ℕ → Type 0
Downwards d s bytes = (s ≤ d) ⊎ (d + bytes ≤ s)

Upwards-later : (d s n k : ℕ) → Upwards d s (k + n) → Upwards (d + k) (s + k) n
Upwards-later d s n k (inl h) = inl (omega arith)
Upwards-later d s n k (inr h) = inr (omega arith)

pub copied-step :
    (m : Bytes) (d s n a : ℕ)
    → Upwards d s (suc n)
    → copied (write m d (m s)) (d + 1) (s + 1) n a ≡ copied m d s (suc n) a
copied-step m d s n a (inl h) =
    ground (arith, same_byte m (s + 1 + (a - (d + 1))) (s + (a - d)), same_byte m s (s + (a - d)))
copied-step m d s n a (inr h) =
    ground (arith, same_byte m (s + 1 + (a - (d + 1))) (s + (a - d)), same_byte m s (s + (a - d)))

pub copied-none : (m : Bytes) (d s a : ℕ) → m a ≡ copied m d s 0 a
copied-none m d s a = ground arith

pub copy_up-copied :
    (m : Bytes) (d s n a : ℕ) → Upwards d s n → copy_up m d s n a ≡ copied m d s n a
unfolding copy_up
copy_up-copied m d s zero a h = copied-none m d s a
copy_up-copied m d s (suc n) a h =
    copy_up-copied (write m d (m s)) (d + 1) (s + 1) n a (Upwards-later d s n 1 (later h))
    ∙ copied-step m d s n a h
  where
    later : Upwards d s (suc n) → Upwards d s (1 + n)
    later (inl h) = inl h
    later (inr h) = inr (omega arith)

copied-last :
    (m : Bytes) (d s n a : ℕ)
    → Downwards d s (suc n)
    → copied (write m (d + n) (m (s + n))) d s n a ≡ copied m d s (suc n) a
copied-last m d s n a (inl h) = ground (arith, same_byte m (s + n) (s + (a - d)))
copied-last m d s n a (inr h) = ground (arith, same_byte m (s + n) (s + (a - d)))

pred_add : (d n : ℕ) → d + suc n - 1 ≡ d + n
pred_add d n = omega arith

Downwards-less : (d s n : ℕ) → Downwards d s (suc n) → Downwards d s n
Downwards-less d s n (inl h) = inl h
Downwards-less d s n (inr h) = inr (omega arith)

pub copy_down-copied :
    (m : Bytes) (d s n a : ℕ) → Downwards d s n → copy_down m (d + n) (s + n) n a ≡ copied m d s n a
unfolding copy_down
copy_down-copied m d s zero a h = copied-none m d s a
copy_down-copied m d s (suc n) a h =
    rw (pred_add d n, pred_add s n)
      (copy_down-copied (write m (d + n) (m (s + n))) d s n a (Downwards-less d s n h)
        ∙ copied-last m d s n a h)

-- `memmove` copies the bytes as they were before, also where the two ranges overlap, and writes no
-- other byte.
pub memmove-copied :
    (m : Bytes) (dest src bytes a : ℕ) → memmove m dest src bytes a ≡ copied m dest src bytes a
unfolding memmove
memmove-copied m dest src bytes a = elim (Bool-cases (leb src dest)) [
  | inl h ↦ rw h (copy_down-copied m dest src bytes a (inl (ground (arith, h))))
  | inr h ↦ rw h (copy_up-copied m dest src bytes a (inl (ground (arith, h))))
]

copied-block :
    (m : Bytes) (d s n a : ℕ)
    → Upwards d s n
    → 8 ≤ n
    → copied (write8 m d s) (d + 8) (s + 8) (n - 8) a ≡ copied m d s n a
copied-block m d s n a (inl h) k = ground (arith, same_byte m (s + 8 + (a - (d + 8))) (s + (a - d)))
copied-block m d s n a (inr h) k = ground (arith, same_byte m (s + 8 + (a - (d + 8))) (s + (a - d)))

Upwards-block : (d s n : ℕ) → 8 ≤ n → Upwards d s n → Upwards (d + 8) (s + 8) (n - 8)
Upwards-block d s n k (inl h) = inl (omega arith)
Upwards-block d s n k (inr h) = inr (omega arith)

copy_blocks-copied :
    (k : ℕ) (m : Bytes) (d s n a : ℕ) → Upwards d s n → copy_blocks k m d s n a ≡ copied m d s n a
unfolding copy_blocks
copy_blocks-copied zero m d s n a h = copy_up-copied m d s n a h
copy_blocks-copied (suc k) m d s n a h =
    branch (Bool-cases (leb 8 n))
      (λ l. copy_blocks-copied k (write8 m d s) (d + 8) (s + 8) (n - 8) a (Upwards-block d s n l h))
  where
    branch :
        (leb 8 n ≡ true) ⊎ (leb 8 n ≡ false)
        → (8 ≤ n
            → copy_blocks k (write8 m d s) (d + 8) (s + 8) (n - 8) a
              ≡ copied (write8 m d s) (d + 8) (s + 8) (n - 8) a)
        → (if leb 8 n
              then copy_blocks k (write8 m d s) (d + 8) (s + 8) (n - 8)
              else copy_up m d s n)
            a
          ≡ copied m d s n a
    branch (inl l) ih =
        let enough : 8 ≤ n = ground (arith, l) in rw l (ih enough ∙ copied-block m d s n a h enough)
    branch (inr l) ih = rw l (copy_up-copied m d s n a h)

-- What a copying loop does, whatever the memory.
abbrev Copies : (Bytes → ℕ → ℕ → ℕ → Bytes) → Type 0
Copies go = (m : Bytes) (d s n a : ℕ) → Upwards d s n → go m d s n a ≡ copied m d s n a

Upwards-suc : (d s n : ℕ) → 1 ≤ n → Upwards d s n → Upwards d s (suc (n - 1))
Upwards-suc d s n k (inl h) = inl h
Upwards-suc d s n k (inr h) = inr (omega arith)

Upwards-one : (d s n : ℕ) → 1 ≤ n → Upwards d s n → Upwards (d + 1) (s + 1) (n - 1)
Upwards-one d s n k (inl h) = inl (omega arith)
Upwards-one d s n k (inr h) = inr (omega arith)

suc_pred : (n : ℕ) → 1 ≤ n → suc (n - 1) ≡ n
suc_pred n h = omega arith

align_source-copied :
    (k : ℕ) (go : Bytes → ℕ → ℕ → ℕ → Bytes)
    → Copies go
    → (m : Bytes) (d s n a : ℕ) → k ≤ n
    → Upwards d s n
    → align_source k go m d s n a ≡ copied m d s n a
unfolding align_source
align_source-copied zero go c m d s n a k h = c m d s n a h
align_source-copied (suc j) go c m d s n a k h = branch (Bool-cases (s % 8 == 0)) (
    align_source-copied j go c (write m d (m s)) (d + 1) (s + 1) (n - 1) a (omega arith)
      (Upwards-one d s n (omega arith) h))
  where
    step : copied (write m d (m s)) (d + 1) (s + 1) (n - 1) a ≡ copied m d s n a
    step =
        copied-step m d s (n - 1) a (Upwards-suc d s n (omega arith) h)
        ∙ ap (λ l. copied m d s l a) (suc_pred n (omega arith))

    branch :
        ((s % 8 == 0) ≡ true) ⊎ ((s % 8 == 0) ≡ false)
        → align_source j go (write m d (m s)) (d + 1) (s + 1) (n - 1) a
          ≡ copied (write m d (m s)) (d + 1) (s + 1) (n - 1) a
        → (if s % 8 == 0
              then go m d s n
              else align_source j go (write m d (m s)) (d + 1) (s + 1) (n - 1))
            a
          ≡ copied m d s n a
    branch (inl l) ih = rw l (c m d s n a h)
    branch (inr l) ih = rw l (ih ∙ step)

memcpy_forwards_aligned-copied : Copies memcpy_forwards_aligned
unfolding memcpy_forwards_aligned
memcpy_forwards_aligned-copied m d s n a h = branch (leb 8 n && same_alignment s d) refl
  where
    branch :
        (b : Bool)
        → (leb 8 n && same_alignment s d) ≡ b
        → (if b then align_source 7 (copy_blocks n) m d s n else copy_up m d s n) a
          ≡ copied m d s n a
    branch true e =
        align_source-copied 7 (copy_blocks n)
          (λ m' d' s' n' a' h'. copy_blocks-copied n m' d' s' n' a' h') m d s n a
          (ground (arith, e)) h
    branch false e = copy_up-copied m d s n a h

copied_self : (m : Bytes) (d n a : ℕ) → m a ≡ copied m d d n a
copied_self m d n a = ground (arith, same_byte m a (d + (a - d)))

-- `memcpy_aligned` of ranges that do not overlap, or overlap with the target below the source,
-- copies the bytes as they were before and writes no other byte, on the path that copies eight bytes
-- at a time as on the one that copies single bytes; `memcpy_backwards_aligned` does so with the
-- target above the source.
pub memcpy_aligned-copied :
    (m : Bytes) (dest src bytes a : ℕ)
    → (Upwards dest src bytes → memcpy_aligned m dest src bytes a ≡ copied m dest src bytes a)
      × (Downwards dest src bytes
          → memcpy_backwards_aligned m dest src bytes a ≡ copied m dest src bytes a)
unfolding memcpy_aligned memcpy_backwards_aligned
memcpy_aligned-copied m dest src bytes a =
    (λ h. up h (Bool-cases (dest == src)), λ h. copy_down-copied m dest src bytes a h)
  where
    up :
        Upwards dest src bytes
        → ((dest == src) ≡ true) ⊎ ((dest == src) ≡ false)
        → (if dest == src then m else memcpy_forwards_aligned m dest src bytes) a
          ≡ copied m dest src bytes a
    up h (inl e) =
        rw e (copied_self m dest bytes a ∙ ap (λ s. copied m dest s bytes a) (==→eq dest src e))
    up h (inr e) = rw e (memcpy_forwards_aligned-copied m dest src bytes a h)
