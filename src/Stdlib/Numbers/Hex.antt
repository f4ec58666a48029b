-- ===== src/Stdlib/Numbers/Hex.antt =====
-- The hexadecimal texts: `0x`, and as many digits as the type has.
use uberos.Prelude.{
  ℕ, zero, suc, ◌+◌, ◌-◌, ◌*◌, ◌%◌, ◌^◌, ◌<◌, ◌≤◌, ◌≡◌, ◌≢◌, refl, sym, ◌∙◌, subst, List, [], ◌∷◌,
  Option, some, false, arith, inl, inr, ◌⊎◌, lt_or_le, length,
}
use uberos.Stdlib.Memory.{Bytes, write}
use uberos.Stdlib.Strings.Write.{IsText, IsText-same}
use uberos.Stdlib.Numbers.{
  Width, u8, u16, u32, u64, sizeof, digits_hex, put_digits, hex_digit, pad, utoahex_buffer, utoahex,
}
use uberos.Stdlib.Numbers.Digits.{
  Fits, IsDigit, AllDigits, read_digits, digit_value, put_digits-Digits,
}

hex_value : (n : ℕ) → digit_value (hex_digit (n % 16)) ≡ n % 16
hex_value n = ground arith

hex_nonzero : (n : ℕ) → hex_digit (n % 16) ≢ 0
hex_nonzero n e = ground arith

hex-IsDigit : (n : ℕ) → IsDigit 16 (hex_digit (n % 16))
hex-IsDigit n = (branch (lt_or_le (n % 16) 10), ground arith)
  where
    branch :
        (n % 16 < 10) ⊎ (10 ≤ n % 16)
        → ((48 ≤ hex_digit (n % 16)) × (hex_digit (n % 16) < 58))
          ⊎ ((65 ≤ hex_digit (n % 16)) × (hex_digit (n % 16) < 71))
    branch (inl h) = inl (ground arith, ground arith)
    branch (inr h) = inr (ground arith, ground arith)

hex-Fits :
    (type : Width) (n : ℕ) → n < 2 ^ (8 * sizeof type) → Fits 16 (digits_hex (sizeof type) false) n
hex-Fits u8 n h = omega arith
hex-Fits u16 n h = omega arith
hex-Fits u32 n h = omega arith
hex-Fits u64 n h = omega arith

-- The zeros before a text of digits.
abbrev Padded : ℕ → Bytes → ℕ → List ℕ → Bytes → Type 0
Padded k m e zs m' =
    (zs' : List ℕ) × IsText m' (e + 1) zs'
    × (read_digits 16 0 zs' ≡ read_digits 16 0 zs)
    × (length zs' ≡ k + length zs)
    × ((a : ℕ) → (a ≤ e) ⊎ (e + k < a) → m' a ≡ m a)
    × AllDigits 16 zs'

add_suc_pred : (e k : ℕ) → e + suc k - 1 ≡ e + k
add_suc_pred e k = omega arith

pad-Padded :
    (k e : ℕ) (m : Bytes) (zs : List ℕ)
    → IsText m (e + k + 1) zs
    → AllDigits 16 zs
    → Padded k m e zs (pad k m (e + k))
unfolding pad
pad-Padded zero e m zs t d =
    (zs, subst (λ p. IsText m p zs) (omega arith) t, refl, omega arith, λ a o. refl, d)
pad-Padded (suc k) e m zs t d =
    let m' : Bytes = write m (e + suc k) 48 in
    let g =
      pad-Padded k e m' (48 ∷ zs)
        (
          ground arith,
          ne,
          IsText-same m m' (e + k + 1 + 1) zs (subst (λ p. IsText m p zs) (omega arith) t)
              (λ a h l. ground arith),
        )
        ((inl (omega arith, omega arith), omega arith), d) in
    rw (add_suc_pred e k) (g.0, g.1, g.2, omega (arith, g.3), outside g.4, g.5)
  where
    ne : ◌≢◌ {A = ℕ} 48 0
    ne e = omega arith

    outside :
        ((a : ℕ)
          → (a ≤ e) ⊎ (e + k < a)
          → pad k (write m (e + suc k) 48) (e + k) a ≡ write m (e + suc k) 48 a)
        → (a : ℕ) → (a ≤ e) ⊎ (e + suc k < a)
        → pad k (write m (e + suc k) 48) (e + k) a ≡ m a
    outside same a (inl h) = same a (inl h) ∙ ground arith
    outside same a (inr h) = same a (inr (omega arith)) ∙ ground arith

-- `0x` and digits that read as a number, in the bytes from the buffer's start to a NUL at its end.
abbrev pub HexText : Bytes → ℕ → ℕ → ℕ → Option (Bytes × ℕ) → Type 0
HexText m buffer digits n o =
    (m' : Bytes) × (xs : List ℕ) × (o ≡ some (m', buffer))
    × IsText m' buffer (48 ∷ 120 ∷ xs)
    × AllDigits 16 xs
    × (read_digits 16 0 xs ≡ n)
    × (length xs ≡ digits)
    × ((a : ℕ) → (a < buffer) ⊎ (buffer + 2 + digits < a) → m' a ≡ m a)

module _ (w : ℕ) (m : Bytes) (buffer n : ℕ) where
  less_one : w + 4 - 1 ≡ w + 3
  less_one = omega arith

  less_two : w + 4 - 2 ≡ w + 2
  less_two = omega arith

  less_three : w + 4 - 3 ≡ w + 1
  less_three = omega arith

  abbrev prepared : Bytes
  prepared = write (write (write m buffer 48) (buffer + 1) 120) (buffer + (w + 3)) 0

  utoahex_buffer-put_digits :
      (r : Bytes × ℕ)
      → put_digits 16 hex_digit (w + 1) prepared (buffer + (w + 2)) n ≡ some r
      → utoahex_buffer (w + 4) m buffer n ≡ some (pad (r.1 - (buffer + 1)) r.0 r.1, buffer)
  unfolding utoahex_buffer
  utoahex_buffer-put_digits r e = rw (less_one, less_two, less_three, e, utoahex_buffer) refl

  utoahex_buffer-HexText :
      0 < buffer
      → Fits 16 (suc w) n
      → HexText m buffer (w + 1) n (utoahex_buffer (w + 4) m buffer n)
  utoahex_buffer-HexText b f =
      let g =
        put_digits-Digits 16 hex_digit hex_value hex_nonzero hex-IsDigit (w + 1) w prepared
          (buffer + (w + 2)) n [] f (omega arith) (omega arith) (ground arith) tt in
      padded g.0 g.1 g.2 g.3 g.4 g.5 g.6 g.8 g.9
    where
      padded :
          (r : Bytes × ℕ) (zs : List ℕ)
          → put_digits 16 hex_digit (w + 1) prepared (buffer + (w + 2)) n ≡ some r
          → IsText r.0 (r.1 + 1) zs
          → read_digits 16 0 zs ≡ n
          → r.1 + length zs ≡ buffer + (w + 2) + 0
          → length zs ≤ 0 + suc w
          → ((a : ℕ) → (a ≤ r.1) ⊎ (buffer + (w + 2) < a) → r.0 a ≡ prepared a)
          → AllDigits 16 zs
          → HexText m buffer (w + 1) n (utoahex_buffer (w + 4) m buffer n)
      padded r zs e t v l l' same all =
          let k : ℕ = r.1 - (buffer + 1) in
          let here : buffer + 1 + k ≡ r.1 = omega arith in
          let p =
            pad-Padded k (buffer + 1) r.0 zs (subst (λ q. IsText r.0 (q + 1) zs) (sym here) t)
              all in
          let q : Padded k r.0 (buffer + 1) zs (pad k r.0 r.1) =
            subst (λ c. Padded k r.0 (buffer + 1) zs (pad k r.0 c)) here p in
          let before : (a : ℕ) → a ≤ buffer + 1 → pad k r.0 r.1 a ≡ prepared a =
            λ a h. q.4 a (inl h) ∙ same a (inl (omega arith)) in
          (
            pad k r.0 r.1,
            q.0,
            utoahex_buffer-put_digits r e,
            (
              before buffer (omega arith) ∙ ground arith,
              nonzero 47,
              (before (buffer + 1) (omega arith) ∙ ground arith, nonzero 119, q.1),
            ),
            q.5,
            q.2 ∙ v,
            omega (arith, q.3),
            outside (pad k r.0 r.1) k here q.4,
          )
        where
          nonzero : (c : ℕ) → suc c ≢ 0
          nonzero c h = omega arith

          outside :
              (m'' : Bytes) (k : ℕ)
              → buffer + 1 + k ≡ r.1
              → ((a : ℕ) → (a ≤ buffer + 1) ⊎ (buffer + 1 + k < a) → m'' a ≡ r.0 a)
              → (a : ℕ) → (a < buffer) ⊎ (buffer + 2 + (w + 1) < a)
              → m'' a ≡ m a
          outside m'' k here same' a (inl h) =
              same' a (inl (omega arith)) ∙ same a (inl (omega arith)) ∙ ground arith
          outside m'' k here same' a (inr h) =
              same' a (inr (omega arith)) ∙ same a (inr (omega arith)) ∙ ground arith

module _ (m : Bytes) (buffer n : ℕ) (b : 0 < buffer) where
  utoahex-cases :
      (type : Width)
      → n < 2 ^ (8 * sizeof type)
      → HexText m buffer (digits_hex (sizeof type) false) n (utoahex type m buffer n)
  unfolding utoahex
  utoahex-cases u8 h = utoahex_buffer-HexText 1 m buffer n b (hex-Fits u8 n h)
  utoahex-cases u16 h = utoahex_buffer-HexText 3 m buffer n b (hex-Fits u16 n h)
  utoahex-cases u32 h = utoahex_buffer-HexText 7 m buffer n b (hex-Fits u32 n h)
  utoahex-cases u64 h = utoahex_buffer-HexText 15 m buffer n b (hex-Fits u64 n h)

-- For a number of its type and a buffer at an address above 0, `_utoahex` leaves in the buffer
-- `0x`, then exactly as many hexadecimal digits as the type has, which read back as the number,
-- and a NUL at the buffer's end; it gives the buffer, and writes nothing outside it.
pub utoahex-HexText :
    (type : Width) (m : Bytes) (buffer number : ℕ)
    → 0 < buffer
    → number < 2 ^ (8 * sizeof type)
    → HexText m buffer (digits_hex (sizeof type) false) number (utoahex type m buffer number)
utoahex-HexText type m buffer number b h = utoahex-cases m buffer number b type h
