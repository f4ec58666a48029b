-- ===== src/Stdlib/Numbers.antt =====
-- The functions of common/stdlib.cpp that write numbers into buffers. A buffer stands at an address of
-- the memory, and what a function gives is the memory and the address of its text.
pub mod Digits
pub mod RoundTrip
pub mod Hex
pub mod Signed
use uberos.Prelude.{
  ℕ, zero, suc, ◌+◌, ◌-◌, ◌*◌, ◌/◌, ◌%◌, ◌^◌, Option, none, some, Bool, true, false, ◌==◌, ltb,
  if◌then◌else◌,
}
use uberos.Prelude.Int.{ℤ, pos, negsuc}
use uberos.Stdlib.Memory.{Bytes, write}

-- The sizes of the unsigned types, in bytes.
pub data Width : Type 0 where
  u8 : Width
  u16 : Width
  u32 : Width
  u64 : Width

abbrev pub sizeof : Width → ℕ
sizeof u8 = 1
sizeof u16 = 2
sizeof u32 = 4
sizeof u64 = 8

abbrev pub digits_binary : ℕ → Bool → ℕ
digits_binary bits signed = bits * 8 - (if signed then 1 else 0)

abbrev pub digits_decimal : ℕ → Bool → ℕ
digits_decimal bits signed = digits_binary bits signed * 643 / 2136 + 1

abbrev pub digits_hex : ℕ → Bool → ℕ
digits_hex bits signed = (digits_binary bits signed + 3) / 4

-- `number%10+'0'`
abbrev pub decimal_digit : ℕ → ℕ
decimal_digit d = d + 48

-- `digits[number%16]`
abbrev pub hex_digit : ℕ → ℕ
hex_digit d = if ltb d 10 then d + 48 else d + 55

-- The loop `do ... while(number>0)` that writes the digits downwards from `character`, on fuel.
pub put_digits : ℕ → (ℕ → ℕ) → ℕ → Bytes → ℕ → ℕ → Option (Bytes × ℕ)
put_digits base digit zero m character number = none
put_digits base digit (suc k) m character number =
    let m' = write m character (digit (number % base)) in
    let rest = put_digits base digit k m' (character - 1) (number / base) in
    if ltb 0 (number / base) then rest else some (m', character - 1)

-- `_utoa`, with the size of its buffer.
pub utoa_buffer : ℕ → Bytes → ℕ → ℕ → Option (Bytes × ℕ)
unfolding put_digits
utoa_buffer size m buffer number =
    let m' = write m (buffer + (size - 1)) 0 in
    elim (put_digits 10 decimal_digit (size - 1) m' (buffer + (size - 2)) number) [
      | none ↦ none
      | some r ↦ some (r.0, r.1 + 1)
    ]

pub utoa : Width → Bytes → ℕ → ℕ → Option (Bytes × ℕ)
unfolding utoa_buffer
utoa type m buffer number = utoa_buffer (digits_decimal (sizeof type) false + 1) m buffer number

-- `while(character>&buffer[1]) *character--='0'`, for a number of rounds.
pub pad : ℕ → Bytes → ℕ → Bytes
pad zero m character = m
pad (suc k) m character = pad k (write m character 48) (character - 1)

-- `_utoahex`, with the size of its buffer.
pub utoahex_buffer : ℕ → Bytes → ℕ → ℕ → Option (Bytes × ℕ)
unfolding put_digits pad
utoahex_buffer size m buffer number =
    let m' = write (write (write m buffer 48) (buffer + 1) 120) (buffer + (size - 1)) 0 in
    elim (put_digits 16 hex_digit (size - 3) m' (buffer + (size - 2)) number) [
      | none ↦ none
      | some r ↦ some (pad (r.1 - (buffer + 1)) r.0 r.1, buffer)
    ]

pub utoahex : Width → Bytes → ℕ → ℕ → Option (Bytes × ℕ)
unfolding utoahex_buffer
utoahex type m buffer number =
    utoahex_buffer (2 + digits_hex (sizeof type) false + 1) m buffer number

-- `_utoahextrim`, with the size of its buffer.
pub utoahextrim_buffer : ℕ → Bytes → ℕ → ℕ → Option (Bytes × ℕ)
unfolding put_digits
utoahextrim_buffer size m buffer number =
    let m' = write m (buffer + (size - 1)) 0 in
    elim (put_digits 16 hex_digit (size - 3) m' (buffer + (size - 2)) number) [
      | none ↦ none
      | some r ↦ some (write (write r.0 r.1 120) (r.1 - 1) 48, r.1 - 2 + 1)
    ]

pub utoahextrim : Width → Bytes → ℕ → ℕ → Option (Bytes × ℕ)
unfolding utoahextrim_buffer
utoahextrim type m buffer number =
    utoahextrim_buffer (2 + digits_hex (sizeof type) false + 1) m buffer number

-- `unsigned numberAbs = isNegative?-number:number`, of 32 bits.
abbrev pub number_abs : ℤ → ℕ
number_abs (pos n) = n % 2 ^ 32
number_abs (negsuc n) = (n + 1) % 2 ^ 32

abbrev pub is_negative : ℤ → Bool
is_negative (pos n) = false
is_negative (negsuc n) = true

-- `_itoa` for the signed type of the same size, into the buffer that is given, which it takes to have
-- the size of its own buffer.
pub itoa_buffer : ℕ → Bytes → ℕ → ℤ → Option (Bytes × ℕ)
unfolding put_digits
itoa_buffer size m buffer number =
    let m' = write m (buffer + (size - 1)) 0 in
    elim (put_digits 10 decimal_digit 10 m' (buffer + (size - 2)) (number_abs number)) [
      | none ↦ none
      | some r ↦
          if is_negative number then some (write r.0 r.1 45, r.1 - 1 + 1) else some (r.0, r.1 + 1)
    ]

pub itoa : Width → Bytes → ℕ → ℤ → Option (Bytes × ℕ)
unfolding itoa_buffer
itoa type m buffer number = itoa_buffer (digits_decimal (sizeof type) false + 1) m buffer number
