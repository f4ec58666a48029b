-- ===== src/Tests/Text.antt =====
-- Texts and numbers in a memory.
use uberos.Prelude.{ℕ, ◌<◌, ◌≡◌, ◌≢◌, ◌⊎◌, inl, refl, [], ◌∷◌, some, ◌==◌, if◌then◌else◌, arith}
use uberos.Prelude.Int.{negsuc}
use uberos.Stdlib.Memory.{Bytes, memmove}
use uberos.Stdlib.Memory.Copy.{memmove-copied}
use uberos.Stdlib.Strings.{strstr, strcat}
use uberos.Stdlib.Strings.Search.{strstr-first}
use uberos.Stdlib.Strings.Write.{IsText, strcat-append}
use uberos.Stdlib.Numbers.{u16, u32, utoa, utoahex, itoa}
use uberos.Stdlib.Numbers.RoundTrip.{Text, utoa-Text}
use uberos.Stdlib.Numbers.Hex.{HexText, utoahex-HexText}
use uberos.Stdlib.Numbers.Signed.{SignedText, itoa-SignedText}

-- Memory with "a" at 10 and "b" at 20.
abbrev two_texts : Bytes
two_texts a = if a == 10 then 97 else if a == 20 then 98 else 0

memmove-copied_example : memmove two_texts 11 10 8 11 ≡ 97
memmove-copied_example = memmove-copied two_texts 11 10 8 11

-- "abc" is found at the end of "xab".
strstr-first_example : strstr (120 ∷ 97 ∷ 98 ∷ []) (97 ∷ 98 ∷ 99 ∷ []) ≡ some (some (97 ∷ 98 ∷ []))
strstr-first_example =
    strstr-first (120 ∷ 97 ∷ 98 ∷ []) (97 ∷ 98 ∷ 99 ∷ [])
      (ground arith, (ground arith, (ground arith, tt)))
      (ground arith, (ground arith, (ground arith, tt)))

letter : (c : ℕ) → 0 < c → c ≢ 0
letter c h e = omega (arith, h)

strcat-append_example :
    (m' : Bytes) × (strcat 2 two_texts 10 20 ≡ some m')
    × IsText m' 10 (97 ∷ 98 ∷ [])
    × ((a : ℕ) → (a < 11) ⊎ (12 < a) → m' a ≡ two_texts a)
strcat-append_example =
    strcat-append 2 two_texts 10 20 (97 ∷ []) (98 ∷ []) (refl, letter 97 (ground arith), refl)
      (refl, letter 98 (ground arith), refl) (inl (ground arith)) (ground arith) (ground arith)

utoa-Text_example : Text 10 two_texts 100 105 1234 (utoa u16 two_texts 100 1234)
utoa-Text_example = utoa-Text u16 two_texts 100 1234 (ground arith) (ground arith)

utoahex-HexText_example : HexText two_texts 100 4 1234 (utoahex u16 two_texts 100 1234)
utoahex-HexText_example = utoahex-HexText u16 two_texts 100 1234 (ground arith) (ground arith)

-- The number -1000000000.
itoa-SignedText_example :
    SignedText two_texts 100 (negsuc 999999999) (itoa u32 two_texts 100 (negsuc 999999999))
itoa-SignedText_example =
    itoa-SignedText two_texts 100 (negsuc 999999999) (ground arith) (ground arith)
