-- ===== src/Stdlib/Strings.antt =====
-- The functions of common/stdlib.cpp on text. A text is the list of its bytes before the NUL; the
-- functions that write text work on memory, where they read and write the NUL too.
pub mod Compare
pub mod Search
pub mod Write
use uberos.Prelude.{
  ℕ, zero, suc, ◌+◌, ◌-◌, ◌%◌, List, [], ◌∷◌, Option, none, some, Bool, true, false, ◌==◌,
  if◌then◌else◌, length,
}
use uberos.Prelude.Int.{ℤ, pos, negsuc, sub_ℕ}
use uberos.Stdlib.Memory.{Bytes, write}

-- `*str1-*str2`, of two signed characters.
abbrev pub char_diff : ℕ → ℕ → ℤ
char_diff a b = sub_ℕ ((a + 128) % 256) ((b + 128) % 256)

-- Whether an `int` is 0.
abbrev pub is_zero : ℤ → Bool
is_zero (pos n) = n == 0
is_zero (negsuc n) = false

pub strcmp : List ℕ → List ℕ → ℤ
strcmp [] [] = pos 0
strcmp [] (b ∷ bs) = negsuc 0
strcmp (a ∷ as') [] = pos 1
strcmp (a ∷ as') (b ∷ bs) =
    let diff = char_diff a b in let rest = strcmp as' bs in if is_zero diff then rest else diff

pub strncmp : List ℕ → List ℕ → ℕ → ℤ
strncmp str1 str2 zero = pos 0
strncmp [] str2 (suc n) = pos 0
strncmp (a ∷ as') [] (suc n) = pos 0
strncmp (a ∷ as') (b ∷ bs) (suc n) =
    let diff = char_diff a b in let rest = strncmp as' bs n in if is_zero diff then rest else diff

-- `memcmp`, of two ranges of the same length.
pub memcmp : List ℕ → List ℕ → ℤ
memcmp (a ∷ as') (b ∷ bs) =
    let diff = char_diff a b in let rest = memcmp as' bs in if is_zero diff then rest else diff
memcmp _ _ = pos 0

-- The text from the first `c` on.
pub strchr : List ℕ → ℕ → Option (List ℕ)
strchr [] c = none
strchr (x ∷ xs) c = if x == c then some (x ∷ xs) else strchr xs c

abbrev pub tail : List ℕ → List ℕ
tail [] = []
tail (x ∷ xs) = xs

-- The loop of `strstr` for the first byte `c` of the needle, on fuel.
pub strstr_loop : ℕ → ℕ → List ℕ → List ℕ → Option (Option (List ℕ))
unfolding strchr strncmp
strstr_loop zero c needle search = none
strstr_loop (suc k) c needle search = elim (strchr search c) [
  | none ↦ some none
  | some found ↦
      let rest = strstr_loop k c needle (tail found) in
      if is_zero (strncmp found needle (length needle)) then some (some found) else rest
]

pub strstr : List ℕ → List ℕ → Option (Option (List ℕ))
unfolding strstr_loop
strstr haystack [] = some (some haystack)
strstr haystack (c ∷ needle) = strstr_loop (length haystack + 1) c (c ∷ needle) haystack

-- `strlen` of the text at an address, on fuel.
pub strlen : ℕ → Bytes → ℕ → Option ℕ
strlen zero m str = none
strlen (suc k) m str =
    let rest : Option ℕ = elim (strlen k m (str + 1)) [ none ↦ none | some n ↦ some (n + 1) ] in
    if m str == 0 then some 0 else rest

-- `strcpy`, on fuel.
pub strcpy : ℕ → Bytes → ℕ → ℕ → Option Bytes
strcpy zero m destination source = none
strcpy (suc k) m destination source =
    let rest = strcpy k (write m destination (m source)) (destination + 1) (source + 1) in
    if m source == 0 then some (write m destination 0) else rest

pub strcat : ℕ → Bytes → ℕ → ℕ → Option Bytes
unfolding strlen strcpy
strcat fuel m destination source = elim (strlen fuel m destination) [
  | none ↦ none
  | some n ↦ strcpy fuel m (destination + n) source
]
