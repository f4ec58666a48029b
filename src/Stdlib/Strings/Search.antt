-- ===== src/Stdlib/Strings/Search.antt =====
-- What `strncmp` and `strstr` find.
use uberos.Prelude.{
  ℕ, zero, suc, ◌+◌, ◌<◌, ◌≤◌, ◌≡◌, refl, ap, sym, ◌∙◌, List, [], ◌∷◌, Option, none, some, Bool,
  true, false, ◌&&◌, ◌==◌, if◌then◌else◌, arith, Bool-cases, inl, inr, ◌⊎◌, ==→eq, ==_ne, length,
}
use uberos.Stdlib.Strings.{char_diff, is_zero, strncmp, strchr, tail, strstr_loop, strstr}
use uberos.Stdlib.Strings.Compare.{AreBytes, char_diff_self, char_diff-zero}

-- Whether two texts agree up to the end of the shorter one.
abbrev pub agree : List ℕ → List ℕ → Bool
agree [] ys = true
agree (x ∷ xs) [] = true
agree (x ∷ xs) (y ∷ ys) = x == y && agree xs ys

-- The text from the first place on where it agrees with the needle.
abbrev pub first_agreeing : List ℕ → List ℕ → Option (List ℕ)
first_agreeing [] needle = none
first_agreeing (x ∷ xs) needle =
    if agree (x ∷ xs) needle then some (x ∷ xs) else first_agreeing xs needle

diff_is_zero : (a b : ℕ) → a < 256 → b < 256 → is_zero (char_diff a b) ≡ (a == b)
diff_is_zero a b h k = elim (Bool-cases (a == b)) [
  | inl e ↦ rw e (rw (==→eq a b e) (char_diff_self b))
  | inr e ↦ ground (arith, char_diff-zero a b)
]

strncmp-agree :
    (xs ys : List ℕ) (n : ℕ)
    → AreBytes xs
    → AreBytes ys
    → length ys ≤ n
    → is_zero (strncmp xs ys n) ≡ agree xs ys
unfolding strncmp
strncmp-agree [] [] zero h k l = refl
strncmp-agree (a ∷ xs) [] zero h k l = refl
strncmp-agree xs (b ∷ ys) zero h k l = absurd (omega arith)
strncmp-agree [] ys (suc n) h k l = refl
strncmp-agree (a ∷ xs) [] (suc n) h k l = refl
strncmp-agree (a ∷ xs) (b ∷ ys) (suc n) h k l =
    branch (Bool-cases (a == b)) (diff_is_zero a b h.0 k.0)
      (strncmp-agree xs ys n h.1 k.1 (omega arith))
  where
    branch :
        ((a == b) ≡ true) ⊎ ((a == b) ≡ false)
        → is_zero (char_diff a b) ≡ (a == b)
        → is_zero (strncmp xs ys n) ≡ agree xs ys
        → is_zero (if is_zero (char_diff a b) then strncmp xs ys n else char_diff a b)
          ≡ (a == b && agree xs ys)
    branch (inl e) z ih = rw (z, e) ih
    branch (inr e) z ih = rw (z, e) (z ∙ e)

module _ (k c : ℕ) (needle search : List ℕ) where
  loop-end : strchr search c ≡ none → strstr_loop (suc k) c needle search ≡ some none
  unfolding strstr_loop
  loop-end e = rw (e, strstr_loop)

  loop-found :
      (found : List ℕ)
      → strchr search c ≡ some found
      → strstr_loop (suc k) c needle search ≡ (
          if is_zero (strncmp found needle (length needle))
          then some (some found)
          else strstr_loop k c needle (tail found))
  unfolding strstr_loop
  loop-found found e = rw (e, strstr_loop)

-- What `strchr` finds, and that the needle agrees nowhere before.
abbrev Seen : ℕ → List ℕ → List ℕ → Option (List ℕ) → Type 0
Seen c needle xs none = first_agreeing xs (c ∷ needle) ≡ none
Seen c needle xs (some []) = ⊥
Seen c needle xs (some (y ∷ ys)) =
    (first_agreeing xs (c ∷ needle) ≡ first_agreeing (y ∷ ys) (c ∷ needle))
    × AreBytes (y ∷ ys)
    × (length (y ∷ ys) ≤ length xs)

strchr-Seen : (c : ℕ) (needle xs : List ℕ) → AreBytes xs → Seen c needle xs (strchr xs c)
unfolding strchr
strchr-Seen c needle [] h = refl
strchr-Seen c needle (x ∷ xs) h =
    branch (Bool-cases (x == c)) (strchr xs c) (strchr-Seen c needle xs h.1)
  where
    skipped :
        (o : Option (List ℕ)) → (x == c) ≡ false → Seen c needle xs o → Seen c needle (x ∷ xs) o
    skipped none e s = rw e s
    skipped (some []) e s = s
    skipped (some (y ∷ ys)) e s = (rw e s.0, s.1, omega (arith, s.2))

    branch :
        ((x == c) ≡ true) ⊎ ((x == c) ≡ false)
        → (o : Option (List ℕ)) → Seen c needle xs o
        → Seen c needle (x ∷ xs) (if x == c then some (x ∷ xs) else o)
    branch (inl e) o s = rw e (refl, h, omega arith)
    branch (inr e) o s = rw e (skipped o e s)

strstr_loop-first :
    (k c : ℕ) (needle xs : List ℕ)
    → c < 256
    → AreBytes needle
    → AreBytes xs
    → length xs < k
    → strstr_loop k c (c ∷ needle) xs ≡ some (first_agreeing xs (c ∷ needle))
strstr_loop-first zero c needle xs b n h fuel = elim fuel [ ]
strstr_loop-first (suc k) c needle xs b n h fuel =
    branch (strchr xs c) refl (strchr-Seen c needle xs h)
      (λ ys l v. strstr_loop-first k c needle ys b n v l)
  where
    test :
        (y : ℕ) (ys : List ℕ)
        → AreBytes (y ∷ ys)
        → is_zero (strncmp (y ∷ ys) (c ∷ needle) (length (c ∷ needle)))
          ≡ agree (y ∷ ys) (c ∷ needle)
    test y ys v = strncmp-agree (y ∷ ys) (c ∷ needle) (length (c ∷ needle)) v (b, n) (omega arith)

    choose :
        (y : ℕ) (ys : List ℕ) (t : Bool)
        → strstr_loop k c (c ∷ needle) ys ≡ some (first_agreeing ys (c ∷ needle))
        → (if t then some (some (y ∷ ys)) else strstr_loop k c (c ∷ needle) ys)
          ≡ some (if t then some (y ∷ ys) else first_agreeing ys (c ∷ needle))
    choose y ys true e = refl
    choose y ys false e = e

    branch :
        (o : Option (List ℕ))
        → strchr xs c ≡ o
        → Seen c needle xs o
        → ((ys : List ℕ)
            → length ys < k
            → AreBytes ys
            → strstr_loop k c (c ∷ needle) ys ≡ some (first_agreeing ys (c ∷ needle)))
        → strstr_loop (suc k) c (c ∷ needle) xs ≡ some (first_agreeing xs (c ∷ needle))
    branch none e s ih = loop-end k c (c ∷ needle) xs e ∙ ap some (sym s)
    branch (some []) e s ih = absurd s
    branch (some (y ∷ ys)) e s ih =
        loop-found k c (c ∷ needle) xs (y ∷ ys) e
        ∙ rw (test y ys s.1)
            (choose y ys (agree (y ∷ ys) (c ∷ needle)) (ih ys (omega (arith, s.2)) s.1.1))
        ∙ ap some (sym s.0)

-- Of texts of bytes, and with the one round more than the haystack has bytes that it has as fuel,
-- `strstr` ends and gives the haystack for an empty needle, and otherwise
-- the text from the first place where the haystack and the needle agree up to the end of the shorter
-- one. That is the needle's first occurrence, unless an end of the haystack that the needle begins
-- with comes first: the comparison stops at either NUL, so that end is given as a match.
pub strstr-first :
    (haystack needle : List ℕ)
    → AreBytes haystack
    → AreBytes needle
    → strstr haystack needle
      ≡ some (if length needle == 0 then some haystack else first_agreeing haystack needle)
unfolding strstr
strstr-first haystack [] h n = refl
strstr-first haystack (c ∷ needle) h n =
    rw (==_ne (suc (length needle)) 0 (omega arith))
      (strstr_loop-first (length haystack + 1) c needle haystack n.0 n.1 h (omega arith))
