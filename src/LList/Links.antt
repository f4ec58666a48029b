-- ===== src/LList/Links.antt =====
-- Chains of links: what a store of links says about a sequence of items.
use uberos.Prelude.{
  ◌%◌, ◌≡◌, ◌≢◌, refl, List, [], ◌∷◌, ◌++◌, true, false, arith, has, ==_ne, Bool-cases, inl, inr,
  sym, subst, ◌∙◌, has-append, has-cons_ne, has-middle_self, length, u32_mod, if◌then◌else◌, ◌==◌,
}
use uberos.LList.{Ptr, null, Store, State, set_next, set_prev, link_next, link_prev}

-- The first item of a sequence, or what comes after it.
abbrev pub first : List Ptr → Ptr → Ptr
first [] after = after
first (x ∷ xs) after = x

-- The last item of a sequence, or what comes before it.
abbrev pub final : Ptr → List Ptr → Ptr
final before [] = before
final before (x ∷ xs) = final x xs

-- The items stand one behind the other, between `before` and `after`.
abbrev pub Links : Store → Ptr → List Ptr → Ptr → Type 0
Links s before [] after = Unit {0}
Links s before (x ∷ xs) after =
    ((s x).prev ≡ before) × ((s x).next ≡ first xs after) × Links s x xs after

-- Distinct addresses, none of them null.
abbrev pub Distinct : List Ptr → Type 0
Distinct [] = Unit {0}
Distinct (x ∷ xs) = (x ≢ null) × (has x xs ≡ false) × Distinct xs

-- The list holds exactly the items `xs`, in this order.
pub record IsList (t : State) (xs : List Ptr) : Type 0 where
  pub chain : Links t.links null xs null
  pub distinct : Distinct xs
  pub head : t.list.head ≡ first xs null
  pub tail : t.list.tail ≡ final null xs
  pub size : t.list.size ≡ length xs % u32_mod

-- The stores agree at every item that is not in `xs`.
abbrev pub SameOutside : List Ptr → Store → Store → Type 0
SameOutside xs s s' = (a : Ptr) → has a xs ≡ false → s' a ≡ s a

pub Links-frame :
    (s s' : Store) (before : Ptr) (xs : List Ptr) (after : Ptr)
    → ((a : Ptr) → has a xs ≡ true → s' a ≡ s a)
    → Links s before xs after
    → Links s' before xs after
Links-frame s s' before [] after same h = tt
Links-frame s s' before (x ∷ xs) after same h = (
  ground (arith, same x),
  ground (arith, same x),
  Links-frame s s' x xs after (λ a m. same a (ground arith)) h.2,
)

pub Links-append :
    (s : Store) (before : Ptr) (xs ys : List Ptr) (after : Ptr)
    → Links s before xs (first ys after)
    → Links s (final before xs) ys after
    → Links s before (xs ++ ys) after
Links-append s before [] ys after h k = k
Links-append s before (x ∷ []) ys after h k = (h.0, h.1, k)
Links-append s before (x ∷ y ∷ xs) ys after h k =
    (h.0, h.1, Links-append s x (y ∷ xs) ys after h.2 k)

pub Links-split :
    (s : Store) (before : Ptr) (xs ys : List Ptr) (after : Ptr)
    → Links s before (xs ++ ys) after
    → Links s before xs (first ys after) × Links s (final before xs) ys after
Links-split s before [] ys after h = (tt, h)
Links-split s before (x ∷ []) ys after h = ((h.0, h.1, tt), h.2)
Links-split s before (x ∷ y ∷ xs) ys after h =
    let rest = Links-split s x (y ∷ xs) ys after h.2 in ((h.0, h.1, rest.0), rest.1)

pub final-append :
    (before : Ptr) (xs : List Ptr) (y : Ptr) (ys : List Ptr)
    → final before (xs ++ y ∷ ys) ≡ final y ys
final-append before [] y ys = refl
final-append before (x ∷ xs) y ys = final-append x xs y ys

pub first-append :
    (xs : List Ptr) (y : Ptr) (ys : List Ptr) (after : Ptr)
    → first (xs ++ y ∷ ys) after ≡ first xs y
first-append [] y ys after = refl
first-append (x ∷ xs) y ys after = refl

-- Two items that a sequence tells apart.
pub ne_of_has : (x y : Ptr) (xs : List Ptr) → has x xs ≡ false → has y xs ≡ true → x ≢ y
ne_of_has x y xs h k e = absurd (not_both (rw (← e) at k))
  where
    not_both : has x xs ≡ true → ⊥
    not_both m = cc

-- A null test on an address that is known.
pub or_else-ne {ℓ} : {A : Type ℓ} (p : Ptr) (a b : A) → p ≢ null → (if p == null then a else b) ≡ b
or_else-ne p a b h = rw (==_ne p null h)

-- The last item of a sequence stands in it.
has-final : (x : Ptr) (xs : List Ptr) → has (final x xs) (x ∷ xs) ≡ true
has-final x [] = ground arith
has-final x (y ∷ ys) = ground (arith, has-final y ys)

pub final-ne_null : (x : Ptr) (xs : List Ptr) → Distinct (x ∷ xs) → final x xs ≢ null
final-ne_null x [] d = d.0
final-ne_null x (y ∷ ys) d = final-ne_null y ys d.2

abbrev pub Disjoint : List Ptr → List Ptr → Type 0
Disjoint xs ys = (a : Ptr) → has a xs ≡ true → has a ys ≡ false

pub Disjoint-singleton : (xs : List Ptr) (x : Ptr) → has x xs ≡ false → Disjoint xs (x ∷ [])
Disjoint-singleton xs x out a m = rw (==_ne a x (λ e. ne_of_has x a xs out m (sym e)))

pub Disjoint-symm : (xs ys : List Ptr) → Disjoint xs ys → Disjoint ys xs
Disjoint-symm xs ys apart a m = elim (Bool-cases (has a xs)) [
  | inl i ↦ absurd (not_both (apart a i))
  | inr o ↦ o
]
  where
    not_both : has a ys ≡ false → ⊥
    not_both o = cc

pub Distinct-append :
    (xs ys : List Ptr) → Distinct xs → Distinct ys → Disjoint xs ys → Distinct (xs ++ ys)
Distinct-append [] ys d e apart = e
Distinct-append (x ∷ xs) ys d e apart = (
  d.0,
  ground (arith, has-append x xs ys, apart x),
  Distinct-append xs ys d.2 e (λ a m. apart a (ground arith)),
)

pub Distinct-split :
    (xs ys : List Ptr) → Distinct (xs ++ ys) → Distinct xs × Distinct ys × Disjoint xs ys
Distinct-split [] ys d = (tt, d, λ a m. cc)
Distinct-split (x ∷ xs) ys d =
    let rest = Distinct-split xs ys d.2 in
    (
      (d.0, ground (arith, has-append x xs ys), rest.0),
      rest.1,
      λ a m. ground (arith, rest.2 a, has-append x xs ys),
    )

-- What one write does to the links of each item.
pub set_next_self : (s : Store) (p q : Ptr) → (set_next s p q p).next ≡ q
unfolding set_next
set_next_self s p q = ground arith

pub set_next-prev : (s : Store) (p q a : Ptr) → (set_next s p q a).prev ≡ (s a).prev
unfolding set_next
set_next-prev s p q a = ground arith

pub set_next-ne : (s : Store) (p q a : Ptr) → a ≢ p → set_next s p q a ≡ s a
unfolding set_next
set_next-ne s p q a h = ground arith

pub set_prev_self : (s : Store) (p q : Ptr) → (set_prev s p q p).prev ≡ q
unfolding set_prev
set_prev_self s p q = ground arith

pub set_prev-next : (s : Store) (p q a : Ptr) → (set_prev s p q a).next ≡ (s a).next
unfolding set_prev
set_prev-next s p q a = ground arith

pub set_prev-ne : (s : Store) (p q a : Ptr) → a ≢ p → set_prev s p q a ≡ s a
unfolding set_prev
set_prev-ne s p q a h = ground arith

-- An item does not stand a second time beside itself.
pub Distinct-middle :
    (xs : List Ptr) (x : Ptr) (ys : List Ptr) → Distinct (xs ++ x ∷ ys) → has x (xs ++ ys) ≡ false
Distinct-middle [] x ys d = d.1
Distinct-middle (z ∷ zs) x ys d =
    has-cons_ne x z (zs ++ ys)
      (λ e. ne_of_has z x (zs ++ x ∷ ys) d.1 (has-middle_self x zs ys) (sym e))
      (Distinct-middle zs x ys d.2)

pub Distinct-ne_null :
    (xs : List Ptr) (x : Ptr) (ys : List Ptr) → Distinct (xs ++ x ∷ ys) → x ≢ null
Distinct-ne_null [] x ys d = d.0
Distinct-ne_null (z ∷ zs) x ys d = Distinct-ne_null zs x ys d.2

-- The last item is linked to a new successor.
set_next-Links :
    (s : Store) (before x : Ptr) (xs : List Ptr) (after after' : Ptr)
    → Distinct (x ∷ xs)
    → Links s before (x ∷ xs) after
    → Links (set_next s (final x xs) after') before (x ∷ xs) after'
set_next-Links s before x [] after after' d h =
    (set_next-prev s x after' x ∙ h.0, set_next_self s x after', tt)
set_next-Links s before x (y ∷ ys) after after' d h =
    let ne : x ≢ final y ys = ne_of_has x _ (y ∷ ys) d.1 (has-final y ys) in
    let same = set_next-ne s (final y ys) after' x ne in
    (rw same h.0, rw same h.1, set_next-Links s x y ys after after' d.2 h.2)

set_prev-Links :
    (s : Store) (before before' y : Ptr) (ys : List Ptr) (after : Ptr)
    → Distinct (y ∷ ys)
    → Links s before (y ∷ ys) after
    → Links (set_prev s y before') before' (y ∷ ys) after
set_prev-Links s before before' y ys after d h = (
  set_prev_self s y before',
  set_prev-next s y before' y ∙ h.1,
  Links-frame s _ y ys after
      (λ a m. set_prev-ne s y before' a (λ e. ne_of_has y a ys d.1 m (sym e))) h.2,
)

pub link_next-ne : (s : Store) (p q : Ptr) → p ≢ null → link_next s p q ≡ set_next s p q
unfolding link_next
link_next-ne s p q h = rw (==_ne p null h)

pub link_prev-ne : (s : Store) (p q : Ptr) → p ≢ null → link_prev s p q ≡ set_prev s p q
unfolding link_prev
link_prev-ne s p q h = rw (==_ne p null h)

pub link_next-Links :
    (s : Store) (xs : List Ptr) (after after' : Ptr)
    → Distinct xs
    → Links s null xs after
    → Links (link_next s (final null xs) after') null xs after'
link_next-Links s [] after after' d h = tt
link_next-Links s (x ∷ xs) after after' d h =
    subst (λ s'. Links s' null (x ∷ xs) after')
      (sym (link_next-ne s _ after' (final-ne_null x xs d)))
      (set_next-Links s null x xs after after' d h)

pub link_prev-Links :
    (s : Store) (before before' : Ptr) (ys : List Ptr)
    → Distinct ys
    → Links s before ys null
    → Links (link_prev s (first ys null) before') before' ys null
link_prev-Links s before before' [] d h = tt
link_prev-Links s before before' (y ∷ ys) d h =
    subst (λ s'. Links s' before' (y ∷ ys) null) (sym (link_prev-ne s y before' d.0))
      (set_prev-Links s before before' y ys null d h)

pub link_next-same :
    (s : Store) (xs : List Ptr) (after : Ptr) → SameOutside xs s (link_next s (final null xs) after)
unfolding link_next set_next
link_next-same s [] after a out = refl
link_next-same s (x ∷ xs) after a out = ground (arith, has-final x xs)

pub link_prev-same :
    (s : Store) (ys : List Ptr) (before : Ptr)
    → SameOutside ys s (link_prev s (first ys null) before)
unfolding link_prev set_prev
link_prev-same s [] before a out = refl
link_prev-same s (y ∷ ys) before a out = ground arith

-- A list is not affected by writes to other items.
pub IsList-frame :
    (t : State) (s : Store) (xs : List Ptr)
    → IsList t xs
    → ((a : Ptr) → has a xs ≡ true → s a ≡ t.links a)
    → IsList (record { links = s; list = t.list }) xs
IsList-frame t s xs v same = record {
  chain = Links-frame t.links s null xs null same v.chain;
  distinct = v.distinct;
  head = v.head;
  tail = v.tail;
  size = v.size;
}
