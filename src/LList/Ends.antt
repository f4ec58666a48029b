-- ===== src/LList/Ends.antt =====
-- Items that enter and leave at the two ends of a list (`push_front`, `push_back`, `pop_front`).
use uberos.Prelude.{
  ◌≡◌, ◌≢◌, refl, List, [], ◌∷◌, ◌++◌, false, Option, some, none, arith, has, ==_refl, sym, subst,
  ◌∙◌, ap, has-append, if◌then◌else◌, ◌==◌, length-append,
}
use uberos.LList.{
  Ptr, null, Store, State, set_next, set_prev, link_next, link_prev, drop_front, push_front,
  push_back, pop_front,
}
use uberos.LList.Links.{
  Links, first, final, IsList, SameOutside, Distinct, Links-frame, Links-append, final-append,
  set_next_self, set_next-prev, set_next-ne, set_prev_self, set_prev-ne, ne_of_has, or_else-ne,
  Disjoint-singleton, Distinct-append, final-ne_null, link_next-Links, link_prev-Links,
  link_next-same, link_prev-same,
}

-- The two links of an item that is put in are written last, and no other item sees that.
abbrev pub enter : Store → Ptr → Ptr → Ptr → Store
enter s item before after = set_next (set_prev s item before) item after

enter-prev : (s : Store) (item before after : Ptr) → (enter s item before after item).prev ≡ before
enter-prev s item before after = set_next-prev _ item after item ∙ set_prev_self s item before

enter-next : (s : Store) (item before after : Ptr) → (enter s item before after item).next ≡ after
enter-next s item before after = set_next_self _ item after

enter-ne : (s : Store) (item before after a : Ptr) → a ≢ item → enter s item before after a ≡ s a
enter-ne s item before after a h = set_next-ne _ item after a h ∙ set_prev-ne s item before a h

enter-Links :
    (s : Store) (item p q before : Ptr) (xs : List Ptr) (after : Ptr)
    → has item xs ≡ false
    → Links s before xs after
    → Links (enter s item p q) before xs after
enter-Links s item p q before xs after out =
    Links-frame s _ before xs after
      λ a m. enter-ne s item p q a λ e. ne_of_has item a xs out m (sym e)

-- A new item goes to the front; no item but it and those of the list is written.
pub push_front-IsList :
    (t : State) (xs : List Ptr) (item : Ptr)
    → IsList t xs
    → item ≢ null
    → has item xs ≡ false
    → IsList (push_front item t) (item ∷ xs)
      × SameOutside (item ∷ xs) t.links (push_front item t).links
unfolding push_front
push_front-IsList t xs item v ne out = (
  record {
    chain =
        subst (λ h. Links (enter (link_prev t.links h item) item null h) null (item ∷ xs) null)
          (sym v.head)
          (
            enter-prev _ item null _,
            enter-next _ item null _,
            enter-Links _ item null _ item xs null out
                (link_prev-Links t.links null item xs v.distinct v.chain),
          );
    distinct = (ne, out, v.distinct);
    head = refl;
    tail = tail xs v.tail v.distinct;
    size = omega (arith, v.size);
  },
  λ a o.
      enter-ne _ item null _ a (ground arith)
      ∙ subst (λ h. link_prev t.links h item a ≡ t.links a) (sym v.head)
          (link_prev-same t.links xs item a (ground arith)),
)
  where
    tail :
        (ys : List Ptr)
        → t.list.tail ≡ final null ys
        → Distinct ys
        → (if t.list.tail == null then item else t.list.tail) ≡ final item ys
    tail [] e d = ground arith
    tail (y ∷ ys) e d = rw e (or_else-ne _ item _ (final-ne_null y ys d))

-- A new item goes to the back.
pub push_back-IsList :
    (t : State) (xs : List Ptr) (item : Ptr)
    → IsList t xs
    → item ≢ null
    → has item xs ≡ false
    → IsList (push_back item t) (xs ++ item ∷ [])
      × SameOutside (xs ++ item ∷ []) t.links (push_back item t).links
unfolding push_back
push_back-IsList t xs item v ne out = (
  record {
    chain =
        subst
          (λ h. Links (enter (link_next t.links h item) item h null) null (xs ++ item ∷ []) null)
          (sym v.tail)
          (Links-append _ null xs (item ∷ []) null
            (enter-Links _ item _ null null xs item out
              (link_next-Links t.links xs null item v.distinct v.chain))
            (enter-prev _ item _ null, enter-next _ item _ null, tt));
    distinct =
        Distinct-append xs (item ∷ []) v.distinct (ne, refl, tt) (Disjoint-singleton xs item out);
    head = head xs v.head v.distinct;
    tail = sym (final-append null xs item []);
    size = omega (arith, v.size, length-append xs (item ∷ []));
  },
  λ a o.
      enter-ne _ item _ null a (ground (arith, has-append a xs (item ∷ [])))
      ∙ subst (λ h. link_next t.links h item a ≡ t.links a) (sym v.tail)
          (link_next-same t.links xs item a (ground (arith, has-append a xs (item ∷ [])))),
)
  where
    head :
        (ys : List Ptr)
        → t.list.head ≡ first ys null
        → Distinct ys
        → (if t.list.head == null then item else t.list.head) ≡ first (ys ++ item ∷ []) null
    head [] e d = ground arith
    head (y ∷ ys) e d = ground arith

-- An empty list gives nothing and is left alone.
pub pop_front-nil : (t : State) → IsList t [] → pop_front t ≡ (none, t)
unfolding pop_front
pop_front-nil t v = rw v.head

drop_front-IsList :
    (t : State) (x : Ptr) (xs : List Ptr)
    → IsList t (x ∷ xs)
    → IsList (drop_front t) xs × SameOutside xs t.links (drop_front t).links
unfolding drop_front
drop_front-IsList t x xs v =
    let rest : (t.links t.list.head).next ≡ first xs null = rw v.head v.chain.1 in
    (
      record {
        chain =
            subst (λ h. Links (link_prev t.links h null) null xs null) (sym rest)
              (link_prev-Links t.links x null xs v.distinct.2 v.chain.2);
        distinct = v.distinct.2;
        head = rest;
        tail = rw (rest, v.tail, v.head) (tail xs v.distinct.2);
        size = omega (arith, v.size);
      },
      λ a o.
          subst (λ h. link_prev t.links h null a ≡ t.links a) (sym rest)
            (link_prev-same t.links xs null a o),
    )
  where
    tail :
        (ys : List Ptr)
        → Distinct ys
        → (if first ys null == null
            then (if final x ys == x then null else final x ys)
            else final x ys)
          ≡ final null ys
    tail [] d = rw (==_refl x)
    tail (y ∷ ys) d = or_else-ne y _ _ d.0

pop_front-ne : (t : State) → t.list.head ≢ null → pop_front t ≡ (some t.list.head, drop_front t)
unfolding pop_front
pop_front-ne t h = or_else-ne t.list.head _ _ h

-- The front item leaves, and only the links of the items that stay are written.
pub pop_front-IsList :
    (t : State) (x : Ptr) (xs : List Ptr)
    → IsList t (x ∷ xs)
    → ((pop_front t).0 ≡ some x)
      × IsList (pop_front t).1 xs
      × SameOutside xs t.links (pop_front t).1.links
pop_front-IsList t x xs v =
    subst
      (λ (r : Option Ptr × State).
        (r.0 ≡ some x) × IsList r.1 xs × SameOutside xs t.links r.1.links)
      (sym popped) (ap some v.head, (drop_front-IsList t x xs v).0, (drop_front-IsList t x xs v).1)
  where
    popped : pop_front t ≡ (some t.list.head, drop_front t)
    popped = pop_front-ne t (λ e. v.distinct.0 (sym v.head ∙ e))
