-- ===== src/LList/Middle.antt =====
-- Items that enter and leave anywhere (`pop`, `insert_before`, `insert_after`).
use uberos.Prelude.{
  ◌≡◌, ◌≢◌, refl, List, [], ◌∷◌, ◌++◌, false, arith, has, sym, subst, ◌∙◌, ap, has-append,
  has-cons_out, has-cons_ne, has-append_out, length-append, sub32, add32, if◌then◌else◌, ◌==◌,
}
use mathlib.Core.List.{append-nil}
use uberos.LList.{
  Ptr, null, LListItem, Store, State, set_next, set_prev, link_next, link_prev, pop, insert_before,
}
use uberos.LList.Links.{
  Links, first, final, IsList, SameOutside, Distinct, Disjoint, Links-frame, Links-append,
  Links-split, final-append, set_next_self, set_next-prev, set_next-ne, set_prev_self,
  set_prev-next, set_prev-ne, ne_of_has, or_else-ne, Disjoint-symm, Distinct-append, Distinct-split,
  final-ne_null, link_next-Links, link_prev-Links, link_next-same, link_prev-same,
}

-- Two sequences are joined by linking the last item of one to the first of the other.
join-Links :
    (s : Store) (xs ys : List Ptr) (before after : Ptr)
    → Distinct xs
    → Distinct ys
    → Disjoint xs ys
    → Links s null xs after
    → Links s before ys null
    → Links
        (link_prev (link_next s (final null xs) (first ys null)) (first ys null) (final null xs))
        null
        (xs ++ ys)
        null
join-Links s xs ys before after d e apart h k =
    let p = final null xs in
    let q = first ys null in
    let s1 = link_next s p q in
    Links-append _ null xs ys null
      (Links-frame s1 _ null xs q (λ a m. link_prev-same s1 ys p a (apart a m))
        (link_next-Links s xs after q d h))
      (link_prev-Links s1 before p ys e (
        Links-frame s s1 before ys null
          (λ a m. link_next-same s xs q a (Disjoint-symm xs ys apart a m)) k))

-- `pop` of an item that stands between `xs` and `ys`, with its reads of the links resolved.
popped : Ptr → Ptr → State → State
popped p q t = record {
  links = link_prev (link_next t.links p q) q p;
  list = record {
    head = if p == null then q else t.list.head;
    tail = if q == null then p else t.list.tail;
    size = sub32 t.list.size 1;
  };
}

pop-popped :
    (item p q : Ptr) (t : State)
    → (t.links item).prev ≡ p
    → (t.links item).next ≡ q
    → link_next t.links p q item ≡ t.links item
    → pop item t ≡ popped p q t
unfolding pop popped
pop-popped item p q t e f same = rw (e, f, same, e, f)

-- `pop` takes an item out of a list wherever it stands: the others keep their order, and no link
-- but theirs is written.
pub pop-IsList :
    (t : State) (xs : List Ptr) (item : Ptr) (ys : List Ptr)
    → IsList t (xs ++ item ∷ ys)
    → IsList (pop item t) (xs ++ ys) × SameOutside (xs ++ ys) t.links (pop item t).links
unfolding popped
pop-IsList t xs item ys v =
    let split = Links-split t.links null xs (item ∷ ys) null v.chain in
    let parts = Distinct-split xs (item ∷ ys) v.distinct in
    let out : has item xs ≡ false = Disjoint-symm xs (item ∷ ys) parts.2 item (ground arith) in
    let apart : Disjoint xs ys = λ a m. ground (arith, parts.2 a m) in
    let p = final null xs in
    let q = first ys null in
    subst (λ (t' : State). IsList t' (xs ++ ys) × SameOutside (xs ++ ys) t.links t'.links)
      (sym (pop-popped item p q t split.1.0 split.1.1 (link_next-same t.links xs q item out)))
      (
        record {
          chain = join-Links t.links xs ys item item parts.0 parts.1.2 apart split.0 split.1.2;
          distinct = Distinct-append xs ys parts.0 parts.1.2 apart;
          head = rw v.head (head xs parts.0);
          tail = rw (v.tail, final-append null xs item ys) (tail ys parts.1.2);
          size = omega (arith, v.size, length-append xs (item ∷ ys), length-append xs ys);
        },
        λ a o.
            link_prev-same _ ys p a (ground (arith, has-append a xs ys))
            ∙ link_next-same t.links xs q a (ground (arith, has-append a xs ys)),
      )
  where
    head :
        (zs : List Ptr)
        → Distinct zs
        → (if final null zs == null then first ys null else first (zs ++ item ∷ ys) null)
          ≡ first (zs ++ ys) null
    head [] d = refl
    head (z ∷ zs) d = or_else-ne _ _ _ (final-ne_null z zs d)

    tail :
        (zs : List Ptr)
        → Distinct zs
        → (if first zs null == null then final null xs else final item zs) ≡ final null (xs ++ zs)
    tail [] d = ap (final null) (sym (append-nil xs))
    tail (z ∷ zs) d = or_else-ne z _ _ d.0 ∙ sym (final-append null xs z zs)

-- An item that is let in between two neighbours, the writes in the order of `insert_before`.
abbrev enter_before : Store → Ptr → Ptr → Ptr → Store
enter_before s p item after = set_prev (set_prev (set_next s item after) item p) after item

enter_before-ne :
    (s : Store) (p item after a : Ptr) → a ≢ item → a ≢ after → enter_before s p item after a ≡ s a
enter_before-ne s p item after a h k =
    set_prev-ne _ after item a k ∙ set_prev-ne _ item p a h ∙ set_next-ne s item after a h

enter_before-Links :
    (s : Store) (p item after : Ptr) (ys : List Ptr)
    → item ≢ after
    → Distinct (after ∷ ys)
    → has item ys ≡ false
    → Links s p (after ∷ ys) null
    → Links (enter_before s p item after) p (item ∷ after ∷ ys) null
enter_before-Links s p item after ys ne d out h = (
  ap (λ (l : LListItem). l.prev) (set_prev-ne _ after item item ne) ∙ set_prev_self _ item p,
  set_prev-next _ after item item ∙ set_prev-next _ item p item ∙ set_next_self s item after,
  (
    set_prev_self _ after item,
    set_prev-next _ after item after
        ∙ set_prev-next _ item p after
        ∙ ap (λ (l : LListItem). l.next) (set_next-ne s item after after (λ e. ne (sym e)))
        ∙ h.1,
    Links-frame s _ after ys null
        (λ a m.
          enter_before-ne s p item after a (λ e. ne_of_has item a ys out m (sym e))
            (λ e. ne_of_has after a ys d.1 m (sym e)))
        h.2,
  ),
)

-- `insert_before` with its reads of the links resolved.
inserted : Ptr → Ptr → Ptr → State → State
inserted p after item t = record {
  links = link_next (enter_before t.links p item after) p item;
  list = record {
    head = if p == null then item else t.list.head;
    tail = t.list.tail;
    size = add32 t.list.size 1;
  };
}

insert_before-inserted :
    (after item p : Ptr) (t : State)
    → item ≢ after
    → (t.links after).prev ≡ p
    → insert_before after item t ≡ inserted p after item t
unfolding insert_before inserted
insert_before-inserted after item p t ne e = rw (
  set_next-prev t.links item after after,
  e,
  set_prev-ne (set_prev (set_next t.links item after) item p) after item item ne,
  set_prev_self (set_next t.links item after) item p,
)

-- `insert_before` puts a new item in front of one of the list, and writes no link but theirs.
pub insert_before-IsList :
    (t : State) (xs : List Ptr) (after item : Ptr) (ys : List Ptr)
    → IsList t (xs ++ after ∷ ys)
    → item ≢ null
    → has item (xs ++ after ∷ ys) ≡ false
    → IsList (insert_before after item t) (xs ++ item ∷ after ∷ ys)
      × SameOutside (xs ++ item ∷ after ∷ ys) t.links (insert_before after item t).links
unfolding inserted
insert_before-IsList t xs after item ys v nn out =
    let split = Links-split t.links null xs (after ∷ ys) null v.chain in
    let parts = Distinct-split xs (after ∷ ys) v.distinct in
    let p = final null xs in
    let outs = has-append_out item xs (after ∷ ys) out in
    let out_ys = has-cons_out item after ys outs.1 in
    let apart = apart_lem outs.0 parts.2 in
    let s = enter_before t.links p item after in
    let kept : Links s null xs after =
      Links-frame t.links s null xs after
        (λ a m.
          let o = has-cons_out a item (after ∷ ys) (apart a m) in
          enter_before-ne t.links p item after a o.0 (has-cons_out a after ys o.1).0)
        split.0 in
    subst
      (λ (t' : State).
        IsList t' (xs ++ item ∷ after ∷ ys)
        × SameOutside (xs ++ item ∷ after ∷ ys) t.links t'.links)
      (sym (insert_before-inserted after item p t out_ys.0 split.1.0))
      (
        record {
          chain =
              Links-append _ null xs (item ∷ after ∷ ys) null
                (link_next-Links s xs after item parts.0 kept)
                (Links-frame s _ p (item ∷ after ∷ ys) null
                  (λ a m.
                    link_next-same s xs item a (Disjoint-symm xs (item ∷ after ∷ ys) apart a m))
                  (enter_before-Links t.links p item after ys out_ys.0 parts.1 out_ys.1 split.1));
          distinct = Distinct-append xs (item ∷ after ∷ ys) parts.0 (nn, outs.1, parts.1) apart;
          head = rw v.head (head xs parts.0);
          tail =
              v.tail ∙ final-append null xs after ys ∙ sym (final-append null xs item (after ∷ ys));
          size =
              omega (
                arith,
                v.size,
                length-append xs (after ∷ ys),
                length-append xs (item ∷ after ∷ ys),
              );
        },
        λ a o.
            let os = has-append_out a xs (item ∷ after ∷ ys) o in
            let o1 = has-cons_out a item (after ∷ ys) os.1 in
            link_next-same s xs item a os.0
            ∙ enter_before-ne t.links p item after a o1.0 (has-cons_out a after ys o1.1).0,
      )
  where
    apart_lem : has item xs ≡ false → Disjoint xs (after ∷ ys) → Disjoint xs (item ∷ after ∷ ys)
    apart_lem o apart a m =
        has-cons_ne a item (after ∷ ys) (λ e. ne_of_has item a xs o m (sym e)) (apart a m)

    head :
        (zs : List Ptr)
        → Distinct zs
        → (if final null zs == null then item else first (zs ++ after ∷ ys) null)
          ≡ first (zs ++ item ∷ after ∷ ys) null
    head [] d = refl
    head (z ∷ zs) d = or_else-ne _ _ _ (final-ne_null z zs d)
