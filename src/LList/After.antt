-- ===== src/LList/After.antt =====
-- `insert_after`.
use uberos.Prelude.{
  ◌≡◌, ◌≢◌, List, [], ◌∷◌, ◌++◌, false, arith, has, sym, subst, ◌∙◌, ap, has-cons_out, has-cons_ne,
  has-append_out, length-append, add32, if◌then◌else◌, ◌==◌,
}
use uberos.LList.{Ptr, null, LListItem, Store, State, set_next, set_prev, link_prev, insert_after}
use uberos.LList.Links.{
  Links, first, final, IsList, SameOutside, Distinct, Disjoint, Links-frame, Links-append,
  Links-split, final-append, first-append, set_next_self, set_next-prev, set_next-ne, set_prev_self,
  set_prev-next, set_prev-ne, ne_of_has, or_else-ne, Distinct-append, Distinct-split,
  link_prev-Links, link_prev-same,
}

-- An item that is let in behind another, the writes in the order of `insert_after`.
abbrev enter_after : Store → Ptr → Ptr → Ptr → Store
enter_after s before item q = set_next (set_next (set_prev s item before) item q) before item

enter_after-ne :
    (s : Store) (before item q a : Ptr)
    → a ≢ item
    → a ≢ before
    → enter_after s before item q a ≡ s a
enter_after-ne s before item q a h k =
    set_next-ne _ before item a k ∙ set_next-ne _ item q a h ∙ set_prev-ne s item before a h

-- The links of `before` and of the new item.
enter_after-before :
    (s : Store) (before item q : Ptr)
    → item ≢ before
    → ((enter_after s before item q before).prev ≡ (s before).prev)
      × ((enter_after s before item q before).next ≡ item)
enter_after-before s before item q ne = (
  set_next-prev _ before item before
      ∙ set_next-prev _ item q before
      ∙ ap (λ (l : LListItem). l.prev) (set_prev-ne s item before before (λ e. ne (sym e))),
  set_next_self _ before item,
)

enter_after-item :
    (s : Store) (before item q : Ptr)
    → item ≢ before
    → ((enter_after s before item q item).prev ≡ before)
      × ((enter_after s before item q item).next ≡ q)
enter_after-item s before item q ne = (
  set_next-prev _ before item item ∙ set_next-prev _ item q item ∙ set_prev_self s item before,
  ap (λ (l : LListItem). l.next) (set_next-ne _ before item item ne) ∙ set_next_self _ item q,
)

-- `insert_after` with its reads of the links resolved.
inserted : Ptr → Ptr → Ptr → State → State
inserted before item q t = record {
  links = link_prev (enter_after t.links before item q) q item;
  list = record {
    head = t.list.head;
    tail = if q == null then item else t.list.tail;
    size = add32 t.list.size 1;
  };
}

insert_after-inserted :
    (before item q : Ptr) (t : State)
    → item ≢ before
    → (t.links before).next ≡ q
    → insert_after before item t ≡ inserted before item q t
unfolding insert_after inserted
insert_after-inserted before item q t ne e = rw (
  set_prev-next t.links item before before,
  e,
  set_next-ne (set_next (set_prev t.links item before) item q) before item item ne,
  set_next_self (set_prev t.links item before) item q,
)

-- `insert_after` puts a new item behind one of the list, and writes no link but theirs.
pub insert_after-IsList :
    (t : State) (xs : List Ptr) (before item : Ptr) (ys : List Ptr)
    → IsList t (xs ++ before ∷ ys)
    → item ≢ null
    → has item (xs ++ before ∷ ys) ≡ false
    → IsList (insert_after before item t) (xs ++ before ∷ item ∷ ys)
      × SameOutside (xs ++ before ∷ item ∷ ys) t.links (insert_after before item t).links
unfolding inserted
insert_after-IsList t xs before item ys v nn out =
    let split = Links-split t.links null xs (before ∷ ys) null v.chain in
    let parts = Distinct-split xs (before ∷ ys) v.distinct in
    let q = first ys null in
    let outs = has-append_out item xs (before ∷ ys) out in
    let out_ys = has-cons_out item before ys outs.1 in
    let s = enter_after t.links before item q in
    let same = link_prev-same s ys item in
    let at_before = enter_after-before t.links before item q out_ys.0 in
    let at_item = enter_after-item t.links before item q out_ys.0 in
    let kept : Links s before ys null =
      Links-frame t.links s before ys null
        (λ a m.
          enter_after-ne t.links before item q a (λ e. ne_of_has item a ys out_ys.1 m (sym e))
            (λ e. ne_of_has before a ys parts.1.1 m (sym e)))
        split.1.2 in
    let apart = apart_lem outs.0 parts.2 in
    subst
      (λ (t' : State).
        IsList t' (xs ++ before ∷ item ∷ ys)
        × SameOutside (xs ++ before ∷ item ∷ ys) t.links t'.links)
      (sym (insert_after-inserted before item q t out_ys.0 split.1.1))
      (
        record {
          chain =
              Links-append _ null xs (before ∷ item ∷ ys) null
                (Links-frame t.links _ null xs before
                  (λ a m.
                    let o = has-cons_out a before (item ∷ ys) (apart a m) in
                    let o1 = has-cons_out a item ys o.1 in
                    same a o1.1 ∙ enter_after-ne t.links before item q a o1.0 o.0)
                  split.0)
                (
                  ap (λ (l : LListItem). l.prev) (same before parts.1.1) ∙ at_before.0 ∙ split.1.0,
                  ap (λ (l : LListItem). l.next) (same before parts.1.1) ∙ at_before.1,
                  (
                    ap (λ (l : LListItem). l.prev) (same item out_ys.1) ∙ at_item.0,
                    ap (λ (l : LListItem). l.next) (same item out_ys.1) ∙ at_item.1,
                    link_prev-Links s before item ys parts.1.2 kept,
                  ),
                );
          distinct =
              Distinct-append xs (before ∷ item ∷ ys) parts.0
                (
                  parts.1.0,
                  has-cons_ne before item ys (λ e. out_ys.0 (sym e)) parts.1.1,
                  (nn, out_ys.1, parts.1.2),
                )
                apart;
          head =
              v.head
              ∙ first-append xs before ys null
              ∙ sym (first-append xs before (item ∷ ys) null);
          tail = rw (v.tail, final-append null xs before ys) (tail ys parts.1.2);
          size = omega (
            arith,
            v.size,
            length-append xs (before ∷ ys),
            length-append xs (before ∷ item ∷ ys),
          );
        },
        λ a o.
            let os = has-append_out a xs (before ∷ item ∷ ys) o in
            let o1 = has-cons_out a before (item ∷ ys) os.1 in
            let o2 = has-cons_out a item ys o1.1 in
            same a o2.1 ∙ enter_after-ne t.links before item q a o2.0 o1.0,
      )
  where
    apart_lem : has item xs ≡ false → Disjoint xs (before ∷ ys) → Disjoint xs (before ∷ item ∷ ys)
    apart_lem o apart a m =
        let r = has-cons_out a before ys (apart a m) in
        has-cons_ne a before (item ∷ ys) r.0
          (has-cons_ne a item ys (λ e. ne_of_has item a xs o m (sym e)) r.1)

    tail :
        (zs : List Ptr)
        → Distinct zs
        → (if first zs null == null then item else final before zs)
          ≡ final null (xs ++ before ∷ item ∷ zs)
    tail [] d = sym (final-append null xs before (item ∷ []))
    tail (z ∷ zs) d = or_else-ne z _ _ d.0 ∙ sym (final-append null xs before (item ∷ z ∷ zs))
