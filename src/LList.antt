-- ===== src/LList.antt =====
-- common/LList.hpp: the intrusive doubly linked list. The links of every item live in a store
-- indexed by address; a list is its `head`, `tail` and `size`; each method maps both.
pub mod Links
pub mod Ends
pub mod Middle
pub mod After
pub mod Walk
pub mod Refinement
use uberos.Prelude.{
  ℕ, zero, suc, Option, none, some, Bool, true, false, ◌==◌, if◌then◌else◌, add32, sub32,
}

abbrev pub Ptr : Type 0
Ptr = ℕ

abbrev pub null : Ptr
null = 0

-- `LListItem`
pub record LListItem : Type 0 where
  pub next : Ptr
  pub prev : Ptr

abbrev pub Store : Type 0
Store = Ptr → LListItem

pub record LList : Type 0 where
  pub head : Ptr
  pub tail : Ptr
  pub size : ℕ

-- A list together with the links of all items.
pub record State : Type 0 where
  pub links : Store
  pub list : LList

abbrev pub empty : LList
empty = record { head = null; tail = null; size = 0 }

-- `p->next = q`
pub set_next : Store → Ptr → Ptr → Store
set_next s p q a = if a == p then record (s a) { next = q } else s a

-- `p->prev = q`
pub set_prev : Store → Ptr → Ptr → Store
set_prev s p q a = if a == p then record (s a) { prev = q } else s a

-- `if(p) p->next = q`
pub link_next : Store → Ptr → Ptr → Store
unfolding set_next
link_next s p q = if p == null then s else set_next s p q

-- `if(p) p->prev = q`
pub link_prev : Store → Ptr → Ptr → Store
unfolding set_prev
link_prev s p q = if p == null then s else set_prev s p q

pub push_front : Ptr → State → State
push_front item t =
    let l = t.list in
    let linked = link_prev t.links l.head item in
    record {
      links = set_next (set_prev linked item null) item l.head;
      list = record {
        head = item;
        tail = if l.tail == null then item else l.tail;
        size = add32 l.size 1;
      };
    }

pub push_back : Ptr → State → State
push_back item t =
    let l = t.list in
    let linked = link_next t.links l.tail item in
    record {
      links = set_next (set_prev linked item l.tail) item null;
      list = record {
        head = if l.head == null then item else l.head;
        tail = item;
        size = add32 l.size 1;
      };
    }

-- `pop_front` of a list that has a head.
pub drop_front : State → State
drop_front t =
    let l = t.list in
    let rest = (t.links l.head).next in
    record {
      links = link_prev t.links rest null;
      list = record {
        head = rest;
        tail = if rest == null then (if l.tail == l.head then null else l.tail) else l.tail;
        size = sub32 l.size 1;
      };
    }

pub pop_front : State → Option Ptr × State
pop_front t = if t.list.head == null then (none, t) else (some t.list.head, drop_front t)

-- `pop(Type &item)`
pub pop : Ptr → State → State
pop item t =
    let l = t.list in
    let before = (t.links item).prev in
    let after = (t.links item).next in
    let s = link_next t.links before after in
    let after' = (s item).next in
    record {
      links = link_prev s after' (s item).prev;
      list = record {
        head = if before == null then after else l.head;
        tail = if after' == null then (s item).prev else l.tail;
        size = sub32 l.size 1;
      };
    }

-- `insert_before(after, item)`
pub insert_before : Ptr → Ptr → State → State
insert_before after item t =
    let l = t.list in
    let s = set_next t.links item after in
    let s = set_prev s item (s after).prev in
    let s = set_prev s after item in
    let before = (s item).prev in
    record {
      links = link_next s before item;
      list = record {
        head = if before == null then item else l.head;
        tail = l.tail;
        size = add32 l.size 1;
      };
    }

-- `insert_after(before, item)`
pub insert_after : Ptr → Ptr → State → State
insert_after before item t =
    let l = t.list in
    let s = set_prev t.links item before in
    let s = set_next s item (s before).next in
    let s = set_next s before item in
    let after = (s item).next in
    record {
      links = link_prev s after item;
      list = record {
        head = l.head;
        tail = if after == null then item else l.tail;
        size = add32 l.size 1;
      };
    }

-- The loop of `contains`, on fuel; `none` means that the fuel ran out.
contains_loop : ℕ → Store → Ptr → Ptr → Option Bool
contains_loop zero s object item = none
contains_loop (suc k) s object item =
    let rest = contains_loop k s object (s item).next in
    if item == null then some false else if item == object then some true else rest

pub contains : ℕ → Ptr → State → Option Bool
unfolding contains_loop
contains fuel object t = contains_loop fuel t.links object t.list.head

-- The loop of `length`, on fuel.
length_loop : ℕ → Store → Ptr → ℕ → Option ℕ
length_loop zero s item count = none
length_loop (suc k) s item count =
    let rest = length_loop k s (s item).next (add32 count 1) in
    if item == null then some count else rest

pub length : ℕ → State → Option ℕ
unfolding length_loop
length fuel t = length_loop fuel t.links t.list.head 0
