-- ===== src/SList/Remove.antt =====
-- slist_remove.
use datatypes.Base.{
  ℕ, zero, suc, ◌+◌, ◌-◌, ◌<◌, ◌≡◌, refl, sym, ap, ◌∙◌, ◌≢◌, inl, inr, true, false, none, some, [],
  ◌∷◌, ◌++◌, append-nil, arith, ◌==◌, if◌then◌else◌, Bool-cases, ok, Returns, length, length-append,
}
use datatypes.Callbacks.{Ptr, null, free_value}
use datatypes.SList.{
  Item, item, Heap, State, write, item_free, Slot, at_head, at_next, read_slot, write_slot,
  remove_found, remove_loop, remove,
}
use datatypes.SList.Chain.{
  Cells, first, last, has, Links, IsDistinct, IsList, Links-write, has-append, Links-append, relink,
  relink_outside, Links-relink, Links-frame, load-ok, release-ok, set_next-relink,
  Links-append_parts, IsDistinct-append_parts, apart, IsDistinct-erase, last-append_cons,
}

-- the slot and the tail that the loop has reached behind the cells
abbrev slot_behind : Slot → Cells → Slot
slot_behind slot [] = slot
slot_behind slot (c ∷ cs) = slot_behind (at_next c.0) cs

abbrev tail_behind : Ptr → Cells → Ptr
tail_behind tail [] = tail
tail_behind tail (c ∷ cs) = tail_behind c.0 cs

slot_behind-last :
    (c : Ptr × Ptr) (cs : Cells) (slot : Slot) → slot_behind slot (c ∷ cs) ≡ at_next (last (c ∷ cs))
slot_behind-last c [] slot = refl
slot_behind-last c (d ∷ cs) slot = slot_behind-last d cs (at_next c.0)

tail_behind-last : (cs : Cells) → tail_behind null cs ≡ last cs
tail_behind-last [] = refl
tail_behind-last (c ∷ []) = refl
tail_behind-last (c ∷ d ∷ cs) = tail_behind-last (d ∷ cs)

-- the loop walks to the item without a change
remove_loop_walk :
    (st : State) (mid : Cells) (c : Ptr × Ptr) (back : Cells) (fuel : ℕ) (slot : Slot) (tail : Ptr)
    → Links st.heap (mid ++ c ∷ back) null
    → has c.0 mid ≡ false
    → read_slot slot st ≡ ok (first (mid ++ c ∷ back) null, st)
    → length mid < fuel
    → remove_loop fuel c.0 slot tail st
      ≡ remove_found c.0 (slot_behind slot mid) (tail_behind tail mid) st
unfolding remove_loop
remove_loop_walk st mid c back zero slot tail l out reads h = absurd (omega arith)
remove_loop_walk st [] c back (suc fuel) slot tail l out reads h =
    let ne : (c.0 == null) ≡ false = ground (arith, l.0) in
    let same : (c.0 == c.0) ≡ true = ground arith in rw (reads, ne, same)
remove_loop_walk st (m ∷ mid) c back (suc fuel) slot tail l out reads h =
    let ne : (m.0 == null) ≡ false = ground (arith, l.0) in
    let other : (m.0 == c.0) ≡ false = ground arith in
    let rest : read_slot (at_next m.0) st ≡ ok (first (mid ++ c ∷ back) null, st) =
      unfold read_slot in rw (load-ok st m.0 _ l.0 l.1) in
    rw (reads, ne, other)
      (remove_loop_walk st mid c back fuel (at_next m.0) m.0 l.2 (ground arith) rest (omega arith))

abbrev new_head : Ptr → Cells → Ptr → Ptr
new_head old [] q = q
new_head old (c ∷ cs) q = old

-- the state behind slist_remove of the cell between `mid` and `back`
abbrev removed : State → Cells → Ptr × Ptr → Cells → State
removed st mid c back =
    let q = first back null in
    record {
      list = record {
        head = new_head st.list.head mid q;
        tail = if q == null then last mid else st.list.tail;
        count = st.list.count - 1;
        frees = st.list.frees;
      };
      heap = write (relink st.heap mid q) c.0 none;
      freed = st.freed ++ free_value st.list.frees c.1;
    }

-- the write through the slot
write_slot-relink :
    (st : State) (mid : Cells) (end q : Ptr)
    → Links st.heap mid end
    → write_slot (slot_behind at_head mid) q st
      ≡ ok (
        tt,
        record st {
          list = record st.list { head = new_head st.list.head mid q };
          heap = relink st.heap mid q;
        },
      )
unfolding write_slot
write_slot-relink st [] end q l = refl
write_slot-relink st (m ∷ mid) end q l =
    rw (slot_behind-last m mid at_head, write_slot)
      (set_next-relink st (m ∷ mid) end q l (omega arith))

pub item_free-ok :
    (st : State) (p : Ptr) (i : Item)
    → p ≢ null
    → st.heap p ≡ some i
    → item_free p st
      ≡ ok (
        tt,
        record st {
          heap = write st.heap p none;
          freed = st.freed ++ free_value st.list.frees i.it_data;
        },
      )
unfolding item_free
item_free-ok st p i ne e = rw (load-ok st p i ne e, release-ok st p i ne e)

new_head-first :
    (mid : Cells) (c : Ptr × Ptr) (back : Cells) (old : Ptr)
    → old ≡ first (mid ++ c ∷ back) null
    → new_head old mid (first back null) ≡ first (mid ++ back) null
new_head-first [] c back old e = refl
new_head-first (m ∷ mid) c back old e = e

new_tail-last :
    (h : Heap) (mid : Cells) (c : Ptr × Ptr) (back : Cells) (old : Ptr)
    → Links h back null
    → old ≡ last (mid ++ c ∷ back)
    → (if first back null == null then last mid else old) ≡ last (mid ++ back)
new_tail-last h mid c [] old l e = sym (ap last (append-nil mid))
new_tail-last h mid c (b ∷ back) old l e =
    let ne : (b.0 == null) ≡ false = ground (arith, l.0) in
    rw ne (e ∙ last-append_cons mid c (b ∷ back) ∙ sym (last-append_cons mid b back))

module _ (st : State) (mid : Cells) (c : Ptr × Ptr) (back : Cells)
    (is : IsList st (mid ++ c ∷ back)) where
  front-Links : Links st.heap mid c.0
  front-Links = (Links-append_parts st.heap mid (c ∷ back) null is.links).0

  back-Links : Links st.heap (c ∷ back) null
  back-Links = (Links-append_parts st.heap mid (c ∷ back) null is.links).1

  parts : IsDistinct mid × IsDistinct (c ∷ back)
  parts = IsDistinct-append_parts mid (c ∷ back) is.distinct

  c_outside : has c.0 mid ≡ false
  c_outside = apart mid (c ∷ back) c.0 is.distinct (ground arith)

  remove_found-removed :
      remove_found c.0 (slot_behind at_head mid) (tail_behind null mid) st
      ≡ ok (tt, removed st mid c back)
  unfolding remove_found
  remove_found-removed =
      let q = first back null in
      let loaded = load-ok st c.0 (item c.1 q) back-Links.0 back-Links.1 in
      let still : relink st.heap mid q c.0 ≡ some (item c.1 q) =
        relink_outside st.heap mid q c.0 c_outside ∙ back-Links.1 in
      let with_tail : Ptr → State = λ t. record st { list = record st.list { tail = t } } in
      let relinked : Ptr → State = λ t. record st {
        list = record st.list { head = new_head st.list.head mid q; tail = t };
        heap = relink st.heap mid q;
      } in
      elim (Bool-cases (q == null)) [
        | inl end ↦ rw (
          loaded,
          end,
          tail_behind-last mid,
          write_slot-relink (with_tail (last mid)) mid c.0 q front-Links,
          item_free-ok (relinked (last mid)) c.0 (item c.1 q) back-Links.0 still,
        )
        | inr more ↦ rw (
          loaded,
          more,
          write_slot-relink st mid c.0 q front-Links,
          item_free-ok (relinked st.list.tail) c.0 (item c.1 q) back-Links.0 still,
        )
      ]

  removed-IsList : IsList (removed st mid c back) (mid ++ back)
  unfolding write
  removed-IsList =
      let q = first back null in
      let h = relink st.heap mid q in
      record {
        links =
            Links-append (write h c.0 none) mid back null
              (Links-write h mid q c.0 none (Links-relink st.heap mid c.0 q front-Links parts.0)
                c_outside)
              (Links-frame st.heap (write h c.0 none) back null back-Links.2 λ a i.
                let out = apart mid (c ∷ back) a is.distinct (ground arith) in
                let ne : (a == c.0) ≡ false = ground (arith, parts.1.0) in
                rw ne (relink_outside st.heap mid q a out));
        distinct = IsDistinct-erase mid c back is.distinct;
        head = new_head-first mid c back st.list.head is.head;
        tail = new_tail-last st.heap mid c back st.list.tail back-Links.2 is.tail;
        count = omega (arith, is.count, length-append mid (c ∷ back), length-append mid back);
      }

-- What slist_remove leaves: the other items in their order, the given one off the heap, its data
-- handed to the FreeFunc if there is one and the data is not NULL, and no write outside the list.
pub record Unlinks (mid : Cells) (c : Ptr × Ptr) (back : Cells) (st st' : State) : Type 0 where
  pub list : IsList st' (mid ++ back)
  pub gone : st'.heap c.0 ≡ none
  pub log : st'.freed ≡ st.freed ++ free_value st.list.frees c.1
  pub outside : (a : Ptr) → has a (mid ++ c ∷ back) ≡ false → st'.heap a ≡ st.heap a

-- Given an item of a well-formed list, slist_remove ends within its fuel and without a fault. It unlinks that
-- item alone, wherever it stands, and releases it.
pub remove-Unlinks :
    (st : State) (mid : Cells) (c : Ptr × Ptr) (back : Cells)
    → IsList st (mid ++ c ∷ back)
    → Returns (remove c.0 st) λ (_, st'). Unlinks mid c back st st'
unfolding remove write
remove-Unlinks st mid c back is =
    let start : read_slot at_head st ≡ ok (first (mid ++ c ∷ back) null, st) =
      unfold read_slot in ap (λ p. ok (p, st)) is.head in
    (
      (tt, removed st mid c back),
      remove_loop_walk st mid c back (st.list.count + 1) at_head null is.links
            (c_outside st mid c back is) start
            (omega (arith, is.count, length-append mid (c ∷ back)))
          ∙ remove_found-removed st mid c back is,
      record {
        list = removed-IsList st mid c back is;
        gone = ground arith;
        log = refl;
        outside = λ a out.
            let both = sym (has-append a mid (c ∷ back)) ∙ out in
            let ne : (a == c.0) ≡ false = ground (arith, both) in
            rw ne (relink_outside st.heap mid (first back null) a (ground (arith, both)));
      },
    )
