-- ===== src/DList/Remove.antt =====
-- list_remove.
use datatypes.Base.{
  ◌-◌, ◌≡◌, refl, sym, ap, ◌∙◌, inl, inr, true, false, none, some, [], ◌∷◌, ◌++◌, append-nil, arith,
  ◌==◌, if◌then◌else◌, Bool-cases, Returns, length-append,
}
use datatypes.Callbacks.{Ptr, null, free_value}
use datatypes.SList.Chain.{
  Cells, first, last, has, IsDistinct, has-append, IsDistinct-append_parts, apart, IsDistinct-erase,
  last-append_cons, first-append,
}
use datatypes.DList.{
  item, Heap, State, write, item_free, at_head, at_tail, at_next, at_prev, write_slot,
}
use datatypes.DList.Erase.{detach, remove}
use datatypes.DList.Chain.{Links, IsList, Links-write, write_same, write_other, load-ok}
use datatypes.DList.Ends.{not_null, apart_of, set_next-ok, set_prev-ok}
use datatypes.DList.Pop.{release-ok}
use datatypes.DList.Detach.{
  Part, last_or, Part-write, Links-parts, Links-of, last_in, Part-end, Links-start,
}

-- what a step leaves of the state, apart from some cells and the list's ends
abbrev Elsewhere : State → Cells → State → Type 0
Elsewhere st xs st' =
    ((a : Ptr) → has a xs ≡ false → st'.heap a ≡ st.heap a)
    × (st'.freed ≡ st.freed)
    × (st'.list.count ≡ st.list.count)
    × (st'.list.frees ≡ st.list.frees)

apart_head : (b : Ptr) (c : Ptr × Ptr) (cs : Cells) → has b (c ∷ cs) ≡ false → (b == c.0) ≡ false
apart_head b c cs e = ground (arith, e)

unlink_front :
    (st : State) (front : Cells) (p q : Ptr)
    → Part st.heap null front p
    → IsDistinct front
    → st.list.head ≡ first front p
    → Returns
        (write_slot
          (if last_or null front == null then at_head else at_next (last_or null front))
          q
          st)
        λ (_, st').
          Part st'.heap null front q
          × (st'.list.head ≡ first front q)
          × (st'.list.tail ≡ st.list.tail)
          × Elsewhere st front st'
unfolding write_slot
unlink_front st [] p q l dist head = (
  (tt, record st { list = record st.list { head = q } }),
  refl,
  (tt, refl, refl, (λ a e. refl, refl, refl, refl)),
)
unlink_front st (c ∷ cs) p q l dist head =
    let (i, some_a, there, relink) = Part-end st.heap null c cs p l dist in
    let a = last_or null (c ∷ cs) in
    let filled : (a == null) ≡ false = not_null a some_a in
    (
      (tt, record st { heap = write st.heap a (some (record i { next = q })) }),
      rw (filled, set_next-ok st a q i some_a there),
      (
        relink q,
        head,
        refl,
        (λ b e. write_other st.heap a b _ (last_in null c cs b e), refl, refl, refl),
      ),
    )

unlink_back :
    (st : State) (back : Cells) (p prev : Ptr)
    → Links st.heap p back
    → IsDistinct back
    → Returns
        (write_slot
          (if first back null == null then at_tail else at_prev (first back null))
          prev
          st)
        λ (_, st').
          Links st'.heap prev back
          × (st'.list.head ≡ st.list.head)
          × (st'.list.tail ≡ (elim back [ [] ↦ prev | c ∷ cs ↦ st.list.tail ]))
          × Elsewhere st back st'
unfolding write_slot
unlink_back st [] p prev l dist = (
  (tt, record st { list = record st.list { tail = prev } }),
  refl,
  (tt, refl, refl, (λ a e. refl, refl, refl, refl)),
)
unlink_back st (c ∷ cs) p prev l dist =
    let filled : (c.0 == null) ≡ false = not_null c.0 l.0 in
    (
      (tt, record st { heap = write st.heap c.0 (some (item c.1 (first cs null) prev)) }),
      rw (filled, set_prev-ok st c.0 prev (item c.1 (first cs null) p) l.0 l.1),
      (
        Links-start st.heap p c cs prev l dist.0,
        refl,
        refl,
        (λ b e. write_other st.heap c.0 b _ (apart_head b c cs e), refl, refl, refl),
      ),
    )

Links-same :
    (h h' : Heap) (prev : Ptr) (xs : Cells)
    → ((a : Ptr) → has a xs ≡ true → h' a ≡ h a)
    → Links h prev xs
    → Links h' prev xs
Links-same h h' prev [] f l = tt
Links-same h h' prev (x ∷ xs) f l =
    (l.0, f x.0 (ground arith) ∙ l.1, Links-same h h' x.0 xs (λ a e. f a (ground (arith, e))) l.2)

Part-same :
    (h h' : Heap) (prev : Ptr) (xs : Cells) (end : Ptr)
    → ((a : Ptr) → has a xs ≡ true → h' a ≡ h a)
    → Part h prev xs end
    → Part h' prev xs end
Part-same h h' prev [] end f l = tt
Part-same h h' prev (x ∷ xs) end f l = (
  l.0,
  f x.0 (ground arith) ∙ l.1,
  Part-same h h' x.0 xs end (λ a e. f a (ground (arith, e))) l.2,
)

last_or-last : (xs : Cells) → last_or null xs ≡ last xs
last_or-last [] = refl
last_or-last (c ∷ []) = refl
last_or-last (c ∷ d ∷ cs) = last_or-last (d ∷ cs)

-- the tail of the list without the cell
new_tail :
    (front : Cells) (c : Ptr × Ptr) (back : Cells) (tail : Ptr)
    → tail ≡ last (front ++ c ∷ back)
    → (elim back as (λ _. Ptr) [ [] ↦ last_or null front | e ∷ es ↦ tail ]) ≡ last (front ++ back)
new_tail front c [] tail e = last_or-last front ∙ ap last (sym (append-nil front))
new_tail front c (d ∷ ds) tail e =
    e ∙ last-append_cons front c (d ∷ ds) ∙ sym (last-append_cons front d ds)

-- what list_remove leaves
abbrev pub Unlinked : State → Cells → Ptr × Ptr → Cells → State → Type 0
Unlinked st front c back st' =
    IsList st' (front ++ back)
    × (st'.heap c.0 ≡ none)
    × (st'.freed ≡ st.freed ++ free_value st.list.frees c.1)
    × ((a : Ptr) → has a (front ++ c ∷ back) ≡ false → st'.heap a ≡ st.heap a)

other_part : (xs ys : Cells) (a : Ptr) → IsDistinct (xs ++ ys) → has a xs ≡ true → has a ys ≡ false
other_part xs ys a d e = elim (Bool-cases (has a ys)) [
  | inl there ↦ absurd (ground (arith, apart xs ys a d there, e))
  | inr missing ↦ missing
]

outside_parts :
    (front : Cells) (c : Ptr × Ptr) (back : Cells) (a : Ptr)
    → has a (front ++ c ∷ back) ≡ false
    → (has a front ≡ false) × ((a == c.0) ≡ false) × (has a back ≡ false)
outside_parts front c back a e =
    let split = sym (has-append a front (c ∷ back)) ∙ e in
    (ground (arith, split), ground (arith, split), ground (arith, split))

-- Given an item of a well-formed list, list_remove unlinks that item alone, wherever it stands and
-- without a walk, releases it, and hands its data to the callback, if it is not NULL. The rest of the
-- list is well-formed, and the heap outside the list is as before.
pub remove-Unlinked :
    (st : State) (front : Cells) (c : Ptr × Ptr) (back : Cells)
    → IsList st (front ++ c ∷ back)
    → Returns (remove c.0 st) λ (_, st'). Unlinked st front c back st'
unfolding remove detach item_free
remove-Unlinked st front c back is =
    let p = c.0 in
    let q = first back null in
    let prev = last_or null front in
    let (part, rest) = Links-parts st.heap null front (c ∷ back) is.links in
    let (front_distinct, back_distinct) = IsDistinct-append_parts front (c ∷ back) is.distinct in
    let out_of_front : has p front ≡ false = apart front (c ∷ back) p is.distinct (ground arith) in
    let i = item c.1 q prev in
    let loaded = load-ok st p i rest.0 rest.1 in
    let ((_, st1), run1, (part1, head1, tail1, (same1, freed1, count1, frees1))) =
      unlink_front st front p q part front_distinct
        (is.head ∙ first-append front (c ∷ back) null) in
    let back1 =
      Links-same st.heap st1.heap p back
        (λ a e. same1 a (apart front (c ∷ back) a is.distinct (ground (arith, e)))) rest.2 in
    let ((_, st2), run2, (back2, head2, tail2, (same2, freed2, count2, frees2))) =
      unlink_back st1 back p prev back1 back_distinct.1 in
    let part2 =
      Part-same st1.heap st2.heap null front q
        (λ a e.
          same2 a ((apart_of a p (has a back) (other_part front (c ∷ back) a is.distinct e)).1))
        part1 in
    let there : st2.heap p ≡ some i = same2 p back_distinct.0 ∙ same1 p out_of_front ∙ rest.1 in
    let loaded2 = load-ok st2 p i rest.0 there in
    let gone = release-ok st2 p i rest.0 there in
    (
      (
        tt,
        record st2 {
          list = record st2.list { count = st2.list.count - 1 };
          heap = write st2.heap p none;
          freed = st2.freed ++ free_value st2.list.frees c.1;
        },
      ),
      rw (loaded, run1, run2, loaded2, gone),
      (
        record {
          links =
              Links-of (write st2.heap p none) null front back
                (Part-write st2.heap null front q p none part2 out_of_front)
                (Links-write st2.heap prev back p none back2 back_distinct.0);
          distinct = IsDistinct-erase front c back is.distinct;
          head = head2 ∙ head1 ∙ sym (first-append front back null);
          tail = tail2 ∙ new_tail front c back st1.list.tail (tail1 ∙ is.tail);
          count = omega (
            arith,
            is.count,
            count1,
            count2,
            length-append front (c ∷ back),
            length-append front back,
          );
        },
        write_same st2.heap p none,
        rw (freed2, freed1, frees2, frees1),
        λ a e.
            let (not_front, not_p, not_back) = outside_parts front c back a e in
            write_other st2.heap p a none not_p ∙ same2 a not_back ∙ same1 a not_front,
      ),
    )
