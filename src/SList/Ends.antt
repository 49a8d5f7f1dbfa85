-- ===== src/SList/Ends.antt =====
-- slist_append, slist_prepend and slist_pop.
use datatypes.Base.{
  ◌+◌, ◌-◌, ◌<◌, ◌≡◌, refl, sym, ap, ◌∙◌, true, false, none, some, [], ◌∷◌, ◌++◌, arith, ok,
  Returns, ltb, ◌==◌, if◌then◌else◌, length, length-append, word,
}
use datatypes.Callbacks.{Ptr, null}
use datatypes.SList.{
  item, Heap, SList, State, write, load, set_next, release, item_new, append, prepend, pop,
}
use datatypes.SList.Chain.{
  Cells, first, last, has, Links, IsDistinct, IsList, IsFresh, Links-write, has_unused, has-append,
  Links-append, last-append, relink, relink_outside, Links-relink, load-ok, release-ok,
  set_next-relink, last-ne,
}

-- nothing else on the heap changes, no callback is called, and the list keeps its FreeFunc
pub record Leaves (xs : Cells) (st st' : State) : Type 0 where
  pub outside : (a : Ptr) → has a xs ≡ false → st'.heap a ≡ st.heap a
  pub freed : st'.freed ≡ st.freed
  pub frees : st'.list.frees ≡ st.list.frees

module _ {st : State} {xs : Cells} (is : IsList st xs) (fresh d : Ptr)
    (new : IsFresh st fresh) where
  unused : has fresh xs ≡ false
  unused = has_unused st.heap xs null fresh is.links new.1

  -- the heap with the new item behind the last one
  with_new : Heap
  with_new = write st.heap fresh (some (item d null))

  with_new-Links : Links with_new xs null
  unfolding with_new
  with_new-Links = Links-write st.heap xs null fresh _ is.links unused

  IsDistinct-append :
      (ys : Cells) → IsDistinct ys → has fresh ys ≡ false → IsDistinct (ys ++ (fresh, d) ∷ [])
  IsDistinct-append [] i out = (refl, tt)
  IsDistinct-append (y ∷ ys) i out =
      (has-append y.0 ys ((fresh, d) ∷ []) ∙ ground arith, IsDistinct-append ys i.1 (ground arith))

  appended :
      (l : SList)
      → l.head ≡ first (xs ++ (fresh, d) ∷ []) null
      → l.tail ≡ fresh
      → l.count ≡ length xs + 1
      → l.frees ≡ st.list.frees
      → let st' = record st { list = l; heap = relink with_new xs fresh } in
        IsList st' (xs ++ (fresh, d) ∷ []) × Leaves (xs ++ (fresh, d) ∷ []) st st'
  unfolding with_new write
  appended l head tail count frees = (
    record {
      links =
          Links-append (relink with_new xs fresh) xs ((fresh, d) ∷ []) null
            (Links-relink with_new xs null fresh with_new-Links is.distinct)
            (new.0, relink_outside with_new xs fresh fresh unused ∙ ground arith, tt);
      distinct = IsDistinct-append xs is.distinct unused;
      head = head;
      tail = tail ∙ sym (last-append xs (fresh, d));
      count = omega (arith, length-append xs ((fresh, d) ∷ []));
    },
    record {
      outside = λ a out.
          let apart = sym (has-append a xs ((fresh, d) ∷ [])) ∙ out in
          relink_outside with_new xs fresh a (ground (arith, apart)) ∙ ground (arith, apart);
      freed = refl;
      frees = frees;
    },
  )

-- what slist_append leaves
abbrev pub Appends : Cells → Ptr → Ptr → State → Ptr × State → Type 0
Appends xs fresh d st (p, st') =
    (p ≡ fresh) × IsList st' (xs ++ (fresh, d) ∷ []) × Leaves (xs ++ (fresh, d) ∷ []) st st'

-- On a well-formed list that is not full, given an address that is not in use, slist_append links a
-- new item behind the last one and returns it. It
-- writes to no other item and calls no callback.
pub append-Appends :
    (st : State) (xs : Cells)
    → IsList st xs
    → (fresh d : Ptr) → IsFresh st fresh
    → st.list.count < word - 1
    → Returns (append fresh d st) (Appends xs fresh d st)
unfolding append item_new with_new
append-Appends st [] is fresh d new room =
    let l = record st.list { head = fresh; tail = fresh; count = st.list.count + 1 } in
    let small : ltb st.list.count (word - 1) ≡ true = ground arith in
    let empty : (st.list.head == null) ≡ true = ground (arith, is.head) in
    let (list, rest) = appended is fresh d new l refl refl (omega (arith, is.count)) refl in
    (
      (fresh, record st { list = l; heap = with_new is fresh d new }),
      rw (small, empty),
      (refl, list, rest),
    )
append-Appends st (x ∷ xs) is fresh d new room =
    let l = record st.list { tail = fresh; count = st.list.count + 1 } in
    let st1 = record st { heap = with_new is fresh d new } in
    let small : ltb st.list.count (word - 1) ≡ true = ground arith in
    let filled : (st.list.head == null) ≡ false = ground (arith, is.head, is.links.0) in
    let linked : set_next st.list.tail fresh st1
        ≡ ok (tt, record st1 { heap = relink st1.heap (x ∷ xs) fresh }) =
      ap (λ t. set_next t fresh st1) is.tail
      ∙ set_next-relink st1 (x ∷ xs) null fresh (with_new-Links is fresh d new) (omega arith) in
    let (list, rest) = appended is fresh d new l is.head refl (omega (arith, is.count)) refl in
    (
      (fresh, record st { list = l; heap = relink (with_new is fresh d new) (x ∷ xs) fresh }),
      rw (small, filled, linked),
      (refl, list, rest),
    )

-- A full list stays as it is, and NULL is returned.
append_full :
    (st : State) (fresh d : Ptr) → st.list.count ≡ word - 1 → append fresh d st ≡ ok (null, st)
unfolding append
append_full st fresh d full =
    let big : ltb st.list.count (word - 1) ≡ false = ground arith in rw big

-- what slist_prepend leaves
abbrev pub Prepends : Cells → Ptr → Ptr → State → Ptr × State → Type 0
Prepends xs fresh d st (p, st') =
    (p ≡ fresh) × IsList st' ((fresh, d) ∷ xs) × Leaves ((fresh, d) ∷ []) st st'

prepend_tail :
    (h : Heap) (xs : Cells) (c : Ptr × Ptr) (t : Ptr)
    → Links h xs null
    → t ≡ last xs
    → (if t == null then c.0 else t) ≡ last (c ∷ xs)
prepend_tail h [] c t l e = ground arith
prepend_tail h (x ∷ xs) c t l e = let ne = last-ne h xs x null l in ground arith

-- On a well-formed list that is not full, given an address that is not in use, slist_prepend links a
-- new item in front of the others and returns it. It
-- writes to no other item and calls no callback.
pub prepend-Prepends :
    (st : State) (xs : Cells)
    → IsList st xs
    → (fresh d : Ptr) → IsFresh st fresh
    → st.list.count < word - 1
    → Returns (prepend fresh d st) (Prepends xs fresh d st)
unfolding prepend item_new write
prepend-Prepends st xs is fresh d new room =
    let st1 = record st { heap = write st.heap fresh (some (item d null)) } in
    let small : ltb st.list.count (word - 1) ≡ true = ground arith in
    let out = has_unused st.heap xs null fresh is.links new.1 in
    let linked =
      set_next-relink st1 ((fresh, d) ∷ []) null st.list.head (new.0, ground arith, tt)
        (omega arith) in
    let tail = if st.list.tail == null then fresh else st.list.tail in
    let l = record st.list { head = fresh; tail = tail; count = st.list.count + 1 } in
    let h = write st1.heap fresh (some (item d st.list.head)) in
    (
      (fresh, record st { list = l; heap = h }),
      rw (small, linked),
      (
        refl,
        record {
          links = (
            new.0,
            ground (arith, is.head),
            Links-write st1.heap xs null fresh _ (Links-write st.heap xs null fresh _ is.links out)
                out,
          );
          distinct = (out, is.distinct);
          head = refl;
          tail = prepend_tail st.heap xs (fresh, d) st.list.tail is.links is.tail;
          count = omega (arith, is.count);
        },
        record { outside = λ a o. ground arith; freed = refl; frees = refl },
      ),
    )

-- what slist_pop leaves of a list with a first item
abbrev pub Pops : Cells → Ptr × Ptr → State → Ptr × State → Type 0
Pops xs c st (d, st') = (d ≡ c.1) × IsList st' xs × (st'.heap c.0 ≡ none) × Leaves (c ∷ []) st st'

pop_tail :
    (h : Heap) (xs : Cells) (c : Ptr × Ptr) (t : Ptr)
    → Links h xs null
    → t ≡ last (c ∷ xs)
    → (if first xs null == null then null else t) ≡ last xs
pop_tail h [] c t l e = refl
pop_tail h (x ∷ xs) c t l e = ground (arith, l.0)

-- On a well-formed list with an item slist_pop unlinks and releases the first one and returns its data. It writes to no other item and
-- calls no callback.
pub pop-Pops :
    (st : State) (c : Ptr × Ptr) (xs : Cells) → IsList st (c ∷ xs) → Returns (pop st) (Pops xs c st)
unfolding pop write
pop-Pops st c xs is =
    let filled : (st.list.head == null) ≡ false = ground (arith, is.head, is.links.0) in
    let i = item (c.1) (first xs null) in
    let loaded : load st.list.head st ≡ ok (i, st) =
      ap (λ p. load p st) is.head ∙ load-ok st (c.0) i (is.links.0) (is.links.1) in
    let st1 = record st { heap = write st.heap (c.0) none } in
    let released : release st.list.head st ≡ ok (tt, st1) =
      ap (λ p. release p st) is.head ∙ release-ok st (c.0) i (is.links.0) (is.links.1) in
    let tail = if first xs null == null then null else st.list.tail in
    let l = record st.list { head = first xs null; tail = tail; count = st.list.count - 1 } in
    (
      (c.1, record st1 { list = l }),
      rw (filled, loaded, released),
      (
        refl,
        record {
          links = Links-write st.heap xs null (c.0) none (is.links.2) (is.distinct.0);
          distinct = is.distinct.1;
          head = refl;
          tail = pop_tail st.heap xs c st.list.tail (is.links.2) is.tail;
          count = omega (arith, is.count);
        },
        ground arith,
        record { outside = λ a o. ground arith; freed = refl; frees = refl },
      ),
    )

-- slist_pop of an empty list returns NULL and changes nothing.
pub pop_empty : (st : State) → IsList st [] → pop st ≡ ok (null, st)
unfolding pop
pop_empty st is = let empty : (st.list.head == null) ≡ true = ground (arith, is.head) in rw empty
