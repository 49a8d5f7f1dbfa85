-- ===== src/SList/Walk.antt =====
-- slist_find and slist_clear.
use datatypes.Base.{
  ℕ, zero, suc, ◌+◌, ◌<◌, compare, ◌≡◌, refl, sym, ap, ◌∙◌, inl, inr, Bool, true, false, none, List,
  [], ◌∷◌, ◌++◌, append-nil, append_assoc, arith, ◌==◌, if◌then◌else◌, Bool-cases, ok, Returns,
  length, length-append,
}
use datatypes.Callbacks.{Ptr, null, CompareFunc, Ordering-cases, by_sign, Freed, free_value}
use datatypes.SList.{item, Heap, State, write, find_loop, find, free_loop, free, clear}
use datatypes.SList.Chain.{
  Cells, first, has, Links, IsDistinct, IsList, Links-append_parts, Links-write, load-ok,
}
use datatypes.SList.Remove.{item_free-ok}

-- the first cell whose data compares equal, NULL if there is none
unfoldable pub find_cell : CompareFunc → Ptr → Cells → Ptr
find_cell compare d [] = null
find_cell compare d (c ∷ cs) =
    by_sign (compare c.1 d) (find_cell compare d cs) c.0 (find_cell compare d cs)

find_loop-find_cell :
    (compare : CompareFunc) (st : State) (d : Ptr) (xs : Cells) (fuel : ℕ)
    → Links st.heap xs null
    → length xs < fuel
    → find_loop compare fuel (first xs null) d st ≡ ok (find_cell compare d xs, st)
unfolding find_loop find_cell
find_loop-find_cell compare st d xs zero l h = absurd (omega arith)
find_loop-find_cell compare st d [] (suc fuel) l h = refl
find_loop-find_cell compare st d (x ∷ xs) (suc fuel) l h =
    let ne : (x.0 == null) ≡ false = ground (arith, l.0) in
    let loaded = load-ok st x.0 (item x.1 (first xs null)) l.0 l.1 in
    let later = find_loop-find_cell compare st d xs fuel l.2 (omega arith) in
    elim (Ordering-cases (compare x.1 d)) [
      | inl e ↦ rw (ne, loaded, e) later
      | inr (inl e) ↦ rw (ne, loaded, e)
      | inr (inr e) ↦ rw (ne, loaded, e) later
    ]

-- what a search walks over, with its offset at the first item of `back`, or NULL
abbrev pub from_offset : Cells → Cells → Cells
from_offset front [] = front
from_offset front (c ∷ cs) = c ∷ cs

module _ (compare : CompareFunc) (st : State) (d : Ptr) where
  find-whole :
      (xs : Cells) → IsList st xs → find compare null d st ≡ ok (find_cell compare d xs, st)
  unfolding find
  find-whole xs is =
      ap (λ p. find_loop compare (st.list.count + 1) p d st) is.head
      ∙ find_loop-find_cell compare st d xs (st.list.count + 1) is.links (omega (arith, is.count))

  -- On a well-formed list, the empty one included, slist_find without an offset returns the first
  -- item whose data compares equal, NULL if there is none, and changes nothing; with the offset at an
  -- item of the list it does the same from that item on. An offset of NULL stands for none.
  pub find-find_cell :
      (front back : Cells)
      → IsList st (front ++ back)
      → (find compare null d st ≡ ok (find_cell compare d (front ++ back), st))
        × (find compare (first back null) d st
            ≡ ok (find_cell compare d (from_offset front back), st))
  unfolding find
  find-find_cell front [] is =
      let whole = find-whole (front ++ []) is in
      (whole, whole ∙ ap (λ xs. ok (find_cell compare d xs, st)) (append-nil front))
  find-find_cell front (c ∷ back) is =
      let l = (Links-append_parts st.heap front (c ∷ back) null is.links).1 in
      let ne : (c.0 == null) ≡ false = ground (arith, l.0) in
      (
        find-whole (front ++ c ∷ back) is,
        rw ne (
            find_loop-find_cell compare st d (c ∷ back) (st.list.count + 1) l
              (omega (arith, is.count, length-append front (c ∷ back)))),
      )

-- the calls of the FreeFunc for all cells, in order
unfoldable pub free_all : Bool → Cells → List Freed
free_all frees [] = []
free_all frees (c ∷ cs) = free_value frees c.1 ++ free_all frees cs

-- the heap without the cells
abbrev pub without : Heap → Cells → Heap
without h [] = h
without h (c ∷ cs) = without (write h c.0 none) cs

free_loop-without :
    (st : State) (xs : Cells) (fuel : ℕ)
    → Links st.heap xs null
    → IsDistinct xs
    → length xs < fuel
    → free_loop fuel (first xs null) st
      ≡ ok (
        tt,
        record st { heap = without st.heap xs; freed = st.freed ++ free_all st.list.frees xs },
      )
unfolding free_loop free_all
free_loop-without st xs zero l d h = absurd (omega arith)
free_loop-without st [] (suc fuel) l d h =
    ap (λ t. ok (tt, record st { freed = t })) (sym (append-nil st.freed))
free_loop-without st (x ∷ xs) (suc fuel) l d h =
    let i = item x.1 (first xs null) in
    let ne : (x.0 == null) ≡ false = ground (arith, l.0) in
    let loaded = load-ok st x.0 i l.0 l.1 in
    let released = item_free-ok st x.0 i l.0 l.1 in
    let st1 = record st {
      heap = write st.heap x.0 none;
      freed = st.freed ++ free_value st.list.frees x.1;
    } in
    rw (ne, loaded, released)
      (free_loop-without st1 xs fuel (Links-write st.heap xs null x.0 none l.2 d.0) d.1
          (omega arith)
        ∙ ap (λ t. ok (tt, record st1 { heap = without st1.heap xs; freed = t }))
            (append_assoc st.freed (free_value st.list.frees x.1) (free_all st.list.frees xs)))

without_gone : (h : Heap) (xs : Cells) (a : Ptr) → h a ≡ none → without h xs a ≡ none
unfolding write
without_gone h [] a e = e
without_gone h (x ∷ xs) a e = without_gone (write h x.0 none) xs a (ground (arith, e))

without_cell : (h : Heap) (xs : Cells) (a : Ptr) → has a xs ≡ true → without h xs a ≡ none
unfolding write
without_cell h [] a e = cc
without_cell h (x ∷ xs) a e = elim (Bool-cases (a == x.0)) [
  | inl here ↦ without_gone (write h x.0 none) xs a (ground arith)
  | inr later ↦ without_cell (write h x.0 none) xs a (ground arith)
]

without_outside : (h : Heap) (xs : Cells) (a : Ptr) → has a xs ≡ false → without h xs a ≡ h a
unfolding write
without_outside h [] a e = refl
without_outside h (x ∷ xs) a e =
    without_outside (write h x.0 none) xs a (ground arith) ∙ ground arith

-- On a well-formed list slist_clear ends within its fuel and without a fault, and leaves the empty list. Every item is off
-- the heap, the rest of the heap is as it was, and the FreeFunc has been called for the data of every
-- item that is not NULL, once and in order.
pub clear_lem :
    (st : State) (xs : Cells)
    → IsList st xs
    → Returns (clear st) λ (_, st').
      IsList st' []
      × ((a : Ptr) → st'.heap a ≡ (if has a xs then none else st.heap a))
      × (st'.freed ≡ st.freed ++ free_all st.list.frees xs)
unfolding clear free
clear_lem st xs is =
    let run : free_loop (st.list.count + 1) st.list.head st ≡ _ =
      ap (λ p. free_loop (st.list.count + 1) p st) is.head
      ∙ free_loop-without st xs (st.list.count + 1) is.links is.distinct
          (omega (arith, is.count)) in
    (
      (
        tt,
        record st {
          list = record st.list { count = 0; head = null; tail = null };
          heap = without st.heap xs;
          freed = st.freed ++ free_all st.list.frees xs;
        },
      ),
      rw run,
      (
        record { links = tt; distinct = tt; head = refl; tail = refl; count = refl },
        (λ a. elim (Bool-cases (has a xs)) [
          | inl e ↦ rw e (without_cell st.heap xs a e)
          | inr e ↦ rw e (without_outside st.heap xs a e)
        ]),
        refl,
      ),
    )
