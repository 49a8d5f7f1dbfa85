-- ===== src/DList/Pop.antt =====
-- list_pop.
use datatypes.Base.{
  subst, ◌-◌, ◌<◌, ◌≡◌, refl, sym, ap, ◌∙◌, ◌≢◌, true, false, ◌||◌, none, some, [], ◌∷◌, arith,
  ◌==◌, word, ok, Returns, length,
}
use datatypes.Callbacks.{Ptr, null}
use datatypes.SList.Chain.{Cells, first, has}
use datatypes.DList.{ListItem, item, State, write, release, prepend}
use datatypes.DList.Erase.{pop}
use datatypes.DList.Chain.{IsList, IsFresh, Links-write, write_same, write_other, load-ok}
use datatypes.DList.Ends.{not_null, apart_of, set_prev-ok, prepend-Prepended}
use datatypes.DList.Erase.{pop}
use datatypes.DList.{release}

pub release-ok :
    (st : State) (p : Ptr) (i : ListItem)
    → p ≢ null
    → st.heap p ≡ some i
    → release p st ≡ ok (tt, record st { heap = write st.heap p none })
unfolding release
release-ok st p i some_p e = rw (load-ok st p i some_p e)

-- what list_pop returns and leaves
abbrev pub Popped : State → Cells → Ptr × State → Type 0
Popped st [] (d, st') = (d ≡ null) × (st' ≡ st)
Popped st (c ∷ cs) (d, st') =
    (d ≡ c.1) × IsList st' cs × (st'.heap c.0 ≡ none) × (st'.freed ≡ st.freed)

pub pop-Popped : (st : State) (xs : Cells) → IsList st xs → Returns (pop st) (Popped st xs)
unfolding pop
pop-Popped st [] is =
    let nothing : (st.list.head == null) ≡ true = ap (λ a. a == null) is.head in
    ((null, st), rw nothing, (refl, refl))
pop-Popped st (c ∷ []) is =
    let head = st.list.head in
    let something : (head == null) ≡ false =
      ap (λ a. a == null) is.head ∙ not_null c.0 is.links.0 in
    let some_head : head ≢ null = subst (λ a. a ≢ null) (sym is.head) is.links.0 in
    let there : st.heap head ≡ some (item c.1 null null) = ap st.heap is.head ∙ is.links.1 in
    let st1 = record st { list = record st.list { head = null; tail = null } } in
    (
      (
        c.1,
        record st {
          list = record st.list { head = null; tail = null; count = st.list.count - 1 };
          heap = write st.heap head none;
        },
      ),
      rw (
        something,
        load-ok st head (item c.1 null null) some_head there,
        release-ok st1 head (item c.1 null null) some_head there,
      ),
      (
        refl,
        record {
          links = tt;
          distinct = tt;
          head = refl;
          tail = refl;
          count = omega (arith, is.count);
        },
        ap (write st.heap head none) (sym is.head) ∙ write_same st.heap head none,
        refl,
      ),
    )
pop-Popped st (c ∷ e ∷ cs) is =
    let head = st.list.head in
    let i = item c.1 e.0 null in
    let second = item e.1 (first cs null) c.0 in
    let something : (head == null) ≡ false =
      ap (λ a. a == null) is.head ∙ not_null c.0 is.links.0 in
    let more : (e.0 == null) ≡ false = not_null e.0 is.links.2.0 in
    let some_head : head ≢ null = subst (λ a. a ≢ null) (sym is.head) is.links.0 in
    let there : st.heap head ≡ some i = ap st.heap is.head ∙ is.links.1 in
    let st1 = record st { list = record st.list { head = e.0 } } in
    let h = write st.heap e.0 (some (record second { prev = null })) in
    let st2 = record st { list = record st.list { head = e.0 }; heap = h } in
    let linked = set_prev-ok st1 e.0 null second is.links.2.0 is.links.2.1 in
    let (apart, c_outside) = apart_of c.0 e.0 (has c.0 cs) is.distinct.0 in
    let other : (head == e.0) ≡ false =
      ap (λ a. a == e.0) is.head ∙ (apart_of e.0 c.0 false (ap (λ x. x || false) apart)).0 in
    let away : (e.0 == head) ≡ false = ap (λ a. e.0 == a) is.head ∙ apart in
    let still : h head ≡ some i = write_other st.heap e.0 head _ other ∙ there in
    let outside : has head cs ≡ false = ap (λ a. has a cs) is.head ∙ c_outside in
    (
      (
        c.1,
        record st {
          list = record st.list { head = e.0; count = st.list.count - 1 };
          heap = write h head none;
        },
      ),
      rw (
        something,
        load-ok st head i some_head there,
        more,
        linked,
        release-ok st2 head i some_head still,
      ),
      (
        refl,
        record {
          links = (
            is.links.2.0,
            write_other h head e.0 none away ∙ write_same st.heap e.0 _,
            Links-write h e.0 cs head none
                (Links-write st.heap e.0 cs e.0 _ is.links.2.2 is.distinct.1.0) outside,
          );
          distinct = is.distinct.1;
          head = refl;
          tail = is.tail;
          count = omega (arith, is.count);
        },
        ap (write h head none) (sym is.head) ∙ write_same h head none,
        refl,
      ),
    )

-- what list_pop after list_prepend leaves
abbrev pub Restored : State → Cells → Ptr → Ptr → Ptr × State → Type 0
Restored st xs fresh d (popped, st') =
    (popped ≡ d) × IsList st' xs × (st'.heap fresh ≡ none) × (st'.freed ≡ st.freed)

-- On a well-formed list of less than 2^64 - 1 items, with an address for the new item that is neither
-- NULL nor in use, list_prepend returns the new item and leaves a well-formed list with it in front of
-- the others; list_pop then returns its data, releases the item, calls no callback, and
-- leaves a well-formed list of the items that were there before.
pub pop-prepend :
    (st : State) (xs : Cells) (fresh d : Ptr)
    → IsList st xs
    → IsFresh st fresh
    → length xs < word - 1
    → Returns (prepend fresh d st) λ (p, st').
      (p ≡ fresh) × IsList st' ((fresh, d) ∷ xs) × Returns (pop st') (Restored st xs fresh d)
pop-prepend st xs fresh d is new room =
    let ((p, st'), run, (same, is', freed)) = prepend-Prepended st xs fresh d is new room in
    let (res, run', (got, is'', gone, freed')) = pop-Popped st' ((fresh, d) ∷ xs) is' in
    ((p, st'), run, (same, is', (res, run', (got, is'', gone, freed' ∙ freed))))
