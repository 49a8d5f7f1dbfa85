-- ===== src/DList/Ends.antt =====
-- list_prepend.
use datatypes.Base.{
  subst, ℕ, ◌+◌, ◌-◌, ◌<◌, ◌≡◌, refl, sym, ap, ◌∙◌, ◌≢◌, Bool, true, false, ◌||◌, some, [], ◌∷◌,
  arith, ltb, ◌==◌, word, ok, Returns, length,
}
use datatypes.Callbacks.{Ptr, null}
use datatypes.SList.Chain.{Cells, first, has}
use datatypes.DList.{ListItem, item, State, write, store, set_next, set_prev, item_new, prepend}
use datatypes.DList.Chain.{
  IsList, IsFresh, Links-write, has_unused, write_same, write_other, load-ok,
}

-- what the writes to an item on the heap do
pub set_next-ok :
    (st : State) (p q : Ptr) (i : ListItem)
    → p ≢ null
    → st.heap p ≡ some i
    → set_next p q st ≡ ok (tt, record st { heap = write st.heap p (some (record i { next = q })) })
unfolding set_next store
set_next-ok st p q i some_p e = rw (load-ok st p i some_p e)

pub set_prev-ok :
    (st : State) (p q : Ptr) (i : ListItem)
    → p ≢ null
    → st.heap p ≡ some i
    → set_prev p q st ≡ ok (tt, record st { heap = write st.heap p (some (record i { prev = q })) })
unfolding set_prev store
set_prev-ok st p q i some_p e = rw (load-ok st p i some_p e)

counts : (n m : ℕ) → n ≡ m → m < word - 1 → ltb n (word - 1) ≡ true
counts n m e less = ground arith

pub not_null : (p : Ptr) → p ≢ null → (p == null) ≡ false
not_null p e = ground arith

pub apart_of : (a b : Ptr) (x : Bool) → ((a == b) || x) ≡ false → ((b == a) ≡ false) × (x ≡ false)
apart_of a b x e = (ground (arith, e), ground (arith, e))

-- list_prepend leaves the list with the new item in front
pub prepend-Prepended :
    (st : State) (xs : Cells) (fresh d : Ptr)
    → IsList st xs
    → IsFresh st fresh
    → length xs < word - 1
    → Returns
        (prepend fresh d st)
        λ (p, st'). (p ≡ fresh) × IsList st' ((fresh, d) ∷ xs) × (st'.freed ≡ st.freed)
unfolding prepend item_new store
prepend-Prepended st [] fresh d is new room =
    let count : ltb st.list.count (word - 1) ≡ true = counts st.list.count _ is.count room in
    let nothing : (st.list.head == null) ≡ true = ground (arith, is.head) in
    let h = write st.heap fresh (some (item d null null)) in
    let st1 = record st { heap = h } in
    let made =
      set_next-ok st1 fresh st.list.head (item d null null) new.0 (write_same st.heap fresh _) in
    (
      (
        fresh,
        record st {
          list = record st.list { head = fresh; tail = fresh; count = st.list.count + 1 };
          heap = write h fresh (some (item d st.list.head null));
        },
      ),
      rw (count, made, nothing),
      (
        refl,
        record {
          links = (new.0, write_same h fresh _ ∙ rw (is.head), tt);
          distinct = (refl, tt);
          head = refl;
          tail = refl;
          count = rw (is.count);
        },
        refl,
      ),
    )
prepend-Prepended st (c ∷ cs) fresh d is new room =
    let count : ltb st.list.count (word - 1) ≡ true = counts st.list.count _ is.count room in
    let something : (st.list.head == null) ≡ false =
      ap (λ a. a == null) is.head ∙ not_null c.0 is.links.0 in
    let unused = has_unused st.heap null (c ∷ cs) fresh is.links new.1 in
    let (apart, rest_unused) = apart_of fresh c.0 (has fresh cs) unused in
    let head = st.list.head in
    let old = item c.1 (first cs null) null in
    let h = write st.heap fresh (some (item d null null)) in
    let h' = write h fresh (some (item d head null)) in
    let h'' = write h' head (some (record old { prev = fresh })) in
    let st1 = record st { heap = h } in
    let st2 = record st { heap = h' } in
    let made = set_next-ok st1 fresh head (item d null null) new.0 (write_same st.heap fresh _) in
    let there : h' head ≡ some old =
      ap h' is.head
      ∙ write_other h fresh c.0 (some (item d head null)) apart
      ∙ write_other st.heap fresh c.0 (some (item d null null)) apart
      ∙ is.links.1 in
    let some_head : head ≢ null = subst (λ a. a ≢ null) (sym is.head) is.links.0 in
    let linked = set_prev-ok st2 head fresh old some_head there in
    let other : (fresh == head) ≡ false =
      ap (λ a. fresh == a) is.head ∙ (apart_of c.0 fresh false (ap (λ x. x || false) apart)).0 in
    let outside : has head cs ≡ false = ap (λ a. has a cs) is.head ∙ is.distinct.0 in
    (
      (
        fresh,
        record st { list = record st.list { head = fresh; count = st.list.count + 1 }; heap = h'' },
      ),
      rw (count, made, something, linked),
      (
        refl,
        record {
          links = (
            new.0,
            write_other h' head fresh _ other
                ∙ write_same h fresh _
                ∙ ap (λ a. some (item d a null)) is.head,
            (
              is.links.0,
              ap h'' (sym is.head) ∙ write_same h' head _,
              Links-write h' c.0 cs head _
                  (Links-write h c.0 cs fresh _
                    (Links-write st.heap c.0 cs fresh _ is.links.2 rest_unused) rest_unused)
                  outside,
            ),
          );
          distinct = (unused, is.distinct);
          head = refl;
          tail = is.tail;
          count = omega (arith, is.count);
        },
        refl,
      ),
    )
