-- ===== src/RbTree/Set.antt =====
-- rbtree_init and rbtree_set.
use datatypes.Base.{
  ◌+◌, ◌<◌, ◌≡◌, refl, sym, ap, ◌∙◌, inl, inr, Bool, true, [], append-nil, arith, Bool-cases, ok,
  Returns,
}
use datatypes.Callbacks.{Ptr, CompareFunc, IsOrder}
use datatypes.AssocArray.Table.{find, insert}
use datatypes.RbTree.{
  if_null, Node, leaf, node, RbTree, InsertResult, is_new, plug, init, set, insert_loop,
}
use datatypes.RbTree.Entries.{entries}
use datatypes.RbTree.Descent.{max_count, At}
use datatypes.RbTree.Update.{is_some, Puts}
use datatypes.RbTree.Inserted.{insert_loop-Puts}
use datatypes.RbTree.Lookup.{IsSound, At_root}

module _ (compare_keys : CompareFunc) where
  -- A new tree, and any tree after rbtree_clear, is sound and has no entries.
  pub init-IsSound :
      (frees_keys frees_values : Bool)
      → IsSound compare_keys (init frees_keys frees_values)
        × (entries (init frees_keys frees_values).root ≡ [])
  unfolding init entries
  init-IsSound frees_keys frees_values = (
    record {
      rules = tt;
      black_root = refl;
      ordered = tt;
      counted = refl;
      some_stack = omega arith;
    },
    refl,
  )

  -- what rbtree_set leaves, and the invariant
  abbrev pub Keeps : RbTree → Ptr → Ptr → Bool → RbTree × InsertResult → Type 0
  Keeps t key value o r =
      Puts compare_keys t (entries t.root) key value o r × IsSound compare_keys r.0

  pub sound_of :
      (t : RbTree) (key value : Ptr) (o : Bool) (r : RbTree × InsertResult)
      → IsSound compare_keys t
      → Puts compare_keys t (entries t.root) key value o r
      → Keeps t key value o r
  sound_of t key value o r s w = (
    w,
    record {
      rules = w.rules;
      black_root = w.black_root;
      ordered = w.ordered;
      counted = elim (Bool-cases (is_some (find compare_keys key (entries t.root)))) [
        | inl there ↦ rw (w.counted, w.sized, there) s.counted
        | inr missing ↦ rw (w.counted, w.sized, missing) (ap (λ n. n + 1) s.counted)
      ];
      some_stack = w.some_stack;
    },
  )

  -- rbtree_set at the root
  set_root :
      (order : IsOrder compare_keys) (key value : Ptr) (o : Bool) (t : RbTree) (n : Node)
      → At compare_keys t.stack_size key [] n
      → (n ≡ leaf → t.count ≡ 0)
      → 0 < t.stack_size
      → t.count < max_count
      → Returns
          (if_null n
            (ok (record t { root = node key value true leaf leaf; count = 1 }, is_new))
            (insert_loop compare_keys t key value o n []))
          (Puts compare_keys t (entries n) key value o)
  unfolding entries insert find plug
  set_root order key value o t leaf a empty pos few = (
    (record t { root = node key value true leaf leaf; count = 1 }, is_new),
    refl,
    record {
      rules = (tt, tt, refl, refl);
      black_root = refl;
      put = refl;
      ordered = (tt, tt);
      sized = refl;
      outcome = refl;
      counted = rw (empty refl);
      log = sym (append-nil t.freed);
      callbacks = (refl, refl);
      some_stack = pos;
    },
  )
  set_root order key value o t (node k v b l r) a empty pos few =
      insert_loop-Puts compare_keys order key value o t (node k v b l r) [] refl a
        (omega (arith, few))

  -- With an order to compare by, on a sound tree of less than 2^58 nodes, rbtree_set ends without a
  -- fault or an abort, and leaves a sound tree: the red-black rules hold, the root is black, the keys
  -- are in order and the count is right. The entries are those of a sorted insertion, the result says
  -- whether the key was there, and the callbacks have been given the old value, if it is not NULL, and
  -- the old key, if it was overwritten.
  pub set-Puts :
      (order : IsOrder compare_keys) (t : RbTree)
      → IsSound compare_keys t
      → t.count < max_count
      → (key value : Ptr) (overwrite_key : Bool)
      → Returns (set compare_keys t key value overwrite_key) (Keeps t key value overwrite_key)
  unfolding set entries
  set-Puts order t s few key value o =
      let empty : t.root ≡ leaf → t.count ≡ 0 = λ e. s.counted ∙ rw e in
      let (r, run, w) =
        set_root order key value o t t.root
          (At_root compare_keys t key t.stack_size s few s.some_stack) empty s.some_stack few in
      (r, run, sound_of t key value o r s w)
