-- ===== src/RbTree/Inserted.antt =====
-- The loop of rbtree_set against the entries.
use datatypes.Base.{
  ℕ, ◌-◌, ◌<◌, Ordering, ◌≡◌, refl, inl, inr, Bool, true, false, ◌∷◌, arith, ltb, word, Returns,
  length,
}
use datatypes.Callbacks.{Ptr, CompareFunc, IsOrder, Ordering-cases}
use datatypes.RbTree.{
  Node, leaf, node, to_left, to_right, step, Trail, RbTree, InsertResult, link, plug, is_null,
  if_null, insert_new, insert_loop,
}
use datatypes.RbTree.Entries.{entries}
use datatypes.RbTree.Descent.{stack_push-Holds, At, At-few, At-left, At-right}
use datatypes.RbTree.Update.{Puts, Puts-stack, insert_new-Puts, replace_node-Puts}
use datatypes.RbTree.{insert_loop}

module _ (compare_keys : CompareFunc) (order : IsOrder compare_keys) (key value : Ptr)
    (overwrite_key : Bool) where
  -- a step down to a child, which is absent or takes the loop on
  below :
      (t : RbTree) (ps : Trail) (n : Node)
      → At compare_keys t.stack_size key ps n
      → (is_null n ≡ false
          → Returns
              (insert_loop compare_keys t key value overwrite_key n ps)
              (Puts compare_keys t (entries (plug ps n)) key value overwrite_key))
      → Returns
          (if_null n
            (insert_new compare_keys t key value ps)
            (insert_loop compare_keys t key value overwrite_key n ps))
          (Puts compare_keys t (entries (plug ps n)) key value overwrite_key)
  below t ps leaf a f = insert_new-Puts compare_keys order key value overwrite_key t ps a
  below t ps (node k v b l r) a f = f refl

  -- seen from the node above
  Puts-below :
      (t : RbTree) (size : ℕ) (ps : Trail) (k v : Ptr) (b : Bool) (l r : Node)
      (res : RbTree × InsertResult)
      → (Puts compare_keys
            (record t { stack_size = size })
            (entries (plug (step k v b to_left r ∷ ps) l))
            key
            value
            overwrite_key
            res
          → Puts compare_keys t (entries (plug ps (node k v b l r))) key value overwrite_key res)
        × (Puts compare_keys
              (record t { stack_size = size })
              (entries (plug (step k v b to_right l ∷ ps) r))
              key
              value
              overwrite_key
              res
            → Puts compare_keys t (entries (plug ps (node k v b l r))) key value overwrite_key res)
  unfolding plug link
  Puts-below t size ps k v b l r res =
      let es = entries (plug ps (node k v b l r)) in
      (
        Puts-stack compare_keys t size es key value overwrite_key res,
        Puts-stack compare_keys t size es key value overwrite_key res,
      )

  pub insert_loop-Puts :
      (t : RbTree) (n : Node) (ps : Trail)
      → is_null n ≡ false
      → At compare_keys t.stack_size key ps n
      → t.count < word - 1
      → Returns
          (insert_loop compare_keys t key value overwrite_key n ps)
          (Puts compare_keys t (entries (plug ps n)) key value overwrite_key)
  unfolding insert_loop
  insert_loop-Puts t leaf ps e a small = cc
  insert_loop-Puts t (node k v b l r) ps e a small =
      let (size, pushed, held) =
        stack_push-Holds t.stack_size (length ps) a.some_stack a.room
          (At-few compare_keys t.stack_size key ps (node k v b l r) a) in
      let t' = record t { stack_size = size } in
      let room : ltb t.count (word - 1) ≡ true = ground arith in
      let left_of = λ (c : compare_keys key k ≡ Ordering.lt).
        At-left compare_keys order key k v b l r ps t.stack_size a size held c in
      let right_of = λ (c : compare_keys key k ≡ Ordering.gt).
        At-right compare_keys order key k v b l r ps t.stack_size a size held c in
      elim (Ordering-cases (compare_keys key k)) [
        | inl c ↦
            let ps' = step k v b to_left r ∷ ps in
            let (res, run, w) =
              below t' ps' l (left_of c) λ f. insert_loop-Puts t' l ps' f (left_of c) small in
            (res, rw (pushed, c, room, run), (Puts-below t size ps k v b l r res).0 w)
        | inr (inl c) ↦
            let (res, run, w) =
              replace_node-Puts compare_keys order key value overwrite_key t t.stack_size k v b l r
                ps a c size (omega (arith, held)) in
            (res, rw (pushed, c, run), w)
        | inr (inr c) ↦
            let ps' = step k v b to_right l ∷ ps in
            let (res, run, w) =
              below t' ps' r (right_of c) λ f. insert_loop-Puts t' r ps' f (right_of c) small in
            (res, rw (pushed, c, room, run), (Puts-below t size ps k v b l r res).1 w)
      ]
