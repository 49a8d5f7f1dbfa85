-- ===== src/RbTree/Map.antt =====
-- The tree as a map: what a search finds after rbtree_set, rbtree_remove and rbtree_pair_set_value.
use datatypes.Base.{
  subst, ℕ, ◌+◌, ◌<◌, Ordering, ◌≡◌, refl, sym, ap, ◌∙◌, Bool, false, Option, none, some, List, [],
  ◌∷◌, ◌++◌, append_assoc, arith, if◌then◌else◌, Run, ok, ◌>>=◌, Returns,
}
use datatypes.Callbacks.{free_key, Freed, Ptr, CompareFunc, IsOrder, by_sign, free_value}
use datatypes.AssocArray.Table.{Entries, erase}
use datatypes.AssocArray.Laws.{value_of, value_of-find, value_of-insert}
use datatypes.RbTree.{
  clear, destroy_node, is_null, Node, leaf, node, Trail, RbTree, is_replaced, plug, replace_node,
  set,
}
use datatypes.RbTree.Erase.{find_node, lookup, pair_set_value, remove}
use datatypes.RbTree.Entries.{entries}
use datatypes.RbTree.Order.{AllGreater, IsOrdered}
use datatypes.RbTree.Descent.{max_count}
use datatypes.RbTree.Update.{Puts, replace_node-Puts}
use datatypes.RbTree.Lookup.{IsSound, At_root, Finds, find_node-Finds, get, get-entries}
use datatypes.RbTree.Set.{set-Puts, Keeps, sound_of}
use datatypes.RbTree.Remove.{remove-Drops}
use mathlib.Core.List.{Perm, perm_append_comm}
use mathlib.Core.List.Perm

-- the value that rbtree_lookup finds
abbrev pub search_value : CompareFunc → RbTree → Ptr → Run (Option Ptr)
search_value compare_keys t q =
    get compare_keys t q >>= λ e. ok (elim e [ none ↦ none | some p ↦ some (p.1) ])

module _ (compare_keys : CompareFunc) (order : IsOrder compare_keys) where
  value_of_above :
      (q a : Ptr) (es : Entries)
      → AllGreater compare_keys a es
      → compare_keys q a ≡ Ordering.eq
      → value_of compare_keys q es ≡ none
  unfolding value_of
  value_of_above q a [] h e = refl
  value_of_above q a ((k, v) ∷ es) h e =
      ground (arith, value_of_above q a es h.1 e, order.eq_left q a k e, h.0)

  value_of-erase :
      (q key : Ptr) (es : Entries)
      → IsOrdered compare_keys es
      → value_of compare_keys q (erase compare_keys key es)
        ≡ by_sign
            (compare_keys q key)
            (value_of compare_keys q es)
            none
            (value_of compare_keys q es)
  unfolding value_of erase
  value_of-erase q key [] s = ground arith
  value_of-erase q key ((k, v) ∷ es) s = ground (
    arith,
    value_of-erase q key es s.1,
    value_of_above q k es s.0,
    order.swap q key,
    order.swap q k,
    order.swap key k,
    order.eq_left q key k,
    order.eq_left key k q,
    order.eq_left key q k,
  )

  search_value-value_of :
      (t : RbTree)
      → IsSound compare_keys t
      → t.count < max_count
      → (q : Ptr) → search_value compare_keys t q ≡ ok (value_of compare_keys q (entries t.root))
  search_value-value_of t s few q =
      rw (
        (get-entries compare_keys order t s few q).0,
        value_of-find compare_keys q (entries t.root),
      )

  -- With an order to compare by, a search after rbtree_set, on a sound tree of less than 2^58 - 1
  -- nodes, finds the new value under every key that compares equal to the given one, and under other
  -- keys what it found before.
  pub search_value-set :
      (t : RbTree)
      → IsSound compare_keys t
      → t.count + 1 < max_count
      → (key value : Ptr) (overwrite_key : Bool) (q : Ptr)
      → (set compare_keys t key value overwrite_key >>= λ r. search_value compare_keys r.0 q)
        ≡ by_sign
            (compare_keys q key)
            (search_value compare_keys t q)
            (ok (some value))
            (search_value compare_keys t q)
  search_value-set t s few key value o q =
      let (r, run, (w, sound)) = set-Puts compare_keys order t s (omega (arith, few)) key value o in
      let few' : r.0.count < max_count = ground (arith, few, w.counted) in
      rw
        (
          run,
          search_value-value_of r.0 sound few' q,
          w.put,
          value_of-insert compare_keys order q key value o (entries t.root),
          search_value-value_of t s (omega (arith, few)) q,
        )
        (ground arith)

  -- With an order to compare by, a search after rbtree_remove, on a sound tree of less than 2^58
  -- nodes, finds nothing under the keys that compare equal to the given one, and under other keys what
  -- it found before.
  pub search_value-remove :
      (t : RbTree)
      → IsSound compare_keys t
      → t.count < max_count
      → (key q : Ptr)
      → (remove compare_keys t key >>= λ r. search_value compare_keys r.0 q)
        ≡ by_sign
            (compare_keys q key)
            (search_value compare_keys t q)
            (ok none)
            (search_value compare_keys t q)
  search_value-remove t s few key q =
      let (r, run, (w, sound)) = remove-Drops compare_keys order t s few key in
      let few' : r.0.count < max_count = ground (arith, few, w.counted) in
      rw
        (
          run,
          search_value-value_of r.0 sound few' q,
          w.dropped,
          value_of-erase q key (entries t.root) s.ordered,
          search_value-value_of t s few q,
        )
        (ground arith)

  -- through the pair of the last lookup, at a place in the tree
  set_through :
      (t : RbTree) (found : ℕ × Trail × Node) (key value : Ptr)
      → Finds compare_keys false key t.root found
      → (pair : Trail × Node)
      → (if is_null found.2 then none else some (found.1, found.2)) ≡ some pair
      → 0 < t.stack_size
      → Returns (pair_set_value t pair value) λ t'.
        Puts compare_keys t (entries (plug found.1 found.2)) key value false (t', is_replaced)
  unfolding pair_set_value replace_node
  set_through t (size, ps, leaf) key value w pair e pos = cc
  set_through t (size, ps, node k v b l r) key value w pair e pos =
      let new = record t {
        root = plug ps (node k value b l r);
        freed = t.freed ++ free_value t.frees_values v;
      } in
      let (res, run, p) =
        replace_node-Puts compare_keys order key value false t w.stack_size k v b l r ps w.at
          w.hits.0 t.stack_size pos in
      let same : (new, is_replaced) ≡ res = cc in
      let at_node : (ps, node k v b l r) ≡ pair = cc in
      (
        new,
        ap (λ x. pair_set_value t x value) (sym at_node),
        subst (λ x. Puts compare_keys t (entries (plug ps (node k v b l r))) key value false x)
            (sym same) p,
      )

  found_at :
      (t : RbTree) (key : Ptr) (place : ℕ × Trail × Node)
      → find_node compare_keys false t.stack_size key t.root [] ≡ ok place
      → lookup compare_keys t key ≡ ok (if is_null place.2 then none else some (place.1, place.2))
  unfolding lookup
  found_at t key place run = rw run

  -- With an order to compare by, on a sound tree of less than 2^58 nodes, rbtree_pair_set_value
  -- through the pair that rbtree_lookup returned does what rbtree_set does without overwriting the
  -- key: the entries are those of the insertion, the old value goes to the callback, and the tree
  -- stays sound.
  pub pair_set_value-Puts :
      (t : RbTree)
      → IsSound compare_keys t
      → t.count < max_count
      → (key value : Ptr) (pair : Trail × Node) → lookup compare_keys t key ≡ ok (some pair)
      → Returns
          (pair_set_value t pair value)
          λ t'. Keeps compare_keys t key value false (t', is_replaced)
  unfolding lookup plug
  pair_set_value-Puts t s few key value pair found =
      let (place, run, w) =
        find_node-Finds compare_keys order false key t.stack_size 1 t.root []
          (At_root compare_keys t key 1 s few (omega arith)) (λ f. absurd cc) in
      let e : ok (if is_null place.2 then none else some (place.1, place.2)) ≡ ok (some pair) =
        sym (found_at t key place run) ∙ found in
      let (t', run', p) = set_through t place key value w pair (cc) s.some_stack in
      (
        t',
        run',
        sound_of compare_keys t key value false (t', is_replaced) s
            (subst (λ n. Puts compare_keys t (entries n) key value false (t', is_replaced)) w.tree
              p),
      )

-- the calls of the callbacks for some entries
abbrev pub releases : RbTree → Entries → List Freed
releases t [] = []
releases t ((k, v) ∷ es) = (free_key t.frees_keys k ++ free_value t.frees_values v) ++ releases t es

releases-append :
    (t : RbTree) (xs ys : Entries) → releases t (xs ++ ys) ≡ releases t xs ++ releases t ys
releases-append t [] ys = refl
releases-append t ((k, v) ∷ xs) ys = rw (releases-append t xs ys) (simp append_assoc)

destroy_node-Perm : (t : RbTree) (n : Node) → Perm (destroy_node t n) (releases t (entries n))
unfolding destroy_node entries
destroy_node-Perm t leaf = Perm.refl []
destroy_node-Perm t (node k v b l r) =
    let here = free_key t.frees_keys k ++ free_value t.frees_values v in
    let both =
      Perm.append (destroy_node-Perm t l) (Perm.append (destroy_node-Perm t r) (Perm.refl here)) in
    rw (releases-append t (entries l) ((k, v) ∷ entries r)) (
      Perm.trans both (
        Perm.append_left (releases t (entries l)) (perm_append_comm (releases t (entries r)) here)))

-- rbtree_clear leaves a sound tree without entries, and hands the key and the value of every entry to
-- the callbacks exactly once, which _rbtree_destroy_node does in an order of its own.
pub clear-Perm :
    (compare_keys : CompareFunc) (t : RbTree)
    → 0 < t.stack_size
    → IsSound compare_keys (clear t)
      × (entries (clear t).root ≡ [])
      × ((log : List Freed) × ((clear t).freed ≡ t.freed ++ log)
          × Perm log (releases t (entries t.root)))
unfolding clear entries
clear-Perm compare_keys t some_stack = (
  record { rules = tt; black_root = refl; ordered = tt; counted = refl; some_stack = some_stack },
  refl,
  (destroy_node t t.root, refl, destroy_node-Perm t t.root),
)
