-- ===== src/RbTree/Erase.antt =====
-- The search and the removal of rbtree.c: from _rbtree_find_node to rbtree_remove.
use datatypes.Base.{
  ℕ, zero, suc, ◌+◌, ◌-◌, Bool, true, false, not, ◌&&◌, Option, none, some, [], ◌∷◌, ◌++◌,
  if◌then◌else◌, Run, ok, fault, out_of_fuel, ◌>>=◌, length,
}
use datatypes.Callbacks.{Ptr, CompareFunc, by_sign, free_key, free_value}
use datatypes.RbTree.{
  Node, leaf, node, Side, to_left, to_right, Step, step, Trail, RbTree, plug, stack_push, is_black,
  is_null, set_black, rotate_left, rotate_right, if_null,
}

module _ (compare_keys : CompareFunc) where
  -- _rbtree_find_node from a node on: the size of the stack, the path, and the node; `leaf` is NULL
  unfoldable pub find_node : Bool → ℕ → Ptr → Node → Trail → Run (ℕ × Trail × Node)
  find_node build_stack size key leaf ps = ok (size, ps, leaf)
  find_node build_stack size key (node k v b l r) ps = do
    size' ← (if build_stack then stack_push size (length ps) else ok size)
    let lefts = step k v b to_left r ∷ ps
    let rights = step k v b to_right l ∷ ps
    by_sign (compare_keys key k) (find_node build_stack size' key l lefts)
        (ok (size', ps, node k v b l r)) (find_node build_stack size' key r rights)

  -- The returned pair is the node; `none` is NULL.
  unfoldable pub lookup : RbTree → Ptr → Run (Option (Trail × Node))
  unfolding find_node
  lookup t key = do
    (_, ps, n) ← find_node false t.stack_size key t.root []
    ok (if is_null n then none else some (ps, n))

  unfoldable pub key_exists : RbTree → Ptr → Run Bool
  unfolding find_node
  key_exists t key = do
    (_, ps, n) ← find_node false t.stack_size key t.root []
    ok (not (is_null n))

-- rbtree_pair_get_key and rbtree_pair_get_value
unfoldable pub pair_get : Trail × Node → Run (Ptr × Ptr)
pair_get (ps, leaf) = fault
pair_get (ps, node k v b l r) = ok (k, v)

unfoldable pub pair_set_value : RbTree → Trail × Node → Ptr → Run RbTree
pair_set_value t (ps, leaf) value = fault
pair_set_value t (ps, node k v b l r) value = ok (record t {
  root = plug ps (node k value b l r);
  freed = t.freed ++ free_value t.frees_values v;
})

-- _rbtree_find_max_node below a path of `n` nodes: the path from the given node on, and its end
unfoldable pub find_max_node : ℕ → ℕ → Node → Trail → Run (ℕ × Trail × Node)
find_max_node size n leaf ps = fault
find_max_node size n (node k v b l r) ps = do
  size' ← stack_push size n
  let rights = step k v b to_right l ∷ ps
  if_null r (ok (size', ps, node k v b l r)) (find_max_node size' (n + 1) r rights)

-- The rotation of a step towards its side: the step, and the one of its old sibling above it.
abbrev pub rotate_step : Step → Run (Step × Step)
rotate_step p = elim p.other [
  | leaf ↦ fault
  | node k v b l r ↦ elim p.side [
    | to_left ↦ ok (record p { other = l }, step k v b to_left r)
    | to_right ↦ ok (record p { other = r }, step k v b to_right l)
  ]
]

-- Case 5 of _rbtree_remove_case3_to_6 on the sibling.
unfoldable pub remove_case5 : Side → Node → Run Node
remove_case5 side leaf = fault
remove_case5 to_left (node k v b l r) =
    if b && (not (is_black l) && is_black r)
    then (do l' ← set_black true l; rotate_right (node k v false l' r))
    else ok (node k v b l r)
remove_case5 to_right (node k v b l r) =
    if b && (is_black l && not (is_black r))
    then (do r' ← set_black true r; rotate_left (node k v false l r'))
    else ok (node k v b l r)

-- Case 6: the sibling takes the parent's colour, its far child becomes black, and the parent rotates.
unfoldable pub remove_case6 : Step → Trail → Run Trail
remove_case6 p ps = do
  (lower, upper) ← rotate_step p
  far ← set_black true upper.other
  ok (record lower { black = true } ∷ record upper { black = p.black; other = far } ∷ ps)

-- The repair of the path above a node that is about to lose a black node. A case 2 and a case 3 each
-- take one round.
-- _rbtree_remove_case3_to_6, with what case 3 does one node further up
unfoldable pub remove_case3 : ℕ → Step → Trail → Run (ℕ × Trail) → Run (ℕ × Trail)
unfolding remove_case5 remove_case6
remove_case3 size p ps above = elim p.other [
  | leaf ↦ fault
  | node k v b l r ↦
      let red = record p { other = node k v false l r } in
      if b && (is_black l && is_black r)
      then (if p.black
          then (do (size', ps') ← above; ok (size', red ∷ ps'))
          else ok (size, record red { black = true } ∷ ps))
      else (do
        sibling ← remove_case5 p.side (node k v b l r)
        ps' ← remove_case6 (record p { other = sibling }) ps
        ok (size, ps'))
]

-- _rbtree_remove_case1 and _rbtree_remove_case2
unfoldable pub remove_case1 : ℕ → ℕ → Trail → Run (ℕ × Trail)
unfolding remove_case3 stack_push
remove_case1 zero size ps = out_of_fuel
remove_case1 (suc fuel) size [] = ok (size, [])
remove_case1 (suc fuel) size (p ∷ ps) =
    let above = remove_case1 fuel size ps in
    let turned = (do
      (lower, upper) ← rotate_step p
      size' ← stack_push size (length ps + 2)
      remove_case3 size' (record lower { black = false }) (record upper { black = true } ∷ ps)
          (remove_case1 fuel size' (record upper { black = true } ∷ ps))) in
    if not (is_black p.other) then turned else remove_case3 size p ps above

-- a child that is the new root becomes black
abbrev pub blackened : Node → Node
blackened leaf = leaf
blackened (node k v b l r) = node k v true l r

-- what rbtree_remove does with the node, which has a child at most, at the end of the path
unfoldable pub unlink_node : ℕ → Trail → Node → Run (ℕ × Node)
unlink_node size ps leaf = fault
unlink_node size ps (node k v b l r) = do
  let child = if_null r l r
  (size', ps') ← (if b then remove_case1 (length ps + 2) size ps else ok (size, ps))
  ok (size', elim ps [ [] ↦ blackened child | p ∷ above ↦ plug ps' child ])

-- what rbtree_remove does with the found node
unfoldable pub remove_found : RbTree → ℕ → Trail → Node → Run (RbTree × Bool)
remove_found t size ps leaf = ok (record t { stack_size = size }, false)
remove_found t size ps (node k v b l r) = do
  let log = free_key t.frees_keys k ++ free_value t.frees_values v
  (size', root) ← if_null l (unlink_node size ps (node k v b l r)) (
      if_null r (unlink_node size ps (node k v b l r)) (do
        (size', above, max) ← find_max_node size (length ps + 1) l []
        (mk, mv) ← pair_get ([], max)
        let moved = step mk mv b to_left r
        unlink_node size' (above ++ moved ∷ ps) max))
  ok (
    record t { root = root; stack_size = size'; count = t.count - 1; freed = t.freed ++ log },
    true,
  )

unfoldable pub remove : CompareFunc → RbTree → Ptr → Run (RbTree × Bool)
unfolding remove_found find_node
remove compare_keys t key = do
  (size, ps, n) ← find_node compare_keys true t.stack_size key t.root []
  remove_found t size ps n
