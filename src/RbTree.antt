-- ===== src/RbTree.antt =====
-- The red-black tree: rbtree.h and rbtree.c. A pointer to a node is the subtree below it, `leaf` for
-- NULL. The stack of the code always holds the nodes from the root down to the current one; here it
-- is the list of the steps that lead there, the last one first, so that a write to a node above the
-- current one changes a step. What the code needs of the stack's memory, its size and the write to
-- its top, is kept. An operation returns the new tree.
pub mod Erase
pub mod Entries
pub mod Balance
pub mod Insert
pub mod Order
pub mod Descent
pub mod Update
pub mod Inserted
pub mod Lookup
pub mod Set
pub mod Rebalance
pub mod Shorten
pub mod Unlink
pub mod Detach
pub mod Remove
pub mod Height
pub mod Iter
pub mod Iteration
pub mod Walk
pub mod Map
pub mod Examples
use datatypes.Base.{
  ℕ, zero, suc, ◌+◌, ◌-◌, ◌*◌, ◌/◌, ◌%◌, ◌^◌, ◌≤◌, ◌<◌, compare, Ordering, ◌≡◌, refl, sym, ap, ap₂,
  ◌∙◌, ◌≢◌, ◌↔◌, ◌⊎◌, inl, inr, Bool, true, false, not, ◌&&◌, ◌||◌, Option, none, some, List, [],
  ◌∷◌, ◌++◌, append-nil, append_assoc, arith, ltb, leb, ◌==◌, if◌then◌else◌, Bool-cases,
  Option-cases, word, word32, ssize_max, sub64, Run, ok, fault, aborted, out_of_fuel, ◌>>=◌,
  Returns, Returns-both, length, get_elem?, take, drop, tabulate, overwrite, length-append,
  length-take, length-drop, length-tabulate, take-append-drop, take-append, drop-append, take-take,
  take-append_of_le, length-overwrite, take-drop, drop-append_cons, take_all, get_elem?-lt,
  get_elem?-take, drop-get_elem?, get_elem?-none, drop_all,
}
use datatypes.Callbacks.{Ptr, null, CompareFunc, by_sign, Freed, free_key, free_value}

-- RBNode
pub data Node : Type 0 where
  leaf : Node
  node : (key value : Ptr) (black : Bool) (left right : Node) → Node

pub data Side : Type 0 where
  to_left to_right : Side

-- A node that the path runs through: the path goes on at its child on the given side, and `other` is
-- the child on the other side.
pub record Step : Type 0 where
  pub key : Ptr
  pub value : Ptr
  pub black : Bool
  pub side : Side
  pub other : Node

abbrev pub step : Ptr → Ptr → Bool → Side → Node → Step
step k v b s n = record { key = k; value = v; black = b; side = s; other = n }

abbrev pub Trail : Type 0
Trail = List Step

pub record RbTree : Type 0 where
  pub root : Node
  pub stack_size : ℕ
  pub count : ℕ
  pub frees_keys : Bool
  pub frees_values : Bool
  pub freed : List Freed

pub data InsertResult : Type 0 where
  is_new is_replaced has_failed : InsertResult

-- the node of a step, with the child that the path goes on at
unfoldable pub link : Step → Node → Node
link p n = elim p.side [
  | to_left ↦ node p.key p.value p.black n p.other
  | to_right ↦ node p.key p.value p.black p.other n
]

-- the root above a node
unfoldable pub plug : Trail → Node → Node
plug [] n = n
plug (p ∷ ps) n = plug ps (link p n)

unfoldable pub init : Bool → Bool → RbTree
init frees_keys frees_values = record {
  root = leaf;
  stack_size = 4;
  count = 0;
  frees_keys = frees_keys;
  frees_values = frees_values;
  freed = [];
}

-- the calls of _rbtree_destroy_node
unfoldable pub destroy_node : RbTree → Node → List Freed
destroy_node t leaf = []
destroy_node t (node k v black l r) =
    destroy_node t l
    ++ (destroy_node t r ++ (free_key t.frees_keys k ++ free_value t.frees_values v))

unfoldable pub clear : RbTree → RbTree
clear t = record t { root = leaf; count = 0; freed = t.freed ++ destroy_node t t.root }

-- The size of the stack after _rbtree_stack_push onto `n` nodes. The write past the end of the stack
-- would be a fault.
unfoldable pub stack_push : ℕ → ℕ → Run ℕ
stack_push stack_size n = do
  size ←
      (if not (n == 0) && leb (stack_size - 1) (n - 1)
        then (if ltb (ssize_max / 8 / 2) stack_size then aborted else ok (stack_size * 2))
        else ok stack_size)
  if ltb n size then ok size else fault

-- _rbnode_is_black
abbrev pub is_black : Node → Bool
is_black leaf = true
is_black (node k v black l r) = black

abbrev pub is_null : Node → Bool
is_null leaf = true
is_null (node k v black l r) = false

-- n->black = black
abbrev pub set_black : Bool → Node → Run Node
set_black black leaf = fault
set_black black (node k v old l r) = ok (node k v black l r)

-- _rbnode_rotate_left: the node that takes the place of the given one
abbrev pub rotate_left : Node → Run Node
rotate_left leaf = fault
rotate_left (node k v b l leaf) = fault
rotate_left (node k v b l (node rk rv rb rl rr)) = ok (node rk rv rb (node k v b l rl) rr)

-- _rbnode_rotate_right
abbrev pub rotate_right : Node → Run Node
rotate_right leaf = fault
rotate_right (node k v b leaf r) = fault
rotate_right (node k v b (node lk lv lb ll lr) r) = ok (node lk lv lb ll (node k v b lr r))

-- Case 4 of _rbtree_insert_case2_to_6: the parent, and the side of it where the node is now.
unfoldable pub insert_case4 : Node → Step → Side → Run (Node × Side)
insert_case4 n p g_side = elim p.side [
  | to_left ↦ elim g_side [
    | to_left ↦ ok (link p n, to_left)
    | to_right ↦ (do up ← rotate_right (link p n); ok (up, to_right))
  ]
  | to_right ↦ elim g_side [
    | to_left ↦ (do up ← rotate_left (link p n); ok (up, to_left))
    | to_right ↦ ok (link p n, to_right)
  ]
]

-- Cases 4 and 5: the new root.
unfoldable pub insert_case5 : Node → Step → Step → Trail → Run Node
unfolding insert_case4 link
insert_case5 n p g ps = do
  (up, side) ← insert_case4 n p g.side
  parent ← set_black true up
  let grandparent = link (record g { black = false }) parent
  top ← elim side [
    | to_left ↦ elim g.side [
      | to_left ↦ rotate_right grandparent
      | to_right ↦ rotate_left grandparent
    ]
    | to_right ↦ rotate_left grandparent
  ]
  ok (plug ps top)

-- _rbtree_insert_case1 at a node and, on a path that is not empty, _rbtree_insert_case2_to_6: the new
-- root. A grandparent above the root would lie before the stack.
unfoldable pub insert_case1 : Node → Trail → Run Node
unfolding link insert_case5
insert_case1 n [] = set_black true n
insert_case1 n (p ∷ []) = if p.black then ok (link p n) else fault
insert_case1 n (p ∷ g ∷ ps) =
    let above = (do
      uncle ← set_black true g.other
      insert_case1
          (link (record g { black = false; other = uncle }) (link (record p { black = true }) n))
          ps) in
    if p.black
    then ok (plug (p ∷ g ∷ ps) n)
    else if not (is_black g.other)
    then above
    else insert_case5 n p g ps

-- the two branches of a test on NULL
abbrev pub if_null {ℓ} : {A : Type ℓ} → Node → A → A → A
if_null leaf x y = x
if_null (node k v b l r) x y = y

module _ (compare_keys : CompareFunc) where
  -- the node that _rbtree_insert_child hangs below the last step, with the repair
  unfoldable pub insert_new : RbTree → Ptr → Ptr → Trail → Run (RbTree × InsertResult)
  unfolding insert_case1 stack_push
  insert_new t key value ps = do
    size ← stack_push t.stack_size (length ps)
    root ← insert_case1 (node key value false leaf leaf) ps
    ok (record t { root = root; stack_size = size; count = t.count + 1 }, is_new)

  -- _rbtree_replace_node
  unfoldable pub replace_node : RbTree → Ptr → Ptr → Bool → Trail → Node → Run RbTree
  replace_node t key value overwrite_key ps leaf = fault
  replace_node t key value overwrite_key ps (node k v b l r) =
      let log =
        (if overwrite_key then free_key t.frees_keys k else []) ++ free_value t.frees_values v in
      ok (record t {
        root = plug ps (node (if overwrite_key then key else k) value b l r);
        freed = t.freed ++ log;
      })

  -- the loop of _rbtree_insert_child, from a node on
  unfoldable pub insert_loop :
      RbTree → Ptr → Ptr → Bool → Node → Trail → Run (RbTree × InsertResult)
  unfolding insert_new stack_push
  insert_loop t key value overwrite_key leaf ps = fault
  insert_loop t key value overwrite_key (node k v b l r) ps = do
    size ← stack_push t.stack_size (length ps)
    let t' = record t { stack_size = size }
    let lefts = step k v b to_left r ∷ ps
    let rights = step k v b to_right l ∷ ps
    let go_left =
        if_null l (insert_new t' key value lefts) (insert_loop t' key value overwrite_key l lefts)
    let go_right =
        if_null r (insert_new t' key value rights) (insert_loop t' key value overwrite_key r rights)
    let replaced = (do
      t'' ← replace_node t' key value overwrite_key ps (node k v b l r)
      ok (t'', is_replaced))
    let room = ltb t.count (word - 1)
    by_sign (compare_keys key k) (if room then go_left else ok (t', has_failed)) replaced
        (if room then go_right else ok (t', has_failed))

  -- rbtree_set, with _rbtree_insert_root
  unfoldable pub set : RbTree → Ptr → Ptr → Bool → Run (RbTree × InsertResult)
  unfolding insert_loop
  set t key value overwrite_key =
      if_null t.root (ok (record t { root = node key value true leaf leaf; count = 1 }, is_new))
        (insert_loop t key value overwrite_key t.root [])
