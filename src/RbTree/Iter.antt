-- ===== src/RbTree/Iter.antt =====
-- The iterator of rbtree.c. It holds a copy of the tree's root, since the tree must not change while
-- the iterator is used.
use datatypes.Base.{
  ℕ, zero, suc, ◌+◌, ◌*◌, Bool, true, false, not, Option, none, some, List, [], ◌∷◌, ltb, ◌==◌,
  if◌then◌else◌, Run, ok, fault, out_of_fuel, ◌>>=◌, length,
}
use datatypes.Callbacks.{Ptr, null}
use datatypes.RbTree.{Node, leaf, node, RbTree, if_null}

-- RBTreeIterStackItem
pub record Item : Type 0 where
  pub node : Node
  pub state : ℕ

-- The cells of the stack, where `none` is a pointer that was never set, and the used ones, the top
-- first. `sp` is `none` for NULL, and `some []` once it points before the stack.
pub record Iter : Type 0 where
  pub root : Node
  pub cells : Option ℕ
  pub stack_size : ℕ
  pub sp : Option (List Item)
  pub finished : Bool

abbrev pub item : Node → ℕ → Item
item n state = record { node = n; state = state }

unfoldable pub iter_init : RbTree → Iter
iter_init t = record {
  root = t.root;
  cells = if_null t.root none (some (t.count + 1));
  stack_size = t.count + 1;
  sp = none;
  finished = if_null t.root true false;
}

-- what becomes of the cells
unfoldable pub iter_free : Iter → Run (Option ℕ)
iter_free it = elim it.cells [ none ↦ fault | some cells ↦ ok none ]

unfoldable pub iter_reuse : RbTree → Iter → Run Iter
iter_reuse t it = if_null t.root (ok (record it { root = t.root; sp = none; finished = true })) (
    if ltb it.stack_size (t.count + 1)
    then elim it.cells [
      | none ↦ fault
      | some cells ↦ ok (record it {
        root = t.root;
        cells = some (t.count + 1);
        stack_size = t.count + 1;
        sp = none;
        finished = false;
      })
    ]
    else ok (record it { root = t.root; sp = none; finished = false }))

-- A write above the used cells, where there must be one.
unfoldable pub push_item : Option ℕ → List Item → Node → Run (List Item)
push_item none items n = fault
push_item (some cells) items n = if ltb (length items) cells then ok (item n 0 ∷ items) else fault

abbrev pub left_of : Node → Run Node
left_of leaf = fault
left_of (node k v b l r) = ok l

abbrev pub right_of : Node → Run Node
right_of leaf = fault
right_of (node k v b l r) = ok r

-- one round of the loop of rbtree_iter_next, up to the tests; a failed assertion is a fault
unfoldable pub advance : Option ℕ → List Item → Run (List Item)
unfolding push_item
advance cells [] = fault
advance cells (i ∷ items) =
    if i.state == 0
    then (do l ← left_of i.node; push_item cells (record i { state = 1 } ∷ items) l)
    else if i.state == 1
    then (do r ← right_of i.node; push_item cells (record i { state = 2 } ∷ items) r)
    else if i.state == 2
    then ok items
    else fault

-- the tests, where `again` goes on with the loop
unfoldable pub settle : (List Item → Run (List Item × Bool)) → List Item → Run (List Item × Bool)
settle again [] = ok ([], false)
settle again (i ∷ items) =
    if_null i.node (again items) (if i.state == 0 then ok (i ∷ items, true) else again (i ∷ items))

-- the loop of rbtree_iter_next: the used cells, and the result
unfoldable pub next_loop : ℕ → Option ℕ → List Item → Run (List Item × Bool)
unfolding advance settle
next_loop zero cells items = out_of_fuel
next_loop (suc fuel) cells items = do
  items' ← advance cells items
  settle (next_loop fuel cells) items'

-- Every node costs three rounds at most, and the stack has more cells than there are nodes.
unfoldable pub iter_next : Iter → Run (Iter × Bool)
unfolding next_loop push_item
iter_next it = if it.finished then ok (it, false) else elim it.sp [
  | none ↦ (do items ← push_item it.cells [] it.root; ok (record it { sp = some items }, true))
  | some items ↦ (do
    (items', more) ← next_loop (3 * it.stack_size) it.cells items
    ok (record it { sp = some items'; finished = not more }, more))
]

-- rbtree_iter_get_key and rbtree_iter_get_value
unfoldable pub iter_get : Iter → Run (Ptr × Ptr)
iter_get it = elim it.sp [
  | none ↦ ok (null, null)
  | some items ↦ elim items [
    | [] ↦ fault
    | i ∷ rest ↦ elim i.node [ leaf ↦ ok (null, null) | node k v b l r ↦ ok (k, v) ]
  ]
]
