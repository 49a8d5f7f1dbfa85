-- ===== src/RbTree/Unlink.antt =====
-- The removal of a node of the tree that has a child at most, and the greatest node of a subtree.
use datatypes.Base.{
  ℕ, ◌+◌, ◌≤◌, ◌<◌, ◌≡◌, refl, sym, ◌∙◌, Bool, true, false, ◌&&◌, ◌||◌, List, [], ◌∷◌, ◌++◌,
  append-nil, arith, ok, Returns, length, length-append,
}
use datatypes.Callbacks.{Ptr}
use datatypes.RbTree.{
  Node, leaf, node, to_right, step, Trail, link, plug, is_black, is_null, if_null,
}
use datatypes.RbTree.Erase.{find_max_node, unlink_node, blackened}
use datatypes.RbTree.Entries.{entries, before, behind, entries-plug}
use datatypes.RbTree.Balance.{
  weight, black_height, IsRb, IsRbPath, IsRb-plug, path_black, IsRbPath-at, true_both,
}
use datatypes.RbTree.Descent.{colours, max_count, stack_push-Holds}
use datatypes.RbTree.Shorten.{remove_case1-Shortens}

-- a tree that follows the rules, with given entries
pub record Leaves (es : List (Ptr × Ptr)) (result : ℕ × Node) : Type 0 where
  pub rules : IsRb result.1
  pub black_root : is_black result.1 ≡ true
  pub same : entries result.1 ≡ es
  pub some_stack : 0 < result.0

-- the child that takes the place of the node
child_of :
    (l r : Node)
    → (is_null l || is_null r) ≡ true
    → IsRb l
    → IsRb r
    → black_height l ≡ black_height r
    → IsRb (if_null r l r)
      × (black_height (if_null r l r) ≡ black_height l)
      × (entries (if_null r l r) ≡ entries l ++ entries r)
      × ((is_black l && is_black r) ≡ true → is_black (if_null r l r) ≡ true)
unfolding entries
child_of l leaf e i j h =
    (i, refl, sym (append-nil (entries l)), λ c. (true_both (is_black l) true c).0)
child_of leaf (node k v b l r) e i j h = (j, sym h, refl, λ c. c)
child_of (node k v b l r) (node k' v' b' l' r') e i j h = cc

-- the child at the root
root_child :
    (child : Node)
    → IsRb child
    → IsRb (blackened child)
      × (is_black (blackened child) ≡ true)
      × (entries (blackened child) ≡ entries child)
unfolding entries
root_child leaf i = (tt, refl, refl)
root_child (node k v b l r) i = ((i.0, i.1, i.2, refl), refl, refl)

-- The node with its one child below the path: what is left is a tree with the other entries.
pub unlink_node-Leaves :
    (size : ℕ) (ps : Trail) (k v : Ptr) (b : Bool) (l r : Node)
    → (is_null l || is_null r) ≡ true
    → IsRb (node k v b l r)
    → IsRbPath ps (black_height l + weight b)
    → (b || path_black ps) ≡ true
    → length ps + 1 ≤ size
    → length ps + 1 < max_count
    → Returns
        (unlink_node size ps (node k v b l r))
        (Leaves (before ps ++ ((entries l ++ entries r) ++ behind ps)))
unfolding unlink_node before behind
unlink_node-Leaves size [] k v false l r one i f c room few = cc
unlink_node-Leaves size [] k v true l r one i f c room few =
    let (rules, height, same, black) = child_of l r one i.0 i.1 i.2 in
    let (root_rules, root_black, root_same) = root_child (if_null r l r) rules in
    let (res, run, w) = remove_case1-Shortens 2 size [] 0 (omega arith) tt room few in
    (
      (res.0, _),
      rw run,
      record {
        rules = root_rules;
        black_root = root_black;
        same = root_same ∙ same ∙ sym (append-nil (entries l ++ entries r));
        some_stack = w.some_stack;
      },
    )
unlink_node-Leaves size (p ∷ ps) k v false l r one i f c room few =
    let (rules, height, same, black) = child_of l r one i.0 i.1 i.2 in
    let (root_rules, root_black) =
      IsRb-plug (p ∷ ps) (if_null r l r) rules (rw (black i.3))
        (IsRbPath-at (p ∷ ps) _ _ f (omega (arith, height))) in
    (
      (size, plug (p ∷ ps) (if_null r l r)),
      refl,
      record {
        rules = root_rules;
        black_root = root_black;
        same = entries-plug (p ∷ ps) (if_null r l r) ∙ rw same;
        some_stack = omega (arith, room);
      },
    )
unlink_node-Leaves size (p ∷ ps) k v true l r one i f c room few =
    let (rules, height, same, black) = child_of l r one i.0 i.1 i.2 in
    let ((size', ps'), run, w) =
      remove_case1-Shortens (length (p ∷ ps) + 2) size (p ∷ ps) (black_height l) (omega arith) f
        room few in
    let (root_rules, root_black) =
      IsRb-plug ps' (if_null r l r) rules (ground (arith, w.top refl))
        (IsRbPath-at ps' _ _ w.path (sym height)) in
    (
      (size', plug ps' (if_null r l r)),
      rw run,
      record {
        rules = root_rules;
        black_root = root_black;
        same = entries-plug ps' (if_null r l r) ∙ rw (same, w.same_before, w.same_behind);
        some_stack = w.some_stack;
      },
    )

-- the greatest node of a subtree, and the path to it from above
pub record IsMax (c : ℕ) (acc : Trail) (n : Node) (result : ℕ × Trail × Node) : Type 0 where
  pub key : Ptr
  pub value : Ptr
  pub black : Bool
  pub left : Node
  pub end : result.2 ≡ node key value black left leaf
  pub held : length result.1 + c < result.0
  pub tree : plug result.1 result.2 ≡ plug acc n
  pub nothing_behind : behind result.1 ≡ []
  pub rules : IsRb result.2
  pub fits :
      (qs : Trail)
      → IsRbPath (acc ++ qs) (black_height n)
      → (is_black n || path_black (acc ++ qs)) ≡ true
      → IsRbPath (result.1 ++ qs) (black_height result.2)
        × ((is_black result.2 || path_black (result.1 ++ qs)) ≡ true)

-- one step down to the right, which is absent or takes the search on
IsMax-below :
    (c m size' : ℕ) (acc : Trail) (k v : Ptr) (b : Bool) (l r : Node)
    → length acc + c < size'
    → IsRb (node k v b l r)
    → behind acc ≡ []
    → let acc' = step k v b to_right l ∷ acc in
      (is_null r ≡ false → Returns (find_max_node size' (m + 1) r acc') (IsMax c acc' r))
      → Returns
          (if_null r (ok (size', acc, node k v b l r)) (find_max_node size' (m + 1) r acc'))
          (IsMax c acc (node k v b l r))
unfolding plug link
IsMax-below c m size' acc k v b l leaf held i e f = (
  (size', acc, node k v b l leaf),
  refl,
  record {
    key = k;
    value = v;
    black = b;
    left = l;
    end = refl;
    held = held;
    tree = refl;
    nothing_behind = e;
    rules = i;
    fits = λ qs f g. (f, g);
  },
)
IsMax-below c m size' acc k v b l (node rk rv rb rl rr) held i e f =
    let r = node rk rv rb rl rr in
    let (res, run, w) = f refl in
    (
      res,
      run,
      record {
        key = w.key;
        value = w.value;
        black = w.black;
        left = w.left;
        end = w.end;
        held = w.held;
        tree = w.tree;
        nothing_behind = w.nothing_behind;
        rules = w.rules;
        fits = λ qs f g.
            let shades = colours b (is_black l) (is_black r) (path_black (acc ++ qs)) i.3 g in
            w.fits qs (i.0, i.2, shades.2, IsRbPath-at (acc ++ qs) _ _ f (omega (arith, i.2)))
              shades.3;
      },
    )

pub find_max_node-IsMax :
    (c m size : ℕ) (acc : Trail) (n : Node)
    → m ≡ length acc + c
    → is_null n ≡ false
    → IsRb n
    → behind acc ≡ []
    → 0 < size
    → m ≤ size
    → m + length (entries n) < max_count
    → Returns (find_max_node size m n acc) (IsMax c acc n)
unfolding find_max_node entries behind
find_max_node-IsMax c m size acc leaf at e i b pos room few = cc
find_max_node-IsMax c m size acc (node k v black l r) at e i b pos room few =
    let (size', pushed, held) = stack_push-Holds size m pos room (omega (arith, few)) in
    let (res, run, w) = IsMax-below c m size' acc k v black l r (omega (arith, held, at)) i b λ f.
      find_max_node-IsMax c (m + 1) size' (step k v black to_right l ∷ acc) r (omega (arith, at)) f
        i.1 b (omega (arith, held)) (omega (arith, held))
        (omega (arith, few, length-append (entries l) ((k, v) ∷ entries r))) in
    (res, rw (pushed, run), w)
