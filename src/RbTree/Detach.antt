-- ===== src/RbTree/Detach.antt =====
-- How the found node of rbtree_remove goes away: it, or the greatest node on its left in its place.
use datatypes.Base.{
  subst, ℕ, ◌+◌, ◌≤◌, ◌<◌, ◌≡◌, refl, sym, ap, ◌∙◌, Bool, true, false, ◌||◌, [], ◌∷◌, ◌++◌,
  append-nil, append_assoc, arith, ok, ◌>>=◌, Returns, length, length-append,
}
use datatypes.Callbacks.{Ptr}
use datatypes.RbTree.{Node, leaf, node, to_left, step, Trail, plug, is_black, is_null}
use datatypes.RbTree.Erase.{find_max_node, pair_get, unlink_node}
use datatypes.RbTree.Entries.{entries, before, behind, entries-plug}
use datatypes.RbTree.Balance.{black_height, IsRb, IsRbPath, path_black}
use datatypes.RbTree.Descent.{colours, max_count, length_path}
use datatypes.RbTree.Unlink.{Leaves, unlink_node-Leaves, find_max_node-IsMax}

-- the path and the colours fit, and the stack holds the path and the node
pub record Fits (size : ℕ) (ps : Trail) (n : Node) : Type 0 where
  pub rules : IsRb n
  pub path : IsRbPath ps (black_height n)
  pub colour : (is_black n || path_black ps) ≡ true
  pub room : length ps + 1 ≤ size
  pub few : length (entries (plug ps n)) < max_count

-- the length of a path in a tree with a node below it
length-plug :
    (ps : Trail) (n : Node) → length ps + length (entries n) ≤ length (entries (plug ps n))
length-plug ps n = omega (
  arith,
  length_path ps,
  ap length (entries-plug ps n),
  length-append (before ps) (entries n ++ behind ps),
  length-append (entries n) (behind ps),
)

before-append : (ps qs : Trail) → before (ps ++ qs) ≡ before qs ++ before ps
unfolding before
before-append [] qs = sym (append-nil (before qs))
before-append (p ∷ ps) qs = rw (before-append ps qs) (simp append_assoc)

behind-append : (ps qs : Trail) → behind (ps ++ qs) ≡ behind ps ++ behind qs
unfolding behind
behind-append [] qs = refl
behind-append (p ∷ ps) qs = rw (behind-append ps qs) (simp append_assoc)

-- A node with a child at most goes away, and no other entry.
pub unlink_one :
    (size : ℕ) (ps : Trail) (k v : Ptr) (b : Bool) (l r : Node)
    → (is_null l || is_null r) ≡ true
    → Fits size ps (node k v b l r)
    → Returns
        (unlink_node size ps (node k v b l r))
        (Leaves ((before ps ++ entries l) ++ (entries r ++ behind ps)))
unfolding entries
unlink_one size ps k v b l r one f =
    let few : length ps + 1 < max_count = omega (
      arith,
      f.few,
      length-plug ps (node k v b l r),
      length-append (entries l) ((k, v) ∷ entries r),
    ) in
    subst (λ es. Returns (unlink_node size ps (node k v b l r)) (Leaves es)) (simp append_assoc)
      (unlink_node-Leaves size ps k v b l r one f.rules f.path f.colour f.room few)

-- The greatest node on the left goes away from below a node that has its entry now.
unlink_max :
    (size : ℕ) (above ps : Trail) (k v mk mv : Ptr) (b mb : Bool) (ml r : Node) (l m : Node)
    → m ≡ node mk mv mb ml leaf
    → plug above m ≡ l
    → behind above ≡ []
    → IsRb m
    → let ps' = above ++ step mk mv b to_left r ∷ ps in
      IsRbPath ps' (black_height m) × ((is_black m || path_black ps') ≡ true)
      → length above + (length ps + 1) < size
      → length (entries (plug ps (node k v b l r))) < max_count
      → Returns
          (unlink_node size ps' m)
          (Leaves ((before ps ++ entries l) ++ (entries r ++ behind ps)))
unfolding entries before behind
unlink_max size above ps k v mk mv b mb ml r l m e tree nothing i (path, colour) room few =
    let last = node mk mv mb ml leaf in
    let ps' = above ++ step mk mv b to_left r ∷ ps in
    let front : before ps' ≡ before ps ++ before above =
      before-append above (step mk mv b to_left r ∷ ps) ∙ simp append-nil in
    let back : behind ps' ≡ (mk, mv) ∷ (entries r ++ behind ps) =
      behind-append above (step mk mv b to_left r ∷ ps) ∙ rw nothing in
    let inside : before above ++ (entries ml ++ (mk, mv) ∷ []) ≡ entries l =
      sym (ap entries (sym tree) ∙ entries-plug above m ∙ rw (nothing, e) (simp append-nil)) in
    let total = length-plug ps (node k v b l r) in
    let all = length-append (entries l) ((k, v) ∷ entries r) in
    let deep = length-plug above m in
    let filled : 1 ≤ length (entries m) =
      rw e (omega (arith, length-append (entries ml) ((mk, mv) ∷ []))) in
    let left = ap (λ n. length (entries n)) tree in
    let long = length-append above (step mk mv b to_left r ∷ ps) in
    subst (λ es. Returns (unlink_node size ps' m) (Leaves es))
      (rw (front, back, sym inside) (simp (append_assoc, append-nil)))
      (subst
        (λ n.
          Returns (unlink_node size ps' n)
            (Leaves (before ps' ++ ((entries ml ++ []) ++ behind ps'))))
        (sym e)
        (unlink_node-Leaves size ps' mk mv mb ml leaf (ground arith) (subst (λ n. IsRb n) e i)
          (subst (λ n. IsRbPath ps' (black_height n)) e path)
          (subst (λ n. (is_black n || path_black ps') ≡ true) e colour) (omega (arith, room, long))
          (omega (arith, few, total, all, deep, filled, left, long))))

pair_get_of :
    (m : Node) {k v : Ptr} {b : Bool} {l r : Node} (ps : Trail)
    → m ≡ node k v b l r
    → pair_get (ps, m) ≡ ok (k, v)
unfolding pair_get
pair_get_of m ps e = rw e

-- A node with two children takes the entry of the greatest node on its left, which goes away.
pub unlink_two :
    (size : ℕ) (ps : Trail) (k v : Ptr) (b : Bool) (l r : Node)
    → is_null l ≡ false
    → Fits size ps (node k v b l r)
    → Returns
        (do
          (size', above, max) ← find_max_node size (length ps + 1) l []
          (mk, mv) ← pair_get ([], max)
          unlink_node size' (above ++ step mk mv b to_left r ∷ ps) max)
        (Leaves ((before ps ++ entries l) ++ (entries r ++ behind ps)))
unfolding pair_get plug entries
unlink_two size ps k v b l r some_left f =
    let all = length-append (entries l) ((k, v) ∷ entries r) in
    let total = length-plug ps (node k v b l r) in
    let ((size', above, max), run, w) =
      find_max_node-IsMax (length ps + 1) (length ps + 1) size [] l (omega arith) some_left
        f.rules.0 (unfold behind in refl) (omega (arith, f.room)) f.room
        (omega (arith, f.few, total, all)) in
    let shades = colours b (is_black l) (is_black r) (path_black ps) f.rules.3 f.colour in
    let fit =
      w.fits (step w.key w.value b to_left r ∷ ps) (f.rules.1, sym f.rules.2, shades.0, f.path)
        shades.1 in
    let ((size'', root), run', u) =
      unlink_max size' above ps k v w.key w.value b w.black w.left r l max w.end w.tree
        w.nothing_behind w.rules fit w.held f.few in
    ((size'', root), rw (run, pair_get_of max [] w.end) run', u)
