-- ===== src/RbTree/Height.antt =====
-- How deep a search goes in a tree that follows the rules.
use native.Mathlib.Nat.{two-pow-succ, le_trans, mul-le-mul, pow-le-pow_right}
use datatypes.Base.{
  subst, ℕ, zero, suc, ◌+◌, ◌*◌, ◌^◌, ◌≤◌, ◌<◌, ◌≡◌, refl, sym, ap, ◌∙◌, inl, inr, Bool, true,
  false, [], ◌∷◌, arith, Bool-cases, Returns, length, length-append,
}
use datatypes.Callbacks.{Ptr, CompareFunc, IsOrder}
use datatypes.RbTree.{Side, Node, leaf, node, to_left, to_right, step, Trail, RbTree, link, plug}
use datatypes.RbTree.Erase.{find_node}
use datatypes.RbTree.Entries.{entries}
use datatypes.RbTree.Balance.{weight, black_height, IsRb, IsRbPath, path_black, IsRbPath-at}
use datatypes.RbTree.Descent.{max_count}
use datatypes.RbTree.Lookup.{IsSound, At_root, find_node-Finds}

pow_next : (n : ℕ) → 2 ^ (n + 1) ≡ 2 ^ n + 2 ^ n
pow_next n = ap (λ m. 2 ^ m) (omega arith) ∙ two-pow-succ n

pow_double : (n : ℕ) → 2 ^ (2 * n) ≡ 2 ^ n * 2 ^ n
pow_double zero = refl
pow_double (suc n) =
    let e : 2 ^ (2 * suc n) ≡ 2 ^ (2 * n + 1 + 1) = ap (λ m. 2 ^ m) (omega arith) in
    e ∙ pow_next (2 * n + 1) ∙ rw (pow_next (2 * n), pow_double n, two-pow-succ n) (grind arith)

-- a tree of a black height has at least so many nodes
pow-black_height : (n : Node) → IsRb n → 2 ^ black_height n ≤ length (entries n) + 1
unfolding entries
pow-black_height leaf i = omega arith
pow-black_height (node k v true l r) i =
    let e = length-append (entries l) ((k, v) ∷ entries r) in
    let lower = pow-black_height l i.0 in
    let other : 2 ^ black_height l ≤ length (entries r) + 1 = rw (i.2) (pow-black_height r i.1) in
    rw (pow_next (black_height l)) (omega (arith, e, lower, other))
pow-black_height (node k v false l r) i =
    let e = length-append (entries l) ((k, v) ∷ entries r) in
    let lower = pow-black_height l i.0 in
    let same : 2 ^ (black_height l + 0) ≡ 2 ^ black_height l = ap (λ m. 2 ^ m) (omega arith) in
    omega (arith, e, lower, same)

height-link :
    (k v : Ptr) (b : Bool) (s : Side) (o n : Node)
    → black_height o ≡ black_height n
    → black_height (link (step k v b s o) n) ≡ black_height n + weight b
unfolding link
height-link k v b to_left o n e = refl
height-link k v b to_right o n e = ap (λ h. h + weight b) e

-- at most every other step of a path is red
length_path-black_height :
    (ps : Trail) (n : Node)
    → IsRbPath ps (black_height n)
    → length ps + weight (path_black ps) + 2 * black_height n ≤ 2 * black_height (plug ps n)
unfolding plug
length_path-black_height [] n f = omega arith
length_path-black_height (p ∷ ps) n f =
    let up = height-link p.key p.value p.black p.side p.other n f.1 in
    let rest = length_path-black_height ps (link p n) (IsRbPath-at ps _ _ f.3 (sym up)) in
    elim (Bool-cases p.black) [
      | inl b ↦
          let w : black_height (link p n) ≡ black_height n + 1 =
            up ∙ ap (λ c. black_height n + weight c) b in
          omega (arith, rest, w, ap weight b)
      | inr b ↦
          let w : black_height (link p n) ≡ black_height n =
            up ∙ ap (λ c. black_height n + weight c) b ∙ omega arith in
          let above : path_black ps ≡ true = ground (arith, f.2, b) in
          let rest' : length ps + 1 + 2 * black_height (link p n)
              ≤ 2 * black_height (plug ps (link p n)) =
            subst
              (λ c.
                length ps + weight c + 2 * black_height (link p n)
                ≤ 2 * black_height (plug ps (link p n)))
              above rest in
          omega (arith, rest', w, ap weight b)
    ]

module _ (compare_keys : CompareFunc) where
  -- With an order to compare by, on a sound tree of less than 2^58 nodes, a search ends at a node, or
  -- at a place for one, that is at most 2 log2(n + 1) steps below the root, where n is the count.
  pub find_node-count :
      (order : IsOrder compare_keys) (t : RbTree)
      → IsSound compare_keys t
      → t.count < max_count
      → (build_stack : Bool) (key : Ptr)
      → Returns
          (find_node compare_keys build_stack t.stack_size key t.root [])
          (λ found. 2 ^ length found.1 ≤ (t.count + 1) * (t.count + 1))
  unfolding plug
  find_node-count order t s few build_stack key =
      let ((size, ps, n), run, w) =
        find_node-Finds compare_keys order build_stack key t.stack_size t.stack_size t.root []
          (At_root compare_keys t key t.stack_size s few s.some_stack) (λ e. refl) in
      let high = length_path-black_height ps n w.at.path in
      let top : black_height (plug ps n) ≡ black_height t.root = ap black_height w.tree in
      let deep : length ps ≤ 2 * black_height t.root = omega (arith, high, top) in
      let big : 2 ^ black_height t.root ≤ t.count + 1 =
        omega (arith, pow-black_height t.root s.rules, s.counted) in
      (
        (size, ps, n),
        run,
        le_trans (pow-le-pow_right (omega arith) deep) (
            subst (λ x. x ≤ (t.count + 1) * (t.count + 1)) (sym (pow_double (black_height t.root)))
              (mul-le-mul big big)),
      )
