-- ===== src/RbTree/Descent.antt =====
-- What holds at every node on the way down the tree, and the memory of the stack.
use datatypes.Base.{
  subst, ℕ, ◌+◌, ◌-◌, ◌*◌, ◌/◌, ◌^◌, ◌≤◌, ◌<◌, Ordering, ◌≡◌, refl, sym, ap, ◌∙◌, inl, inr, Bool,
  true, false, not, ◌&&◌, ◌||◌, [], ◌∷◌, ◌++◌, append-nil, append_assoc, arith, ltb, leb, ◌==◌,
  Bool-cases, ssize_max, Returns, length, length-append,
}
use datatypes.Callbacks.{Ptr, CompareFunc, IsOrder}
use datatypes.RbTree.{Node, node, to_left, to_right, step, Trail, link, plug, is_black, stack_push}
use datatypes.RbTree.Entries.{
  entries, before, behind, before_step, behind_step, Side-cases, entries-plug,
}
use datatypes.RbTree.Balance.{black_height, IsRb, IsRbPath, path_black, IsRbPath-at}
use datatypes.RbTree.Order.{
  AllLess-eq, AllGreater, AllLess, IsOrdered, AllGreater-append, AllLess-append, AllGreater-below,
  AllLess-above, IsOrdered-around, AllLess-parts, AllGreater-parts,
}

-- more nodes than the memory of a computer holds
abbrev pub max_count : ℕ
max_count = 2 ^ 58

-- With a stack that has room for the nodes on it, and less than 2^58 of them, _rbtree_stack_push
-- neither writes past the end nor aborts, and makes room for one more.
pub stack_push-Holds :
    (size n : ℕ) → 0 < size → n ≤ size → n < max_count → Returns (stack_push size n) λ s. n < s
unfolding stack_push
stack_push-Holds size n pos room few = elim (Bool-cases (not (n == 0) && leb (size - 1) (n - 1))) [
  | inl full ↦
      let small : ltb (ssize_max / 8 / 2) size ≡ false = ground (arith, full) in
      let enough : ltb n (size * 2) ≡ true = ground arith in
      (size * 2, rw (full, small, enough), omega arith)
  | inr roomy ↦
      let enough : ltb n size ≡ true = ground (arith, roomy) in
      (size, rw (roomy, enough), ground (arith, enough))
]

pub length_path : (ps : Trail) → length ps ≤ length (before ps) + length (behind ps)
unfolding before behind
length_path [] = omega arith
length_path (p ∷ ps) =
    let grown : 0 < length (before_step p) + length (behind_step p) = elim (Side-cases p.side) [
      | inl e ↦ rw e (omega arith)
      | inr e ↦ rw e (omega (arith, length-append (entries p.other) ((p.key, p.value) ∷ [])))
    ] in
    omega (
      arith,
      grown,
      length_path ps,
      length-append (before ps) (before_step p),
      length-append (behind_step p) (behind ps),
    )

-- the colours of a node, its children and what is above it
pub colours :
    (b l r up : Bool)
    → (b || (l && r)) ≡ true
    → (b || up) ≡ true
    → ((b || (r && up)) ≡ true) × ((l || b) ≡ true) × ((b || (l && up)) ≡ true) × ((r || b) ≡ true)
colours true true true up c f = (refl, refl, refl, refl)
colours true true false up c f = (refl, refl, refl, refl)
colours true false true up c f = (refl, refl, refl, refl)
colours true false false up c f = (refl, refl, refl, refl)
colours false true true up c f = (f, refl, f, refl)
colours false true false up c f = cc
colours false false r up c f = cc

module _ (compare_keys : CompareFunc) where
  -- The current node, and the path to it, in the search for a key.
  pub record At (stack_size : ℕ) (key : Ptr) (ps : Trail) (n : Node) : Type 0 where
    pub rules : IsRb n
    pub path : IsRbPath ps (black_height n)
    pub colour : (is_black n || path_black ps) ≡ true
    pub less : AllLess compare_keys key (before ps)
    pub greater : AllGreater compare_keys key (behind ps)
    pub ordered : IsOrdered compare_keys (entries (plug ps n))
    pub few : length (entries (plug ps n)) < max_count
    pub some_stack : 0 < stack_size
    pub room : length ps ≤ stack_size

  pub At-few :
      (size : ℕ) (key : Ptr) (ps : Trail) (n : Node) → At size key ps n → length ps < max_count
  At-few size key ps n a = omega (
    arith,
    length_path ps,
    a.few,
    ap length (entries-plug ps n),
    length-append (before ps) (entries n ++ behind ps),
    length-append (entries n) (behind ps),
  )

  pub At_stack :
      (size size' : ℕ) (key : Ptr) (ps : Trail) (n : Node)
      → At size key ps n
      → length ps < size'
      → At size' key ps n
  At_stack size size' key ps n a held = record {
    rules = a.rules;
    path = a.path;
    colour = a.colour;
    less = a.less;
    greater = a.greater;
    ordered = a.ordered;
    few = a.few;
    some_stack = omega (arith, held);
    room = omega (arith, held);
  }

  module _ (order : IsOrder compare_keys) (key k v : Ptr) (b : Bool) (l r : Node) (ps : Trail)
      (size : ℕ) (a : At size key ps (node k v b l r)) where
    around : AllLess compare_keys k (entries l) × AllGreater compare_keys k (entries r)
    unfolding entries
    around =
        let split : entries (plug ps (node k v b l r))
            ≡ (before ps ++ entries l) ++ (k, v) ∷ (entries r ++ behind ps) =
          entries-plug ps (node k v b l r) ∙ simp append_assoc in
        let (_, _, less, greater) =
          IsOrdered-around compare_keys order (before ps ++ entries l) k v (entries r ++ behind ps)
            (subst (λ x. IsOrdered compare_keys x) split a.ordered) in
        (
          (AllLess-parts compare_keys k (before ps) (entries l) less).1,
          (AllGreater-parts compare_keys k (entries r) (behind ps) greater).0,
        )

    -- at an equal key, what stands to the left is less
    pub At-less : compare_keys key k ≡ Ordering.eq → AllLess compare_keys key (entries l)
    At-less e = AllLess-eq compare_keys order key k (entries l) e around.0

    shades :
        ((b || (is_black r && path_black ps)) ≡ true)
        × ((is_black l || b) ≡ true)
        × ((b || (is_black l && path_black ps)) ≡ true)
        × ((is_black r || b) ≡ true)
    shades = colours b (is_black l) (is_black r) (path_black ps) a.rules.3 a.colour

    pub At-left :
        (size' : ℕ)
        → length ps < size'
        → compare_keys key k ≡ Ordering.lt
        → At size' key (step k v b to_left r ∷ ps) l
    unfolding plug link before behind
    At-left size' room e = record {
      rules = a.rules.0;
      path = (a.rules.1, sym a.rules.2, shades.0, a.path);
      colour = shades.1;
      less = subst (λ x. AllLess compare_keys key x) (sym (append-nil (before ps))) a.less;
      greater =
          AllGreater-append compare_keys key ((k, v) ∷ entries r) (behind ps)
            (e, AllGreater-below compare_keys order key k (entries r) e around.1) a.greater;
      ordered = a.ordered;
      few = a.few;
      some_stack = omega (arith, room);
      room = omega (arith, room);
    }

    pub At-right :
        (size' : ℕ)
        → length ps < size'
        → compare_keys key k ≡ Ordering.gt
        → At size' key (step k v b to_right l ∷ ps) r
    unfolding plug link before behind
    At-right size' room e = record {
      rules = a.rules.1;
      path = (a.rules.0, a.rules.2, shades.2, IsRbPath-at ps _ _ a.path (omega (arith, a.rules.2)));
      colour = shades.3;
      less = AllLess-append compare_keys key (before ps) (entries l ++ (k, v) ∷ []) a.less (
          AllLess-append compare_keys key (entries l) ((k, v) ∷ [])
            (AllLess-above compare_keys order key k (entries l) e around.0) (e, tt));
      greater = a.greater;
      ordered = a.ordered;
      few = a.few;
      some_stack = omega (arith, room);
      room = omega (arith, room);
    }
