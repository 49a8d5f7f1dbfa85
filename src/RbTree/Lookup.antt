-- ===== src/RbTree/Lookup.antt =====
-- The search for a key: _rbtree_find_node, rbtree_lookup and rbtree_key_exists.
use datatypes.Base.{
  ℕ, ◌+◌, ◌<◌, Ordering, ◌≡◌, refl, sym, ap, ◌∙◌, inl, inr, Bool, true, false, Option, none, some,
  [], ◌∷◌, ◌++◌, append_assoc, arith, if◌then◌else◌, Bool-cases, Run, ok, ◌>>=◌, Returns, length,
}
use datatypes.Callbacks.{Ptr, CompareFunc, IsOrder, Ordering-cases}
use datatypes.AssocArray.Table.{find}
use datatypes.RbTree.{
  Node, leaf, node, to_left, to_right, step, Trail, RbTree, link, plug, is_black, stack_push,
}
use datatypes.RbTree.Erase.{find_node, lookup, key_exists, pair_get}
use datatypes.RbTree.Entries.{entries, before, behind, entries-plug}
use datatypes.RbTree.Balance.{IsRb}
use datatypes.RbTree.Order.{IsOrdered, AllLess-append, find_between, find_at}
use datatypes.RbTree.Descent.{
  At_stack, max_count, stack_push-Holds, At, At-few, At-left, At-right, At-less,
}
use datatypes.RbTree.Update.{is_some}

-- The invariant of a tree: the red-black rules, a black root, and the order of the keys.
pub record IsSound (compare_keys : CompareFunc) (t : RbTree) : Type 0 where
  pub rules : IsRb t.root
  pub black_root : is_black t.root ≡ true
  pub ordered : IsOrdered compare_keys (entries t.root)
  pub counted : t.count ≡ length (entries t.root)
  pub some_stack : 0 < t.stack_size

module _ (compare_keys : CompareFunc) where
  pub At_root :
      (t : RbTree) (key : Ptr) (size : ℕ)
      → IsSound compare_keys t
      → t.count < max_count
      → 0 < size
      → At compare_keys size key [] t.root
  unfolding plug before behind
  At_root t key size s few pos = record {
    rules = s.rules;
    path = tt;
    colour = rw (s.black_root);
    less = tt;
    greater = tt;
    ordered = s.ordered;
    few = omega (arith, few, s.counted);
    some_stack = pos;
    room = omega arith;
  }

  -- the node with an equal key, and that it has been pushed
  abbrev pub Hits : Bool → ℕ → Ptr → Trail → Node → Type 0
  Hits build_stack size key ps leaf = Unit
  Hits build_stack size key ps (node k v b l r) =
      (compare_keys key k ≡ Ordering.eq) × (build_stack ≡ true → length ps < size)

  -- Where the search ends: in the same tree, at an equal key or where one would be.
  pub record Finds (build_stack : Bool) (key : Ptr) (root : Node) (found : ℕ × Trail × Node)
      : Type 0 where
    pub tree : plug found.1 found.2 ≡ root
    pub stack_size : ℕ
    pub kept : build_stack ≡ true → stack_size ≡ found.0
    pub at : At compare_keys stack_size key found.1 found.2
    pub hits : Hits build_stack found.0 key found.1 found.2

  module _ (order : IsOrder compare_keys) (build_stack : Bool) (key : Ptr) where
    pushed :
        (size g : ℕ) (ps : Trail) (n : Node)
        → At compare_keys g key ps n
        → (build_stack ≡ true → g ≡ size)
        → Returns
            (if build_stack then stack_push size (length ps) else ok size)
            λ s. (g' : ℕ) × (length ps < g') × (build_stack ≡ true → g' ≡ s)
    pushed size g ps n a same = elim (Bool-cases build_stack) [
      | inl yes_do ↦
          let e = same yes_do in
          let (s, run, held) =
            stack_push-Holds size (length ps) (omega (arith, a.some_stack, e))
              (omega (arith, a.room, e)) (At-few compare_keys g key ps n a) in
          (s, rw yes_do run, (s, held, λ f. refl))
      | inr no_do ↦
          (size, rw no_do, (length ps + 1, omega arith, λ f. absurd (ground (arith, no_do, f))))
    ]

    pub find_node-Finds :
        (size g : ℕ) (n : Node) (ps : Trail)
        → At compare_keys g key ps n
        → (build_stack ≡ true → g ≡ size)
        → Returns
            (find_node compare_keys build_stack size key n ps)
            (Finds build_stack key (plug ps n))
    unfolding find_node plug link
    find_node-Finds size g leaf ps a same = (
      (size, ps, leaf),
      refl,
      record { tree = refl; stack_size = g; kept = same; at = a; hits = tt },
    )
    find_node-Finds size g (node k v b l r) ps a same =
        let (s, run, (g', held, same')) = pushed size g ps (node k v b l r) a same in
        elim (Ordering-cases (compare_keys key k)) [
          | inl c ↦
              let ps' = step k v b to_left r ∷ ps in
              let (res, run', w) =
                find_node-Finds s g' l ps'
                  (At-left compare_keys order key k v b l r ps g a g' held c) same' in
              (res, rw (run, c, run'), w)
          | inr (inl c) ↦ (
            (s, ps, node k v b l r),
            rw (run, c),
            record {
              tree = refl;
              stack_size = g';
              kept = same';
              at = At_stack compare_keys g g' key ps (node k v b l r) a held;
              hits = (c, λ f. omega (arith, held, same' f));
            },
          )
          | inr (inr c) ↦
              let ps' = step k v b to_right l ∷ ps in
              let (res, run', w) =
                find_node-Finds s g' r ps'
                  (At-right compare_keys order key k v b l r ps g a g' held c) same' in
              (res, rw (run, c, run'), w)
        ]

  -- the entry that a search ends at
  abbrev pub entry_of : Node → Option (Ptr × Ptr)
  entry_of leaf = none
  entry_of (node k v b l r) = some (k, v)

  pub find-entry_of :
      (order : IsOrder compare_keys) (b : Bool) (key : Ptr) (root : Node) (found : ℕ × Trail × Node)
      → Finds b key root found
      → find compare_keys key (entries root) ≡ entry_of found.2
  unfolding entries
  find-entry_of order b key root (size, ps, leaf) w =
      ap (λ n. find compare_keys key (entries n)) (sym w.tree)
      ∙ ap (find compare_keys key) (entries-plug ps leaf)
      ∙ (find_between compare_keys key (before ps) (behind ps) w.at.less w.at.greater).0
  find-entry_of order b key root (size, ps, node k v c l r) w =
      let split : entries (plug ps (node k v c l r))
          ≡ (before ps ++ entries l) ++ (k, v) ∷ (entries r ++ behind ps) =
        entries-plug ps (node k v c l r) ∙ simp append_assoc in
      ap (λ n. find compare_keys key (entries n)) (sym w.tree)
      ∙ ap (find compare_keys key) split
      ∙ (find_at compare_keys key k v w.hits.0 (before ps ++ entries l) (entries r ++ behind ps) (
          AllLess-append compare_keys key (before ps) (entries l) w.at.less
            (At-less compare_keys order key k v c l r ps w.stack_size w.at w.hits.0))).0

  -- what the caller of rbtree_lookup reads
  unfoldable pub get : RbTree → Ptr → Run (Option (Ptr × Ptr))
  get t key = do
    found ← lookup compare_keys t key
    elim found [ none ↦ ok none | some pair ↦ (do e ← pair_get pair; ok (some e)) ]

  get_found :
      (t : RbTree) (key : Ptr) (found : ℕ × Trail × Node)
      → find_node compare_keys false t.stack_size key t.root [] ≡ ok found
      → (get t key ≡ ok (entry_of found.2))
        × (key_exists compare_keys t key ≡ ok (is_some (entry_of found.2)))
  unfolding get lookup key_exists pair_get
  get_found t key (size, ps, leaf) run = (rw run, rw run)
  get_found t key (size, ps, node k v b l r) run = (rw run, rw run)

  -- With an order to compare by, on a sound tree of less than 2^58 nodes, the caller of rbtree_lookup
  -- reads the entry of the equal key in the list of the entries, or gets NULL if there is none, and
  -- rbtree_key_exists says whether there is one.
  pub get-entries :
      (order : IsOrder compare_keys) (t : RbTree)
      → IsSound compare_keys t
      → t.count < max_count
      → (key : Ptr)
      → (get t key ≡ ok (find compare_keys key (entries t.root)))
        × (key_exists compare_keys t key ≡ ok (is_some (find compare_keys key (entries t.root))))
  unfolding plug
  get-entries order t s few key =
      let (found, run, w) =
        find_node-Finds order false key t.stack_size 1 t.root []
          (At_root t key 1 s few (omega arith)) (λ f. cc) in
      let same = find-entry_of order false key (plug [] t.root) found w in
      rw same (get_found t key found run)
