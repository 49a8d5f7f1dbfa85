-- ===== src/RbTree/Remove.antt =====
-- rbtree_remove against the entries.
use datatypes.Base.{
  subst, ℕ, ◌+◌, ◌-◌, ◌≤◌, ◌<◌, ◌≡◌, refl, sym, ap, ◌∙◌, inl, inr, Bool, true, false, [], ◌∷◌, ◌++◌,
  append-nil, append_assoc, arith, if◌then◌else◌, Bool-cases, ◌>>=◌, Returns, length, length-append,
}
use datatypes.Callbacks.{Ptr, CompareFunc, IsOrder, free_key, free_value}
use datatypes.AssocArray.Table.{Entries, erase, find}
use datatypes.RbTree.{Node, leaf, node, to_left, step, Trail, RbTree, plug, is_black, if_null}
use datatypes.RbTree.Erase.{find_max_node, pair_get, unlink_node, remove_found, remove}
use datatypes.RbTree.Entries.{entries, before, behind, entries-plug}
use datatypes.RbTree.Balance.{IsRb, IsRb-plug}
use datatypes.RbTree.Order.{AllLess-append, IsOrdered, IsOrdered-drop, find_at, find_between}
use datatypes.RbTree.Descent.{max_count, At-less}
use datatypes.RbTree.Update.{discarded, is_some}
use datatypes.RbTree.Unlink.{Leaves}
use datatypes.RbTree.Detach.{Fits, unlink_one, unlink_two}
use datatypes.RbTree.Lookup.{IsSound, At_root, Finds, find_node-Finds}

module _ (compare_keys : CompareFunc) where
  -- What rbtree_remove makes of a tree with the given entries.
  pub record Drops (t : RbTree) (es : Entries) (key : Ptr) (result : RbTree × Bool) : Type 0 where
    pub rules : IsRb result.0.root
    pub black_root : is_black result.0.root ≡ true
    pub dropped : entries result.0.root ≡ erase compare_keys key es
    pub ordered : IsOrdered compare_keys (entries result.0.root)
    pub sized :
        (if is_some (find compare_keys key es)
          then length (entries result.0.root) + 1
          else length (entries result.0.root))
        ≡ length es
    pub outcome : result.1 ≡ is_some (find compare_keys key es)
    pub counted :
        result.0.count ≡ (if is_some (find compare_keys key es) then t.count - 1 else t.count)
    pub log : result.0.freed ≡ t.freed ++ discarded t true (find compare_keys key es)
    pub callbacks : (result.0.frees_keys ≡ t.frees_keys) × (result.0.frees_values ≡ t.frees_values)
    pub some_stack : 0 < result.0.stack_size

  -- the found node goes away
  detached :
      (size : ℕ) (ps : Trail) (k v : Ptr) (b : Bool) (l r : Node)
      → Fits size ps (node k v b l r)
      → Returns
          (if_null l (unlink_node size ps (node k v b l r)) (
            if_null r (unlink_node size ps (node k v b l r)) (do
              (size', above, max) ← find_max_node size (length ps + 1) l []
              (mk, mv) ← pair_get ([], max)
              unlink_node size' (above ++ step mk mv b to_left r ∷ ps) max)))
          (Leaves ((before ps ++ entries l) ++ (entries r ++ behind ps)))
  detached size ps k v b leaf r f = unlink_one size ps k v b leaf r refl f
  detached size ps k v b (node lk lv lb ll lr) leaf f =
      unlink_one size ps k v b (node lk lv lb ll lr) leaf refl f
  detached size ps k v b (node lk lv lb ll lr) (node rk rv rb rl rr) f =
      unlink_two size ps k v b (node lk lv lb ll lr) (node rk rv rb rl rr) refl f

  module _ (order : IsOrder compare_keys) (key : Ptr) where
    remove_found-Drops :
        (t : RbTree) (found : ℕ × Trail × Node)
        → 0 < found.0
        → Finds compare_keys true key t.root found
        → Returns
            (remove_found t found.0 found.1 found.2)
            (Drops t (entries (plug found.1 found.2)) key)
    unfolding remove_found entries
    remove_found-Drops t (size, ps, leaf) pos w =
        let a = w.at in
        let es : entries (plug ps leaf) ≡ before ps ++ behind ps = entries-plug ps leaf in
        let (missing, kept) =
          find_between compare_keys key (before ps) (behind ps) a.less a.greater in
        let (rules, black) = IsRb-plug ps leaf a.rules a.colour a.path in
        let same : entries t.root ≡ before ps ++ behind ps = ap entries (sym w.tree) ∙ es in
        (
          (record t { stack_size = size }, false),
          refl,
          record {
            rules = subst (λ n. IsRb n) w.tree rules;
            black_root = ap is_black (sym w.tree) ∙ black;
            dropped = rw (same, es) (sym kept);
            ordered = subst (λ n. IsOrdered compare_keys (entries n)) w.tree a.ordered;
            sized = rw (same, es, missing);
            outcome = rw (es, missing);
            counted = rw (es, missing);
            log = rw (es, missing) (sym (append-nil t.freed));
            callbacks = (refl, refl);
            some_stack = pos;
          },
        )
    remove_found-Drops t (size, ps, node k v b l r) pos w =
        let a = w.at in
        let front = before ps ++ entries l in
        let back = entries r ++ behind ps in
        let es : entries (plug ps (node k v b l r)) ≡ front ++ (k, v) ∷ back =
          entries-plug ps (node k v b l r) ∙ simp append_assoc in
        let less =
          AllLess-append compare_keys key (before ps) (entries l) a.less
            (At-less compare_keys order key k v b l r ps w.stack_size a w.hits.0) in
        let (there, gone) = find_at compare_keys key k v w.hits.0 front back less in
        let pushed : length ps + 1 ≤ size = omega (arith, w.hits.1 refl) in
        let ((size', root), run, u) = detached size ps k v b l r (record {
          rules = a.rules;
          path = a.path;
          colour = a.colour;
          room = pushed;
          few = a.few;
        }) in
        let log = free_key t.frees_keys k ++ free_value t.frees_values v in
        (
          (
            record t {
              root = root;
              stack_size = size';
              count = t.count - 1;
              freed = t.freed ++ log;
            },
            true,
          ),
          rw run,
          record {
            rules = u.rules;
            black_root = u.black_root;
            dropped = u.same ∙ sym gone ∙ ap (erase compare_keys key) (sym es);
            ordered =
                subst (λ x. IsOrdered compare_keys x) (sym u.same)
                  (IsOrdered-drop compare_keys order front k v back
                    (subst (λ x. IsOrdered compare_keys x) es a.ordered));
            sized =
                rw (es, there, u.same)
                  (omega (arith, length-append front ((k, v) ∷ back), length-append front back));
            outcome = rw (es, there);
            counted = rw (es, there);
            log = rw (es, there);
            callbacks = (refl, refl);
            some_stack = u.some_stack;
          },
        )

  -- what rbtree_remove leaves, and the invariant
  abbrev pub DropsSoundly : RbTree → Ptr → RbTree × Bool → Type 0
  DropsSoundly t key r = Drops t (entries t.root) key r × IsSound compare_keys r.0

  sound_of :
      (t : RbTree) (key : Ptr) (r : RbTree × Bool)
      → IsSound compare_keys t
      → Drops t (entries t.root) key r
      → DropsSoundly t key r
  sound_of t key r s w = (
    w,
    record {
      rules = w.rules;
      black_root = w.black_root;
      ordered = w.ordered;
      counted = elim (Bool-cases (is_some (find compare_keys key (entries t.root)))) [
        | inl there ↦
            let e : length (entries r.0.root) + 1 ≡ length (entries t.root) =
              sym (rw there) ∙ w.sized in
            rw (w.counted, there) (omega (arith, e, s.counted))
        | inr missing ↦
            let e : length (entries r.0.root) ≡ length (entries t.root) =
              sym (rw missing) ∙ w.sized in
            rw (w.counted, missing) (s.counted ∙ sym e)
      ];
      some_stack = w.some_stack;
    },
  )

  -- With an order to compare by, on a sound tree of less than 2^58 nodes, rbtree_remove ends without
  -- a fault or an abort, the repair within the rounds it is given, and leaves a sound tree: the
  -- red-black rules hold, the root is black and the keys are in order. The entries are the old ones
  -- without the one of an equal key, the result says whether there was one, its key and value are
  -- handed to the callbacks, and the count is right.
  pub remove-Drops :
      (order : IsOrder compare_keys) (t : RbTree)
      → IsSound compare_keys t
      → t.count < max_count
      → (key : Ptr) → Returns (remove compare_keys t key) (DropsSoundly t key)
  unfolding remove plug
  remove-Drops order t s few key =
      let (found, run, w) =
        find_node-Finds compare_keys order true key t.stack_size t.stack_size t.root []
          (At_root compare_keys t key t.stack_size s few s.some_stack) (λ e. refl) in
      let pos : 0 < found.0 = omega (arith, w.at.some_stack, w.kept refl) in
      let (res, run', d) = remove_found-Drops order key t found pos w in
      (
        res,
        rw (run, run'),
        sound_of t key res s (subst (λ n. Drops t (entries n) key res) w.tree d),
      )
