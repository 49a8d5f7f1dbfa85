-- ===== src/RbTree/Update.antt =====
-- rbtree_set against the entries.
use datatypes.Base.{
  subst, ℕ, ◌+◌, ◌<◌, Ordering, ◌≡◌, refl, sym, ap, ◌∙◌, inl, inr, Bool, true, false, Option, none,
  some, List, [], ◌∷◌, ◌++◌, append-nil, append_assoc, arith, if◌then◌else◌, Bool-cases, ok, ◌>>=◌,
  Returns, length, length-append,
}
use datatypes.Callbacks.{Ptr, CompareFunc, IsOrder, Freed, free_key, free_value}
use datatypes.AssocArray.Table.{Entries, insert, find}
use datatypes.RbTree.{
  Node, leaf, node, Trail, RbTree, InsertResult, is_new, is_replaced, plug, is_black, insert_new,
  replace_node,
}
use datatypes.RbTree.Entries.{entries, before, behind, entries-plug}
use datatypes.RbTree.Balance.{IsRb, IsRb-plug, IsRbPath-at}
use datatypes.RbTree.Insert.{insert_case1-Repairs}
use datatypes.RbTree.Order.{
  AllLess-append, IsOrdered, IsOrdered-put, IsOrdered-replace, insert-between, insert_at,
  find_between, find_at,
}
use datatypes.AssocArray.Order.{eq_refl}
use datatypes.RbTree.Descent.{At-less, stack_push-Holds, At, At-few}

-- The callbacks that a replaced or removed entry costs: its key only if it goes away.
abbrev pub discarded : RbTree → Bool → Option (Ptr × Ptr) → List Freed
discarded t drops_key none = []
discarded t drops_key (some (k, v)) =
    (if drops_key then free_key t.frees_keys k else []) ++ free_value t.frees_values v

abbrev pub is_some {ℓ} : {A : Type ℓ} → Option A → Bool
is_some none = false
is_some (some a) = true

module _ (compare_keys : CompareFunc) where
  -- What rbtree_set makes of a tree with the given entries.
  pub record Puts (t : RbTree) (es : Entries) (key value : Ptr) (overwrite_key : Bool)
      (result : RbTree × InsertResult) : Type 0 where
    pub rules : IsRb result.0.root
    pub black_root : is_black result.0.root ≡ true
    pub put : entries result.0.root ≡ insert compare_keys key value overwrite_key es
    pub ordered : IsOrdered compare_keys (entries result.0.root)
    pub sized :
        length (entries result.0.root)
        ≡ (if is_some (find compare_keys key es) then length es else length es + 1)
    pub outcome : result.1 ≡ (if is_some (find compare_keys key es) then is_replaced else is_new)
    pub counted :
        result.0.count ≡ (if is_some (find compare_keys key es) then t.count else t.count + 1)
    pub log : result.0.freed ≡ t.freed ++ discarded t overwrite_key (find compare_keys key es)
    pub callbacks : (result.0.frees_keys ≡ t.frees_keys) × (result.0.frees_values ≡ t.frees_values)
    pub some_stack : 0 < result.0.stack_size

  pub Puts-stack :
      (t : RbTree) (size : ℕ) (es : Entries) (key value : Ptr) (o : Bool)
      (r : RbTree × InsertResult)
      → Puts (record t { stack_size = size }) es key value o r
      → Puts t es key value o r
  Puts-stack t size es key value o r w = record {
    rules = w.rules;
    black_root = w.black_root;
    put = w.put;
    ordered = w.ordered;
    sized = w.sized;
    outcome = w.outcome;
    counted = w.counted;
    log = w.log;
    callbacks = w.callbacks;
    some_stack = w.some_stack;
  }

  module _ (order : IsOrder compare_keys) (key value : Ptr) (overwrite_key : Bool) where
    pub insert_new-Puts :
        (t : RbTree) (ps : Trail)
        → At compare_keys t.stack_size key ps leaf
        → Returns
            (insert_new compare_keys t key value ps)
            (Puts t (entries (plug ps leaf)) key value overwrite_key)
    unfolding insert_new
    insert_new-Puts t ps a =
        let new = node key value false leaf leaf in
        let (size, pushed, held) =
          stack_push-Holds t.stack_size (length ps) a.some_stack a.room
            (At-few compare_keys t.stack_size key ps leaf a) in
        let (root, run, r) =
          insert_case1-Repairs new ps refl (tt, tt, refl, refl)
            (IsRbPath-at ps _ _ a.path (omega arith)) in
        let es : entries (plug ps leaf) ≡ before ps ++ behind ps =
          entries-plug ps leaf ∙ unfold entries in refl in
        let new_es : entries root ≡ before ps ++ (key, value) ∷ behind ps =
          r.same ∙ entries-plug ps new ∙ unfold entries in refl in
        let (missing, _) = find_between compare_keys key (before ps) (behind ps) a.less a.greater in
        (
          (record t { root = root; stack_size = size; count = t.count + 1 }, is_new),
          rw (pushed, run),
          record {
            rules = r.rules;
            black_root = r.black_root;
            put =
                new_es
                ∙ sym (
                    insert-between compare_keys key value overwrite_key (before ps) (behind ps)
                      a.less a.greater)
                ∙ ap (insert compare_keys key value overwrite_key) (sym es);
            ordered =
                subst (λ x. IsOrdered compare_keys x) (sym new_es)
                  (IsOrdered-put compare_keys order (before ps) key value (behind ps)
                    (subst (λ x. IsOrdered compare_keys x) es a.ordered) a.less a.greater);
            sized =
                ap length new_es
                ∙ rw (es, missing)
                    (omega (
                      arith,
                      length-append (before ps) ((key, value) ∷ behind ps),
                      length-append (before ps) (behind ps),
                    ));
            outcome = rw (es, missing);
            counted = rw (es, missing);
            log = rw (es, missing) (sym (append-nil t.freed));
            callbacks = (refl, refl);
            some_stack = omega (arith, held);
          },
        )

    pub replace_node-Puts :
        (t : RbTree) (held : ℕ) (k v : Ptr) (b : Bool) (l r : Node) (ps : Trail)
        → At compare_keys held key ps (node k v b l r)
        → compare_keys key k ≡ Ordering.eq
        → (size : ℕ) → 0 < size
        → Returns
            (replace_node compare_keys
                (record t { stack_size = size })
                key
                value
                overwrite_key
                ps
                (node k v b l r)
              >>= λ t'. ok (t', is_replaced))
            (Puts t (entries (plug ps (node k v b l r))) key value overwrite_key)
    unfolding replace_node
    replace_node-Puts t held k v b l r ps a e size pos =
        let k' = if overwrite_key then key else k in
        let front = before ps ++ entries l in
        let back = entries r ++ behind ps in
        let around : (x w : Ptr) → entries (plug ps (node x w b l r)) ≡ front ++ (x, w) ∷ back =
          λ x w. entries-plug ps (node x w b l r) ∙ unfold entries in simp append_assoc in
        let less =
          AllLess-append compare_keys key (before ps) (entries l) a.less
            (At-less compare_keys order key k v b l r ps held a e) in
        let (there, _) = find_at compare_keys key k v e front back less in
        let (rules, black) = IsRb-plug ps (node k' value b l r) a.rules a.colour a.path in
        let equal : compare_keys k' k ≡ Ordering.eq = elim (Bool-cases overwrite_key) [
          | inl yes_do ↦ rw yes_do e
          | inr keep ↦ rw keep (eq_refl compare_keys order k)
        ] in
        let log =
          (if overwrite_key then free_key t.frees_keys k else []) ++ free_value t.frees_values v in
        (
          (
            record t {
              root = plug ps (node k' value b l r);
              stack_size = size;
              freed = t.freed ++ log;
            },
            is_replaced,
          ),
          refl,
          record {
            rules = rules;
            black_root = black;
            put =
                around k' value
                ∙ sym (insert_at compare_keys key k v e value overwrite_key front back less)
                ∙ ap (insert compare_keys key value overwrite_key) (sym (around k v));
            ordered =
                subst (λ x. IsOrdered compare_keys x) (sym (around k' value))
                  (IsOrdered-replace compare_keys order front k v k' value back equal
                    (subst (λ x. IsOrdered compare_keys x) (around k v) a.ordered));
            sized =
                ap length (around k' value)
                ∙ rw (around k v, there)
                    (omega (
                      arith,
                      length-append front ((k', value) ∷ back),
                      length-append front ((k, v) ∷ back),
                    ));
            outcome = rw (around k v, there);
            counted = rw (around k v, there);
            log = rw (around k v, there);
            callbacks = (refl, refl);
            some_stack = pos;
          },
        )
