-- ===== src/RbTree/Walk.antt =====
-- A whole run of the iterator of the tree.
use datatypes.Base.{
  subst, ℕ, zero, suc, ◌+◌, ◌*◌, ◌≤◌, ◌<◌, ◌≡◌, refl, sym, ap, ◌∙◌, inl, inr, Bool, true, false,
  not, Option, none, some, List, [], ◌∷◌, ◌++◌, append-nil, arith, ltb, if◌then◌else◌, Bool-cases,
  Run, ok, fault, out_of_fuel, ◌>>=◌, Returns, length, length-append,
}
use datatypes.AssocArray.Table.{Entries}
use datatypes.RbTree.{Node, leaf, node, RbTree, if_null}
use datatypes.RbTree.Entries.{entries}
use datatypes.RbTree.Iter.{
  next_loop, Item, item, Iter, iter_init, iter_reuse, push_item, iter_next, iter_get,
}
use datatypes.RbTree.Iteration.{preorder, later, rounds, IsStack, Moves, next_loop-Moves}
use mathlib.Core.List.{Perm, perm_middle}
use mathlib.Core.List.Perm

-- what a client reads with rbtree_iter_next, rbtree_iter_get_key and rbtree_iter_get_value
unfoldable pub walk : ℕ → Iter → Run Entries
walk zero it = out_of_fuel
walk (suc fuel) it = do
  (it', more) ← iter_next it
  elim more [
    | true ↦ (do entry ← iter_get it'; es ← walk fuel it'; ok (entry ∷ es))
    | false ↦ ok []
  ]

-- an iterator at a node
abbrev at : Node → ℕ → ℕ → Node → ℕ → List Item → Iter
at root cells size n s items = record {
  root = root;
  cells = some cells;
  stack_size = size;
  sp = some (item n s ∷ items);
  finished = false;
}

next-at :
    (root : Node) (cells size : ℕ) (n : Node) (s : ℕ) (items : List Item) (js : List Item)
    (more : Bool)
    → next_loop (3 * size) (some cells) (item n s ∷ items) ≡ ok (js, more)
    → iter_next (at root cells size n s items)
      ≡ ok (record (at root cells size n s items) { sp = some js; finished = not more }, more)
unfolding iter_next
next-at root cells size n s items js more run = rw run

-- the run from an iterator at a node, which yields what is left to visit
abbrev Walks : ℕ → ℕ → ℕ → Node → Type 0
Walks fuel cells size root =
    (n : Node) (s : ℕ) (items : List Item)
    → IsStack cells 0 (item n s ∷ items)
    → rounds (item n s ∷ items) ≤ 3 * size
    → length (later (item n s ∷ items)) < fuel
    → walk fuel (at root cells size n s items) ≡ ok (later (item n s ∷ items))

walk_on :
    (fuel cells size : ℕ) (root n : Node) (s : ℕ) (items : List Item) (es : Entries) (most : ℕ)
    (res : List Item × Bool)
    → Walks fuel cells size root
    → next_loop (3 * size) (some cells) (item n s ∷ items) ≡ ok res
    → most ≤ 3 * size
    → length es < suc fuel
    → Moves cells es most res
    → walk (suc fuel) (at root cells size n s items) ≡ ok es
unfolding walk iter_get
walk_on fuel cells size root n s items es most (js, false) ih run less enough (none_left, done) =
    rw (next-at root cells size n s items js false run) (ap ok (sym done))
walk_on fuel cells size root n s items es most (js, true) ih run less enough
      (k, v, b, l, r, rest, top, first, stack, fewer) =
    let m = node k v b l r in
    let run' = run ∙ ap (λ x. ok (x, true)) top in
    let stack' = subst (λ x. IsStack cells 0 x) top stack in
    let fewer' = subst (λ x. rounds x ≤ most) top fewer in
    let first' : es ≡ (k, v) ∷ later (item m 0 ∷ rest) = first ∙ ap (λ x. (k, v) ∷ later x) top in
    let on =
      ih m 0 rest stack' (omega (arith, fewer', less)) (omega (arith, enough, ap length first')) in
    rw (next-at root cells size n s items (item m 0 ∷ rest) true run', on) (ap ok (sym first'))

walk_from : (fuel cells size : ℕ) (root : Node) → Walks fuel cells size root
walk_from zero cells size root n s items stack less enough = absurd (omega (arith, enough))
walk_from (suc fuel) cells size root n s items stack less enough =
    let (res, run, w) = next_loop-Moves (3 * size) cells n s items stack less in
    walk_on fuel cells size root n s items (later (item n s ∷ items)) _ res
      (walk_from fuel cells size root) run less enough w

length-preorder : (n : Node) → length (preorder n) ≡ length (entries n)
unfolding preorder entries
length-preorder leaf = refl
length-preorder (node k v b l r) = omega (
  arith,
  length-append (preorder l) (preorder r),
  length-append (entries l) ((k, v) ∷ entries r),
  length-preorder l,
  length-preorder r,
)

preorder-Perm : (n : Node) → Perm (preorder n) (entries n)
unfolding preorder entries
preorder-Perm leaf = Perm.refl []
preorder-Perm (node k v b l r) =
    Perm.trans (Perm.cons (k, v) (Perm.append (preorder-Perm l) (preorder-Perm r)))
      (Perm.symm (perm_middle (entries l) (entries r)))

-- an iterator that has not moved
abbrev fresh : Node → Option ℕ → ℕ → Iter
fresh n cells size = record {
  root = n;
  cells = cells;
  stack_size = size;
  sp = none;
  finished = if_null n true false;
}

walk_root :
    (n : Node) (count cells size : ℕ)
    → count ≡ length (entries n)
    → count < cells
    → count ≤ size
    → walk (suc count) (fresh n (if_null n none (some cells)) size) ≡ ok (preorder n)
unfolding walk iter_next push_item iter_get preorder rounds later
walk_root leaf count cells size counted room most = refl
walk_root (node k v b l r) count cells size counted room most =
    let n = node k v b l r in
    let enough : ltb 0 cells ≡ true = ground arith in
    let both = length-append (preorder l) (preorder r) in
    let all : length (preorder n) ≡ count = length-preorder n ∙ sym counted in
    let rest =
      walk_from count cells size n n 0 []
        (refl, omega arith, omega arith, omega (arith, all, room), tt)
        (omega (arith, both, all, most))
        (omega (arith, length-append (preorder l ++ preorder r) [], all)) in
    rw (enough, rest) (simp append-nil)

-- an iterator on an empty tree needs no memory
walk_leaf : (count size : ℕ) (cells : Option ℕ) → walk (suc count) (fresh leaf cells size) ≡ ok []
unfolding walk iter_next
walk_leaf count size cells = refl

walk_reused :
    (t : RbTree) (n : Node) (it : Iter) (cells : ℕ)
    → t.count ≡ length (entries n)
    → it.cells ≡ some cells
    → it.stack_size ≡ cells
    → Returns
        (if_null n (ok (record it { root = n; sp = none; finished = true })) (
          if ltb it.stack_size (t.count + 1)
          then elim it.cells [
            | none ↦ fault
            | some cells ↦ ok (record it {
              root = n;
              cells = some (t.count + 1);
              stack_size = t.count + 1;
              sp = none;
              finished = false;
            })
          ]
          else ok (record it { root = n; sp = none; finished = false })))
        (λ it'. walk (suc t.count) it' ≡ ok (preorder n))
unfolding preorder
walk_reused t leaf it cells counted has size = (
  record it { root = leaf; sp = none; finished = true },
  refl,
  walk_leaf t.count it.stack_size it.cells,
)
walk_reused t (node k v b l r) it cells counted has size =
    let n = node k v b l r in
    elim (Bool-cases (ltb it.stack_size (t.count + 1))) [
      | inl grows ↦ (
        fresh n (some (t.count + 1)) (t.count + 1),
        rw (grows, has),
        walk_root n t.count (t.count + 1) (t.count + 1) counted (omega arith) (omega arith),
      )
      | inr fits ↦
          let room : t.count < cells = ground (arith, fits, size) in
          (
            record it { root = n; sp = none; finished = false },
            rw fits,
            ap (λ c. walk (suc t.count) (fresh n c it.stack_size)) has
                ∙ walk_root n t.count cells it.stack_size counted room (omega (arith, room, size)),
          )
    ]

-- On a tree with the right count, an iterator that rbtree_iter_init makes yields every entry of the
-- tree exactly once, each node before what is below it, and then reports the end. It stays within the
-- memory of its stack, and each call of rbtree_iter_next ends within the rounds it is given.
pub walk-iter_init :
    (t : RbTree)
    → t.count ≡ length (entries t.root)
    → Returns
        (walk (t.count + 1) (iter_init t))
        λ es. (es ≡ preorder t.root) × Perm es (entries t.root)
unfolding iter_init
walk-iter_init t counted = (
  preorder t.root,
  ap (λ n. walk n (iter_init t)) (omega arith)
      ∙ walk_root t.root t.count (t.count + 1) (t.count + 1) counted (omega arith) (omega arith),
  (refl, preorder-Perm t.root),
)

-- On a tree with the right count, rbtree_iter_reuse of an iterator that has its memory yields an
-- iterator that visits every entry of the tree, in the same order, and then reports the end.
pub walk-iter_reuse :
    (t : RbTree) (it : Iter) (cells : ℕ)
    → t.count ≡ length (entries t.root)
    → it.cells ≡ some cells
    → it.stack_size ≡ cells
    → Returns (iter_reuse t it) λ it'. walk (t.count + 1) it' ≡ ok (preorder t.root)
unfolding iter_reuse
walk-iter_reuse t it cells counted has size =
    let (it', run, w) = walk_reused t t.root it cells counted has size in
    (it', run, ap (λ n. walk n it') (omega arith) ∙ w)
