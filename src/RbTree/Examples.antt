-- ===== src/RbTree/Examples.antt =====
-- Runs of the red-black tree over numbers, and its theorems at a concrete tree.
use datatypes.Base.{
  ◌%◌, ◌^◌, ◌≤◌, ◌<◌, compare, ◌≡◌, refl, Bool, true, false, none, some, List, [], ◌∷◌, ◌++◌, arith,
  Run, ok, fault, ◌>>=◌, Returns, length,
}
use datatypes.Callbacks.{CompareFunc, Freed, free_key, free_value, IsOrder}
use datatypes.AssocArray.Table.{find}
use datatypes.RbTree.{
  Node, leaf, node, RbTree, InsertResult, is_replaced, to_left, step, link, plug, init,
  destroy_node, clear, stack_push, insert_case4, insert_case5, insert_case1, insert_new,
  replace_node, insert_loop, set,
}
use datatypes.RbTree.Erase.{
  find_node, lookup, key_exists, pair_get, pair_set_value, find_max_node, remove_case5,
  remove_case6, remove_case3, remove_case1, unlink_node, remove_found, remove,
}
use datatypes.RbTree.Entries.{entries}
use datatypes.RbTree.Descent.{max_count}
use datatypes.RbTree.Update.{is_some}
use datatypes.RbTree.Lookup.{IsSound, get, get-entries}
use datatypes.RbTree.Set.{Keeps, set-Puts}
use datatypes.RbTree.Remove.{DropsSoundly, remove-Drops}
use datatypes.RbTree.Height.{find_node-count}
use datatypes.RbTree.Iter.{
  Iter, iter_init, iter_free, iter_reuse, push_item, advance, settle, next_loop, iter_next,
  iter_get,
}
use datatypes.RbTree.Iteration.{preorder}
use datatypes.RbTree.Walk.{walk, walk-iter_init, walk-iter_reuse}
use mathlib.Core.List.{Perm}
use datatypes.RbTree.Map.{
  search_value, search_value-set, search_value-remove, pair_set_value-Puts, releases, clear-Perm,
}

-- what the runs compute with
program : Unit {0}
unfolding link plug init destroy_node clear stack_push insert_case4 insert_case5 insert_case1
    insert_new replace_node insert_loop set find_node lookup key_exists pair_get pair_set_value
    find_max_node remove_case5 remove_case6 remove_case3 remove_case1 unlink_node remove_found
    remove iter_init iter_free iter_reuse push_item advance settle next_loop iter_next iter_get walk
    free_key free_value
program = tt

-- keys that are equal up to a multiple of 100
abbrev by_rest : CompareFunc
by_rest a b = compare (a % 100) (b % 100)

by_rest-IsOrder : IsOrder by_rest
by_rest-IsOrder = ground arith

-- four entries, with both callbacks
abbrev root : Node
root = node 50 5 true (node 20 2 true leaf (node 30 3 false leaf leaf)) (node 80 8 true leaf leaf)

abbrev sample : RbTree
sample = record {
  root = root;
  stack_size = 4;
  count = 4;
  frees_keys = true;
  frees_values = true;
  freed = [];
}

sample-IsSound : IsSound by_rest sample
unfolding entries
sample-IsSound = record {
  rules = ((tt, (tt, tt, refl, refl), refl, refl), (tt, tt, refl, refl), refl, refl);
  black_root = refl;
  ordered = ((refl, (refl, (refl, tt))), ((refl, (refl, tt)), ((refl, tt), (tt, tt))));
  counted = refl;
  some_stack = omega arith;
}

few : sample.count < max_count
few = omega arith

-- a red uncle, a rotation, an equal key, a removal from the middle and one of a missing key
session : Run (RbTree × InsertResult × Bool × Bool)
session = do
  (t, _) ← set by_rest (init true false) 10 1 true
  (t, _) ← set by_rest t 20 2 true
  (t, _) ← set by_rest t 30 3 true
  (t, _) ← set by_rest t 40 4 true
  (t, replaced) ← set by_rest t 120 7 true
  (t, removed) ← remove by_rest t 20
  (t, missing) ← remove by_rest t 77
  ok (t, replaced, removed, missing)

session_run :
    session
    ≡ ok (
      record {
        root = node 30 3 true (node 10 1 true leaf leaf) (node 40 4 true leaf leaf);
        stack_size = 4;
        count = 3;
        frees_keys = true;
        frees_values = false;
        freed = free_key true 20 ++ free_key true 120;
      },
      is_replaced,
      true,
      false,
    )
unfolding session program
session_run = refl

set-Puts_example : Returns (set by_rest sample 125 9 false) (Keeps by_rest sample 125 9 false)
set-Puts_example = set-Puts by_rest by_rest-IsOrder sample sample-IsSound few 125 9 false

remove-Drops_example : Returns (remove by_rest sample 50) (DropsSoundly by_rest sample 50)
remove-Drops_example = remove-Drops by_rest by_rest-IsOrder sample sample-IsSound few 50

get-entries_example :
    (get by_rest sample 130 ≡ ok (find by_rest 130 (entries sample.root)))
    × (key_exists by_rest sample 130 ≡ ok (is_some (find by_rest 130 (entries sample.root))))
get-entries_example = get-entries by_rest by_rest-IsOrder sample sample-IsSound few 130

search_value-set_example :
    (set by_rest sample 25 9 true >>= λ r. search_value by_rest r.0 125) ≡ ok (some 9)
search_value-set_example =
    search_value-set by_rest by_rest-IsOrder sample sample-IsSound (omega arith) 25 9 true 125

removed_search_run : (remove by_rest sample 50 >>= λ r. search_value by_rest r.0 150) ≡ ok none
removed_search_run = search_value-remove by_rest by_rest-IsOrder sample sample-IsSound few 50 150

pair_set_value-Puts_example :
    Returns
      (pair_set_value sample
        (
          step 50 5 true to_left (node 80 8 true leaf leaf) ∷ [],
          node 20 2 true leaf (node 30 3 false leaf leaf),
        )
        6)
      λ t. Keeps by_rest sample 120 6 false (t, is_replaced)
unfolding program
pair_set_value-Puts_example =
    pair_set_value-Puts by_rest by_rest-IsOrder sample sample-IsSound few 120 6
      (
        step 50 5 true to_left (node 80 8 true leaf leaf) ∷ [],
        node 20 2 true leaf (node 30 3 false leaf leaf),
      )
      refl

find_node-count_example :
    Returns (find_node by_rest true 4 31 root []) (λ found. 2 ^ length found.1 ≤ 25)
find_node-count_example = find_node-count by_rest by_rest-IsOrder sample sample-IsSound few true 31

clear-Perm_example :
    IsSound by_rest (clear sample)
    × (entries (clear sample).root ≡ [])
    × ((log : List Freed) × ((clear sample).freed ≡ [] ++ log)
        × Perm log (releases sample (entries root)))
clear-Perm_example = clear-Perm by_rest sample (omega arith)

walk-iter_init_example :
    Returns (walk 5 (iter_init sample)) (λ es. (es ≡ preorder root) × Perm es (entries root))
unfolding entries
walk-iter_init_example = walk-iter_init sample refl

-- an iterator with the memory of another tree
abbrev used : Iter
used = record { root = leaf; cells = some 2; stack_size = 2; sp = some []; finished = true }

iter_reuse_run : Returns (iter_reuse sample used) (λ it. walk 5 it ≡ ok (preorder root))
unfolding entries
iter_reuse_run = walk-iter_reuse sample used 2 refl refl refl

walk_run : walk 5 (iter_init sample) ≡ ok ((50, 5) ∷ (20, 2) ∷ (30, 3) ∷ (80, 8) ∷ [])
unfolding program
walk_run = refl

-- rbtree_iter_init leaves the stack of an iterator on an empty tree as it was, and the two functions
-- that follow use it.
free_of_empty : iter_free (iter_init (init true true)) ≡ fault
unfolding program
free_of_empty = refl

reuse_of_empty : iter_reuse sample (iter_init (init true true)) ≡ fault
unfolding program
reuse_of_empty = refl
