-- ===== src/AssocArray/Examples.antt =====
-- Runs of the associative array over numbers, and its theorems at a concrete array.
use datatypes.Base.{
  ℕ, ◌%◌, compare, ◌≡◌, refl, true, false, none, some, [], ◌∷◌, arith, Run, ok, ◌>>=◌, Returns,
  take,
}
use datatypes.Memory.{load, store, move, resized}
use datatypes.Callbacks.{Ptr, CompareFunc, by_sign, Freed, free_key, free_value, IsOrder}
use datatypes.AssocArray.{
  AssocArray, InsertResult, result_replaced, search_loop, binary_search, init, insert_first,
  replace, resize_if_necessary, resize_to, shift_in, insert_before_offset, shift_after,
  insert_after_offset, shift_out, set_at, set, remove_at, remove, lookup, key_exists, pair_get_key,
  pair_get_value,
}
use datatypes.AssocArray.Search.{Locates, binary_search-Locates}
use datatypes.AssocArray.Table.{find}
use datatypes.AssocArray.Invariant.{entries, IsSound}
use datatypes.AssocArray.Update.{Sets, set-Sets}
use datatypes.AssocArray.Remove.{Removes, remove-Removes}
use datatypes.AssocArray.Lookup.{get, value_at, get-find, value_at-set, value_at-remove}

-- what the runs compute with
program : Unit {0}
unfolding load store move resized free_key free_value search_loop binary_search init insert_first
    replace resize_if_necessary resize_to shift_in insert_before_offset shift_after
    insert_after_offset shift_out set_at set remove_at remove lookup key_exists pair_get_key
    pair_get_value
program = tt

-- keys that are equal up to a multiple of 100
abbrev by_rest : CompareFunc
by_rest a b = compare (a % 100) (b % 100)

by_rest-IsOrder : IsOrder by_rest
by_rest-IsOrder = ground arith

abbrev junk : ℕ → Ptr
junk i = 99

-- three entries in four cells each, with both callbacks
abbrev sample : AssocArray
sample = record {
  keys = 10 ∷ 20 ∷ 30 ∷ 77 ∷ [];
  values = 1 ∷ 2 ∷ 3 ∷ 77 ∷ [];
  size = 4;
  count = 3;
  frees_keys = true;
  frees_values = true;
  freed = [];
}

sample-IsSound : IsSound by_rest sample
sample-IsSound = record {
  key_cells = refl;
  value_cells = refl;
  within = omega arith;
  some_memory = omega arith;
  limited = omega arith;
  sorted = ((refl, (refl, tt)), ((refl, tt), (tt, tt)));
}

-- two insertions, of which the second doubles the memory, and a replacement that frees the old pair
abbrev session : Run (AssocArray × InsertResult)
session = do
  (a, _) ← set by_rest junk sample 15 4 false
  (b, _) ← set by_rest junk a 35 5 false
  set by_rest junk b 120 6 true

session_runs : Returns session λ (a, r).
    (take a.count a.keys ≡ 10 ∷ 15 ∷ 120 ∷ 30 ∷ 35 ∷ [])
    × (take a.count a.values ≡ 1 ∷ 4 ∷ 6 ∷ 3 ∷ 5 ∷ [])
    × (a.size ≡ 8)
    × (r ≡ result_replaced)
    × (a.freed ≡ Freed.key 20 ∷ Freed.value 2 ∷ [])
unfolding program
session_runs = (_, refl, (refl, refl, refl, refl, refl))

binary_search-Locates_example :
    Returns (binary_search by_rest sample.keys 3 25) (Locates by_rest (take 3 sample.keys) 25)
binary_search-Locates_example =
    binary_search-Locates by_rest by_rest-IsOrder sample.keys 3 25 (omega arith) (omega arith)
      sample-IsSound.sorted

set-Sets_example : Returns (set by_rest junk sample 15 4 false) (Sets by_rest sample 15 4 false)
set-Sets_example =
    set-Sets by_rest junk by_rest-IsOrder sample sample-IsSound 15 4 false (omega arith)

remove-Removes_example : Returns (remove by_rest sample 120) (Removes by_rest sample 120)
remove-Removes_example = remove-Removes by_rest by_rest-IsOrder sample sample-IsSound 120

get-find_example :
    (get by_rest sample 120 ≡ ok (find by_rest 120 (entries sample)))
    × (key_exists by_rest sample 120
        ≡ ok (elim (find by_rest 120 (entries sample)) [ none ↦ false | some _ ↦ true ]))
get-find_example = get-find by_rest by_rest-IsOrder sample sample-IsSound 120

value_at-set_example :
    (set by_rest junk sample 15 4 false >>= λ r. value_at by_rest (r.0) 215)
    ≡ by_sign
        (by_rest 215 15)
        (value_at by_rest sample 215)
        (ok (some 4))
        (value_at by_rest sample 215)
value_at-set_example =
    value_at-set by_rest by_rest-IsOrder junk sample sample-IsSound 15 4 false 215 (omega arith)

value_at-remove_example :
    (remove by_rest sample 20 >>= λ b. value_at by_rest b 20)
    ≡ by_sign (by_rest 20 20) (value_at by_rest sample 20) (ok none) (value_at by_rest sample 20)
value_at-remove_example = value_at-remove by_rest by_rest-IsOrder sample sample-IsSound 20 20
