-- ===== src/HashTable/Examples.antt =====
-- Runs of the hash table over numbers, and its theorems at a concrete table.
use datatypes.Base.{
  ◌%◌, ◌≡◌, refl, inr, true, false, none, some, [], ◌∷◌, arith, ◌==◌, if◌then◌else◌, Run, ok, ◌>>=◌,
  Returns,
}
use datatypes.Memory.{load, store}
use datatypes.Callbacks.{Ptr, Freed, free_key, free_value}
use datatypes.HashTable.{
  EqualFunc, HashFunc, bucket, HashTable, InsertResult, inserted_replaced, calloc, init,
  find_bucket, find_removed, set_found, set, remove_found, remove, lookup, pair_bucket, key_exists,
  next_size, resize, rehash, rehash_chain, push, iter_next, iter_loop, next_bucket, is_null,
}
use datatypes.HashTable.Chains.{IsEquality, value_in}
use datatypes.HashTable.Lookup.{value_at}
use datatypes.HashTable.Placed.{IsSound}
use datatypes.HashTable.Grow.{CanGrow, resize-keeps}
use datatypes.HashTable.Set.{Keeps, set-Stores}
use datatypes.HashTable.Remove.{TakesOut, remove-forgets}

-- what the runs compute with
program : Unit {0}
unfolding load store free_key free_value calloc init find_bucket find_removed set_found set
    remove_found remove lookup pair_bucket key_exists next_size resize rehash rehash_chain push
    iter_loop iter_next next_bucket is_null value_in
program = tt

-- keys that are equal up to a multiple of 100, and their hash
abbrev by_rest : EqualFunc
by_rest a b = a % 100 == b % 100

abbrev rest : HashFunc
rest a = a % 100

by_rest-IsEquality : IsEquality by_rest rest
by_rest-IsEquality = record {
  itself = λ a. ground arith;
  swap = λ a b. ground arith;
  same = λ a b c e. ground (arith, e);
  same_hash = λ a b e. ground (arith, e);
}

-- three entries in a table of three chains that is due to grow to 1031 of them
abbrev sample : HashTable
sample = record {
  size = 2;
  sizeptr = some 0;
  grow = true;
  buckets = (bucket 12 1 ∷ bucket 4 2 ∷ []) ∷ (bucket 7 3 ∷ []) ∷ [];
  count = 3;
  frees_keys = true;
  frees_values = true;
  freed = [];
}

sample-IsSound : IsSound rest by_rest by_rest-IsEquality sample
unfolding program
sample-IsSound = record {
  table = record { heads = refl; some_memory = omega arith };
  placed = ((refl, (refl, tt)), ((refl, tt), tt));
  distinct = ((refl, (refl, tt)), ((refl, tt), tt));
}

sample-CanGrow : CanGrow sample 1 1031
unfolding program
sample-CanGrow = record { next = refl; some_memory = omega arith; limited = omega arith }

-- in a table of two chains that does not grow: a new entry, a replacement that frees the old pair,
-- and a removal
abbrev session : Run (HashTable × InsertResult)
session = do
  (a, _) ← set rest by_rest (init 2 true true) 5 50 false
  (b, _) ← set rest by_rest a 7 70 false
  (c, r) ← set rest by_rest b 105 60 true
  d ← remove rest by_rest c 207
  ok (d, r)

session_runs : Returns session λ (t, r).
    (t.buckets ≡ [] ∷ (bucket 105 60 ∷ []) ∷ [])
    × (t.count ≡ 1)
    × (r ≡ inserted_replaced)
    × (t.freed ≡ Freed.key 5 ∷ Freed.value 50 ∷ Freed.key 7 ∷ Freed.value 70 ∷ [])
unfolding program
session_runs = (_, refl, (refl, refl, refl, refl))

resize-keeps_example : Returns (resize rest sample) λ t'.
    IsSound rest by_rest by_rest-IsEquality t'
    × (t'.size ≡ 1031)
    × (t'.count ≡ sample.count)
    × (t'.freed ≡ sample.freed)
    × ((q : Ptr) → value_at rest by_rest t' q ≡ value_at rest by_rest sample q)
resize-keeps_example =
    resize-keeps rest by_rest by_rest-IsEquality sample sample-IsSound 1 1031 sample-CanGrow

set-Stores_example :
    Returns (set rest by_rest sample 9 90 false) (Keeps rest by_rest by_rest-IsEquality sample 9 90)
set-Stores_example =
    set-Stores rest by_rest by_rest-IsEquality sample sample-IsSound (inr (1, 1031, sample-CanGrow))
      9 90 false (omega arith)

remove-forgets_example : Returns (remove rest by_rest sample 104) λ t'.
    IsSound rest by_rest by_rest-IsEquality t'
    × TakesOut rest by_rest sample 104 t'
    × ((q : Ptr)
        → value_at rest by_rest t' q
          ≡ (if by_rest q 104 then ok none else value_at rest by_rest sample q))
remove-forgets_example = remove-forgets rest by_rest by_rest-IsEquality sample sample-IsSound 104
