-- ===== src/HashTable.antt =====
-- The hash table: hashtable.h and hashtable.c. A bucket's chain of `next` pointers is a list, and a
-- pointer to a bucket the split of its chain there. An operation returns the new table.
-- `frees_keys` and `frees_values` say whether the callbacks are set, and `freed` collects their
-- calls. The hash function and the EqualFunc are parameters; the buckets come from a pool.
pub mod Chains
pub mod Lookup
pub mod Update
pub mod Placed
pub mod Changes
pub mod Resize
pub mod Sound
pub mod Grow
pub mod Set
pub mod Examples
pub mod Remove
use datatypes.Base.{
  ℕ, zero, suc, ◌+◌, ◌-◌, ◌*◌, ◌/◌, ◌%◌, ◌^◌, ◌≤◌, ◌<◌, compare, Ordering, ◌≡◌, refl, sym, ap, ap₂,
  ◌∙◌, ◌≢◌, ◌↔◌, ◌⊎◌, inl, inr, Bool, true, false, not, ◌&&◌, ◌||◌, Option, none, some, List, [],
  ◌∷◌, ◌++◌, append-nil, append_assoc, arith, ltb, leb, ◌==◌, if◌then◌else◌, Bool-cases,
  Option-cases, word, word32, ssize_max, sub64, Run, ok, fault, aborted, out_of_fuel, ◌>>=◌,
  Returns, Returns-both, length, get_elem?, take, drop, tabulate, overwrite, length-append,
  length-take, length-drop, length-tabulate, take-append-drop, take-append, drop-append, take-take,
  take-append_of_le, length-overwrite, take-drop, drop-append_cons, take_all, get_elem?-lt,
  get_elem?-take, drop-get_elem?, get_elem?-none, drop_all,
}
use datatypes.Memory.{load, store}
use datatypes.Callbacks.{Ptr, null, Freed, free_key, free_value}

abbrev pub EqualFunc : Type 0
EqualFunc = Ptr → Ptr → Bool

abbrev pub HashFunc : Type 0
HashFunc = Ptr → ℕ

pub record Bucket : Type 0 where
  pub key : Ptr
  pub value : Ptr

abbrev pub Chain : Type 0
Chain = List Bucket

abbrev pub bucket : Ptr → Ptr → Bucket
bucket k v = record { key = k; value = v }

-- `sizeptr` is an index into `primes`; `none` is NULL
pub record HashTable : Type 0 where
  pub size : ℕ
  pub sizeptr : Option ℕ
  pub grow : Bool
  pub buckets : List Chain
  pub count : ℕ
  pub frees_keys : Bool
  pub frees_values : Bool
  pub freed : List Freed

pub data InsertResult : Type 0 where
  inserted_new inserted_replaced insert_failed : InsertResult

-- PRIMES, for a size_t of 64 bits
abbrev pub primes : List ℕ
primes =
    257 ∷ 1031 ∷ 4127 ∷ 16519 ∷ 66083 ∷ 264343 ∷ 1057387 ∷ 4229573 ∷ 8459173 ∷ 16918357 ∷ 33836729
    ∷ 67673503 ∷ 135347029 ∷ 270694063 ∷ 541388129 ∷ 1082776297 ∷ 2165552617 ∷ 4331105239
    ∷ 8662210517 ∷ 17324420957 ∷ 34648841923 ∷ 69297683827 ∷ 138595367657 ∷ 277190735317
    ∷ 554381470637 ∷ 110876294129 ∷ 221752588259 ∷ 443505176519 ∷ 887010353059 ∷ 1774020706189
    ∷ 3548041412411 ∷ 7096082824837 ∷ 14192165649709 ∷ 28384331299451 ∷ 56768662598903
    ∷ 113537325197831 ∷ 227074650395669 ∷ 454149300791371 ∷ 908298601582769 ∷ 1816597203165593
    ∷ 3633194406331187 ∷ 7266388812662387 ∷ 14532777625324787 ∷ 29065555250649649
    ∷ 58131110501299349 ∷ 116262221002598761 ∷ 232524442005197556 ∷ 465048884010395089
    ∷ 930097768020790181 ∷ 0 ∷ []

-- the head of every chain is NULL
unfoldable pub calloc : ℕ → List Chain
calloc n = tabulate (λ _. []) 0 n

unfoldable pub init : ℕ → Bool → Bool → HashTable
init size frees_keys frees_values =
    let table_size = if size == 0 then 257 else size in
    record {
      size = table_size;
      sizeptr = if size == 0 then some 0 else none;
      grow = size == 0;
      buckets = calloc table_size;
      count = 0;
      frees_keys = frees_keys;
      frees_values = frees_values;
      freed = [];
    }

-- the calls for one chain in _hashtable_free_memory
unfoldable pub free_chain : HashTable → Chain → List Freed
free_chain t [] = []
free_chain t (b ∷ chain) =
    free_key t.frees_keys b.key ++ (free_value t.frees_values b.value ++ free_chain t chain)

unfoldable pub free_chains : HashTable → List Chain → List Freed
free_chains t [] = []
free_chains t (chain ∷ chains) = free_chain t chain ++ free_chains t chains

unfoldable pub free_memory : HashTable → HashTable
free_memory t =
    if t.frees_keys || t.frees_values
    then record t { freed = t.freed ++ free_chains t t.buckets }
    else t

unfoldable pub clear : HashTable → HashTable
clear t = record (free_memory (record t { count = 0 })) { buckets = calloc t.size }

-- the next prime, a fault without a table of sizes
unfoldable pub next_size : HashTable → Run (ℕ × ℕ)
next_size t = elim (t.sizeptr) [
  | none ↦ fault
  | some p ↦ do size ← load primes (p + 1); ok (p + 1, size)
]

module _ (hash : HashFunc) where
  -- HASHTABLE_INDEX; a table without buckets has no chain at any index
  abbrev pub index : ℕ → Ptr → ℕ
  index size key = hash key % size

  -- moves one bucket to the head of its chain
  unfoldable pub push : ℕ → List Chain → Bucket → Run (List Chain)
  push size buckets b = do
    chain ← load buckets (index size b.key)
    store buckets (index size b.key) (b ∷ chain)

  unfoldable pub rehash_chain : ℕ → List Chain → Chain → Run (List Chain)
  rehash_chain size buckets [] = ok buckets
  rehash_chain size buckets (b ∷ chain) = do
    buckets' ← push size buckets b
    rehash_chain size buckets' chain

  unfoldable pub rehash : ℕ → List Chain → List Chain → Run (List Chain)
  rehash size buckets [] = ok buckets
  rehash size buckets (chain ∷ chains) = do
    buckets' ← rehash_chain size buckets chain
    rehash size buckets' chains

  unfoldable pub resize : HashTable → Run HashTable
  resize t = do
    (p, size) ← next_size t
    if (size == 0) || ltb ((word - 1) / 8) size then aborted else (do
      buckets ← rehash size (calloc size) t.buckets
      ok (record t { size = size; sizeptr = some p; buckets = buckets }))

module _ (compare_keys : EqualFunc) where
  -- the chain split at the found bucket; `none` is NULL
  unfoldable pub find_bucket : Chain → Ptr → Option (Chain × Bucket × Chain)
  find_bucket [] key = none
  find_bucket (b ∷ chain) key =
      let later = find_bucket chain key in
      if compare_keys key b.key
      then some ([], b, chain)
      else elim later [ none ↦ none | some (front, c, back) ↦ some (b ∷ front, c, back) ]

  -- the loop of hashtable_remove, which calls the function with its arguments the other way round
  unfoldable pub find_removed : Chain → Ptr → Option (Chain × Bucket × Chain)
  find_removed [] key = none
  find_removed (b ∷ chain) key =
      let later = find_removed chain key in
      if compare_keys b.key key
      then some ([], b, chain)
      else elim later [ none ↦ none | some (front, c, back) ↦ some (b ∷ front, c, back) ]

-- what hashtable_set does with the answer of the search in the chain at the index
unfoldable pub set_found :
    HashTable
    → ℕ
    → Chain
    → Ptr
    → Ptr
    → Bool
    → Option (Chain × Bucket × Chain)
    → Run (HashTable × InsertResult)
set_found t i head key value overwrite_key (some (front, item, back)) = do
  let log =
      (if overwrite_key then free_key t.frees_keys item.key else [])
      ++ free_value t.frees_values item.value
  let item' = bucket (if overwrite_key then key else item.key) value
  buckets ← store t.buckets i (front ++ item' ∷ back)
  ok (record t { buckets = buckets; freed = t.freed ++ log }, inserted_replaced)
set_found t i head key value overwrite_key none =
    if ltb t.count (word - 1)
    then (do
      buckets ← store t.buckets i (bucket key value ∷ head)
      ok (record t { buckets = buckets; count = t.count + 1 }, inserted_new))
    else ok (t, insert_failed)

-- what hashtable_remove does with a found bucket
unfoldable pub remove_found : HashTable → ℕ → Option (Chain × Bucket × Chain) → Run HashTable
remove_found t i none = ok t
remove_found t i (some (front, item, back)) = do
  let log = free_key t.frees_keys item.key ++ free_value t.frees_values item.value
  buckets ← store t.buckets i (front ++ back)
  ok (record t { buckets = buckets; count = sub64 t.count 1; freed = t.freed ++ log })

module _ (hash : HashFunc) (compare_keys : EqualFunc) where
  unfoldable pub set : HashTable → Ptr → Ptr → Bool → Run (HashTable × InsertResult)
  set t₀ key value overwrite_key = do
    t ← (if t₀.grow && ltb t₀.size t₀.count then resize hash t₀ else ok t₀)
    let i = index hash t.size key
    head ← load t.buckets i
    set_found t i head key value overwrite_key (find_bucket compare_keys head key)

  unfoldable pub remove : HashTable → Ptr → Run HashTable
  remove t key = do
    let i = index hash t.size key
    head ← load t.buckets i
    remove_found t i (find_removed compare_keys head key)

  -- The returned pair is the bucket's index and its place in the chain; `none` is NULL.
  unfoldable pub lookup : HashTable → Ptr → Run (Option (ℕ × ℕ))
  lookup t key = do
    let i = index hash t.size key
    head ← load t.buckets i
    ok (elim (find_bucket compare_keys head key) [
      | none ↦ none
      | some (front, item, back) ↦ some (i, length front)
    ])

  unfoldable pub key_exists : HashTable → Ptr → Run Bool
  key_exists t key = do
    head ← load t.buckets (index hash t.size key)
    ok (elim (find_bucket compare_keys head key) [ none ↦ false | some _ ↦ true ])

-- hashtable_pair_get_key and hashtable_pair_get_value
unfoldable pub pair_bucket : HashTable → ℕ × ℕ → Run Bucket
pair_bucket t (i, n) = do chain ← load t.buckets i; load chain n

unfoldable pub pair_set_value : HashTable → ℕ × ℕ → Ptr → Run HashTable
pair_set_value t (i, n) value = do
  chain ← load t.buckets i
  item ← load chain n
  chain' ← store chain n (record item { value = value })
  buckets ← store t.buckets i chain'
  ok (record t { buckets = buckets; freed = t.freed ++ free_value t.frees_values item.value })

-- HashTableIter: `liter` is the chain from the current bucket on, and empty for NULL
pub record Iter : Type 0 where
  pub offset : ℕ
  pub liter : Chain
  pub finished : Bool

abbrev pub iter_init : Iter
iter_init = record { offset = 0; liter = []; finished = false }

-- hashtable_iter_get_key and hashtable_iter_get_value
unfoldable pub iter_bucket : Iter → Run Bucket
iter_bucket it = load it.liter 0

-- the loop of _hashtable_iter_get_next_bucket, over the heads from `offset` on
unfoldable pub next_bucket : List Chain → ℕ → Chain × ℕ
next_bucket [] offset = ([], offset)
next_bucket ([] ∷ chains) offset = next_bucket chains (offset + 1)
next_bucket ((b ∷ chain) ∷ chains) offset = (b ∷ chain, offset + 1)

unfoldable pub is_null : Chain → Bool
is_null [] = true
is_null (b ∷ chain) = false

-- the loop of hashtable_iter_next; three rounds are enough
unfoldable pub iter_loop : HashTable → ℕ → Iter → Bool → Run (Iter × Bool)
iter_loop t zero it success = out_of_fuel
iter_loop t (suc fuel) it success =
    let next = drop 1 it.liter in
    let along = iter_loop t fuel (record it { liter = next }) (not (is_null next)) in
    let (head, offset) = next_bucket (drop it.offset t.buckets) it.offset in
    let onward =
      iter_loop t fuel (record { offset = offset; liter = head; finished = is_null head })
        (not (is_null head)) in
    if success || it.finished then ok (it, success) else if is_null it.liter then onward else along

unfoldable pub iter_next : HashTable → Iter → Run (Iter × Bool)
unfolding iter_loop
iter_next t it = iter_loop t 4 it false
