-- ===== src/AssocArray.antt =====
-- The associative array: assocarray.h and assocarray.c. Two parallel arrays of pointers hold the
-- keys, in the order of the compare function, and the values; an operation returns the new array.
-- `frees_keys` and `frees_values` say whether the callbacks are set, and `freed` collects their
-- calls. The search keeps `stop`, which is `end + 1` of the source, since `end` may become -1.
pub mod Search
pub mod Examples
pub mod Remove
pub mod Lookup
pub mod Laws
pub mod Order
pub mod Update
pub mod Invariant
pub mod Shift
pub mod Table
use datatypes.Base.{
  ℕ, zero, suc, ◌+◌, ◌-◌, ◌*◌, ◌/◌, ◌%◌, ◌^◌, ◌≤◌, ◌<◌, compare, Ordering, ◌≡◌, refl, sym, ap, ap₂,
  ◌∙◌, ◌≢◌, ◌↔◌, ◌⊎◌, inl, inr, Bool, true, false, not, ◌&&◌, ◌||◌, Option, none, some, List, [],
  ◌∷◌, ◌++◌, append-nil, append_assoc, arith, ltb, leb, ◌==◌, if◌then◌else◌, Bool-cases,
  Option-cases, word, word32, ssize_max, sub64, Run, ok, fault, aborted, out_of_fuel, ◌>>=◌,
  Returns, length, get_elem?, take, drop, tabulate, overwrite, length-append, length-take,
  length-drop, length-tabulate, take-append-drop, take-append, drop-append, take-take,
  take-append_of_le, length-overwrite, take-drop, drop-append_cons, take_all, get_elem?-lt,
  get_elem?-take, drop-get_elem?, get_elem?-none, drop_all,
}
use datatypes.Memory.{load, store, move, resized}
use datatypes.Callbacks.{by_sign, Ptr, null, CompareFunc, Freed, free_key, free_value}

pub record AssocArray : Type 0 where
  pub keys : List Ptr
  pub values : List Ptr
  pub size : ℕ
  pub count : ℕ
  pub frees_keys : Bool
  pub frees_values : Bool
  pub freed : List Freed

pub data InsertResult : Type 0 where
  result_new result_replaced result_failed : InsertResult

-- SSIZE_MAX / sizeof(void *)
abbrev pub max_size : ℕ
max_size = ssize_max / 8

-- the while loop of _assoc_array_binary_search, with the last result and index
unfoldable pub search_loop :
    CompareFunc → List Ptr → Ptr → ℕ → ℕ → ℕ → Ordering → ℕ → Run (Ordering × ℕ)
search_loop compare_keys keys key zero begin stop result index = out_of_fuel
search_loop compare_keys keys key (suc fuel) begin stop result index =
    let middle = (begin + stop - 1) / 2 in
    let above = search_loop compare_keys keys key fuel (middle + 1) stop Ordering.gt middle in
    let below = search_loop compare_keys keys key fuel begin middle Ordering.lt middle in
    if ltb begin stop
    then (do
      k ← load keys middle
      by_sign (compare_keys key k) below (ok (Ordering.eq, middle)) above)
    else ok (result, index)

-- The sign of the result and *index. Each round drops a key, so `len + 1` rounds are enough.
unfoldable pub binary_search : CompareFunc → List Ptr → ℕ → Ptr → Run (Ordering × ℕ)
unfolding search_loop
binary_search compare_keys keys len key =
    if len == 1
    then (do k ← load keys 0; ok (compare_keys key k, 0))
    else search_loop compare_keys keys key (len + 1) 0 len Ordering.eq 0

unfoldable pub init : Bool → Bool → AssocArray
init frees_keys frees_values = record {
  keys = tabulate (λ _. null) 0 8;
  values = tabulate (λ _. null) 0 8;
  size = 8;
  count = 0;
  frees_keys = frees_keys;
  frees_values = frees_values;
  freed = [];
}

unfoldable pub insert_first : AssocArray → Ptr → Ptr → Run AssocArray
insert_first a key value = do
  keys ← store a.keys 0 key
  values ← store a.values 0 value
  ok (record a { keys = keys; values = values; count = a.count + 1 })

unfoldable pub replace : AssocArray → Ptr → Ptr → ℕ → Bool → Run AssocArray
replace a key value offset overwrite_key = do
  old_key ← load a.keys offset
  old_value ← load a.values offset
  keys ← (if overwrite_key then store a.keys offset key else ok a.keys)
  values ← store a.values offset value
  let log =
      (if overwrite_key then free_key a.frees_keys old_key else [])
      ++ free_value a.frees_values old_value
  ok (record a { keys = keys; values = values; freed = a.freed ++ log })

module _ (junk : ℕ → Ptr) where
  -- reallocates both arrays
  unfoldable pub resize_to : AssocArray → ℕ → AssocArray
  resize_to a size = record a {
    size = size;
    keys = resized junk a.keys size;
    values = resized junk a.values size;
  }

  unfoldable pub resize_if_necessary : AssocArray → Run AssocArray
  resize_if_necessary a =
      if a.count == a.size
      then (if a.size == max_size
          then aborted
          else ok (resize_to a (if ltb (max_size / 2) a.size then max_size else a.size * 2)))
      else ok a

-- the body of _assoc_array_insert_before_offset for one of the two arrays
unfoldable pub shift_in : List Ptr → ℕ → ℕ → Ptr → Run (List Ptr)
shift_in cells count offset x = do
  moved ← move cells (offset + 1) offset (count - offset)
  store moved offset x

unfoldable pub insert_before_offset : AssocArray → Ptr → Ptr → ℕ → Run AssocArray
unfolding shift_in
insert_before_offset a key value offset = do
  keys ← shift_in a.keys a.count offset key
  values ← shift_in a.values a.count offset value
  ok (record a { keys = keys; values = values })

-- the body of _assoc_array_insert_after_offset, past `++offset`, for one of the two arrays
unfoldable pub shift_after : List Ptr → ℕ → ℕ → Ptr → Run (List Ptr)
shift_after cells count offset x = do
  moved ← (if ltb offset count then move cells (offset + 1) offset (count - offset) else ok cells)
  store moved offset x

unfoldable pub insert_after_offset : AssocArray → Ptr → Ptr → ℕ → Run AssocArray
unfolding shift_after
insert_after_offset a key value offset = do
  keys ← shift_after a.keys a.count (offset + 1) key
  values ← shift_after a.values a.count (offset + 1) value
  ok (record a { keys = keys; values = values })

-- the memmove of assoc_array_remove for one of the two arrays
unfoldable pub shift_out : List Ptr → ℕ → ℕ → Run (List Ptr)
shift_out cells count offset =
    if ltb offset (count - 1) then move cells offset (offset + 1) (count - 1 - offset) else ok cells

module _ (compare_keys : CompareFunc) (junk : ℕ → Ptr) where
  -- what assoc_array_set does with the answer of the search
  unfoldable pub set_at :
      AssocArray → Ptr → Ptr → Bool → Ordering → ℕ → Run (AssocArray × InsertResult)
  set_at a key value overwrite_key Ordering.lt offset = do
    b ← resize_if_necessary junk a
    c ← insert_before_offset b key value offset
    ok (record c { count = c.count + 1 }, result_new)
  set_at a key value overwrite_key Ordering.gt offset = do
    b ← resize_if_necessary junk a
    c ← insert_after_offset b key value offset
    ok (record c { count = c.count + 1 }, result_new)
  set_at a key value overwrite_key Ordering.eq offset = do
    b ← replace a key value offset overwrite_key
    ok (b, result_replaced)

  unfoldable pub set : AssocArray → Ptr → Ptr → Bool → Run (AssocArray × InsertResult)
  set a key value overwrite_key =
      if not (a.count == 0)
      then (do
        (cmp, offset) ← binary_search compare_keys a.keys a.count key
        set_at a key value overwrite_key cmp offset)
      else (do b ← insert_first a key value; ok (b, result_new))

-- what assoc_array_remove does at the found offset
unfoldable pub remove_at : AssocArray → ℕ → Run AssocArray
unfolding shift_out
remove_at a offset = do
  old_key ← load a.keys offset
  old_value ← load a.values offset
  keys ← shift_out a.keys a.count offset
  values ← shift_out a.values a.count offset
  let log = free_key a.frees_keys old_key ++ free_value a.frees_values old_value
  ok (record a { keys = keys; values = values; count = a.count - 1; freed = a.freed ++ log })

module _ (compare_keys : CompareFunc) where
  unfoldable pub remove : AssocArray → Ptr → Run AssocArray
  remove a key =
      if not (a.count == 0)
      then (do
        (cmp, offset) ← binary_search compare_keys a.keys a.count key
        by_sign cmp (ok a) (remove_at a offset) (ok a))
      else ok a

  -- The returned pair is the offset of the entry; `none` is NULL.
  unfoldable pub lookup : AssocArray → Ptr → Run (Option ℕ)
  lookup a key =
      if not (a.count == 0)
      then (do
        (cmp, offset) ← binary_search compare_keys a.keys a.count key
        ok (by_sign cmp none (some offset) none))
      else ok none

  unfoldable pub key_exists : AssocArray → Ptr → Run Bool
  key_exists a key =
      if not (a.count == 0)
      then (do
        (cmp, offset) ← binary_search compare_keys a.keys a.count key
        ok (by_sign cmp false true false))
      else ok false

-- assoc_array_pair_get_key and assoc_array_pair_get_value
unfoldable pub pair_get_key : AssocArray → ℕ → Run Ptr
pair_get_key a offset = load a.keys offset

unfoldable pub pair_get_value : AssocArray → ℕ → Run Ptr
pair_get_value a offset = load a.values offset

unfoldable pub pair_set_value : AssocArray → ℕ → Ptr → Run AssocArray
pair_set_value a offset value = do
  old_value ← load a.values offset
  values ← store a.values offset value
  ok (record a { values = values; freed = a.freed ++ free_value a.frees_values old_value })

-- the loop of _assoc_array_free_memory, from offset `i` over `n` entries
unfoldable pub free_memory_loop : AssocArray → ℕ → ℕ → Run (List Freed)
free_memory_loop a i zero = ok []
free_memory_loop a i (suc n) = do
  k ← load a.keys i
  v ← load a.values i
  rest ← free_memory_loop a (i + 1) n
  ok (free_key a.frees_keys k ++ (free_value a.frees_values v ++ rest))

unfoldable pub free_memory : AssocArray → Run AssocArray
unfolding free_memory_loop
free_memory a =
    if a.frees_keys || a.frees_values
    then (do log ← free_memory_loop a 0 a.count; ok (record a { freed = a.freed ++ log }))
    else ok a

unfoldable pub clear : AssocArray → Run AssocArray
clear a = do b ← free_memory a; ok (record b { count = 0 })

-- assoc_array_iter_next: the next offset, and whether it is one of an entry. The offset of a new
-- iterator is -1, which is `none`.
unfoldable pub iter_next : AssocArray → Option ℕ → ℕ × Bool
iter_next a none = (0, ltb 0 a.count)
iter_next a (some offset) = (offset + 1, ltb (offset + 1) a.count)
