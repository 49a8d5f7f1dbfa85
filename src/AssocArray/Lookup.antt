-- ===== src/AssocArray/Lookup.antt =====
-- assoc_array_lookup, assoc_array_key_exists and the pair functions against the entries.
use datatypes.Base.{
  ℕ, ◌+◌, ◌<◌, Ordering, ◌≡◌, sym, ap, ◌∙◌, inl, inr, Bool, true, false, Option, none, some, [],
  arith, ◌==◌, Bool-cases, Run, ok, ◌>>=◌, take, get_elem?-lt, get_elem?-take,
}
use datatypes.Memory.{load-ok}
use datatypes.Callbacks.{Ptr, CompareFunc, by_sign, IsOrder}
use datatypes.AssocArray.{
  AssocArray, max_size, set, remove, lookup, key_exists, pair_get_key, pair_get_value,
}
use datatypes.AssocArray.Search.{Locates}
use datatypes.AssocArray.Table.{find, find-pair_up, absent-pair_up}
use datatypes.AssocArray.Laws.{value_of, value_of-find, value_of-insert, value_of-erase}
use datatypes.AssocArray.Invariant.{
  keys_of, values_of, entries, IsSound, length-keys_of, length-values_of, search-Locates, Around-lt,
  Around-gt,
}
use datatypes.AssocArray.Update.{set-Sets}
use datatypes.AssocArray.Remove.{remove-Removes}

-- what a caller reads through the pair that assoc_array_lookup returns
abbrev pub read_pair : AssocArray → Option ℕ → Run (Option (Ptr × Ptr))
read_pair a none = ok none
read_pair a (some offset) = do
  k ← pair_get_key a offset
  v ← pair_get_value a offset
  ok (some (k, v))

abbrev pub get : CompareFunc → AssocArray → Ptr → Run (Option (Ptr × Ptr))
get compare_keys a key = lookup compare_keys a key >>= read_pair a

-- the value that assoc_array_lookup finds
abbrev pub value_at : CompareFunc → AssocArray → Ptr → Run (Option Ptr)
value_at compare_keys a q =
    get compare_keys a q >>= λ e. ok (elim e [ none ↦ none | some p ↦ some (p.1) ])

module _ (compare_keys : CompareFunc) (order : IsOrder compare_keys) where
  -- what the answer of the search tells of the entries
  abbrev Answers : AssocArray → Ptr → Ordering × ℕ → Type 0
  Answers a key (cmp, i) =
      (read_pair a (by_sign cmp none (some i) none) ≡ ok (find compare_keys key (entries a)))
      × (by_sign cmp false true false
          ≡ elim (find compare_keys key (entries a)) [ none ↦ false | some _ ↦ true ])

  answers :
      (a : AssocArray) (s : IsSound compare_keys a) (key : Ptr) (cmp : Ordering) (i : ℕ)
      → Locates compare_keys (keys_of a) key (cmp, i)
      → Answers a key (cmp, i)
  unfolding entries pair_get_key pair_get_value
  answers a s key Ordering.lt i l =
      let (h, lower, upper) = Around-lt compare_keys s key i l in
      let missing = (absent-pair_up compare_keys key (keys_of a) (values_of a) i lower upper).0 in
      (rw missing, rw missing)
  answers a s key Ordering.gt i l =
      let (h, lower, upper) = Around-gt compare_keys s key i l in
      let missing =
        (absent-pair_up compare_keys key (keys_of a) (values_of a) (i + 1) lower upper).0 in
      (rw missing, rw missing)
  answers a s key Ordering.eq i l =
      let inside : i < a.count = omega (arith, l.within, length-keys_of compare_keys s) in
      let (k, here) = get_elem?-lt (keys_of a) i l.within in
      let (v, there) =
        get_elem?-lt (values_of a) i (omega (arith, length-values_of compare_keys s)) in
      let hit =
        find-pair_up compare_keys key (keys_of a) (values_of a) i k v here there (l.compares k here)
          l.earlier in
      let read_key = load-ok a.keys i k (sym (get_elem?-take a.count a.keys i inside) ∙ here) in
      let read_value =
        load-ok a.values i v (sym (get_elem?-take a.count a.values i inside) ∙ there) in
      (rw (read_key, read_value, hit), rw hit)

  -- With an order to compare by, assoc_array_lookup of a sound array returns NULL or a pair, through which the caller reads the
  -- entry of the equal key; assoc_array_key_exists says whether there is one.
  pub get-find :
      (a : AssocArray)
      → IsSound compare_keys a
      → (key : Ptr)
      → (get compare_keys a key ≡ ok (find compare_keys key (entries a)))
        × (key_exists compare_keys a key
            ≡ ok (elim (find compare_keys key (entries a)) [ none ↦ false | some _ ↦ true ]))
  unfolding lookup key_exists entries
  get-find a s key = elim (Bool-cases (a.count == 0)) [
    | inl none_yet ↦
        let e : a.count ≡ 0 = ground arith in
        let no_keys : keys_of a ≡ [] = ap (λ n. take n a.keys) e in
        let missing =
          (absent-pair_up compare_keys key (keys_of a) (values_of a) 0
            (λ j k h. absurd (omega arith)) (λ j k h g. let x = rw no_keys at g in cc)).0 in
        (rw (none_yet, missing), rw (none_yet, missing))
    | inr some_keys ↦
        let ((cmp, i), run, l) = search-Locates compare_keys s order key (ground arith) in
        let p = answers a s key cmp i l in
        (rw (some_keys, run, ◌>>=◌) (p.0), rw (some_keys, run, p.1))
  ]

  value_at-value_of :
      (a : AssocArray)
      → IsSound compare_keys a
      → (q : Ptr) → value_at compare_keys a q ≡ ok (value_of compare_keys q (entries a))
  value_at-value_of a s q = rw ((get-find a s q).0, value_of-find compare_keys q (entries a))

  -- With an order to compare by, a lookup after assoc_array_set, on a sound array below its size limit, finds the new value under
  -- every key that compares equal to the given one, and under other keys what it found before.
  pub value_at-set :
      (junk : ℕ → Ptr) (a : AssocArray)
      → IsSound compare_keys a
      → (key value : Ptr) (overwrite_key : Bool) (q : Ptr) → a.count < max_size
      → (set compare_keys junk a key value overwrite_key >>= λ r. value_at compare_keys (r.0) q)
        ≡ by_sign
            (compare_keys q key)
            (value_at compare_keys a q)
            (ok (some value))
            (value_at compare_keys a q)
  value_at-set junk a s key value overwrite_key q room =
      let (r, run, w) = set-Sets compare_keys junk order a s key value overwrite_key room in
      rw
        (
          run,
          ◌>>=◌,
          value_at-value_of (r.0) w.sound q,
          w.inserted,
          value_of-insert compare_keys order q key value overwrite_key (entries a),
          value_at-value_of a s q,
        )
        (ground arith)

  -- With an order to compare by, a lookup after assoc_array_remove, on a sound array, finds nothing under the keys that compare
  -- equal to the given one, and under other keys what it found before.
  pub value_at-remove :
      (a : AssocArray)
      → IsSound compare_keys a
      → (key q : Ptr)
      → (remove compare_keys a key >>= λ b. value_at compare_keys b q)
        ≡ by_sign
            (compare_keys q key)
            (value_at compare_keys a q)
            (ok none)
            (value_at compare_keys a q)
  unfolding entries
  value_at-remove a s key q =
      let (b, run, w) = remove-Removes compare_keys order a s key in
      rw
        (
          run,
          ◌>>=◌,
          value_at-value_of b w.sound q,
          w.removed,
          value_of-erase compare_keys order q key (keys_of a) (values_of a) s.sorted,
          value_at-value_of a s q,
        )
        (ground arith)
