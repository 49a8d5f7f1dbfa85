-- ===== src/AssocArray/Update.antt =====
-- assoc_array_set against the entries.
use datatypes.Base.{
  ℕ, suc, ◌+◌, ◌≤◌, ◌<◌, Ordering, ◌≡◌, refl, sym, ap, ◌∙◌, inl, inr, Bool, true, false, Option,
  none, some, List, [], ◌∷◌, ◌++◌, append-nil, arith, ◌==◌, if◌then◌else◌, Bool-cases, ok, ◌>>=◌,
  Returns, length, get_elem?, take, drop, overwrite, length-overwrite, get_elem?-lt, get_elem?-take,
}
use datatypes.Memory.{load-ok, store-ok, take-overwrite}
use datatypes.Callbacks.{Ptr, CompareFunc, Freed, free_key, free_value, IsOrder}
use datatypes.AssocArray.{
  AssocArray, InsertResult, result_new, result_replaced, max_size, insert_first, replace,
  insert_before_offset, insert_after_offset, set_at, set,
}
use datatypes.AssocArray.Search.{Locates}
use datatypes.AssocArray.Shift.{shift_in-Begins, shift_after-Begins, take-overwrite_one, take_self}
use datatypes.AssocArray.Table.{
  insert, find, Compares, insert-pair_up, insert-pair_up_equal, find-pair_up, absent-pair_up,
}
use datatypes.AssocArray.Order.{eq_refl, IsSorted-insert, IsSorted-replace}
use datatypes.AssocArray.Invariant.{
  keys_of, values_of, entries, IsSound, SameCallbacks, length-keys_of, length-values_of,
  search-Locates, Around-lt, Around-gt, resize-IsSound,
}

-- The callbacks that a replaced or removed entry costs: its key only if it goes away.
unfoldable pub discarded : AssocArray → Bool → Option (Ptr × Ptr) → List Freed
discarded a drops_key none = []
discarded a drops_key (some (k, v)) =
    (if drops_key then free_key a.frees_keys k else []) ++ free_value a.frees_values v

abbrev found {ℓ} : {A : Type ℓ} → Option A → Bool
found none = false
found (some _) = true

module _ (compare_keys : CompareFunc) where
  -- What assoc_array_set did to the array.
  pub record Sets (a : AssocArray) (key value : Ptr) (overwrite_key : Bool)
      (result : AssocArray × InsertResult) : Type 0 where
    pub sound : IsSound compare_keys result.0
    pub inserted : entries result.0 ≡ insert compare_keys key value overwrite_key (entries a)
    pub outcome :
        result.1
        ≡ (if found (find compare_keys key (entries a)) then result_replaced else result_new)
    pub log :
        result.0.freed ≡ a.freed ++ discarded a overwrite_key (find compare_keys key (entries a))
    pub callbacks : SameCallbacks a result.0

  module _ (junk : ℕ → Ptr) (order : IsOrder compare_keys) (a : AssocArray)
      (s : IsSound compare_keys a) (key value : Ptr) (overwrite_key : Bool) where
    -- the array after a new entry at `p`, from the three runs that put it there
    added :
        (p : ℕ)
        → p ≤ a.count
        → Compares compare_keys key (keys_of a) Ordering.gt (λ j. j < p)
        → Compares compare_keys key (keys_of a) Ordering.lt (λ j. p ≤ j)
        → (b : AssocArray) (keys values : List Ptr) → IsSound compare_keys b
        → b.count ≡ a.count
        → b.count < b.size
        → keys_of b ≡ keys_of a
        → values_of b ≡ values_of a
        → SameCallbacks a b
        → b.freed ≡ a.freed
        → (length keys ≡ length b.keys)
          × (take (b.count + 1) keys ≡ take p (keys_of b) ++ key ∷ drop p (keys_of b))
        → (length values ≡ length b.values)
          × (take (b.count + 1) values ≡ take p (values_of b) ++ value ∷ drop p (values_of b))
        → Sets a key value overwrite_key
            (record b { keys = keys; values = values; count = b.count + 1 }, result_new)
    unfolding entries discarded
    added p h lower upper b keys values sound count wide ks vs same log to_keys to_values =
        let (missing, _) =
          absent-pair_up compare_keys key (keys_of a) (values_of a) p lower upper in
        record {
          sound = record {
            key_cells = to_keys.0 ∙ sound.key_cells;
            value_cells = to_values.0 ∙ sound.value_cells;
            within = omega arith;
            some_memory = sound.some_memory;
            limited = sound.limited;
            sorted =
                rw (to_keys.1, ks)
                  (IsSorted-insert compare_keys order key (keys_of a) p s.sorted lower upper);
          };
          inserted =
              rw (to_keys.1, to_values.1, ks, vs)
                (sym (
                  insert-pair_up compare_keys key value overwrite_key (keys_of a) (values_of a) p
                    (length-keys_of compare_keys s ∙ sym (length-values_of compare_keys s))
                    (omega (arith, length-keys_of compare_keys s)) lower upper));
          outcome = rw missing;
          log = rw missing (log ∙ sym (append-nil a.freed));
          callbacks = same;
        }

    -- the array after a change of the entry at `p`
    replaced_Sets :
        (p : ℕ) (old old_value : Ptr) (keys values : List Ptr)
        → get_elem? (keys_of a) p ≡ some old
        → get_elem? (values_of a) p ≡ some old_value
        → compare_keys key old ≡ Ordering.eq
        → Compares compare_keys key (keys_of a) Ordering.gt (λ j. j < p)
        → (length keys ≡ length a.keys)
          × (take a.count keys
              ≡ take p (keys_of a)
                ++ (if overwrite_key then key else old) ∷ drop (suc p) (keys_of a))
        → (length values ≡ length a.values)
          × (take a.count values ≡ take p (values_of a) ++ value ∷ drop (suc p) (values_of a))
        → Sets a key value overwrite_key (
          record a {
            keys = keys;
            values = values;
            freed = a.freed ++ discarded a overwrite_key (some (old, old_value));
          },
          result_replaced,
        )
    unfolding entries
    replaced_Sets p old old_value keys values here there same lower to_keys to_values =
        let hit =
          find-pair_up compare_keys key (keys_of a) (values_of a) p old old_value here there same
            lower in
        record {
          sound = record {
            key_cells = to_keys.0 ∙ s.key_cells;
            value_cells = to_values.0 ∙ s.value_cells;
            within = s.within;
            some_memory = s.some_memory;
            limited = s.limited;
            sorted = rw (to_keys.1) (
                IsSorted-replace compare_keys order (if overwrite_key then key else old) old
                  (keys_of a) p here (ground (arith, eq_refl compare_keys order old)) s.sorted);
          };
          inserted =
              rw (to_keys.1, to_values.1)
                (sym (
                  insert-pair_up_equal compare_keys key value overwrite_key (keys_of a)
                    (values_of a) p old
                    (length-keys_of compare_keys s ∙ sym (length-values_of compare_keys s)) here
                    same lower));
          outcome = rw hit;
          log = rw hit;
          callbacks = (refl, refl);
        }

    replaced :
        (p : ℕ) (old : Ptr)
        → get_elem? (keys_of a) p ≡ some old
        → compare_keys key old ≡ Ordering.eq
        → p < a.count
        → Compares compare_keys key (keys_of a) Ordering.gt (λ j. j < p)
        → Returns
            (do b ← replace a key value p overwrite_key; ok (b, result_replaced))
            (Sets a key value overwrite_key)
    unfolding replace discarded
    replaced p old here same inside lower =
        let (old_value, there) =
          get_elem?-lt (values_of a) p (omega (arith, length-values_of compare_keys s)) in
        let keys = (if overwrite_key then overwrite a.keys p (key ∷ []) else a.keys) in
        let values = overwrite a.values p (value ∷ []) in
        let read_key = load-ok a.keys p old (sym (get_elem?-take a.count a.keys p inside) ∙ here) in
        let read_value =
          load-ok a.values p old_value (sym (get_elem?-take a.count a.values p inside) ∙ there) in
        let stored = store-ok a.values p value (omega (arith, s.value_cells, s.within)) in
        let stored_key = store-ok a.keys p key (omega (arith, s.key_cells, s.within)) in
        let ready =
          replaced_Sets p old old_value keys values here there same lower
            (ground (
              arith,
              length-overwrite a.keys p (key ∷ []) (omega (arith, s.key_cells, s.within)),
              take-overwrite_one a.keys a.count p key inside (omega (arith, s.key_cells, s.within)),
              take_self (keys_of a) p old here,
            ))
            (
              length-overwrite a.values p (value ∷ []) (omega (arith, s.value_cells, s.within)),
              take-overwrite_one a.values a.count p value inside
                  (omega (arith, s.value_cells, s.within)),
            ) in
        (_, ground (arith, read_key, read_value, stored, stored_key), ready)

  -- With an order to compare by, on a sound array that is not at its size limit, assoc_array_set ends without a fault or an abort
  -- and leaves the array sound. Its entries are those of a sorted insertion, the
  -- result says whether the key was there, and the callbacks have been given the old value, if it is
  -- not NULL, and the old key, if it was overwritten.
  pub set-Sets :
      (junk : ℕ → Ptr)
      → IsOrder compare_keys
      → (a : AssocArray) → IsSound compare_keys a
      → (key value : Ptr) (overwrite_key : Bool) → a.count < max_size
      → Returns (set compare_keys junk a key value overwrite_key) (Sets a key value overwrite_key)
  unfolding set insert_first set_at insert_before_offset insert_after_offset
  set-Sets junk order a s key value overwrite_key room = elim (Bool-cases (a.count == 0)) [
    | inl none_yet ↦
        let e : a.count ≡ 0 = ground arith in
        let no_keys : keys_of a ≡ [] = ap (λ n. take n a.keys) e in
        let no_values : values_of a ≡ [] = ap (λ n. take n a.values) e in
        let first_key = store-ok a.keys 0 key (omega (arith, s.key_cells, s.some_memory)) in
        let first_value = store-ok a.values 0 value (omega (arith, s.value_cells, s.some_memory)) in
        (
          _,
          rw (none_yet, first_key, first_value),
          added junk order a s key value overwrite_key 0 (omega arith)
              (λ j k h. absurd (omega arith)) (λ j k h g. let x = rw no_keys at g in cc) a
              (overwrite a.keys 0 (key ∷ [])) (overwrite a.values 0 (value ∷ [])) s refl
              (omega (arith, s.some_memory)) refl refl (refl, refl) refl
              (
                length-overwrite a.keys 0 (key ∷ []) (omega (arith, s.key_cells, s.some_memory)),
                rw no_keys
                    (take-overwrite a.keys 0 (a.count + 1) (key ∷ []) (omega arith) (omega arith)),
              )
              (
                length-overwrite a.values 0 (value ∷ [])
                    (omega (arith, s.value_cells, s.some_memory)),
                rw no_values (
                    take-overwrite a.values 0 (a.count + 1) (value ∷ []) (omega arith)
                      (omega arith)),
              ),
        )
    | inr some_keys ↦
        let ((cmp, i), run, l) = search-Locates compare_keys s order key (ground arith) in
        rw (some_keys, run) (set_at-Sets cmp i l)
  ]
    where
      set_at-Sets :
          (cmp : Ordering) (i : ℕ)
          → Locates compare_keys (keys_of a) key (cmp, i)
          → Returns
              (set_at compare_keys junk a key value overwrite_key cmp i)
              (Sets a key value overwrite_key)
      set_at-Sets Ordering.lt i l =
          let (h, lower, upper) = Around-lt compare_keys s key i l in
          let (b, run, (sound, count, wide, ks, vs, same, log)) =
            resize-IsSound compare_keys junk a s room in
          let (keys, run_keys, to_keys) =
            shift_in-Begins b.keys b.count i key (omega arith) (omega (arith, sound.key_cells)) in
          let (values, run_values, to_values) =
            shift_in-Begins b.values b.count i value (omega arith)
              (omega (arith, sound.value_cells)) in
          (
            _,
            rw (run, ◌>>=◌, run_keys, run_values),
            added junk order a s key value overwrite_key i h lower upper b keys values sound count
                wide ks vs same log to_keys to_values,
          )
      set_at-Sets Ordering.eq i l =
          let (old, here) = get_elem?-lt (keys_of a) i l.within in
          replaced junk order a s key value overwrite_key i old here (l.compares old here)
            (omega (arith, l.within, length-keys_of compare_keys s)) l.earlier
      set_at-Sets Ordering.gt i l =
          let (h, lower, upper) = Around-gt compare_keys s key i l in
          let (b, run, (sound, count, wide, ks, vs, same, log)) =
            resize-IsSound compare_keys junk a s room in
          let (keys, run_keys, to_keys) =
            shift_after-Begins b.keys b.count (i + 1) key (omega arith)
              (omega (arith, sound.key_cells)) in
          let (values, run_values, to_values) =
            shift_after-Begins b.values b.count (i + 1) value (omega arith)
              (omega (arith, sound.value_cells)) in
          (
            _,
            rw (run, ◌>>=◌, run_keys, run_values),
            added junk order a s key value overwrite_key (i + 1) h lower upper b keys values sound
                count wide ks vs same log to_keys to_values,
          )
