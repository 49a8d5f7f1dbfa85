-- ===== src/AssocArray/Remove.antt =====
-- assoc_array_remove against the entries.
use datatypes.Base.{
  ℕ, ◌+◌, ◌-◌, ◌<◌, Ordering, ◌≡◌, refl, sym, ap, ◌∙◌, inl, inr, true, none, some, [], ◌++◌,
  append-nil, arith, ◌==◌, Bool-cases, ok, ◌>>=◌, Returns, get_elem?, take, get_elem?-lt,
  get_elem?-take,
}
use datatypes.Memory.{load-ok}
use datatypes.Callbacks.{Ptr, CompareFunc, by_sign, IsOrder}
use datatypes.AssocArray.{AssocArray, remove_at, remove}
use datatypes.AssocArray.Search.{Locates}
use datatypes.AssocArray.Shift.{shift_out-Begins}
use datatypes.AssocArray.Table.{erase, find, erase-pair_up, find-pair_up, absent-pair_up}
use datatypes.AssocArray.Order.{IsSorted-erase}
use datatypes.AssocArray.Invariant.{
  keys_of, values_of, entries, IsSound, SameCallbacks, length-keys_of, length-values_of,
  search-Locates, Around-lt, Around-gt,
}
use datatypes.AssocArray.Update.{discarded}

-- What assoc_array_remove did to the array.
pub record Removes (compare_keys : CompareFunc) (a : AssocArray) (key : Ptr) (b : AssocArray)
    : Type 0 where
  pub sound : IsSound compare_keys b
  pub removed : entries b ≡ erase compare_keys key (entries a)
  pub log : b.freed ≡ a.freed ++ discarded a true (find compare_keys key (entries a))
  pub callbacks : SameCallbacks a b

module _ (compare_keys : CompareFunc) (order : IsOrder compare_keys) (a : AssocArray)
    (s : IsSound compare_keys a) (key : Ptr) where
  -- an absent key leaves the array as it is
  kept :
      find compare_keys key (entries a) ≡ none
      → erase compare_keys key (entries a) ≡ entries a
      → Removes compare_keys a key a
  unfolding discarded
  kept missing same = record {
    sound = s;
    removed = sym same;
    log = rw missing (sym (append-nil a.freed));
    callbacks = (refl, refl);
  }

  removed_at :
      (p : ℕ) (old : Ptr)
      → get_elem? (keys_of a) p ≡ some old
      → compare_keys key old ≡ Ordering.eq
      → p < a.count
      → ((j : ℕ) (k : Ptr)
          → j < p
          → get_elem? (keys_of a) j ≡ some k
          → compare_keys key k ≡ Ordering.gt)
      → Returns (remove_at a p) (Removes compare_keys a key)
  unfolding remove_at entries discarded
  removed_at p old here same inside lower =
      let (v, there) =
        get_elem?-lt (values_of a) p (omega (arith, length-values_of compare_keys s)) in
      let read_key = load-ok a.keys p old (sym (get_elem?-take a.count a.keys p inside) ∙ here) in
      let read_value =
        load-ok a.values p v (sym (get_elem?-take a.count a.values p inside) ∙ there) in
      let (keys, run_keys, (size_keys, front_keys)) =
        shift_out-Begins a.keys a.count p inside (omega (arith, s.key_cells, s.within)) in
      let (values, run_values, (size_values, front_values)) =
        shift_out-Begins a.values a.count p inside (omega (arith, s.value_cells, s.within)) in
      let balanced = length-keys_of compare_keys s ∙ sym (length-values_of compare_keys s) in
      (
        record a {
          keys = keys;
          values = values;
          count = a.count - 1;
          freed = a.freed ++ discarded a true (some (old, v));
        },
        rw (read_key, read_value, ◌>>=◌, run_keys, run_values),
        record {
          sound = record {
            key_cells = size_keys ∙ s.key_cells;
            value_cells = size_values ∙ s.value_cells;
            within = omega (arith, s.within);
            some_memory = s.some_memory;
            limited = s.limited;
            sorted = rw front_keys (IsSorted-erase compare_keys order (keys_of a) p s.sorted);
          };
          removed =
              rw (front_keys, front_values)
                (sym (
                  erase-pair_up compare_keys key (keys_of a) (values_of a) p old balanced here same
                    lower));
          log = rw (
              find-pair_up compare_keys key (keys_of a) (values_of a) p old v here there same
                lower);
          callbacks = (refl, refl);
        },
      )

-- With an order to compare by, on a sound array, assoc_array_remove ends without a fault and leaves the array sound. It drops the
-- entry of the equal key, whose key and value the callbacks are given, and changes nothing if there
-- is none.
pub remove-Removes :
    (compare_keys : CompareFunc)
    → IsOrder compare_keys
    → (a : AssocArray) → IsSound compare_keys a
    → (key : Ptr) → Returns (remove compare_keys a key) (Removes compare_keys a key)
unfolding remove entries
remove-Removes compare_keys order a s key = elim (Bool-cases (a.count == 0)) [
  | inl none_yet ↦
      let e : a.count ≡ 0 = ground arith in
      let no_keys : keys_of a ≡ [] = ap (λ n. take n a.keys) e in
      let (missing, same) =
        absent-pair_up compare_keys key (keys_of a) (values_of a) 0 (λ j k h. absurd (omega arith))
          (λ j k h g. let x = rw no_keys at g in cc) in
      (a, rw none_yet, kept compare_keys order a s key missing same)
  | inr some_keys ↦
      let ((cmp, i), run, l) = search-Locates compare_keys s order key (ground arith) in
      rw (some_keys, run) (remove_by cmp i l)
]
  where
    remove_by :
        (cmp : Ordering) (i : ℕ)
        → Locates compare_keys (keys_of a) key (cmp, i)
        → Returns (by_sign cmp (ok a) (remove_at a i) (ok a)) (Removes compare_keys a key)
    remove_by Ordering.lt i l =
        let (h, lower, upper) = Around-lt compare_keys s key i l in
        let (missing, same) =
          absent-pair_up compare_keys key (keys_of a) (values_of a) i lower upper in
        (a, refl, kept compare_keys order a s key missing same)
    remove_by Ordering.eq i l =
        let (old, here) = get_elem?-lt (keys_of a) i l.within in
        removed_at compare_keys order a s key i old here (l.compares old here)
          (omega (arith, l.within, length-keys_of compare_keys s)) l.earlier
    remove_by Ordering.gt i l =
        let (h, lower, upper) = Around-gt compare_keys s key i l in
        let (missing, same) =
          absent-pair_up compare_keys key (keys_of a) (values_of a) (i + 1) lower upper in
        (a, refl, kept compare_keys order a s key missing same)
