-- ===== src/AssocArray/Invariant.antt =====
-- The invariant of an AssocArray and the entries that it stands for.
use datatypes.Base.{
  ℕ, ◌+◌, ◌*◌, ◌/◌, ◌≤◌, ◌<◌, Ordering, ◌≡◌, refl, inl, inr, Bool, false, List, [], arith, ltb,
  ◌==◌, if◌then◌else◌, Bool-cases, Returns, length, take, length-take,
}
use native.Mathlib.Decide.{dec_lt}
use datatypes.Memory.{length-resized, take-resized}
use datatypes.Callbacks.{Ptr, CompareFunc, IsOrder}
use datatypes.AssocArray.{AssocArray, max_size, init, resize_to, resize_if_necessary, binary_search}
use datatypes.AssocArray.Search.{IsSorted, Locates, binary_search-Locates}
use datatypes.AssocArray.Table.{Entries, pair_up, Compares}

-- the keys and values in use
abbrev pub keys_of : AssocArray → List Ptr
keys_of a = take a.count a.keys

abbrev pub values_of : AssocArray → List Ptr
values_of a = take a.count a.values

unfoldable pub entries : AssocArray → Entries
entries a = pair_up (keys_of a) (values_of a)

pub record IsSound (compare_keys : CompareFunc) (a : AssocArray) : Type 0 where
  pub key_cells : length a.keys ≡ a.size
  pub value_cells : length a.values ≡ a.size
  pub within : a.count ≤ a.size
  pub some_memory : 0 < a.size
  pub limited : a.size ≤ max_size
  pub sorted : IsSorted compare_keys (keys_of a)

-- what assoc_array_set, remove and clear leave alone
abbrev pub SameCallbacks : AssocArray → AssocArray → Type 0
SameCallbacks a b = (b.frees_keys ≡ a.frees_keys) × (b.frees_values ≡ a.frees_values)

module _ (compare_keys : CompareFunc) where
  -- A new array is sound and has no entries.
  pub init-IsSound :
      (frees_keys frees_values : Bool)
      → IsSound compare_keys (init frees_keys frees_values)
        × (entries (init frees_keys frees_values) ≡ [])
  unfolding init entries pair_up
  init-IsSound frees_keys frees_values = (omega arith, refl)

  module _ {a : AssocArray} (s : IsSound compare_keys a) where
    pub length-keys_of : length (keys_of a) ≡ a.count
    length-keys_of = omega (arith, length-take a.count a.keys, s.key_cells, s.within)

    pub length-values_of : length (values_of a) ≡ a.count
    length-values_of = omega (arith, length-take a.count a.values, s.value_cells, s.within)

    pub search-Locates :
        IsOrder compare_keys
        → (key : Ptr) → 0 < a.count
        → Returns
            (binary_search compare_keys a.keys a.count key)
            (Locates compare_keys (keys_of a) key)
    search-Locates order key pos =
        binary_search-Locates compare_keys order a.keys a.count key pos
          (omega (arith, s.key_cells, s.within)) s.sorted

    -- the keys before and behind the place of a key that is absent
    abbrev pub Around : Ptr → ℕ → Type 0
    Around key p =
        (p ≤ a.count)
        × Compares compare_keys key (keys_of a) Ordering.gt (λ j. j < p)
        × Compares compare_keys key (keys_of a) Ordering.lt (λ j. p ≤ j)

    pub Around-lt :
        (key : Ptr) (i : ℕ) → Locates compare_keys (keys_of a) key (Ordering.lt, i) → Around key i
    Around-lt key i l = (
      omega (arith, l.within, length-keys_of),
      l.earlier,
      λ j k h e. elim (dec_lt i j) [
        | yes g ↦ l.later j k g e
        | no g ↦ let same : j ≡ i = omega arith in l.compares k (rw same at e)
      ],
    )

    pub Around-gt :
        (key : Ptr) (i : ℕ)
        → Locates compare_keys (keys_of a) key (Ordering.gt, i)
        → Around key (i + 1)
    Around-gt key i l = (
      omega (arith, l.within, length-keys_of),
      (λ j k h e. elim (dec_lt j i) [
        | yes g ↦ l.earlier j k g e
        | no g ↦ let same : j ≡ i = omega arith in l.compares k (rw same at e)
      ]),
      λ j k h e. l.later j k (omega arith) e,
    )

  -- _assoc_array_resize_if_necessary makes room for one more entry, and keeps the entries.
  pub resize-IsSound :
      (junk : ℕ → Ptr) (a : AssocArray)
      → IsSound compare_keys a
      → a.count < max_size
      → Returns (resize_if_necessary junk a) λ b.
        IsSound compare_keys b
        × (b.count ≡ a.count)
        × (b.count < b.size)
        × (keys_of b ≡ keys_of a)
        × (values_of b ≡ values_of a)
        × SameCallbacks a b
        × (b.freed ≡ a.freed)
  unfolding resize_if_necessary resize_to
  resize-IsSound junk a s room = elim (Bool-cases (a.count == a.size)) [
    | inr free ↦ (a, rw free, (s, refl, ground arith, refl, refl, (refl, refl), refl))
    | inl full ↦
        let more = (if ltb (max_size / 2) a.size then max_size else a.size * 2) in
        let small : (a.size == max_size) ≡ false = ground arith in
        let wide : a.count < more = ground arith in
        let bounded : more ≤ max_size = ground arith in
        let ks = take-resized junk a.keys a.count more (omega arith) (omega arith) in
        let vs = take-resized junk a.values a.count more (omega arith) (omega arith) in
        (
          resize_to junk a more,
          rw (full, small),
          (
            record {
              key_cells = length-resized junk a.keys more;
              value_cells = length-resized junk a.values more;
              within = omega arith;
              some_memory = omega arith;
              limited = bounded;
              sorted = rw ks s.sorted;
            },
            refl,
            wide,
            ks,
            vs,
            (refl, refl),
            refl,
          ),
        )
  ]
