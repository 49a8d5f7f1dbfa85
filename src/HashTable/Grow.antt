-- ===== src/HashTable/Grow.antt =====
-- _hashtable_resize.
use datatypes.Base.{
  ℕ, zero, suc, ◌-◌, ◌/◌, ◌≤◌, ◌<◌, ◌≡◌, refl, sym, ap, ◌∙◌, inl, false, ◌||◌, none, some, [],
  arith, ltb, ◌==◌, word, ok, Returns, Returns-both, tabulate, length-tabulate, get_elem?-lt,
}
use datatypes.Callbacks.{Ptr}
use datatypes.HashTable.{EqualFunc, HashFunc, Chain, HashTable, index, calloc, next_size, resize}
use datatypes.HashTable.Chains.{IsEquality, value_in}
use datatypes.HashTable.Lookup.{value_at, value_at-value_in}
use datatypes.HashTable.Placed.{
  concat, ArePlaced, AreDistinct, IsSound, value_in-concat, IsDistinct-concat,
}
use datatypes.HashTable.Resize.{
  found_in, found_in-value_in, newest, newest-value_in, rehash-found_in, get_elem?-tabulate,
}
use datatypes.HashTable.Sound.{rehash-AreSound}

-- The next size of a table can be allocated.
pub record CanGrow (t : HashTable) (p size : ℕ) : Type 0 where
  pub next : next_size t ≡ ok (p, size)
  pub some_memory : 0 < size
  pub limited : size ≤ (word - 1) / 8

module _ (hash : HashFunc) (compare_keys : EqualFunc) (same : IsEquality compare_keys hash) where
  empty-ArePlaced : (size j i n : ℕ) → ArePlaced same size j (tabulate {A = Chain} (λ _. []) i n)
  empty-ArePlaced size j i zero = tt
  empty-ArePlaced size j i (suc n) = (tt, empty-ArePlaced size (suc j) (suc i) n)

  empty-AreDistinct : (i n : ℕ) → AreDistinct same (tabulate {A = Chain} (λ _. []) i n)
  empty-AreDistinct i zero = tt
  empty-AreDistinct i (suc n) = (tt, empty-AreDistinct (suc i) n)

  -- With a function that tells equal keys and a hash that agrees with it, on a table whose keys are
  -- pairwise different and stand in the chains of their indices, and whose next size can be allocated,
  -- _hashtable_resize ends without a fault or an abort. The table then has that size and a head for
  -- every index, the same count and the same log, its keys stand in the chains of their new indices,
  -- and every lookup finds what it found before.
  pub resize-keeps :
      (t : HashTable)
      → IsSound hash compare_keys same t
      → (p size : ℕ) → CanGrow t p size
      → Returns (resize hash t) λ t'.
        IsSound hash compare_keys same t'
        × (t'.size ≡ size)
        × (t'.count ≡ t.count)
        × (t'.freed ≡ t.freed)
        × ((q : Ptr) → value_at hash compare_keys t' q ≡ value_at hash compare_keys t q)
  unfolding resize calloc value_in
  resize-keeps t s p size g =
      let fine : ((size == 0) || ltb ((word - 1) / 8) size) ≡ false =
        ground (arith, g.some_memory, g.limited) in
      let none_yet : (q : Ptr) → found_in same size (calloc size) q ≡ none = λ q.
        found_in-value_in same size (calloc size) q []
          (get_elem?-tabulate same size (index hash size q) 0 (omega (arith, g.some_memory))) in
      let all_distinct = IsDistinct-concat same t.size 0 t.buckets s.placed s.distinct in
      let (bs, run, ((len, moved), (_, placed, distinct))) =
        Returns-both
          (rehash-found_in same size (calloc size) t.buckets (length-tabulate (λ _. []) 0 size)
            g.some_memory)
          (rehash-AreSound same size g.some_memory (calloc size) t.buckets
            (
              length-tabulate (λ _. []) 0 size,
              empty-ArePlaced size 0 0 size,
              empty-AreDistinct 0 size,
            )
            all_distinct (λ q. inl (none_yet q))) in
      let t' = record t { size = size; sizeptr = some p; buckets = bs } in
      (
        t',
        rw (g.next, fine, run),
        (
          record {
            table = record { heads = len; some_memory = g.some_memory };
            placed = placed;
            distinct = distinct;
          },
          refl,
          refl,
          refl,
          λ q.
              let i = index hash t.size q in
              let (c, at) =
                get_elem?-lt t.buckets i (omega (arith, s.table.heads, s.table.some_memory)) in
              let (c', at') =
                get_elem?-lt bs (index hash size q) (omega (arith, len, g.some_memory)) in
              let old : value_in compare_keys q (concat t.buckets) ≡ value_in compare_keys q c =
                value_in-concat same t.size 0 i q t.buckets c s.placed (omega arith) at in
              let new : value_in compare_keys q c' ≡ value_in compare_keys q c =
                sym (found_in-value_in same size bs q c' at')
                ∙ moved q
                ∙ ap (newest same q (concat t.buckets)) (none_yet q)
                ∙ newest-value_in same q (concat t.buckets) all_distinct
                ∙ old in
              value_at-value_in hash compare_keys t' q c' at'
              ∙ ap ok new
              ∙ sym (value_at-value_in hash compare_keys t q c at),
        ),
      )
