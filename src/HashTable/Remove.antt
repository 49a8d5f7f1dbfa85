-- ===== src/HashTable/Remove.antt =====
-- hashtable_remove.
use datatypes.Base.{
  subst, ℕ, ◌<◌, ◌≡◌, refl, sym, ap, ◌∙◌, ◌⊎◌, inl, inr, true, none, some, List, [], ◌∷◌, ◌++◌,
  append_assoc, arith, if◌then◌else◌, Bool-cases, sub64, ok, Returns, length, get_elem?, overwrite,
  get_elem?-lt,
}
use datatypes.Memory.{load-ok, store-ok, overwrite_same}
use datatypes.Callbacks.{Ptr, free_key, free_value}
use datatypes.HashTable.{
  EqualFunc, HashFunc, Bucket, Chain, HashTable, find_bucket, find_removed, remove_found, index,
  remove,
}
use datatypes.HashTable.Chains.{
  IsEquality, value_in, value_in-append_none, Splits, find_bucket-Splits,
}
use datatypes.HashTable.Lookup.{value_at-value_in, value_at, value_at-overwrite}
use datatypes.HashTable.Update.{value_in-equal, value_in-skip, same_right}
use native.Mathlib.Nat.{zero-add}
use datatypes.HashTable.Placed.{
  concat, IsPlaced, ArePlaced-chain, IsDistinct-append, IsDistinct, IsSound, AreDistinct-chain,
}
use datatypes.HashTable.Changes.{
  concat-overwrite, IsPlaced-erase, IsDistinct-erase, IsSound-overwrite,
}

module _ {hash : HashFunc} {compare_keys : EqualFunc} (same : IsEquality compare_keys hash) where
  find_removed-find_bucket :
      (chain : Chain) (key : Ptr)
      → find_removed compare_keys chain key ≡ find_bucket compare_keys chain key
  unfolding find_removed find_bucket
  find_removed-find_bucket [] key = refl
  find_removed-find_bucket (b ∷ chain) key =
      rw (same.swap key b.key, find_removed-find_bucket chain key)

  value_in-removed :
      (q key : Ptr) (chain front : Chain) (item : Bucket) (back : Chain)
      → Splits compare_keys key chain front item back
      → IsDistinct same chain
      → value_in compare_keys q (front ++ back)
        ≡ (if compare_keys q key then none else value_in compare_keys q chain)
  value_in-removed q key chain front item back s d = elim (Bool-cases (compare_keys q key)) [
    | inl hit ↦
        let d' = subst (λ y. IsDistinct same y) s.whole d in
        let behind : value_in compare_keys item.key back ≡ none =
          ((IsDistinct-append same front (item ∷ back) d').1).0 in
        rw hit (
          value_in-append_none compare_keys q front back
            (value_in-equal same q key front hit ∙ s.first)
          ∙ value_in-equal same q key back hit
          ∙ value_in-equal same key item.key back s.equal
          ∙ behind)
    | inr miss ↦ rw miss (
        sym (value_in-skip same q front item back (same_right same key item.key q s.equal ∙ miss))
        ∙ ap (value_in compare_keys q) (sym s.whole))
  ]

-- What hashtable_remove takes out of a table: nothing, if a lookup finds nothing, or the bucket that
-- it finds, for which the callbacks are called and the count is decremented.
abbrev pub TakesOut : HashFunc → EqualFunc → HashTable → Ptr → HashTable → Type 0
TakesOut hash compare_keys t key t' =
    ((value_at hash compare_keys t key ≡ ok none) × (t' ≡ t))
    ⊎ ((front : Chain) × (item : Bucket) × (back : Chain) × (compare_keys key item.key ≡ true)
        × (value_at hash compare_keys t key ≡ ok (some item.value))
        × (concat t.buckets ≡ front ++ item ∷ back)
        × (concat t'.buckets ≡ front ++ back)
        × (t'.count ≡ sub64 t.count 1)
        × (t'.freed
            ≡ t.freed ++ (free_key t.frees_keys item.key ++ free_value t.frees_values item.value)))

-- the removed bucket among all buckets of the table
concat-removed :
    (chains : List Chain) (i : ℕ) (chain front : Chain) (item : Bucket) (back : Chain)
    → get_elem? chains i ≡ some chain
    → chain ≡ front ++ item ∷ back
    → (before : Chain) × (after : Chain) × (concat chains ≡ before ++ item ∷ after)
      × (concat (overwrite chains i ((front ++ back) ∷ [])) ≡ before ++ after)
concat-removed chains i chain front item back e whole =
    let (before, after, old, new) = concat-overwrite chains i chain (front ++ back) e in
    (
      before ++ front,
      back ++ after,
      old
          ∙ ap (λ c. before ++ (c ++ after)) whole
          ∙ ap (λ c. before ++ c) (append_assoc front (item ∷ back) after)
          ∙ sym (append_assoc before front (item ∷ (back ++ after))),
      new
          ∙ ap (λ c. before ++ c) (append_assoc front back after)
          ∙ sym (append_assoc before front (back ++ after)),
    )

module _ (hash : HashFunc) (compare_keys : EqualFunc) (same : IsEquality compare_keys hash) where
  -- With a function that tells equal keys and a hash that agrees with it, on a table whose keys are
  -- pairwise different and stand in the chains of their indices, hashtable_remove ends without a
  -- fault. If a lookup of the key finds nothing, the table is unchanged. Otherwise one bucket, with an
  -- equal key and the value that the lookup finds, is taken out of the buckets of the table, the others
  -- stay in their order, the count goes down by one in size_t, and the callbacks are called for the
  -- bucket's key and value. A lookup then finds nothing under the keys that compare equal to the given
  -- one and what it found before under the others, and the keys are still pairwise different and in
  -- the chains of their indices.
  pub remove-forgets :
      (t : HashTable)
      → IsSound hash compare_keys same t
      → (key : Ptr)
      → Returns (remove hash compare_keys t key) λ t'.
        IsSound hash compare_keys same t'
        × TakesOut hash compare_keys t key t'
        × ((q : Ptr)
            → value_at hash compare_keys t' q
              ≡ (if compare_keys q key then ok none else value_at hash compare_keys t q))
  unfolding remove remove_found value_in
  remove-forgets t s key =
      let i = index hash t.size key in
      let inside : i < length t.buckets = omega (arith, s.table.heads, s.table.some_memory) in
      let (chain, e) = get_elem?-lt t.buckets i inside in
      let head = load-ok t.buckets i chain e in
      let placed : IsPlaced same t.size i chain =
        subst (λ k. IsPlaced same t.size k chain) (zero-add i)
          (ArePlaced-chain same t.size 0 t.buckets i chain s.placed e) in
      let distinct = AreDistinct-chain same t.buckets i chain s.distinct e in
      let turned = find_removed-find_bucket same chain key in
      elim (find_bucket-Splits compare_keys chain key) [
        | inl (missing, nothing) ↦ (
          t,
          rw (head, turned, missing),
          (
            s,
            inl (value_at-value_in hash compare_keys t key chain e ∙ ap ok nothing, refl),
            λ q. elim (Bool-cases (compare_keys q key)) [
              | inl hit ↦ rw hit (
                  value_at-overwrite hash compare_keys same t t s.table key q chain chain none e
                    refl (sym (overwrite_same t.buckets i chain e))
                    (rw hit (value_in-equal same q key chain hit ∙ nothing))
                  ∙ rw hit)
              | inr miss ↦ rw miss
            ],
          ),
        )
        | inr (front, item, back, found, split) ↦
            let c = front ++ back in
            let stored = store-ok t.buckets i c inside in
            let t' = record t {
              buckets = overwrite t.buckets i (c ∷ []);
              count = sub64 t.count 1;
              freed =
                  t.freed
                  ++ (free_key t.frees_keys item.key ++ free_value t.frees_values item.value);
            } in
            let here : value_in compare_keys key chain ≡ some item.value =
              ap (value_in compare_keys key) split.whole
              ∙ value_in-append_none compare_keys key front (item ∷ back) split.first
              ∙ rw split.equal in
            let (before, after, old, new) =
              concat-removed t.buckets i chain front item back e split.whole in
            (
              t',
              rw (head, turned, found, stored),
              (
                IsSound-overwrite hash compare_keys same t t' s i c refl refl inside
                    (IsPlaced-erase same t.size i front item back
                      (subst (λ k. IsPlaced same t.size i k) split.whole placed))
                    (IsDistinct-erase same front item back
                      (subst (λ k. IsDistinct same k) split.whole distinct)),
                inr (
                  before,
                  item,
                  after,
                  split.equal,
                  value_at-value_in hash compare_keys t key chain e ∙ ap ok here,
                  old,
                  new,
                  refl,
                  refl,
                ),
                λ q.
                    value_at-overwrite hash compare_keys same t t' s.table key q chain c none e refl
                      refl (value_in-removed same q key chain front item back split distinct),
              ),
            )
      ]
