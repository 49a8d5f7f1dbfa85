-- ===== src/HashTable/Update.antt =====
-- What hashtable_set does to the chains and to later lookups.
use datatypes.Base.{
  ◌+◌, ◌-◌, ◌<◌, ◌≡◌, refl, sym, ap, ◌∙◌, ◌≢◌, inl, inr, Bool, true, false, none, some, [], ◌∷◌,
  ◌++◌, arith, ltb, if◌then◌else◌, Bool-cases, word, ok, ◌>>=◌, Returns, length, get_elem?,
  overwrite, length-overwrite,
}
use datatypes.Memory.{store, store-ok}
use datatypes.Callbacks.{Ptr, free_key, free_value}
use datatypes.HashTable.{
  EqualFunc, HashFunc, Bucket, bucket, Chain, HashTable, InsertResult, inserted_new,
  inserted_replaced, insert_failed, find_bucket, index, set_found, key_exists,
}
use datatypes.HashTable.Chains.{
  IsEquality, value_in, value_in-append_none, Splits, find_bucket-Splits,
}
use datatypes.HashTable.Lookup.{value_at-value_in, IsTable, value_at, value_at-overwrite}

module _ {hash : HashFunc} {compare_keys : EqualFunc} (same : IsEquality compare_keys hash) where
  pub value_in-equal :
      (q key : Ptr) (chain : Chain)
      → compare_keys q key ≡ true
      → value_in compare_keys q chain ≡ value_in compare_keys key chain
  unfolding value_in
  value_in-equal q key [] e = refl
  value_in-equal q key (b ∷ chain) e = rw (same.same q key b.key e, value_in-equal q key chain e)

  pub value_in-skip :
      (q : Ptr) (front : Chain) (b : Bucket) (back : Chain)
      → compare_keys q b.key ≡ false
      → value_in compare_keys q (front ++ b ∷ back) ≡ value_in compare_keys q (front ++ back)
  unfolding value_in
  value_in-skip q [] b back e = rw e
  value_in-skip q (c ∷ front) b back e = rw (value_in-skip q front b back e)

  -- what compares equal to a key compares with others like it
  pub same_right :
      (key k q : Ptr) → compare_keys key k ≡ true → compare_keys q k ≡ compare_keys q key
  same_right key k q e = same.swap k q ∙ sym (same.same key k q e) ∙ same.swap q key

  pub value_in-replaced :
      (q key : Ptr) (chain front : Chain) (item item' : Bucket) (back : Chain)
      → Splits compare_keys key chain front item back
      → compare_keys key item'.key ≡ true
      → value_in compare_keys q (front ++ item' ∷ back)
        ≡ (if compare_keys q key then some item'.value else value_in compare_keys q chain)
  unfolding value_in
  value_in-replaced q key chain front item item' back s e =
      let old = same_right key item.key q s.equal in
      let new = same_right key item'.key q e in
      elim (Bool-cases (compare_keys q key)) [
        | inl hit ↦ rw hit (
            value_in-append_none compare_keys q front (item' ∷ back)
              (value_in-equal q key front hit ∙ s.first)
            ∙ rw (new, hit))
        | inr miss ↦ rw miss (
            value_in-skip q front item' back (new ∙ miss)
            ∙ sym (value_in-skip q front item back (old ∙ miss))
            ∙ ap (value_in compare_keys q) (sym s.whole))
      ]

abbrev pub is_replaced : InsertResult → Bool
is_replaced inserted_new = false
is_replaced inserted_replaced = true
is_replaced insert_failed = false

module _ (hash : HashFunc) (compare_keys : EqualFunc) where
  -- What hashtable_set leaves of a table: a lookup finds the new value under the keys that compare
  -- equal to the given one and what it found before under the others, and the result says whether
  -- there was such a key, which decides on the count.
  pub record Stores (t : HashTable) (key value : Ptr) (result : HashTable × InsertResult)
      : Type 0 where
    pub table : IsTable result.0
    pub finds :
        (q : Ptr)
        → value_at hash compare_keys result.0 q
          ≡ (if compare_keys q key then ok (some value) else value_at hash compare_keys t q)
    pub outcome :
        (value_at hash compare_keys t key >>= λ r. ok (elim r [ none ↦ false | some _ ↦ true ]))
        ≡ ok (is_replaced result.1)
    pub counted : result.0.count ≡ (if is_replaced result.1 then t.count else t.count + 1)
    pub no_failure : result.1 ≢ insert_failed

  module _ (same : IsEquality compare_keys hash) where
    pub set_found-Stores :
        (t : HashTable)
        → IsTable t
        → (key value : Ptr) (overwrite_key : Bool) (chain : Chain)
        → get_elem? t.buckets (index hash t.size key) ≡ some chain
        → t.count < word - 1
        → Returns
            (set_found t
              (index hash t.size key)
              chain
              key
              value
              overwrite_key
              (find_bucket compare_keys chain key))
            (Stores t key value)
    unfolding set_found key_exists value_in
    set_found-Stores t is key value overwrite_key chain e room =
        let i = index hash t.size key in
        let inside : i < length t.buckets = omega (arith, is.heads, is.some_memory) in
        let stored : (c : Chain) → store t.buckets i c ≡ ok (overwrite t.buckets i (c ∷ [])) =
          λ c. store-ok t.buckets i c inside in
        let heads : (c : Chain) → length (overwrite t.buckets i (c ∷ [])) ≡ t.size =
          λ c. length-overwrite t.buckets i (c ∷ []) (omega (arith, inside)) ∙ is.heads in
        elim (find_bucket-Splits compare_keys chain key) [
          | inl (missing, nothing) ↦
              let c = bucket key value ∷ chain in
              let small : ltb t.count (word - 1) ≡ true = ground arith in
              let t' = record t { buckets = overwrite t.buckets i (c ∷ []); count = t.count + 1 } in
              (
                (t', inserted_new),
                rw (missing, small, stored c),
                record {
                  table = record { heads = heads c; some_memory = is.some_memory };
                  finds = λ q.
                      value_at-overwrite hash compare_keys same t t' is key q chain c (some value) e
                        refl refl refl;
                  outcome = rw (value_at-value_in hash compare_keys t key chain e, nothing);
                  counted = refl;
                  no_failure = λ f. cc;
                },
              )
          | inr (front, item, back, found, s) ↦
              let item' = bucket (if overwrite_key then key else item.key) value in
              let c = front ++ item' ∷ back in
              let log =
                (if overwrite_key then free_key t.frees_keys item.key else [])
                ++ free_value t.frees_values item.value in
              let t' = record t {
                buckets = overwrite t.buckets i (c ∷ []);
                freed = t.freed ++ log;
              } in
              let equal : compare_keys key item'.key ≡ true = elim (Bool-cases overwrite_key) [
                | inl yes_do ↦ rw yes_do (same.itself key)
                | inr keep ↦ rw keep s.equal
              ] in
              let here : value_in compare_keys key chain ≡ some item.value =
                ap (value_in compare_keys key) s.whole
                ∙ value_in-append_none compare_keys key front (item ∷ back) s.first
                ∙ rw s.equal in
              (
                (t', inserted_replaced),
                rw (found, stored c),
                record {
                  table = record { heads = heads c; some_memory = is.some_memory };
                  finds = λ q.
                      value_at-overwrite hash compare_keys same t t' is key q chain c (some value) e
                        refl refl
                        (value_in-replaced same q key chain front item item' back s equal);
                  outcome = rw (value_at-value_in hash compare_keys t key chain e, here);
                  counted = refl;
                  no_failure = λ f. cc;
                },
              )
        ]
