-- ===== src/HashTable/Chains.antt =====
-- The search in a chain, and the chains of a table.
use datatypes.Base.{
  ◌≡◌, refl, ap, ◌⊎◌, inl, inr, true, Option, none, some, [], ◌∷◌, ◌++◌, arith, if◌then◌else◌,
  Bool-cases,
}
use datatypes.Callbacks.{Ptr}
use datatypes.HashTable.{EqualFunc, HashFunc, Bucket, Chain, find_bucket}

-- A function that tells equal keys, and a hash that does not tell them apart.
pub record IsEquality (compare_keys : EqualFunc) (hash : HashFunc) : Type 0 where
  pub itself : (a : Ptr) → compare_keys a a ≡ true
  pub swap : (a b : Ptr) → compare_keys b a ≡ compare_keys a b
  pub same : (a b c : Ptr) → compare_keys a b ≡ true → compare_keys a c ≡ compare_keys b c
  pub same_hash : (a b : Ptr) → compare_keys a b ≡ true → hash a ≡ hash b

module _ (compare_keys : EqualFunc) where
  -- the value of the first bucket with an equal key
  unfoldable pub value_in : Ptr → Chain → Option Ptr
  value_in q [] = none
  value_in q (b ∷ chain) = if compare_keys q b.key then some b.value else value_in q chain

  pub value_in-append_none :
      (q : Ptr) (front back : Chain)
      → value_in q front ≡ none
      → value_in q (front ++ back) ≡ value_in q back
  unfolding value_in
  value_in-append_none q [] back e = refl
  value_in-append_none q (b ∷ front) back e = elim (Bool-cases (compare_keys q b.key)) [
    | inl hit ↦ ground (arith, hit, e)
    | inr miss ↦
        let rest : value_in q front ≡ none = ground (arith, miss, e) in
        rw miss (value_in-append_none q front back rest)
  ]

  -- the first bucket with an equal key, and what stands before and behind it
  pub record Splits (key : Ptr) (chain front : Chain) (item : Bucket) (back : Chain) : Type 0 where
    pub whole : chain ≡ front ++ item ∷ back
    pub equal : compare_keys key item.key ≡ true
    pub first : value_in key front ≡ none

  pub find_bucket-Splits :
      (chain : Chain) (key : Ptr)
      → ((find_bucket compare_keys chain key ≡ none) × (value_in key chain ≡ none))
        ⊎ ((front : Chain) × (item : Bucket) × (back : Chain) × (find_bucket compare_keys chain key
              ≡ some (front, item, back))
            × Splits key chain front item back)
  unfolding find_bucket value_in
  find_bucket-Splits [] key = inl (refl, refl)
  find_bucket-Splits (b ∷ chain) key = elim (Bool-cases (compare_keys key b.key)) [
    | inl hit ↦ inr ([], b, chain, rw hit, record { whole = refl; equal = hit; first = refl })
    | inr miss ↦ elim (find_bucket-Splits chain key) [
      | inl (e, f) ↦ inl (rw (miss, e), rw (miss, f))
      | inr (front, item, back, e, s) ↦ inr (
        b ∷ front,
        item,
        back,
        rw (miss, e),
        record { whole = ap (λ c. b ∷ c) s.whole; equal = s.equal; first = rw miss s.first },
      )
    ]
  ]
