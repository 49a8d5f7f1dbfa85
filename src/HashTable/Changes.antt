-- ===== src/HashTable/Changes.antt =====
-- A change of one chain keeps the keys of a table different and in their places.
use native.Mathlib.Nat.{zero-add}
use datatypes.Base.{
  subst, ℕ, zero, suc, ◌%◌, ◌<◌, ◌≡◌, refl, sym, ap, ◌∙◌, inl, inr, true, none, some, List, [], ◌∷◌,
  ◌++◌, append_assoc, arith, Bool-cases, length, get_elem?, overwrite, length-overwrite,
}
use datatypes.Callbacks.{Ptr}
use datatypes.HashTable.{EqualFunc, HashFunc, Bucket, Chain, HashTable}
use datatypes.HashTable.Chains.{IsEquality, value_in, value_in-append_none}
use datatypes.HashTable.Update.{value_in-equal, same_right}
use Prim.Native.Nat.add
use datatypes.HashTable.Placed.{
  concat, IsDistinct, IsPlaced, IsSound, ArePlaced-overwrite, AreDistinct-overwrite, none-append,
}

module _ {hash : HashFunc} {compare_keys : EqualFunc} (same : IsEquality compare_keys hash) where
  none-swap :
      (q : Ptr) (front : Chain) (item item' : Bucket) (back : Chain)
      → compare_keys q item'.key ≡ compare_keys q item.key
      → value_in compare_keys q (front ++ item ∷ back) ≡ none
      → value_in compare_keys q (front ++ item' ∷ back) ≡ none
  unfolding value_in
  none-swap q [] item item' back e f = elim (Bool-cases (compare_keys q item.key)) [
    | inl hit ↦ ground (arith, hit, f)
    | inr miss ↦
        let rest : value_in compare_keys q back ≡ none = ground (arith, miss, f) in
        rw (e, miss) rest
  ]
  none-swap q (b ∷ front) item item' back e f = elim (Bool-cases (compare_keys q b.key)) [
    | inl hit ↦ ground (arith, hit, f)
    | inr miss ↦ rw miss (none-swap q front item item' back e (ground (arith, miss, f)))
  ]

  -- a chain with one bucket changed to an equal key
  pub IsDistinct-swap :
      (front : Chain) (item item' : Bucket) (back : Chain)
      → compare_keys item.key item'.key ≡ true
      → IsDistinct same (front ++ item ∷ back)
      → IsDistinct same (front ++ item' ∷ back)
  IsDistinct-swap [] item item' back e d =
      (value_in-equal same item'.key item.key back (same.swap item.key item'.key ∙ e) ∙ d.0, d.1)
  IsDistinct-swap (b ∷ front) item item' back e d = (
    none-swap b.key front item item' back (same_right same item.key item'.key b.key e) d.0,
    IsDistinct-swap front item item' back e d.1,
  )

  pub IsPlaced-swap :
      (size j : ℕ) (front : Chain) (item item' : Bucket) (back : Chain)
      → compare_keys item.key item'.key ≡ true
      → IsPlaced same size j (front ++ item ∷ back)
      → IsPlaced same size j (front ++ item' ∷ back)
  IsPlaced-swap size j [] item item' back e p =
      (ap (λ h. h % size) (sym (same.same_hash item.key item'.key e)) ∙ p.0, p.1)
  IsPlaced-swap size j (b ∷ front) item item' back e p =
      (p.0, IsPlaced-swap size j front item item' back e p.1)

  -- a chain without one of its buckets
  pub IsPlaced-erase :
      (size j : ℕ) (front : Chain) (item : Bucket) (back : Chain)
      → IsPlaced same size j (front ++ item ∷ back)
      → IsPlaced same size j (front ++ back)
  IsPlaced-erase size j [] item back p = p.1
  IsPlaced-erase size j (b ∷ front) item back p = (p.0, IsPlaced-erase size j front item back p.1)

  none-erase :
      (q : Ptr) (front : Chain) (item : Bucket) (back : Chain)
      → value_in compare_keys q (front ++ item ∷ back) ≡ none
      → value_in compare_keys q (front ++ back) ≡ none
  none-erase q front item back e =
      let (before, after) = none-append same q front (item ∷ back) e in
      value_in-append_none compare_keys q front back before
      ∙ (none-append same q (item ∷ []) back after).1

  pub IsDistinct-erase :
      (front : Chain) (item : Bucket) (back : Chain)
      → IsDistinct same (front ++ item ∷ back)
      → IsDistinct same (front ++ back)
  IsDistinct-erase [] item back d = d.1
  IsDistinct-erase (b ∷ front) item back d =
      (none-erase b.key front item back d.0, IsDistinct-erase front item back d.1)

-- the buckets of the table, around one chain of it
pub concat-overwrite :
    (chains : List Chain) (i : ℕ) (chain c : Chain)
    → get_elem? chains i ≡ some chain
    → (before : Chain) × (after : Chain) × (concat chains ≡ before ++ (chain ++ after))
      × (concat (overwrite chains i (c ∷ [])) ≡ before ++ (c ++ after))
concat-overwrite [] i chain c e = cc
concat-overwrite (x ∷ chains) zero chain c e =
    let one : x ≡ chain = cc in ([], concat chains, ap (λ y. y ++ concat chains) one, refl)
concat-overwrite (x ∷ chains) (suc i) chain c e =
    let (before, after, old, new) = concat-overwrite chains i chain c e in
    (
      x ++ before,
      after,
      ap (λ y. x ++ y) old ∙ sym (append_assoc x before (chain ++ after)),
      rw (add.suc i 1) (ap (λ y. x ++ y) new ∙ sym (append_assoc x before (c ++ after))),
    )

module _ (hash : HashFunc) (compare_keys : EqualFunc) (same : IsEquality compare_keys hash) where
  pub IsSound-overwrite :
      (t t' : HashTable)
      → IsSound hash compare_keys same t
      → (i : ℕ) (c : Chain) → t'.size ≡ t.size
      → t'.buckets ≡ overwrite t.buckets i (c ∷ [])
      → i < length t.buckets
      → IsPlaced same t.size i c
      → IsDistinct same c
      → IsSound hash compare_keys same t'
  IsSound-overwrite t t' s i c size buckets inside placed distinct = record {
    table = record {
      heads =
          ap length buckets
          ∙ length-overwrite t.buckets i (c ∷ []) (omega (arith, inside))
          ∙ s.table.heads
          ∙ sym size;
      some_memory = omega (arith, s.table.some_memory, size);
    };
    placed =
        rw (size, buckets)
          (ArePlaced-overwrite same t.size 0 t.buckets i c s.placed
            (subst (λ k. IsPlaced same t.size k c) (sym (zero-add i)) placed) inside);
    distinct = rw buckets (AreDistinct-overwrite same t.buckets i c s.distinct distinct inside);
  }
