-- ===== src/HashTable/Placed.antt =====
-- Where the keys of a table stand: pairwise different, and each in the chain of its index.
use Prim.Native.Nat.add
use datatypes.Base.{
  subst, ℕ, zero, suc, ◌+◌, ◌%◌, ◌<◌, ◌≡◌, refl, sym, ap, ◌∙◌, ◌≢◌, ◌⊎◌, inl, inr, none, some, List,
  [], ◌∷◌, ◌++◌, arith, Bool-cases, length, get_elem?, overwrite,
}
use datatypes.Callbacks.{Ptr}
use datatypes.HashTable.{EqualFunc, HashFunc, Chain, HashTable, index}
use datatypes.HashTable.Chains.{IsEquality, value_in, value_in-append_none}
use datatypes.HashTable.Lookup.{IsTable}
use datatypes.HashTable.Update.{value_in-equal}

-- all buckets of the chains
abbrev pub concat : List Chain → Chain
concat [] = []
concat (c ∷ cs) = c ++ concat cs

module _ {hash : HashFunc} {compare_keys : EqualFunc} (same : IsEquality compare_keys hash) where
  -- no two keys of the chain are equal
  abbrev pub IsDistinct : Chain → Type 0
  IsDistinct [] = Unit
  IsDistinct (b ∷ chain) = (value_in compare_keys b.key chain ≡ none) × IsDistinct chain

  abbrev pub AreDistinct : List Chain → Type 0
  AreDistinct [] = Unit
  AreDistinct (c ∷ chains) = IsDistinct c × AreDistinct chains

  -- every key stands in the chain of its index, counted from `j`
  abbrev pub IsPlaced : ℕ → ℕ → Chain → Type 0
  IsPlaced size j [] = Unit
  IsPlaced size j (b ∷ chain) = (index hash size b.key ≡ j) × IsPlaced size j chain

  abbrev pub ArePlaced : ℕ → ℕ → List Chain → Type 0
  ArePlaced size j [] = Unit
  ArePlaced size j (c ∷ chains) = IsPlaced size j c × ArePlaced size (suc j) chains

  pub value_in-IsPlaced :
      (size j : ℕ) (q : Ptr) (chain : Chain)
      → IsPlaced size j chain
      → index hash size q ≢ j
      → value_in compare_keys q chain ≡ none
  unfolding value_in
  value_in-IsPlaced size j q [] p ne = refl
  value_in-IsPlaced size j q (b ∷ chain) p ne = elim (Bool-cases (compare_keys q b.key)) [
    | inl hit ↦ absurd (ne (ap (λ h. h % size) (same.same_hash q b.key hit) ∙ p.0))
    | inr miss ↦ rw miss (value_in-IsPlaced size j q chain p.1 ne)
  ]

  pub value_in-append_left :
      (q : Ptr) (front back : Chain)
      → value_in compare_keys q back ≡ none
      → value_in compare_keys q (front ++ back) ≡ value_in compare_keys q front
  unfolding value_in
  value_in-append_left q [] back e = e
  value_in-append_left q (b ∷ front) back e = rw (value_in-append_left q front back e)

  pub value_in-concat-none :
      (size j : ℕ) (q : Ptr) (chains : List Chain)
      → ArePlaced size j chains
      → index hash size q < j
      → value_in compare_keys q (concat chains) ≡ none
  unfolding value_in
  value_in-concat-none size j q [] p h = refl
  value_in-concat-none size j q (c ∷ chains) p h =
      value_in-append_none compare_keys q c (concat chains)
        (value_in-IsPlaced size j q c p.0 (λ e. absurd (omega (arith, e, h))))
      ∙ value_in-concat-none size (suc j) q chains p.1 (omega (arith, h))

  pub value_in-concat :
      (size j k : ℕ) (q : Ptr) (chains : List Chain) (c : Chain)
      → ArePlaced size j chains
      → index hash size q ≡ j + k
      → get_elem? chains k ≡ some c
      → value_in compare_keys q (concat chains) ≡ value_in compare_keys q c
  value_in-concat size j k q [] c p at e = cc
  value_in-concat size j zero q (d ∷ chains) c p at e =
      let one : d ≡ c = cc in
      value_in-append_left q d (concat chains)
        (value_in-concat-none size (suc j) q chains p.1 (omega (arith, at)))
      ∙ ap (value_in compare_keys q) one
  value_in-concat size j (suc k) q (d ∷ chains) c p at e =
      value_in-append_none compare_keys q d (concat chains)
        (value_in-IsPlaced size j q d p.0 (λ f. absurd (omega (arith, f, at))))
      ∙ value_in-concat size (suc j) k q chains c p.1 (omega (arith, at)) e

  IsDistinct-append_placed :
      (size j : ℕ) (c : Chain) (chains : List Chain)
      → IsPlaced size j c
      → IsDistinct c
      → ArePlaced size (suc j) chains
      → IsDistinct (concat chains)
      → IsDistinct (c ++ concat chains)
  IsDistinct-append_placed size j [] chains p d ps ds = ds
  IsDistinct-append_placed size j (b ∷ c) chains p d ps ds = (
    value_in-append_none compare_keys b.key c (concat chains) d.0
        ∙ value_in-concat-none size (suc j) b.key chains ps (omega (arith, p.0)),
    IsDistinct-append_placed size j c chains p.1 d.1 ps ds,
  )

  -- different chains have no key in common
  pub IsDistinct-concat :
      (size j : ℕ) (chains : List Chain)
      → ArePlaced size j chains
      → AreDistinct chains
      → IsDistinct (concat chains)
  IsDistinct-concat size j [] p d = tt
  IsDistinct-concat size j (c ∷ chains) p d =
      IsDistinct-append_placed size j c chains p.0 d.0 p.1
        (IsDistinct-concat size (suc j) chains p.1 d.1)

  pub AreDistinct-chain :
      (chains : List Chain) (i : ℕ) (c : Chain)
      → AreDistinct chains
      → get_elem? chains i ≡ some c
      → IsDistinct c
  AreDistinct-chain [] i c d e = cc
  AreDistinct-chain (x ∷ chains) zero c d e =
      let one : x ≡ c = cc in subst (λ y. IsDistinct y) one d.0
  AreDistinct-chain (x ∷ chains) (suc i) c d e = AreDistinct-chain chains i c d.1 e

  pub ArePlaced-chain :
      (size j : ℕ) (chains : List Chain) (i : ℕ) (c : Chain)
      → ArePlaced size j chains
      → get_elem? chains i ≡ some c
      → IsPlaced size (j + i) c
  ArePlaced-chain size j [] i c p e = cc
  ArePlaced-chain size j (x ∷ chains) zero c p e =
      let one : x ≡ c = cc in
      let same_place : j + 0 ≡ j = omega arith in
      rw same_place (subst (λ y. IsPlaced size j y) one p.0)
  ArePlaced-chain size j (x ∷ chains) (suc i) c p e =
      let same_place : j + suc i ≡ suc j + i = omega arith in
      rw same_place (ArePlaced-chain size (suc j) chains i c p.1 e)

  -- a new chain at an index
  pub ArePlaced-overwrite :
      (size j : ℕ) (chains : List Chain) (i : ℕ) (c : Chain)
      → ArePlaced size j chains
      → IsPlaced size (j + i) c
      → i < length chains
      → ArePlaced size j (overwrite chains i (c ∷ []))
  ArePlaced-overwrite size j [] i c p new h = absurd (omega arith)
  ArePlaced-overwrite size j (x ∷ chains) zero c p new h =
      let same_place : j ≡ j + 0 = omega arith in
      (subst (λ k. IsPlaced size k c) (sym same_place) new, p.1)
  ArePlaced-overwrite size j (x ∷ chains) (suc i) c p new h =
      let same_place : j + suc i ≡ suc j + i = omega arith in
      rw (add.suc i 1) (
        p.0,
        ArePlaced-overwrite size (suc j) chains i c p.1
            (subst (λ k. IsPlaced size k c) same_place new) (omega arith),
      )

  pub AreDistinct-overwrite :
      (chains : List Chain) (i : ℕ) (c : Chain)
      → AreDistinct chains
      → IsDistinct c
      → i < length chains
      → AreDistinct (overwrite chains i (c ∷ []))
  AreDistinct-overwrite [] i c d new h = absurd (omega arith)
  AreDistinct-overwrite (x ∷ chains) zero c d new h = (new, d.1)
  AreDistinct-overwrite (x ∷ chains) (suc i) c d new h =
      rw (add.suc i 1) (d.0, AreDistinct-overwrite chains i c d.1 new (omega arith))

  pub none-append :
      (q : Ptr) (xs ys : Chain)
      → value_in compare_keys q (xs ++ ys) ≡ none
      → (value_in compare_keys q xs ≡ none) × (value_in compare_keys q ys ≡ none)
  unfolding value_in
  none-append q [] ys e = (refl, e)
  none-append q (x ∷ xs) ys e = elim (Bool-cases (compare_keys q x.key)) [
    | inl hit ↦ ground (arith, hit, e)
    | inr miss ↦
        let (front, back) = none-append q xs ys (ground (arith, miss, e)) in (rw miss front, back)
  ]

  pub IsDistinct-append : (xs ys : Chain) → IsDistinct (xs ++ ys) → IsDistinct xs × IsDistinct ys
  IsDistinct-append [] ys d = (tt, d)
  IsDistinct-append (x ∷ xs) ys d =
      let (front, back) = IsDistinct-append xs ys d.1 in
      (((none-append x.key xs ys d.0).0, front), back)

  -- a key of a front part is not in the back part
  pub none_of-IsDistinct :
      (q : Ptr) (xs ys : Chain)
      → IsDistinct (xs ++ ys)
      → (value_in compare_keys q xs ≡ none) ⊎ (value_in compare_keys q ys ≡ none)
  unfolding value_in
  none_of-IsDistinct q [] ys d = inl refl
  none_of-IsDistinct q (x ∷ xs) ys d = elim (Bool-cases (compare_keys q x.key)) [
    | inl hit ↦ inr ((none-append q xs ys (value_in-equal same q x.key (xs ++ ys) hit ∙ d.0)).1)
    | inr miss ↦ elim (none_of-IsDistinct q xs ys d.1) [ inl e ↦ inl (rw miss e) | inr e ↦ inr e ]
  ]

-- The keys of a table are pairwise different, and each stands in the chain of its index.
pub record IsSound (hash : HashFunc) (compare_keys : EqualFunc)
    (same : IsEquality compare_keys hash) (t : HashTable) : Type 0 where
  pub table : IsTable t
  pub placed : ArePlaced same t.size 0 t.buckets
  pub distinct : AreDistinct same t.buckets
