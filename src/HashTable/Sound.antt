-- ===== src/HashTable/Sound.antt =====
-- The rehash puts every key into the chain of its index, and keeps the keys different.
use datatypes.Base.{
  ℕ, ◌<◌, ◌≡◌, refl, sym, ◌∙◌, ◌⊎◌, inl, inr, none, List, [], ◌∷◌, arith, Bool-cases, Returns,
  Returns-both, length, overwrite, get_elem?-lt,
}
use datatypes.Memory.{load-ok, store-ok}
use datatypes.Callbacks.{Ptr}
use datatypes.HashTable.{EqualFunc, HashFunc, Bucket, Chain, index, push, rehash_chain, rehash}
use datatypes.HashTable.Chains.{IsEquality, value_in}
use datatypes.HashTable.Update.{value_in-equal}
use datatypes.HashTable.Placed.{
  concat, IsDistinct, AreDistinct, ArePlaced, ArePlaced-chain, AreDistinct-chain,
  ArePlaced-overwrite, AreDistinct-overwrite, none-append, IsDistinct-append, none_of-IsDistinct,
}
use datatypes.HashTable.Resize.{
  found_in, found_in-value_in, push-found_in, newest-none, rehash_chain-found_in,
}

module _ {hash : HashFunc} {compare_keys : EqualFunc} (same : IsEquality compare_keys hash)
    (size : ℕ) (pos : 0 < size) where
  abbrev pub AreSound : List Chain → Type 0
  AreSound chains = (length chains ≡ size) × ArePlaced same size 0 chains × AreDistinct same chains

  -- no key of the chain is in the chains
  abbrev pub IsApart : List Chain → Chain → Type 0
  IsApart chains c =
      (q : Ptr) → (found_in same size chains q ≡ none) ⊎ (value_in compare_keys q c ≡ none)

  push-AreSound :
      (chains : List Chain) (b : Bucket)
      → AreSound chains
      → found_in same size chains b.key ≡ none
      → Returns
          (push hash size chains b)
          λ chains'. ArePlaced same size 0 chains' × AreDistinct same chains'
  unfolding push
  push-AreSound chains b s missing =
      let i = index hash size b.key in
      let inside : i < length chains = omega (arith, s.0, pos) in
      let (c, e) = get_elem?-lt chains i inside in
      let head = load-ok chains i c e in
      let stored = store-ok chains i (b ∷ c) inside in
      let new : value_in compare_keys b.key c ≡ none =
        sym (found_in-value_in same size chains b.key c e) ∙ missing in
      (
        overwrite chains i ((b ∷ c) ∷ []),
        rw (head, stored),
        (
          ArePlaced-overwrite same size 0 chains i (b ∷ c) s.1
              (omega arith, ArePlaced-chain same size 0 chains i c s.1 e) inside,
          AreDistinct-overwrite same chains i (b ∷ c) s.2
              (new, AreDistinct-chain same chains i c s.2 e) inside,
        ),
      )

  rehash_chain-AreSound :
      (chains : List Chain) (c : Chain)
      → AreSound chains
      → IsDistinct same c
      → IsApart chains c
      → Returns (rehash_chain hash size chains c) AreSound
  unfolding rehash_chain value_in
  rehash_chain-AreSound chains [] s d apart = (chains, refl, s)
  rehash_chain-AreSound chains (b ∷ c) s d apart =
      let own : found_in same size chains b.key ≡ none = elim (apart b.key) [
        | inl e ↦ e
        | inr e ↦ ground (arith, same.itself b.key, e)
      ] in
      let (chains', run, ((len, moved), sound)) =
        Returns-both (push-found_in same size chains b s.0 pos) (push-AreSound chains b s own) in
      let apart' : IsApart chains' c = λ q. elim (Bool-cases (compare_keys q b.key)) [
        | inl hit ↦ inr (value_in-equal same q b.key c hit ∙ d.0)
        | inr miss ↦ elim (apart q) [
          | inl e ↦ inl (moved q ∙ rw miss e)
          | inr e ↦ inr (ground (arith, miss, e))
        ]
      ] in
      let (end, run', sound') =
        rehash_chain-AreSound chains' c (len, sound.0, sound.1) d.1 apart' in
      (end, rw run run', sound')

  pub rehash-AreSound :
      (chains old : List Chain)
      → AreSound chains
      → IsDistinct same (concat old)
      → IsApart chains (concat old)
      → Returns (rehash hash size chains old) AreSound
  unfolding rehash
  rehash-AreSound chains [] s d apart = (chains, refl, s)
  rehash-AreSound chains (c ∷ old) s d apart =
      let (front, back) = IsDistinct-append same c (concat old) d in
      let here : IsApart chains c = λ q. elim (apart q) [
        | inl e ↦ inl e
        | inr e ↦ inr ((none-append same q c (concat old) e).0)
      ] in
      let (chains', run, ((len, moved), sound)) =
        Returns-both (rehash_chain-found_in same size chains c s.0 pos)
          (rehash_chain-AreSound chains c s front here) in
      let apart' : IsApart chains' (concat old) = λ q.
        elim (none_of-IsDistinct same q c (concat old) d) [
          | inr e ↦ inr e
          | inl e ↦ elim (apart q) [
            | inl f ↦ inl (moved q ∙ newest-none same q c (found_in same size chains q) e ∙ f)
            | inr f ↦ inr ((none-append same q c (concat old) f).1)
          ]
        ] in
      let (end, run', sound') = rehash-AreSound chains' old sound back apart' in
      (end, rw run run', sound')
