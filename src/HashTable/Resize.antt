-- ===== src/HashTable/Resize.antt =====
-- The rehash of _hashtable_resize.
use datatypes.Base.{
  ℕ, zero, suc, ◌%◌, ◌<◌, ◌≡◌, refl, sym, ap, ◌∙◌, ◌≢◌, inl, inr, false, Option, none, some, List,
  [], ◌∷◌, ◌++◌, arith, ◌==◌, if◌then◌else◌, Bool-cases, Returns, length, get_elem?, tabulate,
  overwrite, length-overwrite, get_elem?-lt,
}
use datatypes.Memory.{load-ok, store-ok, get_elem?-overwrite_same, get_elem?-overwrite_other}
use datatypes.Callbacks.{Ptr}
use datatypes.HashTable.{EqualFunc, HashFunc, Bucket, Chain, index, push, rehash_chain, rehash}
use datatypes.HashTable.Chains.{IsEquality, value_in}
use datatypes.HashTable.Placed.{concat, IsDistinct}
use datatypes.HashTable.Update.{value_in-equal}

module _ {hash : HashFunc} {compare_keys : EqualFunc} (same : IsEquality compare_keys hash) where
  -- the chain of a key
  unfoldable pub found_in : ℕ → List Chain → Ptr → Option Ptr
  found_in size buckets q = elim (get_elem? buckets (index hash size q)) [
    | none ↦ none
    | some c ↦ value_in compare_keys q c
  ]

  pub found_in-value_in :
      (size : ℕ) (buckets : List Chain) (q : Ptr) (c : Chain)
      → get_elem? buckets (index hash size q) ≡ some c
      → found_in size buckets q ≡ value_in compare_keys q c
  unfolding found_in
  found_in-value_in size buckets q c e = rw (e, found_in)

  -- what is found after a bucket more
  abbrev pub newer : Ptr → Bucket → Option Ptr → Option Ptr
  newer q b r = if compare_keys q b.key then some b.value else r

  -- what is found after a chain more
  abbrev pub newest : Ptr → Chain → Option Ptr → Option Ptr
  newest q [] r = r
  newest q (b ∷ chain) r = newest q chain (newer q b r)

  pub push-found_in :
      (size : ℕ) (buckets : List Chain) (b : Bucket)
      → length buckets ≡ size
      → 0 < size
      → Returns (push hash size buckets b) λ buckets'.
        (length buckets' ≡ size)
        × ((q : Ptr) → found_in size buckets' q ≡ newer q b (found_in size buckets q))
  unfolding push value_in
  push-found_in size buckets b len pos =
      let i = index hash size b.key in
      let inside : i < length buckets = omega arith in
      let (c, e) = get_elem?-lt buckets i inside in
      let head = load-ok buckets i c e in
      let stored = store-ok buckets i (b ∷ c) inside in
      let bs = overwrite buckets i ((b ∷ c) ∷ []) in
      (
        bs,
        rw (head, stored),
        (
          length-overwrite buckets i ((b ∷ c) ∷ []) (omega (arith, inside)) ∙ len,
          λ q. elim (Bool-cases (index hash size q == i)) [
            | inl hit ↦
                let at : index hash size q ≡ i = ground (arith, hit) in
                let before : found_in size buckets q ≡ value_in compare_keys q c =
                  found_in-value_in size buckets q c (ap (get_elem? buckets) at ∙ e) in
                let after : found_in size bs q ≡ value_in compare_keys q (b ∷ c) =
                  found_in-value_in size bs q (b ∷ c)
                    (ap (get_elem? bs) at ∙ get_elem?-overwrite_same buckets i (b ∷ c) inside) in
                after ∙ ap (newer q b) (sym before)
            | inr miss ↦
                let apart : i ≢ index hash size q = λ f. ground (arith, miss, f) in
                let other : compare_keys q b.key ≡ false =
                  elim (Bool-cases (compare_keys q b.key)) [
                    | inl eq ↦ absurd (apart (ap (λ h. h % size) (sym (same.same_hash q b.key eq))))
                    | inr ne ↦ ne
                  ] in
                let (d, at) = get_elem?-lt buckets (index hash size q) (omega arith) in
                let before = found_in-value_in size buckets q d at in
                let after : found_in size bs q ≡ value_in compare_keys q d =
                  found_in-value_in size bs q d (
                    get_elem?-overwrite_other buckets i (index hash size q) (b ∷ c) apart inside
                    ∙ at) in
                rw other (after ∙ sym before)
          ],
        ),
      )

  pub rehash_chain-found_in :
      (size : ℕ) (buckets : List Chain) (chain : Chain)
      → length buckets ≡ size
      → 0 < size
      → Returns (rehash_chain hash size buckets chain) λ buckets'.
        (length buckets' ≡ size)
        × ((q : Ptr) → found_in size buckets' q ≡ newest q chain (found_in size buckets q))
  unfolding rehash_chain
  rehash_chain-found_in size buckets [] len pos = (buckets, refl, (len, λ q. refl))
  rehash_chain-found_in size buckets (b ∷ chain) len pos =
      let (bs, run, (len', pushed)) = push-found_in size buckets b len pos in
      let (end, run', (len'', all)) = rehash_chain-found_in size bs chain len' pos in
      (end, rw run run', (len'', λ q. all q ∙ ap (newest q chain) (pushed q)))

  pub newest-append :
      (q : Ptr) (xs ys : Chain) (r : Option Ptr)
      → newest q (xs ++ ys) r ≡ newest q ys (newest q xs r)
  newest-append q [] ys r = refl
  newest-append q (x ∷ xs) ys r = newest-append q xs ys (newer q x r)

  pub rehash-found_in :
      (size : ℕ) (buckets chains : List Chain)
      → length buckets ≡ size
      → 0 < size
      → Returns (rehash hash size buckets chains) λ buckets'.
        (length buckets' ≡ size)
        × ((q : Ptr)
            → found_in size buckets' q ≡ newest q (concat chains) (found_in size buckets q))
  unfolding rehash
  rehash-found_in size buckets [] len pos = (buckets, refl, (len, λ q. refl))
  rehash-found_in size buckets (c ∷ chains) len pos =
      let (bs, run, (len', moved)) = rehash_chain-found_in size buckets c len pos in
      let (end, run', (len'', all)) = rehash-found_in size bs chains len' pos in
      (
        end,
        rw run run',
        (
          len'',
          λ q.
              all q
              ∙ ap (newest q (concat chains)) (moved q)
              ∙ sym (newest-append q c (concat chains) (found_in size buckets q)),
        ),
      )

  pub newest-none :
      (q : Ptr) (chain : Chain) (r : Option Ptr)
      → value_in compare_keys q chain ≡ none
      → newest q chain r ≡ r
  unfolding value_in
  newest-none q [] r e = refl
  newest-none q (b ∷ chain) r e = elim (Bool-cases (compare_keys q b.key)) [
    | inl hit ↦ ground (arith, hit, e)
    | inr miss ↦
        let rest : value_in compare_keys q chain ≡ none = ground (arith, miss, e) in
        rw miss (newest-none q chain r rest)
  ]

  pub newest-value_in :
      (q : Ptr) (chain : Chain)
      → IsDistinct same chain
      → newest q chain none ≡ value_in compare_keys q chain
  unfolding value_in
  newest-value_in q [] d = refl
  newest-value_in q (b ∷ chain) d = elim (Bool-cases (compare_keys q b.key)) [
    | inl hit ↦
        rw hit (newest-none q chain (some b.value) (value_in-equal same q b.key chain hit ∙ d.0))
    | inr miss ↦ rw miss (newest-value_in q chain d.1)
  ]

  pub get_elem?-tabulate :
      (n i j : ℕ) → i < n → get_elem? (tabulate {A = Chain} (λ _. []) j n) i ≡ some []
  get_elem?-tabulate zero i j h = absurd (omega arith)
  get_elem?-tabulate (suc n) zero j h = refl
  get_elem?-tabulate (suc n) (suc i) j h = get_elem?-tabulate n i (suc j) (omega arith)
