-- ===== src/HashTable/Lookup.antt =====
-- What a lookup finds in a table before and after an update: hashtable_lookup, hashtable_set and
-- hashtable_remove.
use datatypes.Base.{
  ◌%◌, ◌<◌, ◌≡◌, refl, sym, ap, ◌∙◌, ◌≢◌, inl, inr, false, Option, none, some, List, [], ◌∷◌, ◌++◌,
  arith, ◌==◌, if◌then◌else◌, Bool-cases, Run, ok, ◌>>=◌, length, get_elem?, overwrite,
  get_elem?-lt,
}
use datatypes.Memory.{load, load-ok, get_elem?-overwrite_same, get_elem?-overwrite_other}
use datatypes.Callbacks.{Ptr}
use datatypes.HashTable.{EqualFunc, HashFunc, Chain, HashTable, index, lookup, pair_bucket}
use datatypes.HashTable.Chains.{IsEquality, value_in, value_in-append_none, find_bucket-Splits}

-- the heads of the chains are those of the table's size
pub record IsTable (t : HashTable) : Type 0 where
  pub heads : length t.buckets ≡ t.size
  pub some_memory : 0 < t.size

pub get_elem?-append_cons :
    {A : Type 0} (front : List A) (x : A) (back : List A)
    → get_elem? (front ++ x ∷ back) (length front) ≡ some x
get_elem?-append_cons [] x back = refl
get_elem?-append_cons (y ∷ front) x back = get_elem?-append_cons front x back

module _ (hash : HashFunc) (compare_keys : EqualFunc) where
  -- the value that hashtable_lookup gives access to
  unfoldable pub value_at : HashTable → Ptr → Run (Option Ptr)
  value_at t q = do
    p ← lookup hash compare_keys t q
    elim p [ none ↦ ok none | some place ↦ (do b ← pair_bucket t place; ok (some b.value)) ]

  pub value_at-value_in :
      (t : HashTable) (q : Ptr) (chain : Chain)
      → get_elem? t.buckets (index hash t.size q) ≡ some chain
      → value_at t q ≡ ok (value_in compare_keys q chain)
  unfolding value_at lookup pair_bucket value_in
  value_at-value_in t q chain e =
      let head = load-ok t.buckets (index hash t.size q) chain e in
      elim (find_bucket-Splits compare_keys chain q) [
        | inl (missing, nothing) ↦ rw (head, missing, nothing)
        | inr (front, item, back, found, s) ↦
            let at : load chain (length front) ≡ ok item = load-ok chain (length front) item (
              ap (λ c. get_elem? c (length front)) s.whole
              ∙ get_elem?-append_cons front item back) in
            let here : value_in compare_keys q chain ≡ some item.value =
              ap (value_in compare_keys q) s.whole
              ∙ value_in-append_none compare_keys q front (item ∷ back) s.first
              ∙ rw s.equal in
            rw (head, found, head, at, here)
      ]

  module _ (same : IsEquality compare_keys hash) where
    -- an update of the chain of one key
    pub value_at-overwrite :
        (t t' : HashTable)
        → IsTable t
        → (key q : Ptr) (chain chain' : Chain) (answer : Option Ptr)
        → get_elem? t.buckets (index hash t.size key) ≡ some chain
        → t'.size ≡ t.size
        → t'.buckets ≡ overwrite t.buckets (index hash t.size key) (chain' ∷ [])
        → value_in compare_keys q chain'
          ≡ (if compare_keys q key then answer else value_in compare_keys q chain)
        → value_at t' q ≡ (if compare_keys q key then ok answer else value_at t q)
    value_at-overwrite t t' is key q chain chain' answer e size buckets new =
        let i = index hash t.size key in
        let inside : i < length t.buckets = omega (arith, is.heads, is.some_memory) in
        elim (Bool-cases (index hash t.size q == i)) [
          | inl hit ↦
              let at : index hash t.size q ≡ i = ground (arith, hit) in
              let before : value_at t q ≡ ok (value_in compare_keys q chain) =
                value_at-value_in t q chain (ap (get_elem? t.buckets) at ∙ e) in
              let after : value_at t' q ≡ ok (value_in compare_keys q chain') =
                value_at-value_in t' q chain'
                  (rw (size, buckets, at) (get_elem?-overwrite_same t.buckets i chain' inside)) in
              rw (after, before, new)
                (elim (Bool-cases (compare_keys q key)) [ inl eq ↦ rw eq | inr ne ↦ rw ne ])
          | inr miss ↦
              let apart : i ≢ index hash t.size q = λ f. ground (arith, miss, f) in
              let other : compare_keys q key ≡ false = elim (Bool-cases (compare_keys q key)) [
                | inl eq ↦ absurd (apart (ap (λ h. h % t.size) (sym (same.same_hash q key eq))))
                | inr ne ↦ ne
              ] in
              let (c, at) =
                get_elem?-lt t.buckets (index hash t.size q)
                  (omega (arith, is.heads, is.some_memory)) in
              let before = value_at-value_in t q c at in
              let after : value_at t' q ≡ ok (value_in compare_keys q c) =
                value_at-value_in t' q c (
                  ap (λ n. get_elem? t'.buckets (index hash n q)) size
                  ∙ ap (λ b. get_elem? b (index hash t.size q)) buckets
                  ∙ get_elem?-overwrite_other t.buckets i (index hash t.size q) chain' apart inside
                  ∙ at) in
              rw (other, after, before)
        ]
