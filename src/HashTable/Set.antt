-- ===== src/HashTable/Set.antt =====
-- hashtable_set, with the growth of the table.
use native.Mathlib.Nat.{zero-add}
use datatypes.Base.{
  subst, ℕ, ◌+◌, ◌-◌, ◌<◌, ◌≡◌, refl, sym, ap, ◌∙◌, ◌⊎◌, inl, inr, Bool, true, false, ◌&&◌, none,
  some, [], ◌∷◌, ◌++◌, arith, ltb, if◌then◌else◌, Bool-cases, word, ok, ◌>>=◌, Returns,
  Returns-both, length, get_elem?, overwrite, get_elem?-lt,
}
use datatypes.Memory.{load, load-ok, store-ok}
use datatypes.Callbacks.{Ptr, free_key, free_value}
use datatypes.HashTable.{
  EqualFunc, HashFunc, HashTable, Chain, bucket, InsertResult, inserted_new, inserted_replaced,
  find_bucket, index, set, set_found,
}
use datatypes.HashTable.Chains.{IsEquality, find_bucket-Splits}
use datatypes.HashTable.Update.{Stores, set_found-Stores, is_replaced}
use datatypes.HashTable.Placed.{IsSound, IsPlaced, IsDistinct, ArePlaced-chain, AreDistinct-chain}
use datatypes.HashTable.Changes.{IsPlaced-swap, IsDistinct-swap, IsSound-overwrite}
use datatypes.HashTable.Grow.{CanGrow, resize-keeps}

module _ (hash : HashFunc) (compare_keys : EqualFunc) (same : IsEquality compare_keys hash) where
  -- what hashtable_set leaves, and the invariant
  abbrev pub Keeps : HashTable → Ptr → Ptr → HashTable × InsertResult → Type 0
  Keeps t key value r = Stores hash compare_keys t key value r × IsSound hash compare_keys same r.0

  -- the update of one chain keeps the keys different and in their places
  set_found-IsSound :
      (t : HashTable)
      → IsSound hash compare_keys same t
      → (key value : Ptr) (overwrite_key : Bool) (chain : Chain)
      → get_elem? t.buckets (index hash t.size key) ≡ some chain
      → t.count < word - 1
      → Returns
          (set_found t
            (index hash t.size key)
            chain
            key
            value
            overwrite_key
            (find_bucket compare_keys chain key))
          λ r. IsSound hash compare_keys same r.0
  unfolding set_found
  set_found-IsSound t s key value overwrite_key chain e room =
      let i = index hash t.size key in
      let inside : i < length t.buckets = omega (arith, s.table.heads, s.table.some_memory) in
      let placed : IsPlaced same t.size i chain =
        subst (λ k. IsPlaced same t.size k chain) (zero-add i)
          (ArePlaced-chain same t.size 0 t.buckets i chain s.placed e) in
      let distinct = AreDistinct-chain same t.buckets i chain s.distinct e in
      elim (find_bucket-Splits compare_keys chain key) [
        | inl (missing, nothing) ↦
            let c = bucket key value ∷ chain in
            let small : ltb t.count (word - 1) ≡ true = ground arith in
            let stored = store-ok t.buckets i c inside in
            let t' = record t { buckets = overwrite t.buckets i (c ∷ []); count = t.count + 1 } in
            (
              (t', inserted_new),
              rw (missing, small, stored),
              IsSound-overwrite hash compare_keys same t t' s i c refl refl inside (refl, placed)
                  (nothing, distinct),
            )
        | inr (front, item, back, found, split) ↦
            let item' = bucket (if overwrite_key then key else item.key) value in
            let c = front ++ item' ∷ back in
            let stored = store-ok t.buckets i c inside in
            let log =
              (if overwrite_key then free_key t.frees_keys item.key else [])
              ++ free_value t.frees_values item.value in
            let t' = record t {
              buckets = overwrite t.buckets i (c ∷ []);
              freed = t.freed ++ log;
            } in
            let equal : compare_keys item.key item'.key ≡ true = elim (Bool-cases overwrite_key) [
              | inl yes_do ↦ rw yes_do (same.swap key item.key ∙ split.equal)
              | inr keep ↦ rw keep (same.itself item.key)
            ] in
            (
              (t', inserted_replaced),
              rw (found, stored),
              IsSound-overwrite hash compare_keys same t t' s i c refl refl inside
                  (IsPlaced-swap same t.size i front item item' back equal
                    (subst (λ k. IsPlaced same t.size i k) split.whole placed))
                  (IsDistinct-swap same front item item' back equal
                    (subst (λ k. IsDistinct same k) split.whole distinct)),
            )
      ]

  set_settled :
      (t : HashTable)
      → IsSound hash compare_keys same t
      → (key value : Ptr) (overwrite_key : Bool) → t.count < word - 1
      → Returns
          (load t.buckets (index hash t.size key) >>= λ head.
            set_found t
              (index hash t.size key)
              head
              key
              value
              overwrite_key
              (find_bucket compare_keys head key))
          (Keeps t key value)
  set_settled t s key value overwrite_key room =
      let i = index hash t.size key in
      let (chain, e) =
        get_elem?-lt t.buckets i (omega (arith, s.table.heads, s.table.some_memory)) in
      let head = load-ok t.buckets i chain e in
      let (r, run, w) =
        Returns-both
          (set_found-Stores hash compare_keys same t s.table key value overwrite_key chain e room)
          (set_found-IsSound t s key value overwrite_key chain e room) in
      (r, rw (head, run), w)

  -- With a function that tells equal keys and a hash that agrees with it, on a table whose keys are
  -- pairwise different and stand in the chains of their indices, whose count is below SIZE_MAX, and
  -- whose next size can be allocated if the table is due to grow, hashtable_set ends without a fault or an abort and does not
  -- fail, whether the table grows first or not. A lookup then finds the new value under the keys that
  -- compare equal to the given one and what it found before under the others. The result says
  -- whether such a key was there, and the count grows if there was none. The keys are still pairwise
  -- different and in the chains of their indices.
  pub set-Stores :
      (t : HashTable)
      → IsSound hash compare_keys same t
      → ((t.grow && ltb t.size t.count) ≡ false) ⊎ ((p : ℕ) × (size : ℕ) × CanGrow t p size)
      → (key value : Ptr) (overwrite_key : Bool) → t.count < word - 1
      → Returns (set hash compare_keys t key value overwrite_key) (Keeps t key value)
  unfolding set
  set-Stores t s (inl settled) key value overwrite_key room =
      let (r, run, w) = set_settled t s key value overwrite_key room in (r, rw (settled, run), w)
  set-Stores t s (inr (p, size, g)) key value overwrite_key room =
      elim (Bool-cases (t.grow && ltb t.size t.count)) [
        | inr settled ↦
            let (r, run, w) = set_settled t s key value overwrite_key room in
            (r, rw (settled, run), w)
        | inl due ↦
            let (t', grown, (sound, _, count, _, finds)) =
              resize-keeps hash compare_keys same t s p size g in
            let (r, run, (w, kept)) =
              set_settled t' sound key value overwrite_key (omega (arith, count, room)) in
            let stores : Stores hash compare_keys t key value r = record {
              table = w.table;
              finds = λ q.
                  w.finds q ∙ ap (λ x. if compare_keys q key then ok (some value) else x) (finds q);
              outcome =
                  ap (λ x. x >>= λ r. ok (elim r [ none ↦ false | some _ ↦ true ]))
                    (sym (finds key))
                  ∙ w.outcome;
              counted = w.counted ∙ ap (λ n. if is_replaced r.1 then n else n + 1) count;
              no_failure = w.no_failure;
            } in
            (r, rw (due, grown, run), (stores, kept))
      ]
