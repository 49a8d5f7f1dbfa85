-- ===== src/AssocArray/Laws.antt =====
-- The entries as a map from keys to values.
use datatypes.Base.{Ordering, ◌≡◌, refl, inl, inr, Bool, Option, none, some, List, [], ◌∷◌, arith}
use datatypes.Callbacks.{Ptr, CompareFunc, Ordering-cases, by_sign, IsOrder}
use datatypes.AssocArray.Search.{AllAbove, IsSorted}
use datatypes.AssocArray.Table.{Entries, pair_up, insert, erase, find}

module _ (compare_keys : CompareFunc) where
  -- the value of the first equal key
  unfoldable pub value_of : Ptr → Entries → Option Ptr
  value_of q [] = none
  value_of q ((k, v) ∷ es) = by_sign (compare_keys q k) (value_of q es) (some v) (value_of q es)

  pub value_of-find :
      (q : Ptr) (es : Entries)
      → value_of q es ≡ elim (find compare_keys q es) [ none ↦ none | some e ↦ some (e.1) ]
  unfolding value_of find
  value_of-find q [] = refl
  value_of-find q ((k, v) ∷ es) = elim (Ordering-cases (compare_keys q k)) [
    | inl e ↦ rw e (value_of-find q es)
    | inr (inl e) ↦ rw e
    | inr (inr e) ↦ rw e (value_of-find q es)
  ]

  module _ (order : IsOrder compare_keys) where
    -- an insertion changes the value of the equal keys and of no other
    pub value_of-insert :
        (q key v : Ptr) (overwrite_key : Bool) (es : Entries)
        → value_of q (insert compare_keys key v overwrite_key es)
          ≡ by_sign (compare_keys q key) (value_of q es) (some v) (value_of q es)
    unfolding value_of insert
    value_of-insert q key v o [] = refl
    value_of-insert q key v o ((k, w) ∷ es) = ground (
      arith,
      value_of-insert q key v o es,
      order.swap q key,
      order.swap q k,
      order.swap key k,
      order.eq_left q key k,
      order.eq_left key k q,
      order.eq_left key q k,
    )

    value_of_above :
        (q a : Ptr) (ks vs : List Ptr)
        → AllAbove compare_keys a ks
        → compare_keys q a ≡ Ordering.eq
        → value_of q (pair_up ks vs) ≡ none
    unfolding value_of pair_up
    value_of_above q a [] vs h e = refl
    value_of_above q a (k ∷ ks) [] h e = refl
    value_of_above q a (k ∷ ks) (v ∷ vs) h e =
        ground (arith, value_of_above q a ks vs h.1 e, order.eq_left q a k e, h.0)

    -- a removal takes away the equal keys and no other
    pub value_of-erase :
        (q key : Ptr) (ks vs : List Ptr)
        → IsSorted compare_keys ks
        → value_of q (erase compare_keys key (pair_up ks vs))
          ≡ by_sign
              (compare_keys q key)
              (value_of q (pair_up ks vs))
              none
              (value_of q (pair_up ks vs))
    unfolding value_of erase pair_up
    value_of-erase q key [] vs s = ground arith
    value_of-erase q key (k ∷ ks) [] s = ground arith
    value_of-erase q key (k ∷ ks) (v ∷ vs) s = ground (
      arith,
      value_of-erase q key ks vs s.1,
      value_of_above q k ks vs s.0,
      order.swap q key,
      order.swap q k,
      order.swap key k,
      order.eq_left q key k,
      order.eq_left key k q,
      order.eq_left key q k,
    )
