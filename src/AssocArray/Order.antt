-- ===== src/AssocArray/Order.antt =====
-- The order of the keys under the three ways in which an entry comes, changes and goes.
use datatypes.Base.{
  ℕ, zero, suc, ◌≤◌, ◌<◌, Ordering, ◌≡◌, refl, ◌∙◌, some, List, [], ◌∷◌, ◌++◌, arith, get_elem?,
  take, drop,
}
use datatypes.Callbacks.{Ptr, CompareFunc, IsOrder}
use datatypes.AssocArray.Search.{AllAbove, IsSorted}
use datatypes.AssocArray.Table.{Compares}

module _ (compare_keys : CompareFunc) (order : IsOrder compare_keys) where
  pub eq_refl : (a : Ptr) → compare_keys a a ≡ Ordering.eq
  eq_refl a = ground (arith, order.swap a a)

  AllAbove-of :
      (a : Ptr) (ks : List Ptr)
      → ((j : ℕ) (k : Ptr) → get_elem? ks j ≡ some k → compare_keys a k ≡ Ordering.lt)
      → AllAbove compare_keys a ks
  AllAbove-of a [] h = tt
  AllAbove-of a (k ∷ ks) h = (h 0 k refl, AllAbove-of a ks λ j b. h (suc j) b)

  AllAbove-insert :
      (a x : Ptr) (ks : List Ptr) (p : ℕ)
      → AllAbove compare_keys a ks
      → compare_keys a x ≡ Ordering.lt
      → AllAbove compare_keys a (take p ks ++ x ∷ drop p ks)
  AllAbove-insert a x ks zero h e = (e, h)
  AllAbove-insert a x [] (suc p) h e = (e, h)
  AllAbove-insert a x (k ∷ ks) (suc p) h e = (h.0, AllAbove-insert a x ks p h.1 e)

  AllAbove-erase :
      (a : Ptr) (ks : List Ptr) (p : ℕ)
      → AllAbove compare_keys a ks
      → AllAbove compare_keys a (take p ks ++ drop (suc p) ks)
  AllAbove-erase a [] zero h = h
  AllAbove-erase a [] (suc p) h = h
  AllAbove-erase a (k ∷ ks) zero h = h.1
  AllAbove-erase a (k ∷ ks) (suc p) h = (h.0, AllAbove-erase a ks p h.1)

  AllAbove-replace :
      (a x old : Ptr) (ks : List Ptr) (p : ℕ)
      → get_elem? ks p ≡ some old
      → compare_keys x old ≡ Ordering.eq
      → AllAbove compare_keys a ks
      → AllAbove compare_keys a (take p ks ++ x ∷ drop (suc p) ks)
  AllAbove-replace a x old [] p e same h = cc
  AllAbove-replace a x old (k ∷ ks) zero e same h =
      let first : old ≡ k = cc in
      (
        ground (arith, h.0, order.swap a k, order.swap a x, order.eq_left x k a, rw first at same),
        h.1,
      )
  AllAbove-replace a x old (k ∷ ks) (suc p) e same h =
      (h.0, AllAbove-replace a x old ks p e same h.1)

  AllAbove-eq :
      (a b : Ptr) (ks : List Ptr)
      → compare_keys a b ≡ Ordering.eq
      → AllAbove compare_keys b ks
      → AllAbove compare_keys a ks
  AllAbove-eq a b [] e h = tt
  AllAbove-eq a b (k ∷ ks) e h = (order.eq_left a b k e ∙ h.0, AllAbove-eq a b ks e h.1)

  pub IsSorted-insert :
      (x : Ptr) (ks : List Ptr) (p : ℕ)
      → IsSorted compare_keys ks
      → Compares compare_keys x ks Ordering.gt (λ j. j < p)
      → Compares compare_keys x ks Ordering.lt (λ j. p ≤ j)
      → IsSorted compare_keys (take p ks ++ x ∷ drop p ks)
  IsSorted-insert x ks zero s lower upper = (AllAbove-of x ks λ j k e. upper j k (omega arith) e, s)
  IsSorted-insert x [] (suc p) s lower upper = (tt, tt)
  IsSorted-insert x (k ∷ ks) (suc p) s lower upper = (
    AllAbove-insert k x ks p s.0 (ground (arith, order.swap x k, lower 0 k (omega arith) refl)),
    IsSorted-insert x ks p s.1 (λ j b h. lower (suc j) b (omega arith))
        (λ j b h. upper (suc j) b (omega arith)),
  )

  pub IsSorted-erase :
      (ks : List Ptr) (p : ℕ)
      → IsSorted compare_keys ks
      → IsSorted compare_keys (take p ks ++ drop (suc p) ks)
  IsSorted-erase [] zero s = s
  IsSorted-erase [] (suc p) s = s
  IsSorted-erase (k ∷ ks) zero s = s.1
  IsSorted-erase (k ∷ ks) (suc p) s = (AllAbove-erase k ks p s.0, IsSorted-erase ks p s.1)

  -- an equal key may take the place of the old one
  pub IsSorted-replace :
      (x old : Ptr) (ks : List Ptr) (p : ℕ)
      → get_elem? ks p ≡ some old
      → compare_keys x old ≡ Ordering.eq
      → IsSorted compare_keys ks
      → IsSorted compare_keys (take p ks ++ x ∷ drop (suc p) ks)
  IsSorted-replace x old [] p e same s = cc
  IsSorted-replace x old (k ∷ ks) zero e same s =
      let first : old ≡ k = cc in (AllAbove-eq x k ks (rw first at same) s.0, s.1)
  IsSorted-replace x old (k ∷ ks) (suc p) e same s =
      (AllAbove-replace k x old ks p e same s.0, IsSorted-replace x old ks p e same s.1)
