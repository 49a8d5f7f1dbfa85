-- ===== src/RbTree/Order.antt =====
-- The order of the entries around a place, and insertion, removal and lookup there.
use datatypes.Base.{
  Ordering, ◌≡◌, refl, ap, ◌∙◌, Bool, none, some, [], ◌∷◌, ◌++◌, arith, if◌then◌else◌,
}
use datatypes.Callbacks.{Ptr, CompareFunc, IsOrder}
use datatypes.AssocArray.Table.{Entries, insert, erase, find}

module _ (compare_keys : CompareFunc) where
  -- every key is greater, or every key is less, than the given one
  abbrev pub AllGreater : Ptr → Entries → Type 0
  AllGreater key [] = Unit
  AllGreater key ((k, v) ∷ es) = (compare_keys key k ≡ Ordering.lt) × AllGreater key es

  abbrev pub AllLess : Ptr → Entries → Type 0
  AllLess key [] = Unit
  AllLess key ((k, v) ∷ es) = (compare_keys key k ≡ Ordering.gt) × AllLess key es

  abbrev pub IsOrdered : Entries → Type 0
  IsOrdered [] = Unit
  IsOrdered ((k, v) ∷ es) = AllGreater k es × IsOrdered es

  pub AllGreater-append :
      (key : Ptr) (xs ys : Entries)
      → AllGreater key xs
      → AllGreater key ys
      → AllGreater key (xs ++ ys)
  AllGreater-append key [] ys a b = b
  AllGreater-append key ((k, v) ∷ xs) ys a b = (a.0, AllGreater-append key xs ys a.1 b)

  pub AllLess-append :
      (key : Ptr) (xs ys : Entries) → AllLess key xs → AllLess key ys → AllLess key (xs ++ ys)
  AllLess-append key [] ys a b = b
  AllLess-append key ((k, v) ∷ xs) ys a b = (a.0, AllLess-append key xs ys a.1 b)

  pub AllGreater-parts :
      (key : Ptr) (xs ys : Entries)
      → AllGreater key (xs ++ ys)
      → AllGreater key xs × AllGreater key ys
  AllGreater-parts key [] ys a = (tt, a)
  AllGreater-parts key ((k, v) ∷ xs) ys a =
      let (front, back) = AllGreater-parts key xs ys a.1 in ((a.0, front), back)

  pub AllLess-parts :
      (key : Ptr) (xs ys : Entries) → AllLess key (xs ++ ys) → AllLess key xs × AllLess key ys
  AllLess-parts key [] ys a = (tt, a)
  AllLess-parts key ((k, v) ∷ xs) ys a =
      let (front, back) = AllLess-parts key xs ys a.1 in ((a.0, front), back)

  -- the place of a key that is absent
  module _ (key : Ptr) where
    pub insert-between :
        (v : Ptr) (overwrite_key : Bool) (xs ys : Entries)
        → AllLess key xs
        → AllGreater key ys
        → insert compare_keys key v overwrite_key (xs ++ ys) ≡ xs ++ (key, v) ∷ ys
    unfolding insert
    insert-between v o [] [] a b = refl
    insert-between v o [] ((k, w) ∷ ys) a b = rw (b.0)
    insert-between v o ((k, w) ∷ xs) ys a b =
        rw (a.0) (ap (λ t. (k, w) ∷ t) (insert-between v o xs ys a.1 b))

    pub find_between :
        (xs ys : Entries)
        → AllLess key xs
        → AllGreater key ys
        → (find compare_keys key (xs ++ ys) ≡ none) × (erase compare_keys key (xs ++ ys) ≡ xs ++ ys)
    unfolding find erase
    find_between [] [] a b = (refl, refl)
    find_between [] ((k, w) ∷ ys) a b =
        let (missing, kept) = find_between [] ys a b.1 in
        (rw (b.0) missing, rw (b.0) (ap (λ t. (k, w) ∷ t) kept))
    find_between ((k, w) ∷ xs) ys a b =
        let (missing, kept) = find_between xs ys a.1 b in
        (rw (a.0) missing, rw (a.0) (ap (λ t. (k, w) ∷ t) kept))

    -- the place of an equal key
    module _ (k w : Ptr) (equal : compare_keys key k ≡ Ordering.eq) where
      pub insert_at :
          (v : Ptr) (overwrite_key : Bool) (xs ys : Entries)
          → AllLess key xs
          → insert compare_keys key v overwrite_key (xs ++ (k, w) ∷ ys)
            ≡ xs ++ (if overwrite_key then key else k, v) ∷ ys
      unfolding insert
      insert_at v o [] ys a = rw equal
      insert_at v o ((x, y) ∷ xs) ys a = rw (a.0) (ap (λ t. (x, y) ∷ t) (insert_at v o xs ys a.1))

      pub find_at :
          (xs ys : Entries)
          → AllLess key xs
          → (find compare_keys key (xs ++ (k, w) ∷ ys) ≡ some (k, w))
            × (erase compare_keys key (xs ++ (k, w) ∷ ys) ≡ xs ++ ys)
      unfolding find erase
      find_at [] ys a = (rw equal, rw equal)
      find_at ((x, y) ∷ xs) ys a =
          let (there, gone) = find_at xs ys a.1 in
          (rw (a.0) there, rw (a.0) (ap (λ t. (x, y) ∷ t) gone))

  module _ (order : IsOrder compare_keys) where
    pub AllGreater-below :
        (a b : Ptr) (es : Entries)
        → compare_keys a b ≡ Ordering.lt
        → AllGreater b es
        → AllGreater a es
    AllGreater-below a b [] e h = tt
    AllGreater-below a b ((k, v) ∷ es) e h =
        (order.lt_trans a b k e h.0, AllGreater-below a b es e h.1)

    pub AllLess-above :
        (a b : Ptr) (es : Entries) → compare_keys a b ≡ Ordering.gt → AllLess b es → AllLess a es
    AllLess-above a b [] e h = tt
    AllLess-above a b ((k, v) ∷ es) e h = (
      ground (arith, order.swap a b, order.swap b k, order.swap k a, order.lt_trans k b a, e, h.0),
      AllLess-above a b es e h.1,
    )

    -- an ordered list around one of its entries
    pub IsOrdered-around :
        (xs : Entries) (k v : Ptr) (ys : Entries)
        → IsOrdered (xs ++ (k, v) ∷ ys)
        → IsOrdered xs × IsOrdered ys × AllLess k xs × AllGreater k ys
    IsOrdered-around [] k v ys o = (tt, o.1, tt, o.0)
    IsOrdered-around ((x, y) ∷ xs) k v ys o =
        let (front, back, less, greater) = IsOrdered-around xs k v ys o.1 in
        let (before, behind) = AllGreater-parts x xs ((k, v) ∷ ys) o.0 in
        ((before, front), back, (ground (arith, order.swap x k, behind.0), less), greater)

    pub IsOrdered-put :
        (xs : Entries) (k v : Ptr) (ys : Entries)
        → IsOrdered (xs ++ ys)
        → AllLess k xs
        → AllGreater k ys
        → IsOrdered (xs ++ (k, v) ∷ ys)
    IsOrdered-put [] k v ys o l g = (g, o)
    IsOrdered-put ((x, y) ∷ xs) k v ys o l g =
        let (before, behind) = AllGreater-parts x xs ys o.0 in
        let below : compare_keys x k ≡ Ordering.lt = ground (arith, order.swap k x, l.0) in
        (
          AllGreater-append x xs ((k, v) ∷ ys) before (below, behind),
          IsOrdered-put xs k v ys o.1 l.1 g,
        )

    pub IsOrdered-drop :
        (xs : Entries) (k v : Ptr) (ys : Entries)
        → IsOrdered (xs ++ (k, v) ∷ ys)
        → IsOrdered (xs ++ ys)
    IsOrdered-drop [] k v ys o = o.1
    IsOrdered-drop ((x, y) ∷ xs) k v ys o =
        let (before, behind) = AllGreater-parts x xs ((k, v) ∷ ys) o.0 in
        (AllGreater-append x xs ys before behind.1, IsOrdered-drop xs k v ys o.1)

    AllGreater-eq :
        (a b : Ptr) (es : Entries)
        → compare_keys a b ≡ Ordering.eq
        → AllGreater b es
        → AllGreater a es
    AllGreater-eq a b [] e h = tt
    AllGreater-eq a b ((k, v) ∷ es) e h = (order.eq_left a b k e ∙ h.0, AllGreater-eq a b es e h.1)

    pub AllLess-eq :
        (a b : Ptr) (es : Entries) → compare_keys a b ≡ Ordering.eq → AllLess b es → AllLess a es
    AllLess-eq a b [] e h = tt
    AllLess-eq a b ((k, v) ∷ es) e h = (order.eq_left a b k e ∙ h.0, AllLess-eq a b es e h.1)

    -- an equal key in the place of the old one
    pub IsOrdered-replace :
        (xs : Entries) (k v a w : Ptr) (ys : Entries)
        → compare_keys a k ≡ Ordering.eq
        → IsOrdered (xs ++ (k, v) ∷ ys)
        → IsOrdered (xs ++ (a, w) ∷ ys)
    IsOrdered-replace xs k v a w ys e o =
        let (_, _, less, greater) = IsOrdered-around xs k v ys o in
        IsOrdered-put xs a w ys (IsOrdered-drop xs k v ys o) (AllLess-eq a k xs e less)
          (AllGreater-eq a k ys e greater)
