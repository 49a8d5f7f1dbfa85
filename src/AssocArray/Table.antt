-- ===== src/AssocArray/Table.antt =====
-- What the array stands for: a list of entries, with insertion, removal and lookup written as
-- plain recursions, and how the two arrays of the code change under each.
use datatypes.Base.{
  ℕ, zero, suc, ◌≤◌, ◌<◌, Ordering, ◌≡◌, refl, ap, Bool, Option, none, some, List, [], ◌∷◌, ◌++◌,
  arith, if◌then◌else◌, length, get_elem?, take, drop,
}
use datatypes.Callbacks.{Ptr, CompareFunc, by_sign}

abbrev pub Entries : Type 0
Entries = List (Ptr × Ptr)

-- the entries of parallel arrays
unfoldable pub pair_up : List Ptr → List Ptr → Entries
pair_up [] vs = []
pair_up (k ∷ ks) [] = []
pair_up (k ∷ ks) (v ∷ vs) = (k, v) ∷ pair_up ks vs

module _ (compare_keys : CompareFunc) where
  -- sets the value of the first equal key, or adds an entry before the first greater key
  unfoldable pub insert : Ptr → Ptr → Bool → Entries → Entries
  insert key v overwrite_key [] = (key, v) ∷ []
  insert key v overwrite_key ((k, w) ∷ es) =
      by_sign (compare_keys key k) ((key, v) ∷ (k, w) ∷ es)
        ((if overwrite_key then key else k, v) ∷ es) ((k, w) ∷ insert key v overwrite_key es)

  -- drops the first equal key
  unfoldable pub erase : Ptr → Entries → Entries
  erase key [] = []
  erase key ((k, w) ∷ es) =
      by_sign (compare_keys key k) ((k, w) ∷ erase key es) es ((k, w) ∷ erase key es)

  -- the entry of the first equal key
  unfoldable pub find : Ptr → Entries → Option (Ptr × Ptr)
  find key [] = none
  find key ((k, w) ∷ es) = by_sign (compare_keys key k) (find key es) (some (k, w)) (find key es)

  -- every key in the given range of indices compares by `o` with the key
  abbrev pub Compares : Ptr → List Ptr → Ordering → (ℕ → Type 0) → Type 0
  Compares key ks o In = (j : ℕ) (k : Ptr) → In j → get_elem? ks j ≡ some k → compare_keys key k ≡ o

  module _ (key : Ptr) where
    pub insert-pair_up :
        (v : Ptr) (overwrite_key : Bool) (ks vs : List Ptr) (p : ℕ)
        → length ks ≡ length vs
        → p ≤ length ks
        → Compares key ks Ordering.gt (λ j. j < p)
        → Compares key ks Ordering.lt (λ j. p ≤ j)
        → insert key v overwrite_key (pair_up ks vs)
          ≡ pair_up (take p ks ++ key ∷ drop p ks) (take p vs ++ v ∷ drop p vs)
    unfolding insert pair_up
    insert-pair_up v o [] [] zero e h lower upper = refl
    insert-pair_up v o [] [] (suc p) e h lower upper = absurd (omega arith)
    insert-pair_up v o [] (w ∷ vs) p e h lower upper = absurd (omega arith)
    insert-pair_up v o (k ∷ ks) [] p e h lower upper = absurd (omega arith)
    insert-pair_up v o (k ∷ ks) (w ∷ vs) zero e h lower upper = rw (upper 0 k (omega arith) refl)
    insert-pair_up v o (k ∷ ks) (w ∷ vs) (suc p) e h lower upper =
        rw (lower 0 k (omega arith) refl) (
          ap (λ t. (k, w) ∷ t)
            (insert-pair_up v o ks vs p (omega arith) (omega arith)
              (λ j a g. lower (suc j) a (omega arith)) (λ j a g. upper (suc j) a (omega arith))))

    pub insert-pair_up_equal :
        (v : Ptr) (overwrite_key : Bool) (ks vs : List Ptr) (p : ℕ) (old : Ptr)
        → length ks ≡ length vs
        → get_elem? ks p ≡ some old
        → compare_keys key old ≡ Ordering.eq
        → Compares key ks Ordering.gt (λ j. j < p)
        → insert key v overwrite_key (pair_up ks vs)
          ≡ pair_up
              (take p ks ++ (if overwrite_key then key else old) ∷ drop (suc p) ks)
              (take p vs ++ v ∷ drop (suc p) vs)
    unfolding insert pair_up
    insert-pair_up_equal v o [] vs p old e at same lower = cc
    insert-pair_up_equal v o (k ∷ ks) [] p old e at same lower = absurd (omega arith)
    insert-pair_up_equal v o (k ∷ ks) (w ∷ vs) zero old e at same lower =
        let first : old ≡ k = cc in rw (first) (rw (rw first at same))
    insert-pair_up_equal v o (k ∷ ks) (w ∷ vs) (suc p) old e at same lower =
        rw (lower 0 k (omega arith) refl) (
          ap (λ t. (k, w) ∷ t)
            (insert-pair_up_equal v o ks vs p old (omega arith) at same
              (λ j a g. lower (suc j) a (omega arith))))

    pub erase-pair_up :
        (ks vs : List Ptr) (p : ℕ) (old : Ptr)
        → length ks ≡ length vs
        → get_elem? ks p ≡ some old
        → compare_keys key old ≡ Ordering.eq
        → Compares key ks Ordering.gt (λ j. j < p)
        → erase key (pair_up ks vs)
          ≡ pair_up (take p ks ++ drop (suc p) ks) (take p vs ++ drop (suc p) vs)
    unfolding erase pair_up
    erase-pair_up [] vs p old e at same lower = cc
    erase-pair_up (k ∷ ks) [] p old e at same lower = absurd (omega arith)
    erase-pair_up (k ∷ ks) (w ∷ vs) zero old e at same lower =
        let first : old ≡ k = cc in rw (rw first at same)
    erase-pair_up (k ∷ ks) (w ∷ vs) (suc p) old e at same lower =
        rw (lower 0 k (omega arith) refl) (
          ap (λ t. (k, w) ∷ t)
            (erase-pair_up ks vs p old (omega arith) at same
              (λ j a g. lower (suc j) a (omega arith))))

    pub find-pair_up :
        (ks vs : List Ptr) (p : ℕ) (old w : Ptr)
        → get_elem? ks p ≡ some old
        → get_elem? vs p ≡ some w
        → compare_keys key old ≡ Ordering.eq
        → Compares key ks Ordering.gt (λ j. j < p)
        → find key (pair_up ks vs) ≡ some (old, w)
    unfolding find pair_up
    find-pair_up [] vs p old w e at same lower = cc
    find-pair_up (k ∷ ks) [] p old w e at same lower = cc
    find-pair_up (k ∷ ks) (x ∷ vs) zero old w e at same lower =
        let first : old ≡ k = cc in
        let value : w ≡ x = cc in rw (first, value) (rw (rw first at same))
    find-pair_up (k ∷ ks) (x ∷ vs) (suc p) old w e at same lower =
        rw (lower 0 k (omega arith) refl)
          (find-pair_up ks vs p old w e at same (λ j a g. lower (suc j) a (omega arith)))

    -- a key that is above the keys before some index and below the others is absent
    pub absent-pair_up :
        (ks vs : List Ptr) (p : ℕ)
        → Compares key ks Ordering.gt (λ j. j < p)
        → Compares key ks Ordering.lt (λ j. p ≤ j)
        → (find key (pair_up ks vs) ≡ none) × (erase key (pair_up ks vs) ≡ pair_up ks vs)
    unfolding find erase pair_up
    absent-pair_up [] vs p lower upper = (refl, refl)
    absent-pair_up (k ∷ ks) [] p lower upper = (refl, refl)
    absent-pair_up (k ∷ ks) (w ∷ vs) zero lower upper =
        let (missing, kept) =
          absent-pair_up ks vs zero (λ j a g. absurd (omega arith))
            (λ j a g. upper (suc j) a (omega arith)) in
        (rw (upper 0 k (omega arith) refl) missing, rw (upper 0 k (omega arith) refl, kept))
    absent-pair_up (k ∷ ks) (w ∷ vs) (suc p) lower upper =
        let (missing, kept) =
          absent-pair_up ks vs p (λ j a g. lower (suc j) a (omega arith))
            (λ j a g. upper (suc j) a (omega arith)) in
        (rw (lower 0 k (omega arith) refl) missing, rw (lower 0 k (omega arith) refl, kept))
