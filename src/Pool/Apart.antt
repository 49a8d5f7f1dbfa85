-- ===== src/Pool/Apart.antt =====
-- Ranges of memory that do not overlap.
use datatypes.Base.{ℕ, ◌+◌, ◌≤◌, ◌⊎◌, inl, inr, List, [], ◌∷◌, ◌++◌}
use datatypes.Callbacks.{Ptr}

-- the ranges of the given sizes at two addresses
abbrev pub Apart : Ptr → ℕ → Ptr → ℕ → Type 0
Apart a m b n = (a + m ≤ b) ⊎ (b + n ≤ a)

pub Apart-swap : (a m b n : ℕ) → Apart a m b n → Apart b n a m
Apart-swap a m b n (inl e) = inr e
Apart-swap a m b n (inr e) = inl e

-- a property of every address
abbrev pub All : (Ptr → Type 0) → List Ptr → Type 0
All P [] = Unit
All P (a ∷ bs) = P a × All P bs

module _ (P : Ptr → Type 0) where
  pub All-append : (xs ys : List Ptr) → All P xs → All P ys → All P (xs ++ ys)
  All-append [] ys h g = g
  All-append (x ∷ xs) ys h g = (h.0, All-append xs ys h.1 g)

  pub All-parts : (xs ys : List Ptr) → All P (xs ++ ys) → All P xs × All P ys
  All-parts [] ys h = (tt, h)
  All-parts (x ∷ xs) ys h = let (l, r) = All-parts xs ys h.1 in ((h.0, l), r)

  pub All-map : (Q : Ptr → Type 0) → ((a : Ptr) → P a → Q a) → (xs : List Ptr) → All P xs → All Q xs
  All-map Q f [] h = tt
  All-map Q f (x ∷ xs) h = (f x h.0, All-map Q f xs h.1)

module _ (size : ℕ) where
  -- the item at an address is apart from the other items
  abbrev pub IsApart : Ptr → List Ptr → Type 0
  IsApart a bs = All (λ b. Apart a size b size) bs

  abbrev pub AllApart : List Ptr → Type 0
  AllApart [] = Unit
  AllApart (a ∷ bs) = IsApart a bs × AllApart bs

  -- an item goes to the front
  pub AllApart-front :
      (xs : List Ptr) (a : Ptr) (ys : List Ptr)
      → AllApart (xs ++ a ∷ ys)
      → AllApart (a ∷ (xs ++ ys))
  AllApart-front [] a ys h = h
  AllApart-front (x ∷ xs) a ys h =
      let (l, r) = All-parts (λ b. Apart x size b size) xs (a ∷ ys) h.0 in
      let (here, rest) = AllApart-front xs a ys h.1 in
      (
        (Apart-swap x size a size r.0, here),
        (All-append (λ b. Apart x size b size) xs ys l r.1, rest),
      )

  -- an item comes from the front
  pub AllApart-back :
      (xs : List Ptr) (a : Ptr) (ys : List Ptr)
      → AllApart (a ∷ (xs ++ ys))
      → AllApart (xs ++ a ∷ ys)
  AllApart-back [] a ys h = h
  AllApart-back (x ∷ xs) a ys h =
      let (l, r) = All-parts (λ b. Apart x size b size) xs ys h.1.0 in
      (
        All-append (λ b. Apart x size b size) xs (a ∷ ys) l (Apart-swap a size x size h.0.0, r),
        AllApart-back xs a ys (h.0.1, h.1.1),
      )
