-- ===== src/Base/Lists.antt =====
-- Lists measured and indexed by native numbers, under the library's names.
use Prim.Native.Nat.{◌<◌, ℕ, zero, suc, ◌+◌, ◌-◌, ◌≤◌, min}
use mathlib.Core.Path.{◌≡◌, refl, ap}
use mathlib.Core.List.{List, [], ◌∷◌, ◌++◌}
use mathlib.Core.Option.{Option, none, some}
use native.Mathlib.Omega.{arith}
use native.Mathlib.Nat.{zero-add}
use Prim.Native.Nat.add

module _ {ℓ} {A : Type ℓ} where
  abbrev pub length : List A → ℕ
  length [] = 0
  length (x ∷ xs) = suc (length xs)

  abbrev pub get_elem? : List A → ℕ → Option A
  get_elem? [] i = none
  get_elem? (x ∷ xs) zero = some x
  get_elem? (x ∷ xs) (suc i) = get_elem? xs i

  abbrev pub take : ℕ → List A → List A
  take zero xs = []
  take (suc n) [] = []
  take (suc n) (x ∷ xs) = x ∷ take n xs

  abbrev pub drop : ℕ → List A → List A
  drop zero xs = xs
  drop (suc n) [] = []
  drop (suc n) (x ∷ xs) = drop n xs

  -- the values of `f` at `i`, `i + 1`, … in `n` cells
  abbrev pub tabulate : (ℕ → A) → ℕ → ℕ → List A
  tabulate f i zero = []
  tabulate f i (suc n) = f i ∷ tabulate f (suc i) n

  pub length-append : (xs ys : List A) → length (xs ++ ys) ≡ length xs + length ys
  length-append [] ys = omega arith
  length-append (x ∷ xs) ys = omega (arith, length-append xs ys)

  pub length-take : (n : ℕ) (xs : List A) → length (take n xs) ≡ min n (length xs)
  length-take zero xs = omega arith
  length-take (suc n) [] = omega arith
  length-take (suc n) (x ∷ xs) = omega (arith, length-take n xs)

  pub length-drop : (n : ℕ) (xs : List A) → length (drop n xs) ≡ length xs - n
  length-drop zero xs = omega arith
  length-drop (suc n) [] = omega arith
  length-drop (suc n) (x ∷ xs) = omega (arith, length-drop n xs)

  pub length-tabulate : (f : ℕ → A) (i n : ℕ) → length (tabulate f i n) ≡ n
  length-tabulate f i zero = refl
  length-tabulate f i (suc n) = ap suc (length-tabulate f (suc i) n)

  pub take-append-drop : (n : ℕ) (xs : List A) → take n xs ++ drop n xs ≡ xs
  take-append-drop zero xs = refl
  take-append-drop (suc n) [] = refl
  take-append-drop (suc n) (x ∷ xs) = rw (take-append-drop n xs)

  -- `take` of exactly the first of two lists
  pub take-append : (xs ys : List A) (n : ℕ) → n ≡ length xs → take n (xs ++ ys) ≡ xs
  take-append [] ys zero h = refl
  take-append [] ys (suc n) h = absurd (omega arith)
  take-append (x ∷ xs) ys zero h = absurd (omega arith)
  take-append (x ∷ xs) ys (suc n) h = ap (λ t. x ∷ t) (take-append xs ys n (omega arith))

  pub drop-append : (xs ys : List A) (n : ℕ) → n ≡ length xs → drop n (xs ++ ys) ≡ ys
  drop-append [] ys zero h = refl
  drop-append [] ys (suc n) h = absurd (omega arith)
  drop-append (x ∷ xs) ys zero h = absurd (omega arith)
  drop-append (x ∷ xs) ys (suc n) h = drop-append xs ys n (omega arith)

  -- a prefix of a prefix
  pub take-take : (m n : ℕ) (xs : List A) → m ≤ n → take m (take n xs) ≡ take m xs
  take-take zero n xs h = refl
  take-take (suc m) zero xs h = absurd (omega arith)
  take-take (suc m) (suc n) [] h = refl
  take-take (suc m) (suc n) (x ∷ xs) h = ap (λ t. x ∷ t) (take-take m n xs (omega arith))

  -- a prefix of a concatenation that ends in its first part
  pub take-append_of_le : (n : ℕ) (xs ys : List A) → n ≤ length xs → take n (xs ++ ys) ≡ take n xs
  take-append_of_le zero xs ys h = refl
  take-append_of_le (suc n) [] ys h = absurd (omega arith)
  take-append_of_le (suc n) (x ∷ xs) ys h =
      ap (λ t. x ∷ t) (take-append_of_le n xs ys (omega arith))

  -- a write over the cells from `i` on, which the caller has checked to be there
  abbrev pub overwrite : List A → ℕ → List A → List A
  overwrite cells i xs = take i cells ++ (xs ++ drop (i + length xs) cells)

  pub length-overwrite :
      (cells : List A) (i : ℕ) (xs : List A)
      → i + length xs ≤ length cells
      → length (overwrite cells i xs) ≡ length cells
  length-overwrite cells i xs h = omega (
    arith,
    length-append (take i cells) (xs ++ drop (i + length xs) cells),
    length-append xs (drop (i + length xs) cells),
    length-take i cells,
    length-drop (i + length xs) cells,
  )

  pub take-drop : (m n : ℕ) (xs : List A) → take m (drop n xs) ≡ drop n (take (n + m) xs)
  take-drop m zero xs = rw zero-add
  take-drop zero (suc n) [] = rw (add.suc n zero)
  take-drop (suc m) (suc n) [] = rw (add.suc n (suc m))
  take-drop m (suc n) (x ∷ xs) = rw (add.suc n m) (take-drop m n xs)

  -- what follows a list and one separator
  pub drop-append_cons :
      (xs : List A) (x : A) (ys : List A) (n : ℕ) → n ≡ suc (length xs) → drop n (xs ++ x ∷ ys) ≡ ys
  drop-append_cons xs x ys zero h = absurd (omega arith)
  drop-append_cons [] x ys (suc n) h = let e : n ≡ 0 = omega arith in rw e
  drop-append_cons (y ∷ xs) x ys (suc n) h = drop-append_cons xs x ys n (omega arith)

  -- all of a list
  pub take_all : (n : ℕ) (xs : List A) → n ≡ length xs → take n xs ≡ xs
  take_all zero [] h = refl
  take_all (suc n) [] h = refl
  take_all zero (x ∷ xs) h = absurd (omega arith)
  take_all (suc n) (x ∷ xs) h = ap (λ t. x ∷ t) (take_all n xs (omega arith))

  pub get_elem?-lt : (xs : List A) (i : ℕ) → i < length xs → (x : A) × (get_elem? xs i ≡ some x)
  get_elem?-lt [] i h = absurd (omega arith)
  get_elem?-lt (x ∷ xs) zero h = (x, refl)
  get_elem?-lt (x ∷ xs) (suc i) h = get_elem?-lt xs i (omega arith)

  pub get_elem?-take :
      (n : ℕ) (xs : List A) (i : ℕ) → i < n → get_elem? (take n xs) i ≡ get_elem? xs i
  get_elem?-take zero xs i h = absurd (omega arith)
  get_elem?-take (suc n) [] i h = refl
  get_elem?-take (suc n) (x ∷ xs) zero h = refl
  get_elem?-take (suc n) (x ∷ xs) (suc i) h = get_elem?-take n xs i (omega arith)

  -- a list from a cell on begins with the cell
  pub drop-get_elem? :
      (xs : List A) (i : ℕ) (x : A) → get_elem? xs i ≡ some x → drop i xs ≡ x ∷ drop (suc i) xs
  drop-get_elem? [] i x e = cc
  drop-get_elem? (y ∷ xs) zero x e = cc
  drop-get_elem? (y ∷ xs) (suc i) x e = drop-get_elem? xs i x e

  pub get_elem?-none : (xs : List A) (i : ℕ) → length xs ≤ i → get_elem? xs i ≡ none
  get_elem?-none [] i h = refl
  get_elem?-none (x ∷ xs) zero h = absurd (omega arith)
  get_elem?-none (x ∷ xs) (suc i) h = get_elem?-none xs i (omega arith)

  pub drop_all : (n : ℕ) (xs : List A) → length xs ≤ n → drop n xs ≡ []
  drop_all zero [] h = refl
  drop_all (suc n) [] h = refl
  drop_all zero (x ∷ xs) h = absurd (omega arith)
  drop_all (suc n) (x ∷ xs) h = drop_all n xs (omega arith)
