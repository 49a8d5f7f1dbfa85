-- ===== src/Memory.antt =====
-- Arrays of cells, as the C library functions read and write them: an access past the end is a
-- fault. It stands for no code of the repository: memmove, realloc and calloc belong to the C
-- library, and cells that realloc adds hold whatever the parameter `junk` gives.
use Prim.Native.Nat.add
use datatypes.Base.{
  ℕ, zero, suc, ◌+◌, ◌-◌, ◌≤◌, ◌<◌, ◌≡◌, refl, sym, ap, ◌∙◌, ◌≢◌, ◌&&◌, none, some, List, [], ◌∷◌,
  ◌++◌, append_assoc, arith, ltb, leb, if◌then◌else◌, Run, ok, fault, length, get_elem?, take, drop,
  tabulate, overwrite, length-append, length-take, length-tabulate, take-append, take-take,
  take-append_of_le,
}

module _ {ℓ} {A : Type ℓ} where
  -- cells[i]
  unfoldable pub load : List A → ℕ → Run A
  load cells i = elim (get_elem? cells i) [ none ↦ fault | some x ↦ ok x ]

  -- cells[i] = x
  unfoldable pub store : List A → ℕ → A → Run (List A)
  store cells i x = if ltb i (length cells) then ok (overwrite cells i (x ∷ [])) else fault

  -- memmove(cells + dst, cells + src, n)
  unfoldable pub move : List A → ℕ → ℕ → ℕ → Run (List A)
  move cells dst src n =
      if leb (src + n) (length cells) && leb (dst + n) (length cells)
      then ok (overwrite cells dst (take n (drop src cells)))
      else fault

  -- realloc(cells, n)
  unfoldable pub resized : (ℕ → A) → List A → ℕ → List A
  resized junk cells n = take n cells ++ tabulate junk (length cells) (n - length cells)

  pub load-ok : (cells : List A) (i : ℕ) (x : A) → get_elem? cells i ≡ some x → load cells i ≡ ok x
  unfolding load
  load-ok cells i x e = rw (e, load)

  pub store-ok :
      (cells : List A) (i : ℕ) (x : A)
      → i < length cells
      → store cells i x ≡ ok (overwrite cells i (x ∷ []))
  unfolding store
  store-ok cells i x h = ground arith

  pub move-ok :
      (cells : List A) (dst src n : ℕ)
      → src + n ≤ length cells
      → dst + n ≤ length cells
      → move cells dst src n ≡ ok (overwrite cells dst (take n (drop src cells)))
  unfolding move
  move-ok cells dst src n h k = ground arith

  pub length-resized : (junk : ℕ → A) (cells : List A) (n : ℕ) → length (resized junk cells n) ≡ n
  unfolding resized
  length-resized junk cells n = omega (
    arith,
    length-append (take n cells) (tabulate junk (length cells) (n - length cells)),
    length-take n cells,
    length-tabulate junk (length cells) (n - length cells),
  )

  -- realloc keeps what fits in the new size
  pub take-resized :
      (junk : ℕ → A) (cells : List A) (m n : ℕ)
      → m ≤ n
      → m ≤ length cells
      → take m (resized junk cells n) ≡ take m cells
  unfolding resized
  take-resized junk cells m n h k =
      take-append_of_le m (take n cells) (tabulate junk (length cells) (n - length cells))
        (omega (arith, length-take n cells))
      ∙ take-take m n cells h

  -- a write directly behind a prefix makes the prefix longer
  pub take-overwrite :
      (cells : List A) (i n : ℕ) (xs : List A)
      → i ≤ length cells
      → n ≡ i + length xs
      → take n (overwrite cells i xs) ≡ take i cells ++ xs
  take-overwrite cells i n xs h e =
      ap (take n) (sym (append_assoc (take i cells) xs (drop (i + length xs) cells)))
      ∙ take-append (take i cells ++ xs) (drop (i + length xs) cells) n
          (omega (arith, length-append (take i cells) xs, length-take i cells))

  pub get_elem?-overwrite_same :
      (cells : List A) (i : ℕ) (x : A)
      → i < length cells
      → get_elem? (overwrite cells i (x ∷ [])) i ≡ some x
  get_elem?-overwrite_same [] i x h = absurd (omega arith)
  get_elem?-overwrite_same (c ∷ cells) zero x h = refl
  get_elem?-overwrite_same (c ∷ cells) (suc i) x h =
      rw (add.suc i 1) (get_elem?-overwrite_same cells i x (omega arith))

  pub get_elem?-overwrite_other :
      (cells : List A) (i j : ℕ) (x : A)
      → i ≢ j
      → i < length cells
      → get_elem? (overwrite cells i (x ∷ [])) j ≡ get_elem? cells j
  get_elem?-overwrite_other [] i j x ne h = absurd (omega arith)
  get_elem?-overwrite_other (c ∷ cells) zero zero x ne h = absurd (ne refl)
  get_elem?-overwrite_other (c ∷ cells) zero (suc j) x ne h = refl
  get_elem?-overwrite_other (c ∷ cells) (suc i) zero x ne h = refl
  get_elem?-overwrite_other (c ∷ cells) (suc i) (suc j) x ne h =
      rw (add.suc i 1) (get_elem?-overwrite_other cells i j x (λ e. ne (ap suc e)) (omega arith))

  pub overwrite_same :
      (cells : List A) (i : ℕ) (x : A)
      → get_elem? cells i ≡ some x
      → overwrite cells i (x ∷ []) ≡ cells
  overwrite_same [] i x e = cc
  overwrite_same (c ∷ cells) zero x e = ground (arith, e)
  overwrite_same (c ∷ cells) (suc i) x e =
      rw (add.suc i 1) (ap (λ t. c ∷ t) (overwrite_same cells i x e))
