-- ===== src/Callbacks.antt =====
-- The callbacks that a user hands to a container: CompareFunc of compare.h and FreeFunc of
-- datatypes.h. Keys and values are void pointers, that is numbers, and 0 is NULL. A CompareFunc
-- returns an int32_t of which the library reads the sign alone, here an Ordering.
use datatypes.Base.{
  ℕ, Ordering, ◌≡◌, refl, ◌⊎◌, inl, inr, Bool, not, ◌&&◌, List, [], ◌∷◌, ◌==◌, if◌then◌else◌,
}

abbrev pub Ptr : Type 0
Ptr = ℕ

abbrev pub null : Ptr
null = 0

abbrev pub CompareFunc : Type 0
CompareFunc = Ptr → Ptr → Ordering

abbrev pub flip : Ordering → Ordering
flip Ordering.lt = Ordering.gt
flip Ordering.eq = Ordering.eq
flip Ordering.gt = Ordering.lt

-- a branch on the sign of a comparison: negative, zero, positive
abbrev pub by_sign {ℓ} : {A : Type ℓ} → Ordering → A → A → A → A
by_sign Ordering.lt x y z = x
by_sign Ordering.eq x y z = y
by_sign Ordering.gt x y z = z

pub Ordering-cases : (o : Ordering) → (o ≡ Ordering.lt) ⊎ (o ≡ Ordering.eq) ⊎ (o ≡ Ordering.gt)
Ordering-cases Ordering.lt = inl refl
Ordering-cases Ordering.eq = inr (inl refl)
Ordering-cases Ordering.gt = inr (inr refl)

-- A compare function that orders its keys. Two keys that compare equal need not be the same pointer.
pub record IsOrder (compare_keys : CompareFunc) : Type 0 where
  pub swap : (a b : Ptr) → compare_keys b a ≡ flip (compare_keys a b)
  pub lt_trans :
      (a b c : Ptr)
      → compare_keys a b ≡ Ordering.lt
      → compare_keys b c ≡ Ordering.lt
      → compare_keys a c ≡ Ordering.lt
  pub eq_left : (a b c : Ptr) → compare_keys a b ≡ Ordering.eq → compare_keys a c ≡ compare_keys b c

-- The calls of FreeFunc callbacks, in the order in which they are made.
pub data Freed : Type 0 where
  key value : Ptr → Freed

-- `if(free_key) free_key(k)`
unfoldable pub free_key : Bool → Ptr → List Freed
free_key frees k = if frees then key k ∷ [] else []

-- `if(free_value && v) free_value(v)`
unfoldable pub free_value : Bool → Ptr → List Freed
free_value frees v = if frees && not (v == null) then value v ∷ [] else []
