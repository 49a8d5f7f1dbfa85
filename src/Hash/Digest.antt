-- ===== src/Hash/Digest.antt =====
-- What the functions of compare.c and hash.c compute.
use datatypes.Base.{
  subst, ℕ, ◌+◌, ◌-◌, ◌*◌, ◌%◌, ◌<◌, ◌≡◌, refl, ap, ap₂, ◌↔◌, inl, inr, true, [], ◌∷◌, arith, ◌==◌,
  Bool-cases, word32,
}
use datatypes.Callbacks.{IsOrder}
use datatypes.Hash.{Str, str_equal, direct_compare, shift_left, hash_loop, str_hash}

-- the pointers compare as numbers do
pub direct_compare-IsOrder : IsOrder direct_compare
unfolding direct_compare
direct_compare-IsOrder = ground arith

-- no character of a string is zero
abbrev pub IsStr : Str → Type 0
IsStr [] = Unit
IsStr (c ∷ s) = (0 < c) × IsStr s

str_equal-same : (a b : Str) → IsStr a → IsStr b → str_equal a b ≡ true → a ≡ b
unfolding str_equal
str_equal-same [] [] i j e = refl
str_equal-same [] (c ∷ b) i j e = absurd (ground (arith, j.0, e))
str_equal-same (c ∷ a) [] i j e = absurd (ground (arith, i.0, e))
str_equal-same (c ∷ a) (d ∷ b) i j e = elim (Bool-cases (c == d)) [
  | inl same ↦
      let rest : str_equal a b ≡ true = ground (arith, e, same) in
      let head : c ≡ d = ground (arith, same) in
      ap₂ (λ x xs. x ∷ xs) head (str_equal-same a b i.1 j.1 rest)
  | inr differ ↦ absurd (ground (arith, e, differ))
]

str_equal_refl : (a : Str) → str_equal a a ≡ true
unfolding str_equal
str_equal_refl [] = refl
str_equal_refl (c ∷ a) = ground (arith, str_equal_refl a)

-- the sdbm hash, over numbers without a bound
abbrev pub sdbm : (ℕ → ℕ) → ℕ → Str → ℕ
sdbm widen hash [] = hash
sdbm widen hash (c ∷ s) = sdbm widen (65599 * hash + widen c) s

round :
    (c h g : ℕ)
    → g ≡ h % word32
    → (c + shift_left g 6 + shift_left g 16 + (word32 - g)) % word32 ≡ (65599 * h + c) % word32
round c h g e = omega (arith, e)

hash_loop-sdbm :
    (widen : ℕ → ℕ) (s : Str) (g h : ℕ)
    → g ≡ h % word32
    → hash_loop widen g s ≡ sdbm widen h s % word32
unfolding hash_loop
hash_loop-sdbm widen [] g h e = e
hash_loop-sdbm widen (c ∷ s) g h e =
    hash_loop-sdbm widen s _ (65599 * h + widen c) (round (widen c) h g e)

-- str_hash is the sdbm hash modulo 2^32, for every conversion of a char. For two strings without a
-- zero before their end, str_equal is true exactly if they are the same, and they have the same hash
-- then.
pub str_hash-sdbm :
    (widen : ℕ → ℕ) (a b : Str)
    → IsStr a
    → IsStr b
    → (str_hash widen a ≡ sdbm widen 0 a % word32)
      × (str_equal a b ≡ true ↔ a ≡ b)
      × (str_equal a b ≡ true → str_hash widen a ≡ str_hash widen b)
unfolding str_hash
str_hash-sdbm widen a b i j = (
  hash_loop-sdbm widen a 0 0 refl,
  (str_equal-same a b i j, λ e. subst (λ x. str_equal a x ≡ true) e (str_equal_refl a)),
  λ e. ap (str_hash widen) (str_equal-same a b i j e),
)
