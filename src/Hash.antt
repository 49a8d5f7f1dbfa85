-- ===== src/Hash.antt =====
-- The functions that a user may hand to a container: compare.c and hash.c. A string is the list of its
-- characters before the terminating zero.
pub mod Digest
pub mod Examples
use datatypes.Base.{
  ℕ, zero, suc, ◌+◌, ◌-◌, ◌*◌, ◌/◌, ◌%◌, ◌^◌, ◌≤◌, ◌<◌, compare, Ordering, ◌≡◌, refl, sym, ap, ap₂,
  ◌∙◌, ◌≢◌, ◌↔◌, ◌⊎◌, inl, inr, Bool, true, false, not, ◌&&◌, ◌||◌, Option, none, some, List, [],
  ◌∷◌, ◌++◌, append-nil, append_assoc, arith, ltb, leb, ◌==◌, if◌then◌else◌, Bool-cases,
  Option-cases, word, word32, ssize_max, sub64, Run, ok, fault, aborted, out_of_fuel, ◌>>=◌,
  Returns, Returns-both, length, get_elem?, take, drop, tabulate, overwrite, length-append,
  length-take, length-drop, length-tabulate, take-append-drop, take-append, drop-append, take-take,
  take-append_of_le, length-overwrite, take-drop, drop-append_cons, take_all, get_elem?-lt,
  get_elem?-take, drop-get_elem?, get_elem?-none, drop_all,
}
use datatypes.Callbacks.{Ptr, CompareFunc}

abbrev pub Str : Type 0
Str = List ℕ

-- *s
abbrev pub char_at : Str → ℕ
char_at [] = 0
char_at (c ∷ s) = c

unfoldable pub str_equal : Str → Str → Bool
str_equal [] s1 = char_at [] == char_at s1
str_equal (a ∷ s0) [] = char_at (a ∷ s0) == char_at []
str_equal (a ∷ s0) (b ∷ s1) = let rest = str_equal s0 s1 in if not (a == b) then false else rest

-- the sign of the difference of two tests
unfoldable pub direct_compare : CompareFunc
direct_compare a b = compare (if ltb b a then 1 else 0) (if ltb a b then 1 else 0)

unfoldable pub direct_equal : Ptr → Ptr → Bool
direct_equal a b = a == b

-- a shift of a uint32_t
abbrev pub shift_left : ℕ → ℕ → ℕ
shift_left h n = h * 2 ^ n % word32

-- The conversion of a char to uint32_t depends on the compiler, which says if a char has a sign.
module _ (widen : ℕ → ℕ) where
  -- the loop of str_hash
  unfoldable pub hash_loop : ℕ → Str → ℕ
  hash_loop hash [] = hash
  hash_loop hash (c ∷ plain) =
      hash_loop ((widen c + shift_left hash 6 + shift_left hash 16 + (word32 - hash)) % word32)
        plain

  unfoldable pub str_hash : Str → ℕ
  unfolding hash_loop
  str_hash plain = hash_loop 0 plain

unfoldable pub direct_hash : Ptr → ℕ
direct_hash v = if ltb (word32 - 1) v then word32 - 1 else v
