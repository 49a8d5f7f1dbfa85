-- ===== src/Hash/Examples.antt =====
-- Runs of the functions of compare.c and hash.c.
use datatypes.Base.{ℕ, ◌%◌, ◌≡◌, refl, ◌↔◌, true, [], ◌∷◌, arith, word32}
use datatypes.Hash.{Str, str_equal, hash_loop, str_hash, direct_hash, direct_equal}
use datatypes.Hash.Digest.{sdbm, str_hash-sdbm}

-- a char without a sign
abbrev unsigned : ℕ → ℕ
unsigned c = c

-- ab and ac
abbrev first : Str
first = 97 ∷ 98 ∷ []

abbrev second : Str
second = 97 ∷ 99 ∷ []

hash_run : str_hash unsigned (97 ∷ 98 ∷ 99 ∷ []) ≡ 807794786
unfolding str_hash hash_loop
hash_run = refl

direct_run : (direct_hash 5000000000 ≡ 4294967295) × (direct_equal 4 4 ≡ true)
unfolding direct_hash direct_equal
direct_run = (refl, refl)

str_hash-sdbm_example :
    (str_hash unsigned first ≡ sdbm unsigned 0 first % word32)
    × (str_equal first second ≡ true ↔ first ≡ second)
    × (str_equal first second ≡ true → str_hash unsigned first ≡ str_hash unsigned second)
str_hash-sdbm_example =
    str_hash-sdbm unsigned first second (omega arith, (omega arith, tt))
      (omega arith, (omega arith, tt))
