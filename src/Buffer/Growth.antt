-- ===== src/Buffer/Growth.antt =====
-- _buffer_new_realloc_size.
use native.Mathlib.Nat.{pow-suc, mul_assoc, mul_comm}
use datatypes.Base.{
  ℕ, zero, suc, ◌*◌, ◌%◌, ◌^◌, ◌≤◌, ◌<◌, ◌≡◌, refl, sym, ◌∙◌, inl, inr, Bool-cases, arith, Returns,
  ltb, word,
}
use datatypes.Buffer.{size_loop, new_realloc_size}

abbrev Large : ℕ → ℕ → Type 0
Large to r = (to ≤ r) × (r < word)

-- a size that has reached its target ends the loop
size_loop_done :
    (fuel from to : ℕ) → to < word → Returns (size_loop (suc fuel) from to to) (Large to)
unfolding size_loop
size_loop_done fuel from to h = (to, ground arith, (omega arith, h))

double_pow : (product fuel : ℕ) → product * 2 ^ suc fuel ≡ product * 2 * 2 ^ fuel
double_pow product fuel = simp (pow-suc, mul_assoc) (ground (arith, mul_comm 2 (2 ^ fuel)))

-- The size is the wrapped product, which the 64th doubling makes 0.
size_loop-Large :
    (fuel from to size product : ℕ)
    → 0 < from
    → to < word
    → from ≤ size
    → size ≡ product % word
    → product * 2 ^ fuel ≡ from * 2 ^ 66
    → Returns (size_loop fuel from to size) (Large to)
unfolding size_loop
size_loop-Large zero from to size product pos fits above wrapped steps = absurd (omega arith)
size_loop-Large (suc zero) from to size product pos fits above wrapped steps = absurd (omega arith)
size_loop-Large (suc (suc fuel)) from to size product pos fits above wrapped steps =
    elim (Bool-cases (ltb size to)) [
      | inr reached ↦ (size, ground arith, (ground arith, omega arith))
      | inl short ↦ rw short (elim (Bool-cases (ltb (size * 2 % word) from)) [
        | inl wrap ↦ rw wrap (size_loop_done fuel from to fits)
        | inr fine ↦ rw fine (
            size_loop-Large (suc fuel) from to (size * 2 % word) (product * 2) pos fits
              (ground arith) (omega arith) (sym (double_pow product (suc fuel)) ∙ steps))
      ])
    ]

-- From a positive size and to a larger target that fits a size_t, the loop of
-- _buffer_new_realloc_size ends within its fuel, although the doubling may wrap around. The new size
-- holds the target and fits a size_t.
pub new_realloc_size-Large :
    (from to : ℕ)
    → 0 < from
    → from < to
    → to < word
    → Returns (new_realloc_size from to) (λ r. (to ≤ r) × (r < word))
unfolding new_realloc_size
new_realloc_size-Large from to pos short fits =
    size_loop-Large 66 from to from from pos fits (omega arith) (omega arith) refl
