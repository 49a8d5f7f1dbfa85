-- ===== src/Base/Runs.antt =====
-- What a C function does: it returns, faults, or ends the process.
use mathlib.Core.Path.{◌≡◌, ap, sym, subst, ◌∙◌}

-- `fault` is undefined behaviour, such as a read out of bounds or through NULL; `aborted` is
-- abort(); `out_of_fuel` is a loop of the model that used up its rounds.
pub data Run {ℓ} (A : Type ℓ) : Type ℓ where
  ok : A → Run A
  fault : Run A
  aborted : Run A
  out_of_fuel : Run A

infixl 5 ◌>>=◌
abbrev pub ◌>>=◌ {ℓ ℓ'} : {V : Type ℓ} {W : Type ℓ'} → Run V → (V → Run W) → Run W
fault >>= next = fault
aborted >>= next = aborted
out_of_fuel >>= next = out_of_fuel
ok v >>= next = next v

-- The run ends normally, in a value with the property.
abbrev pub Returns {ℓ ℓ'} : {V : Type ℓ} → Run V → (V → Type ℓ') → Type (ℓ ⊔ ℓ')
Returns {V} run Post = (v : V) × (run ≡ ok v) × Post v

abbrev run_value {ℓ} : {V : Type ℓ} → V → Run V → V
run_value v (ok w) = w
run_value v fault = v
run_value v aborted = v
run_value v out_of_fuel = v

-- two properties of the same run
pub Returns-both {ℓ ℓ' ℓ''} :
    {V : Type ℓ} {run : Run V} {P : V → Type ℓ'} {Q : V → Type ℓ''}
    → Returns run P
    → Returns run Q
    → Returns run (λ v. P v × Q v)
Returns-both {Q} (v, e, p) (w, f, q) = (v, e, (p, subst Q (ap (run_value v) (sym f ∙ e)) q))
