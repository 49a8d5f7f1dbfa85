-- ===== src/Commands.antt =====
-- Commands that read and change a state: how the code on an explicit heap is put together.
use datatypes.Base.{Run, ok, fault, out_of_fuel}

abbrev pub Command : Type 0 → Type 0 → Type 0
Command S A = S → Run (A × S)

abbrev pub pure : {S A : Type 0} → A → Command S A
pure a st = ok (a, st)

-- what follows a run
abbrev pub and_then : {S A B : Type 0} → Run (A × S) → (A → Command S B) → Run (B × S)
and_then (ok (a, st)) f = f a st
and_then Run.fault f = fault
and_then Run.aborted f = Run.aborted
and_then Run.out_of_fuel f = out_of_fuel

infixl 5 ◌>>=◌ ◌>>◌
abbrev pub ◌>>=◌ : {S A B : Type 0} → Command S A → (A → Command S B) → Command S B
◌>>=◌ m f st = and_then (m st) f

abbrev pub ◌>>◌ : {S B : Type 0} → Command S (Unit {0}) → Command S B → Command S B
m >> n = m >>= λ _. n
