-- ===== src/Pool/Examples.antt =====
-- Runs of the memory pool, and its theorems at a concrete pool.
use datatypes.Base.{◌≡◌, refl, inl, inr, List, [], ◌∷◌, arith, Run, ok, ◌>>=◌, Returns}
use datatypes.Callbacks.{Ptr}
use datatypes.Pool.{
  MemoryPool, new, alloc, free, try_get_detached_item, try_get_current_item,
  get_item_from_new_block,
}
use datatypes.Pool.Owned.{Owns, stored}
use datatypes.Pool.Alloc.{Hands, alloc-Hands}
use datatypes.Pool.Free.{free-Owns}

program : Unit {0}
unfolding new alloc free try_get_detached_item try_get_current_item get_item_from_new_block
program = tt

-- blocks of two items, which the session fills before it frees and takes again
session : Run (MemoryPool × List Ptr)
session = do
  (p, a) ← alloc 2000 (new 1000 16 2)
  (p, b) ← alloc 2000 p
  (p, c) ← alloc 2000 p
  p ← free p a
  p ← free p b
  p ← free p c
  (p, d) ← alloc 3000 p
  ok (p, a ∷ b ∷ c ∷ d ∷ [])

session_run :
    session
    ≡ ok (
      record {
        blocks = record { items = 2000; offset = 1 } ∷ record { items = 1000; offset = 2 } ∷ [];
        free_blocks = (1016 ∷ 1000 ∷ []) ∷ [];
        block_size = 2;
        item_size = 16;
      },
      1000 ∷ 1016 ∷ 2000 ∷ 2000 ∷ [],
    )
unfolding session program
session_run = refl

-- the caller holds the second item, the first one is freed
abbrev sample : MemoryPool
sample = record {
  blocks = record { items = 1000; offset = 2 } ∷ [];
  free_blocks = (1000 ∷ []) ∷ [];
  block_size = 4;
  item_size = 16;
}

sample-Owns : Owns sample (1016 ∷ [])
unfolding stored
sample-Owns = record {
  apart = ((inr (omega arith), tt), (tt, tt));
  placed = (
    (omega arith, inl (omega arith, omega arith), inl (omega arith)),
    ((omega arith, inl (omega arith, omega arith), inl (omega arith)), tt),
  );
  filled = (omega arith, omega arith, tt);
  has_blocks = (omega arith, omega arith);
  some_items = omega arith;
}

alloc-Hands_example : Returns (alloc 5000 sample) (Hands sample (1016 ∷ []))
alloc-Hands_example =
    alloc-Hands sample (1016 ∷ []) 5000 sample-Owns (inr (omega arith), omega arith)

free-Owns_example :
    Returns (free sample 1016) λ p. Owns p [] × ((fresh : Ptr) → alloc fresh p ≡ ok (sample, 1016))
free-Owns_example = free-Owns sample [] 1016 [] sample-Owns
