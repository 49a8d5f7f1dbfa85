-- ===== src/Pool/Owned.antt =====
-- Who owns the items of the pool: the caller, or the blocks of freed pointers.
use native.Mathlib.Nat.{mul-le-mul_left}
use datatypes.Base.{ℕ, ◌+◌, ◌*◌, ◌≤◌, ◌<◌, ◌⊎◌, inl, inr, List, [], ◌∷◌, ◌++◌, arith, length}
use datatypes.Callbacks.{Ptr}
use datatypes.Pool.{Block, PtrBlock, MemoryPool}
use datatypes.Pool.Apart.{Apart, All, AllApart}

-- the freed pointers, the one that is handed out next first
unfoldable pub stored : List PtrBlock → List Ptr
stored [] = []
stored (block ∷ blocks) = block ++ stored blocks

-- an item within a block of `cap` items
abbrev pub Inside : ℕ → ℕ → Ptr → List Block → Type 0
Inside size cap a [] = ⊥
Inside size cap a (b ∷ blocks) =
    ((b.items ≤ a) × (a + size ≤ b.items + size * cap)) ⊎ Inside size cap a blocks

-- an item outside the part of the current block that is left
abbrev pub Beyond : ℕ → ℕ → Ptr → List Block → Type 0
Beyond size cap a [] = ⊥
Beyond size cap a (b ∷ blocks) = (a + size ≤ b.items + size * b.offset) ⊎ (b.items + size * cap ≤ a)

abbrev pub IsPlaced : ℕ → ℕ → List Block → Ptr → Type 0
IsPlaced size cap blocks a = (0 < a) × Inside size cap a blocks × Beyond size cap a blocks

-- blocks of pointers are neither empty nor over their capacity
abbrev pub AreFilled : ℕ → List PtrBlock → Type 0
AreFilled cap [] = Unit
AreFilled cap (block ∷ blocks) = (0 < length block) × (length block ≤ cap) × AreFilled cap blocks

-- no block lies at NULL, and the current one is not overrun
abbrev pub AreBlocks : ℕ → List Block → Type 0
AreBlocks cap [] = ⊥
AreBlocks cap (b ∷ blocks) = (0 < b.items) × (b.offset ≤ cap)

-- what malloc promises of a new block: its memory overlaps no block of the pool
abbrev pub IsFresh : ℕ → ℕ → Ptr → List Block → Type 0
IsFresh size cap fresh [] = 0 < fresh
IsFresh size cap fresh (b ∷ blocks) =
    Apart fresh (size * cap) b.items (size * cap) × IsFresh size cap fresh blocks

-- A pool whose callers hold the `live` items: no two of them, or of the freed ones, overlap, and each
-- lies in a block.
pub record Owns (p : MemoryPool) (live : List Ptr) : Type 0 where
  pub apart : AllApart p.item_size (live ++ stored p.free_blocks)
  pub placed : All (IsPlaced p.item_size p.block_size p.blocks) (live ++ stored p.free_blocks)
  pub filled : AreFilled p.block_size p.free_blocks
  pub has_blocks : AreBlocks p.block_size p.blocks
  pub some_items : 0 < p.block_size

pub Fresh-positive :
    (size cap : ℕ) (fresh : Ptr) (blocks : List Block) → IsFresh size cap fresh blocks → 0 < fresh
Fresh-positive size cap fresh [] h = h
Fresh-positive size cap fresh (b ∷ blocks) h = Fresh-positive size cap fresh blocks h.1

pub Inside-Apart :
    (size cap : ℕ) (fresh a : Ptr) (blocks : List Block)
    → IsFresh size cap fresh blocks
    → Inside size cap a blocks
    → Apart fresh (size * cap) a size
Inside-Apart size cap fresh a [] h i = absurd i
Inside-Apart size cap fresh a (b ∷ blocks) h (inr i) = Inside-Apart size cap fresh a blocks h.1 i
Inside-Apart size cap fresh a (b ∷ blocks) h (inl (lower, upper)) = elim (h.0) [
  | inl e ↦ inl (omega arith)
  | inr e ↦ inr (omega arith)
]

-- the next item of the current block
module _ (size cap : ℕ) (b : Block) (blocks : List Block) (room : b.offset < cap) where
  abbrev pub next : Ptr
  next = b.items + size * b.offset

  abbrev pub used : List Block
  used = record b { offset = b.offset + 1 } ∷ blocks

  pub fits : size * b.offset + size ≤ size * cap
  fits = let less : b.offset + 1 ≤ cap = omega arith in omega (arith, mul-le-mul_left size less)

  pub next-IsPlaced : 0 < b.items → IsPlaced size cap used next
  next-IsPlaced some_base =
      (omega (arith, some_base), inl (omega arith, omega (arith, fits)), inl (omega arith))

  pub next-Apart : (a : Ptr) → IsPlaced size cap (b ∷ blocks) a → Apart next size a size
  next-Apart a (_, _, inl e) = inr (omega (arith, e))
  next-Apart a (_, _, inr e) = inl (omega (arith, e, fits))

  pub used-IsPlaced : (a : Ptr) → IsPlaced size cap (b ∷ blocks) a → IsPlaced size cap used a
  used-IsPlaced a (pos, inside, inl e) = (pos, inside, inl (omega (arith, e)))
  used-IsPlaced a (pos, inside, inr e) = (pos, inside, inr e)

-- the first item of a new block
module _ (size cap : ℕ) (fresh : Ptr) (blocks : List Block) (h : IsFresh size cap fresh blocks)
    (some_items : 0 < cap) where
  abbrev pub added : List Block
  added = record { items = fresh; offset = 1 } ∷ blocks

  pub one_fits : size ≤ size * cap
  one_fits = let less : 1 ≤ cap = omega arith in omega (arith, mul-le-mul_left size less)

  pub fresh-IsPlaced : IsPlaced size cap added fresh
  fresh-IsPlaced = (
    Fresh-positive size cap fresh blocks h,
    inl (omega arith, omega (arith, one_fits)),
    inl (omega arith),
  )

  pub fresh-Apart : (a : Ptr) → IsPlaced size cap blocks a → Apart fresh size a size
  fresh-Apart a (_, inside, _) = elim (Inside-Apart size cap fresh a blocks h inside) [
    | inl e ↦ inl (omega (arith, e, one_fits))
    | inr e ↦ inr e
  ]

  pub added-IsPlaced : (a : Ptr) → IsPlaced size cap blocks a → IsPlaced size cap added a
  added-IsPlaced a (pos, inside, _) = elim (Inside-Apart size cap fresh a blocks h inside) [
    | inl e ↦ (pos, inr inside, inr e)
    | inr e ↦ (pos, inr inside, inl (omega (arith, e)))
  ]
