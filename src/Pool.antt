-- ===== src/Pool.antt =====
-- The memory pool: pool.h and pool.c. The list of blocks starts with the current one. The address of
-- a new block is the argument `fresh`, which malloc gives.
pub mod Apart
pub mod Owned
pub mod Alloc
pub mod Free
pub mod Examples
use datatypes.Base.{
  ℕ, zero, suc, ◌+◌, ◌-◌, ◌*◌, ◌/◌, ◌%◌, ◌^◌, ◌≤◌, ◌<◌, compare, Ordering, ◌≡◌, refl, sym, ap, ap₂,
  ◌∙◌, ◌≢◌, ◌↔◌, ◌⊎◌, inl, inr, Bool, true, false, not, ◌&&◌, ◌||◌, Option, none, some, List, [],
  ◌∷◌, ◌++◌, append-nil, append_assoc, arith, ltb, leb, ◌==◌, if◌then◌else◌, Bool-cases,
  Option-cases, word, word32, ssize_max, sub64, Run, ok, fault, aborted, out_of_fuel, ◌>>=◌,
  Returns, Returns-both, length, get_elem?, take, drop, tabulate, overwrite, length-append,
  length-take, length-drop, length-tabulate, take-append-drop, take-append, drop-append, take-take,
  take-append_of_le, length-overwrite, take-drop, drop-append_cons, take_all, get_elem?-lt,
  get_elem?-take, drop-get_elem?, get_elem?-none, drop_all,
}
use datatypes.Callbacks.{Ptr, null}

-- struct _MemoryBlock
pub record Block : Type 0 where
  pub items : Ptr
  pub offset : ℕ

-- struct _MemoryPtrBlock: the pointers below the offset, the last one first
abbrev pub PtrBlock : Type 0
PtrBlock = List Ptr

pub record MemoryPool : Type 0 where
  pub blocks : List Block
  pub free_blocks : List PtrBlock
  pub block_size : ℕ
  pub item_size : ℕ

abbrev pub create_block : Ptr → Block
create_block fresh = record { items = fresh; offset = 0 }

-- memory_pool_new
unfoldable pub new : Ptr → ℕ → ℕ → MemoryPool
new fresh item_size block_size = record {
  blocks = create_block fresh ∷ [];
  free_blocks = [];
  block_size = block_size;
  item_size = item_size;
}

-- _memory_pool_try_get_detached_item; an empty block of pointers is read before its start
unfoldable pub try_get_detached_item : MemoryPool → Run (MemoryPool × Ptr)
try_get_detached_item p = elim p.free_blocks [
  | [] ↦ ok (p, null)
  | block ∷ rest ↦ elim block [
    | [] ↦ fault
    | item ∷ items ↦ elim items [
      | [] ↦ ok (record p { free_blocks = rest }, item)
      | next ∷ more ↦ ok (record p { free_blocks = (next ∷ more) ∷ rest }, item)
    ]
  ]
]

unfoldable pub try_get_current_item : MemoryPool → Run (MemoryPool × Ptr)
try_get_current_item p = elim p.blocks [
  | [] ↦ fault
  | b ∷ rest ↦
      if ltb b.offset p.block_size
      then ok (
        record p { blocks = record b { offset = b.offset + 1 } ∷ rest },
        b.items + p.item_size * b.offset,
      )
      else ok (p, null)
]

unfoldable pub get_item_from_new_block : Ptr → MemoryPool → MemoryPool × Ptr
get_item_from_new_block fresh p =
    (record p { blocks = record (create_block fresh) { offset = 1 } ∷ p.blocks }, fresh)

-- _memory_pool_alloc
unfoldable pub alloc : Ptr → MemoryPool → Run (MemoryPool × Ptr)
unfolding try_get_detached_item try_get_current_item get_item_from_new_block
alloc fresh p = do
  (p, item) ← try_get_detached_item p
  (p, item) ← (if item == null then try_get_current_item p else ok (p, item))
  ok (if item == null then get_item_from_new_block fresh p else (p, item))

-- The store into a block of pointers; one past its end is a fault.
abbrev pub store_ptr : ℕ → Ptr → PtrBlock → Run PtrBlock
store_ptr block_size item items = if ltb (length items) block_size then ok (item ∷ items) else fault

-- _memory_pool_free
unfoldable pub free : MemoryPool → Ptr → Run MemoryPool
free p item = do
  let (cur, rest) = elim p.free_blocks as (λ _. PtrBlock × List PtrBlock) [
    | [] ↦ ([], [])
    | block ∷ blocks ↦
        if length block == p.block_size then ([], block ∷ blocks) else (block, blocks)
  ]
  cur ← store_ptr p.block_size item cur
  ok (record p { free_blocks = cur ∷ rest })
