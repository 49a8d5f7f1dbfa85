-- ===== src/Pool/Alloc.antt =====
-- _memory_pool_alloc and memory_pool_new against the owners of the items.
use datatypes.Base.{
  subst, ℕ, ◌+◌, ◌*◌, ◌<◌, ◌≡◌, refl, inl, inr, false, List, [], ◌∷◌, ◌++◌, arith, ltb, ◌==◌,
  Bool-cases, Returns,
}
use datatypes.Callbacks.{Ptr, null}
use datatypes.Pool.{
  Block, PtrBlock, MemoryPool, new, alloc, try_get_detached_item, try_get_current_item,
  get_item_from_new_block,
}
use datatypes.Pool.Apart.{
  Apart, All, All-append, All-parts, All-map, IsApart, AllApart, AllApart-front,
}
use datatypes.Pool.Owned.{
  stored, IsPlaced, AreFilled, IsFresh, Owns, next-IsPlaced, next-Apart, used-IsPlaced,
  fresh-IsPlaced, fresh-Apart, added-IsPlaced,
}

-- A new pool has no items at its callers.
pub new-Owns :
    (fresh item_size block_size : ℕ)
    → 0 < fresh
    → 0 < block_size
    → Owns (new fresh item_size block_size) []
unfolding new stored
new-Owns fresh item_size block_size some_base some_items = record {
  apart = tt;
  placed = tt;
  filled = tt;
  has_blocks = (some_base, omega arith);
  some_items = some_items;
}

-- what alloc leaves: the item belongs to the caller
abbrev pub Hands : MemoryPool → List Ptr → MemoryPool × Ptr → Type 0
Hands p live (p', item) =
    Owns p' (item ∷ live)
    × (0 < item)
    × IsApart p.item_size item live
    × (p'.item_size ≡ p.item_size)
    × (p'.block_size ≡ p.block_size)

pub not_null : (a : Ptr) → 0 < a → (a == null) ≡ false
not_null a e = ground arith

abbrev pub pool_of : List Block → List PtrBlock → ℕ → ℕ → MemoryPool
pool_of blocks free_blocks block_size item_size = record {
  blocks = blocks;
  free_blocks = free_blocks;
  block_size = block_size;
  item_size = item_size;
}

alloc_current :
    (size many : ℕ) (b : Block) (blocks : List Block) (fresh : Ptr) (live : List Ptr)
    → let p = pool_of (b ∷ blocks) [] many size in
      Owns p live → IsFresh size many fresh (b ∷ blocks) → Returns (alloc fresh p) (Hands p live)
unfolding alloc try_get_detached_item try_get_current_item get_item_from_new_block stored
alloc_current size many b blocks fresh live o free_memory =
    let items = live ++ [] in
    elim (Bool-cases (ltb b.offset many)) [
      | inl e ↦
          let room : b.offset < many = ground (arith, e) in
          let here = next-IsPlaced size many b blocks room o.has_blocks.0 in
          let apart =
            All-map (IsPlaced size many (b ∷ blocks))
              (λ a. Apart (b.items + size * b.offset) size a size)
              (next-Apart size many b blocks room) items o.placed in
          let kept =
            All-map (IsPlaced size many (b ∷ blocks)) _ (used-IsPlaced size many b blocks room)
              items o.placed in
          (
            (
              pool_of (record b { offset = b.offset + 1 } ∷ blocks) [] many size,
              b.items + size * b.offset,
            ),
            rw (e, not_null (b.items + size * b.offset) here.0),
            (
              record {
                apart = (apart, o.apart);
                placed = (here, kept);
                filled = tt;
                has_blocks = (o.has_blocks.0, omega (arith, room));
                some_items = o.some_items;
              },
              here.0,
              (All-parts (λ a. Apart (b.items + size * b.offset) size a size) live [] apart).0,
              refl,
              refl,
            ),
          )
      | inr e ↦
          let here = fresh-IsPlaced size many fresh (b ∷ blocks) free_memory o.some_items in
          let apart =
            All-map (IsPlaced size many (b ∷ blocks)) (λ a. Apart fresh size a size)
              (fresh-Apart size many fresh (b ∷ blocks) free_memory o.some_items) items o.placed in
          let kept =
            All-map (IsPlaced size many (b ∷ blocks)) _
              (added-IsPlaced size many fresh (b ∷ blocks) free_memory o.some_items) items
              o.placed in
          (
            (pool_of (record { items = fresh; offset = 1 } ∷ b ∷ blocks) [] many size, fresh),
            rw e,
            (
              record {
                apart = (apart, o.apart);
                placed = (here, kept);
                filled = tt;
                has_blocks = (here.0, omega (arith, o.some_items));
                some_items = o.some_items;
              },
              here.0,
              (All-parts (λ a. Apart fresh size a size) live [] apart).0,
              refl,
              refl,
            ),
          )
    ]

-- the first of the freed items goes to the caller
taken :
    (p : MemoryPool) (live : List Ptr) (item : Ptr) (blocks : List PtrBlock)
    → Owns p live
    → stored p.free_blocks ≡ item ∷ stored blocks
    → AreFilled p.block_size blocks
    → Hands p live (record p { free_blocks = blocks }, item)
taken p live item blocks o e filled =
    let P = IsPlaced p.item_size p.block_size p.blocks in
    let apart =
      AllApart-front p.item_size live item (stored blocks)
        (subst (λ xs. AllApart p.item_size (live ++ xs)) e o.apart) in
    let (l, r) =
      All-parts P live (item ∷ stored blocks) (subst (λ xs. All P (live ++ xs)) e o.placed) in
    (
      record {
        apart = apart;
        placed = (r.0, All-append P live (stored blocks) l r.1);
        filled = filled;
        has_blocks = o.has_blocks;
        some_items = o.some_items;
      },
      r.0.0,
      (All-parts (λ a. Apart item p.item_size a p.item_size) live (stored blocks) apart.0).0,
      refl,
      refl,
    )

alloc_by :
    (size many : ℕ) (blocks : List Block) (frees : List PtrBlock) (fresh : Ptr) (live : List Ptr)
    → let p = pool_of blocks frees many size in
      Owns p live → IsFresh size many fresh blocks → Returns (alloc fresh p) (Hands p live)
unfolding alloc try_get_detached_item try_get_current_item get_item_from_new_block stored
alloc_by size many [] [] fresh live o free_memory = absurd o.has_blocks
alloc_by size many (b ∷ blocks) [] fresh live o free_memory =
    alloc_current size many b blocks fresh live o free_memory
alloc_by size many blocks ([] ∷ rest) fresh live o free_memory = absurd (omega (arith, o.filled.0))
alloc_by size many blocks ((item ∷ []) ∷ rest) fresh live o free_memory =
    let w =
      taken (pool_of blocks ((item ∷ []) ∷ rest) many size) live item rest o refl o.filled.2 in
    ((pool_of blocks rest many size, item), rw (not_null item w.1) (rw (not_null item w.1)), w)
alloc_by size many blocks ((item ∷ a ∷ more) ∷ rest) fresh live o free_memory =
    let frees = (a ∷ more) ∷ rest in
    let fill : AreFilled many frees = (omega arith, omega (arith, o.filled.1), o.filled.2) in
    let w =
      taken (pool_of blocks ((item ∷ a ∷ more) ∷ rest) many size) live item frees o refl fill in
    ((pool_of blocks frees many size, item), rw (not_null item w.1) (rw (not_null item w.1)), w)

-- On a pool in which no two items overlap, and with an address that malloc may give a new block, which
-- overlaps no block of the pool, _memory_pool_alloc hands out an item that is not NULL, lies in a block
-- of the pool and overlaps no item that a caller holds or that has been freed.
pub alloc-Hands :
    (p : MemoryPool) (live : List Ptr) (fresh : Ptr)
    → Owns p live
    → IsFresh p.item_size p.block_size fresh p.blocks
    → Returns (alloc fresh p) (Hands p live)
alloc-Hands p live fresh o free_memory =
    alloc_by p.item_size p.block_size p.blocks p.free_blocks fresh live o free_memory
