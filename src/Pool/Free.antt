-- ===== src/Pool/Free.antt =====
-- _memory_pool_free against the owners of the items.
use datatypes.Base.{
  subst, ℕ, ◌<◌, ◌≡◌, refl, sym, inl, inr, true, List, [], ◌∷◌, ◌++◌, append_assoc, arith, ltb,
  ◌==◌, Bool-cases, ok, Returns, length,
}
use datatypes.Callbacks.{Ptr}
use datatypes.Pool.{
  Block, PtrBlock, MemoryPool, alloc, free, try_get_detached_item, try_get_current_item,
  get_item_from_new_block,
}
use datatypes.Pool.Apart.{All, All-append, All-parts, AllApart, AllApart-front, AllApart-back}
use datatypes.Pool.Owned.{stored, IsPlaced, AreFilled, Owns}
use datatypes.Pool.Alloc.{pool_of, not_null}

-- an item goes from a caller to the freed items
given :
    (p : MemoryPool) (front : List Ptr) (item : Ptr) (back : List Ptr) (blocks : List PtrBlock)
    → Owns p (front ++ item ∷ back)
    → stored blocks ≡ item ∷ stored p.free_blocks
    → AreFilled p.block_size blocks
    → Owns (record p { free_blocks = blocks }) (front ++ back)
given p front item back blocks o e filled =
    let P = IsPlaced p.item_size p.block_size p.blocks in
    let S = stored p.free_blocks in
    let old : (front ++ item ∷ back) ++ S ≡ front ++ item ∷ (back ++ S) =
      append_assoc front (item ∷ back) S in
    let out =
      AllApart-front p.item_size front item (back ++ S)
        (subst (λ xs. AllApart p.item_size xs) old o.apart) in
    let out' =
      subst (λ xs. AllApart p.item_size (item ∷ xs)) (sym (append_assoc front back S)) out in
    let (held, stock) = All-parts P (front ++ item ∷ back) S o.placed in
    let (l, r) = All-parts P front (item ∷ back) held in
    record {
      apart =
          subst (λ xs. AllApart p.item_size ((front ++ back) ++ xs)) (sym e)
            (AllApart-back p.item_size (front ++ back) item S out');
      placed =
          subst (λ xs. All P ((front ++ back) ++ xs)) (sym e)
            (All-append P (front ++ back) (item ∷ S) (All-append P front back l r.1) (r.0, stock));
      filled = filled;
      has_blocks = o.has_blocks;
      some_items = o.some_items;
    }

-- where a freed pointer is stored
abbrev Stores : MemoryPool → Ptr → MemoryPool → Type 0
Stores p item p' =
    (frees : List PtrBlock) × (p' ≡ record p { free_blocks = frees })
    × (stored frees ≡ item ∷ stored p.free_blocks)
    × AreFilled p.block_size frees
    × ((fresh : Ptr) → 0 < item → alloc fresh p' ≡ ok (p, item))

free-Stores :
    (size many : ℕ) (blocks : List Block) (frees : List PtrBlock) (item : Ptr)
    → 0 < many
    → AreFilled many frees
    → let p = pool_of blocks frees many size in Returns (free p item) (Stores p item)
unfolding free stored alloc try_get_detached_item try_get_current_item get_item_from_new_block
free-Stores size many blocks [] item some_items filled =
    let enough : ltb 0 many ≡ true = ground (arith, some_items) in
    let frees = (item ∷ []) ∷ [] in
    (
      pool_of blocks frees many size,
      rw enough,
      (
        frees,
        refl,
        refl,
        (omega arith, omega (arith, some_items), tt),
        λ fresh pos. rw (not_null item pos) (rw (not_null item pos)),
      ),
    )
free-Stores size many blocks ([] ∷ rest) item some_items filled = absurd (omega (arith, filled.0))
free-Stores size many blocks ((x ∷ xs) ∷ rest) item some_items filled =
    elim (Bool-cases (length (x ∷ xs) == many)) [
      | inl full ↦
          let enough : ltb 0 many ≡ true = ground (arith, some_items) in
          let frees = (item ∷ []) ∷ (x ∷ xs) ∷ rest in
          (
            pool_of blocks frees many size,
            rw (full, enough),
            (
              frees,
              refl,
              refl,
              (omega arith, omega (arith, some_items), filled),
              λ fresh pos. rw (not_null item pos) (rw (not_null item pos)),
            ),
          )
      | inr roomy ↦
          let less : length (x ∷ xs) < many = ground (arith, roomy, filled.1) in
          let enough : ltb (length (x ∷ xs)) many ≡ true = ground (arith, less) in
          let frees = (item ∷ x ∷ xs) ∷ rest in
          (
            pool_of blocks frees many size,
            rw (roomy, enough),
            (
              frees,
              refl,
              refl,
              (omega arith, omega (arith, less), filled.2),
              λ fresh pos. rw (not_null item pos) (rw (not_null item pos)),
            ),
          )
    ]

-- On a pool in which no two items overlap, _memory_pool_free of an item that a caller holds takes it
-- back: the other items are still with their
-- callers, and no two items overlap. The store stays in its block of pointers. The next
-- _memory_pool_alloc hands the same item out again, and leaves the pool as it was before the two.
pub free-Owns :
    (p : MemoryPool) (front : List Ptr) (item : Ptr) (back : List Ptr)
    → Owns p (front ++ item ∷ back)
    → Returns
        (free p item)
        λ p'. Owns p' (front ++ back) × ((fresh : Ptr) → alloc fresh p' ≡ ok (p, item))
free-Owns p front item back o =
    let P = IsPlaced p.item_size p.block_size p.blocks in
    let (held, _) = All-parts P (front ++ item ∷ back) (stored p.free_blocks) o.placed in
    let (_, here) = All-parts P front (item ∷ back) held in
    let (p', run, (frees, same, e, filled, next)) =
      free-Stores p.item_size p.block_size p.blocks p.free_blocks item o.some_items o.filled in
    (
      p',
      run,
      (
        subst (λ q. Owns q (front ++ back)) (sym same) (given p front item back frees o e filled),
        λ fresh. next fresh here.0.0,
      ),
    )
