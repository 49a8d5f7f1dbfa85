-- ===== src/RbTree/Iteration.antt =====
-- The iterator of the tree visits every entry once.
use datatypes.Base.{
  subst, ℕ, zero, suc, ◌+◌, ◌*◌, ◌≤◌, ◌≡◌, refl, ◌∙◌, Bool, true, false, some, List, [], ◌∷◌, ◌++◌,
  append_assoc, arith, ltb, ◌==◌, Run, ◌>>=◌, Returns, length, length-append,
}
use datatypes.Callbacks.{Ptr}
use datatypes.AssocArray.Table.{Entries}
use datatypes.RbTree.{Node, leaf, node, is_null, if_null}
use datatypes.RbTree.Iter.{Item, item, push_item, advance, settle, next_loop}

-- a node first, then what is to its left, then what is to its right
unfoldable pub preorder : Node → Entries
preorder leaf = []
preorder (node k v b l r) = (k, v) ∷ (preorder l ++ preorder r)

-- what is left to visit below an item, its node apart
abbrev pub later_of : Node → ℕ → Entries
later_of leaf s = []
later_of (node k v b l r) zero = preorder l ++ preorder r
later_of (node k v b l r) (suc zero) = preorder r
later_of (node k v b l r) (suc (suc s)) = []

unfoldable pub later : List Item → Entries
later [] = []
later (i ∷ items) = later_of i.node i.state ++ later items

-- the rounds that an item costs at most
abbrev pub rounds_of : Node → ℕ → ℕ
rounds_of leaf s = 0
rounds_of (node k v b l r) zero = 3 + 3 * length (preorder l) + 3 * length (preorder r)
rounds_of (node k v b l r) (suc zero) = 2 + 3 * length (preorder r)
rounds_of (node k v b l r) (suc (suc s)) = 1

unfoldable pub rounds : List Item → ℕ
rounds [] = 0
rounds (i ∷ items) = rounds_of i.node i.state + rounds items

-- Every item is a node in a state, from `low` on for the top one and entered for the others, with
-- room above it for every node below it and a NULL.
abbrev pub IsStack : ℕ → ℕ → List Item → Type 0
IsStack cells low [] = Unit
IsStack cells low (i ∷ items) =
    (is_null i.node ≡ false)
    × (low ≤ i.state)
    × (i.state ≤ 2)
    × (length items + 1 + length (preorder i.node) ≤ cells)
    × IsStack cells 1 items

-- The result of the loop, where `es` is what is left to visit: the next node, or the end.
abbrev pub Moves : ℕ → Entries → ℕ → List Item × Bool → Type 0
Moves cells es most (items', false) = (items' ≡ []) × (es ≡ [])
Moves cells es most (items', true) =
    (k : Ptr) × (v : Ptr) × (b : Bool) × (l : Node) × (r : Node) × (items : List Item) × (items'
      ≡ item (node k v b l r) 0 ∷ items)
    × (es ≡ (k, v) ∷ later items')
    × IsStack cells 0 items'
    × (rounds items' ≤ most)

Moves-most :
    (cells : ℕ) (es : Entries) (m n : ℕ) (res : List Item × Bool)
    → m ≤ n
    → Moves cells es m res
    → Moves cells es n res
Moves-most cells es m n (items, false) less w = w
Moves-most cells es m n (items, true) less (k, v, b, l, r, rest, top, first, stack, most) =
    (k, v, b, l, r, rest, top, first, stack, omega (arith, less, most))

-- a child is pushed, and is the next node if it is not NULL
child_pushed :
    (fuel cells : ℕ) (n : Node) (js : List Item) (most : ℕ)
    → length js + 1 + length (preorder n) ≤ cells
    → IsStack cells 1 js
    → 3 * length (preorder n) + rounds js ≤ most
    → Returns (next_loop fuel (some cells) js) (Moves cells (later js) (rounds js))
    → Returns
        (push_item (some cells) js n >>= settle (next_loop fuel (some cells)))
        (Moves cells (preorder n ++ later js) most)
unfolding push_item settle preorder later rounds
child_pushed fuel cells leaf js most room stack less (res, run, w) =
    let enough : ltb (length js) cells ≡ true = ground (arith, room) in
    (res, rw enough run, Moves-most cells (later js) (rounds js) most res (omega (arith, less)) w)
child_pushed fuel cells (node k v b l r) js most room stack less again =
    let enough : ltb (length js) cells ≡ true = ground (arith, room) in
    let both = length-append (preorder l) (preorder r) in
    (
      (item (node k v b l r) 0 ∷ js, true),
      rw enough,
      (
        k,
        v,
        b,
        l,
        r,
        js,
        refl,
        refl,
        (refl, omega arith, omega arith, room, stack),
        omega (arith, less, both),
      ),
    )

if_null_not : (n : Node) (x y : Run (List Item × Bool)) → is_null n ≡ false → if_null n x y ≡ y
if_null_not leaf x y e = cc
if_null_not (node k v b l r) x y e = refl

-- the loop, with rounds enough
pub next_loop-Moves :
    (fuel cells : ℕ) (n : Node) (s : ℕ) (items : List Item)
    → IsStack cells 0 (item n s ∷ items)
    → rounds (item n s ∷ items) ≤ fuel
    → Returns
        (next_loop fuel (some cells) (item n s ∷ items))
        (Moves cells (later (item n s ∷ items)) (rounds (item n s ∷ items)))
unfolding next_loop advance settle preorder later rounds
next_loop-Moves fuel cells leaf s items (some_node, low, high, room, stack) less = cc
next_loop-Moves fuel cells (node k v b l r) (suc (suc (suc s))) items
      (some_node, low, high, room, stack) less =
    absurd (omega (arith, high))
next_loop-Moves zero cells (node k v b l r) zero items stack less = absurd (omega (arith, less))
next_loop-Moves zero cells (node k v b l r) (suc zero) items stack less =
    absurd (omega (arith, less))
next_loop-Moves zero cells (node k v b l r) (suc (suc zero)) items stack less =
    absurd (omega (arith, less))
next_loop-Moves (suc fuel) cells (node k v b l r) zero items (_, _, _, room, stack) less =
    let n = node k v b l r in
    let both = length-append (preorder l) (preorder r) in
    let js = item n 1 ∷ items in
    let below : IsStack cells 1 js = (refl, omega arith, omega arith, room, stack) in
    let (res, run, w) =
      child_pushed fuel cells l js (rounds (item n 0 ∷ items)) (omega (arith, room, both)) below
        (omega (arith, both))
        (next_loop-Moves fuel cells n 1 items (refl, omega arith, omega arith, room, stack)
          (omega (arith, less))) in
    (res, run, subst (λ es. Moves cells es (rounds (item n 0 ∷ items)) res) (simp append_assoc) w)
next_loop-Moves (suc fuel) cells (node k v b l r) (suc zero) items (_, _, _, room, stack) less =
    let n = node k v b l r in
    let both = length-append (preorder l) (preorder r) in
    let js = item n 2 ∷ items in
    let below : IsStack cells 1 js = (refl, omega arith, omega arith, room, stack) in
    child_pushed fuel cells r js (rounds (item n 1 ∷ items)) (omega (arith, room, both)) below
      (omega (arith, both))
      (next_loop-Moves fuel cells n 2 items (refl, omega arith, omega arith, room, stack)
        (omega (arith, less)))
next_loop-Moves (suc fuel) cells (node k v b l r) (suc (suc zero)) [] stack less =
    (([], false), refl, (refl, refl))
next_loop-Moves (suc fuel) cells (node k v b l r) (suc (suc zero)) (j ∷ items)
      (_, _, _, room, (some_node, low, high, under, stack)) less =
    let entered : (j.state == 0) ≡ false = ground (arith, low) in
    let (res, run, w) =
      next_loop-Moves fuel cells j.node j.state items (some_node, omega arith, high, under, stack)
        (omega (arith, less)) in
    (
      res,
      if_null_not j.node _ _ some_node ∙ rw entered run,
      Moves-most cells _ _ _ res (omega arith) w,
    )
