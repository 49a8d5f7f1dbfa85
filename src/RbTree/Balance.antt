-- ===== src/RbTree/Balance.antt =====
-- The red-black rules of a tree, and of the path above a node.
use datatypes.Base.{subst, ℕ, ◌+◌, ◌≡◌, refl, sym, Bool, true, false, ◌&&◌, ◌||◌, [], ◌∷◌, arith}
use datatypes.Callbacks.{Ptr}
use datatypes.RbTree.{Node, leaf, node, Side, to_left, to_right, step, Trail, link, plug, is_black}

abbrev pub weight : Bool → ℕ
weight true = 1
weight false = 0

-- the black nodes on the way down to the left
abbrev pub black_height : Node → ℕ
black_height leaf = 0
black_height (node k v b l r) = black_height l + weight b

-- every path down from a node has the same number of black nodes, and a red node has black children
abbrev pub IsRb : Node → Type 0
IsRb leaf = Unit
IsRb (node k v b l r) =
    IsRb l × IsRb r × (black_height l ≡ black_height r) × ((b || (is_black l && is_black r)) ≡ true)

-- whether a red node may follow the path; none may be the root
abbrev pub path_black : Trail → Bool
path_black [] = false
path_black (p ∷ ps) = p.black

-- a path above a node of the given black height
abbrev pub IsRbPath : Trail → ℕ → Type 0
IsRbPath [] h = Unit
IsRbPath (p ∷ ps) h =
    IsRb p.other
    × (black_height p.other ≡ h)
    × ((p.black || (is_black p.other && path_black ps)) ≡ true)
    × IsRbPath ps (h + weight p.black)

pub IsRb-step :
    (k v : Ptr) (b : Bool) (s : Side) (other n : Node)
    → IsRb n
    → IsRb other
    → black_height other ≡ black_height n
    → (b || (is_black other && is_black n)) ≡ true
    → IsRb (link (step k v b s other) n)
      × (black_height (link (step k v b s other) n) ≡ black_height n + weight b)
      × (is_black (link (step k v b s other) n) ≡ b)
unfolding link
IsRb-step k v b to_left other n i o h c = ((i, o, sym h, ground (arith, c)), refl, refl)
IsRb-step k v b to_right other n i o h c = ((o, i, h, c), omega (arith, h), refl)

-- the colours of a step, its child, its other child and what is above it
child_colour :
    (n p o up : Bool) → (n || p) ≡ true → (p || (o && up)) ≡ true → (p || (o && n)) ≡ true
child_colour n true o up c f = refl
child_colour true false true up c f = refl
child_colour true false false up c f = f
child_colour false false o up c f = cc

pub above_colour : (p o up : Bool) → (p || (o && up)) ≡ true → (p || up) ≡ true
above_colour true o up f = refl
above_colour false true up f = f
above_colour false false up f = cc

-- a subtree that fits below a path
pub IsRb-plug :
    (ps : Trail) (n : Node)
    → IsRb n
    → (is_black n || path_black ps) ≡ true
    → IsRbPath ps (black_height n)
    → IsRb (plug ps n) × (is_black (plug ps n) ≡ true)
unfolding plug
IsRb-plug [] n i c f = (i, ground (arith, c))
IsRb-plug (p ∷ ps) n i c f =
    let (linked, height, colour) =
      IsRb-step p.key p.value p.black p.side p.other n i f.0 f.1
        (child_colour (is_black n) p.black (is_black p.other) (path_black ps) c f.2) in
    IsRb-plug ps (link p n) linked
      (rw colour (above_colour p.black (is_black p.other) (path_black ps) f.2))
      (subst (λ h. IsRbPath ps h) (sym height) f.3)

pub both_true : (x y : Bool) → x ≡ true → y ≡ true → (x && y) ≡ true
both_true true y e f = f
both_true false y e f = cc

pub true_both : (x y : Bool) → (x && y) ≡ true → (x ≡ true) × (y ≡ true)
true_both true y e = (refl, e)
true_both false y e = cc

-- a path takes a subtree by its black height
pub IsRbPath-at : (ps : Trail) (g h : ℕ) → IsRbPath ps g → g ≡ h → IsRbPath ps h
IsRbPath-at ps g h f e = subst (λ n. IsRbPath ps n) e f

pub red-IsRb :
    (k v : Ptr) (l r : Node)
    → IsRb l
    → IsRb r
    → black_height l ≡ black_height r
    → is_black l ≡ true
    → is_black r ≡ true
    → IsRb (node k v false l r)
red-IsRb k v l r i j h c d = (i, j, h, both_true (is_black l) (is_black r) c d)
