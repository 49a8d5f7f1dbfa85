-- ===== src/RbTree/Rebalance.antt =====
-- The repair before a removal: _rbtree_remove_case1 to _rbtree_remove_case3_to_6.
use datatypes.Base.{
  ℕ, ◌+◌, ◌<◌, ◌≡◌, refl, inl, inr, Bool, true, false, ◌&&◌, ◌||◌, List, [], ◌∷◌, append-nil,
  append_assoc, arith, Bool-cases, Run, ok, ◌>>=◌, Returns,
}
use datatypes.Callbacks.{Ptr}
use datatypes.RbTree.{Node, leaf, node, Side, to_left, to_right, Step, step, Trail, is_black}
use datatypes.RbTree.Erase.{remove_case5, remove_case6}
use datatypes.RbTree.Entries.{entries, before, behind}
use datatypes.RbTree.Balance.{weight, black_height, IsRb, IsRbPath, path_black}

abbrev pub is_empty {ℓ} : {A : Type ℓ} → List A → Bool
is_empty [] = true
is_empty (x ∷ xs) = false

-- A path that takes a subtree with one black node less on its way, with the entries that were there.
-- A red child fits below it.
pub record Shortens (ps : Trail) (h : ℕ) (result : ℕ × Trail) : Type 0 where
  pub path : IsRbPath result.1 h
  pub top : is_empty ps ≡ false → path_black result.1 ≡ true
  pub same_before : before result.1 ≡ before ps
  pub same_behind : behind result.1 ≡ behind ps
  pub some_stack : 0 < result.0

-- the black sibling has a red child: the cases 5 and 6
abbrev pub remove_case5_6 : ℕ → Step → Trail → Node → Run (ℕ × Trail)
remove_case5_6 size p ps sibling = do
  sibling' ← remove_case5 p.side sibling
  ps' ← remove_case6 (record p { other = sibling' }) ps
  ok (size, ps')

-- what is known of the parts around the place in the cases 5 and 6
abbrev pub Around : ℕ → Bool → Node → Node → Trail → ℕ → Type 0
Around size b l r ps h =
    IsRb l
    × IsRb r
    × (black_height l ≡ h)
    × (black_height r ≡ h)
    × ((b || path_black ps) ≡ true)
    × IsRbPath ps (h + 1 + weight b)
    × (0 < size)

far_left :
    (size : ℕ) (pk pv : Ptr) (b : Bool) (ps : Trail) (k v : Ptr) (l : Node) (rk rv : Ptr)
    (rl rr : Node) (h : ℕ)
    → Around size b l (node rk rv false rl rr) ps h
    → Returns
        (remove_case5_6 size
          (step pk pv b to_left (node k v true l (node rk rv false rl rr)))
          ps
          (node k v true l (node rk rv false rl rr)))
        (Shortens (step pk pv b to_left (node k v true l (node rk rv false rl rr)) ∷ ps) h)
unfolding remove_case5 remove_case6 before behind entries
far_left size pk pv b ps k v l rk rv rl rr h (il, ir, hl, hr, c, f, pos) = (
  (size, step pk pv true to_left l ∷ step k v b to_left (node rk rv true rl rr) ∷ ps),
  elim (Bool-cases (is_black l)) [ inl e ↦ rw e | inr e ↦ rw e ],
  record {
    path = (il, hl, refl, ((ir.0, ir.1, ir.2, refl), omega (arith, hr), c, f));
    top = λ e. refl;
    same_before = simp append-nil;
    same_behind = simp append_assoc;
    some_stack = pos;
  },
)

far_right :
    (size : ℕ) (pk pv : Ptr) (b : Bool) (ps : Trail) (k v : Ptr) (r : Node) (lk lv : Ptr)
    (ll lr : Node) (h : ℕ)
    → Around size b (node lk lv false ll lr) r ps h
    → Returns
        (remove_case5_6 size
          (step pk pv b to_right (node k v true (node lk lv false ll lr) r))
          ps
          (node k v true (node lk lv false ll lr) r))
        (Shortens (step pk pv b to_right (node k v true (node lk lv false ll lr) r) ∷ ps) h)
unfolding remove_case5 remove_case6 before behind entries
far_right size pk pv b ps k v r lk lv ll lr h (il, ir, hl, hr, c, f, pos) = (
  (size, step pk pv true to_right r ∷ step k v b to_right (node lk lv true ll lr) ∷ ps),
  refl,
  record {
    path = (ir, hr, refl, ((il.0, il.1, il.2, refl), omega (arith, hl), c, f));
    top = λ e. refl;
    same_before = simp append_assoc;
    same_behind = refl;
    some_stack = pos;
  },
)

near_left :
    (size : ℕ) (pk pv : Ptr) (b : Bool) (ps : Trail) (k v : Ptr) (lk lv : Ptr) (ll lr r : Node)
    (h : ℕ)
    → is_black r ≡ true
    → Around size b (node lk lv false ll lr) r ps h
    → Returns
        (remove_case5_6 size
          (step pk pv b to_left (node k v true (node lk lv false ll lr) r))
          ps
          (node k v true (node lk lv false ll lr) r))
        (Shortens (step pk pv b to_left (node k v true (node lk lv false ll lr) r) ∷ ps) h)
unfolding remove_case5 remove_case6 before behind entries
near_left size pk pv b ps k v lk lv ll lr r h black (il, ir, hl, hr, c, f, pos) = (
  (size, step pk pv true to_left ll ∷ step lk lv b to_left (node k v true lr r) ∷ ps),
  rw black,
  record {
    path = (
      il.0,
      omega (arith, hl),
      refl,
      ((il.1, ir, omega (arith, hl, hr, il.2), refl), omega (arith, hl, il.2), c, f),
    );
    top = λ e. refl;
    same_before = simp append-nil;
    same_behind = simp append_assoc;
    some_stack = pos;
  },
)

near_right :
    (size : ℕ) (pk pv : Ptr) (b : Bool) (ps : Trail) (k v : Ptr) (l : Node) (rk rv : Ptr)
    (rl rr : Node) (h : ℕ)
    → is_black l ≡ true
    → Around size b l (node rk rv false rl rr) ps h
    → Returns
        (remove_case5_6 size
          (step pk pv b to_right (node k v true l (node rk rv false rl rr)))
          ps
          (node k v true l (node rk rv false rl rr)))
        (Shortens (step pk pv b to_right (node k v true l (node rk rv false rl rr)) ∷ ps) h)
unfolding remove_case5 remove_case6 before behind entries
near_right size pk pv b ps k v l rk rv rl rr h black (il, ir, hl, hr, c, f, pos) = (
  (size, step pk pv true to_right rr ∷ step rk rv b to_right (node k v true l rl) ∷ ps),
  rw black,
  record {
    path = (
      ir.1,
      omega (arith, hr, ir.2),
      refl,
      ((il, ir.0, omega (arith, hl, hr, ir.2), refl), omega (arith, hl), c, f),
    );
    top = λ e. refl;
    same_before = simp append_assoc;
    same_behind = refl;
    some_stack = pos;
  },
)

-- by the side of the place and the red child of the sibling
pub red_nephew :
    (size : ℕ) (pk pv : Ptr) (b : Bool) (s : Side) (ps : Trail) (k v : Ptr) (l r : Node) (h : ℕ)
    → (is_black l && is_black r) ≡ false
    → Around size b l r ps h
    → Returns
        (remove_case5_6 size (step pk pv b s (node k v true l r)) ps (node k v true l r))
        (Shortens (step pk pv b s (node k v true l r) ∷ ps) h)
red_nephew size pk pv b to_left ps k v l (node rk rv false rl rr) h e a =
    far_left size pk pv b ps k v l rk rv rl rr h a
red_nephew size pk pv b to_left ps k v (node lk lv false ll lr) leaf h e a =
    near_left size pk pv b ps k v lk lv ll lr leaf h refl a
red_nephew size pk pv b to_left ps k v (node lk lv false ll lr) (node rk rv true rl rr) h e a =
    near_left size pk pv b ps k v lk lv ll lr (node rk rv true rl rr) h refl a
red_nephew size pk pv b to_left ps k v leaf leaf h e a = cc
red_nephew size pk pv b to_left ps k v leaf (node rk rv true rl rr) h e a = cc
red_nephew size pk pv b to_left ps k v (node lk lv true ll lr) leaf h e a = cc
red_nephew size pk pv b to_left ps k v (node lk lv true ll lr) (node rk rv true rl rr) h e a = cc
red_nephew size pk pv b to_right ps k v (node lk lv false ll lr) r h e a =
    far_right size pk pv b ps k v r lk lv ll lr h a
red_nephew size pk pv b to_right ps k v leaf (node rk rv false rl rr) h e a =
    near_right size pk pv b ps k v leaf rk rv rl rr h refl a
red_nephew size pk pv b to_right ps k v (node lk lv true ll lr) (node rk rv false rl rr) h e a =
    near_right size pk pv b ps k v (node lk lv true ll lr) rk rv rl rr h refl a
red_nephew size pk pv b to_right ps k v leaf leaf h e a = cc
red_nephew size pk pv b to_right ps k v leaf (node rk rv true rl rr) h e a = cc
red_nephew size pk pv b to_right ps k v (node lk lv true ll lr) leaf h e a = cc
red_nephew size pk pv b to_right ps k v (node lk lv true ll lr) (node rk rv true rl rr) h e a = cc
