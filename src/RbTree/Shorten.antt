-- ===== src/RbTree/Shorten.antt =====
-- The rounds of the repair before a removal: _rbtree_remove_case1.
use datatypes.Base.{
  subst, ℕ, zero, suc, ◌+◌, ◌≤◌, ◌<◌, ◌≡◌, refl, sym, ap, ◌∙◌, inl, inr, Bool, true, false, ◌&&◌,
  [], ◌∷◌, append-nil, append_assoc, arith, Bool-cases, Run, ok, ◌>>=◌, Returns, length,
}
use datatypes.Callbacks.{Ptr}
use datatypes.RbTree.{
  Node, leaf, node, Side, to_left, to_right, Step, step, Trail, is_black, stack_push,
}
use datatypes.RbTree.Erase.{rotate_step, remove_case3, remove_case1}
use datatypes.RbTree.Entries.{entries, before, behind, Side-cases}
use datatypes.RbTree.Balance.{
  black_height, IsRbPath, path_black, IsRbPath-at, true_both, above_colour,
}
use datatypes.RbTree.Descent.{max_count, stack_push-Holds}
use datatypes.RbTree.Rebalance.{is_empty, Shortens, red_nephew}

-- what a step with a red other child adds is what it added before
recoloured :
    (p : Step) (b : Bool) (ps qs : Trail) (k v : Ptr) (l r : Node)
    → before qs ≡ before ps
    → behind qs ≡ behind ps
    → let red = record p { other = node k v false l r; black = b } in
      let old = record p { other = node k v true l r } in
      (before (red ∷ qs) ≡ before (old ∷ ps)) × (behind (red ∷ qs) ≡ behind (old ∷ ps))
unfolding before behind entries
recoloured p b ps qs k v l r e f = elim (Side-cases p.side) [
  | inl s ↦ (rw (s, e), rw (s, f))
  | inr s ↦ (rw (s, e), rw (s, f))
]

-- the cases 3 to 6 at a black sibling
remove_case3_black :
    (size : ℕ) (pk pv : Ptr) (b : Bool) (s : Side) (ps : Trail) (k v : Ptr) (l r : Node) (h : ℕ)
    (above : Run (ℕ × Trail))
    → 0 < size
    → IsRbPath (step pk pv b s (node k v true l r) ∷ ps) (h + 1)
    → (b ≡ true → Returns above (Shortens ps (h + 1)))
    → Returns
        (remove_case3 size (step pk pv b s (node k v true l r)) ps above)
        (Shortens (step pk pv b s (node k v true l r) ∷ ps) h)
unfolding remove_case3
remove_case3_black size pk pv b s ps k v l r h above pos (i, height, colour, f) up =
    let hl : black_height l ≡ h = omega (arith, height) in
    let hr : black_height r ≡ h = omega (arith, hl, i.2) in
    let p = step pk pv b s (node k v true l r) in
    elim (Bool-cases (is_black l && is_black r)) [
      | inr red ↦
          let (res, run, w) =
            red_nephew size pk pv b s ps k v l r h red
              (i.0, i.1, hl, hr, above_colour b true (path_black ps) colour, f, pos) in
          (res, rw red run, w)
      | inl black ↦ elim (Bool-cases b) [
        | inl case3 ↦
            let ((size', ps'), run, w) = up case3 in
            let same = recoloured p b ps ps' k v l r w.same_before w.same_behind in
            (
              (size', step pk pv b s (node k v false l r) ∷ ps'),
              rw (black, case3, run),
              record {
                path = (
                  (i.0, i.1, i.2, black),
                  omega (arith, hl),
                  rw case3,
                  IsRbPath-at ps' _ _ w.path (rw case3 refl),
                );
                top = λ e. case3;
                same_before = same.0;
                same_behind = same.1;
                some_stack = w.some_stack;
              },
            )
        | inr case4 ↦
            let same = recoloured p true ps ps k v l r refl refl in
            (
              (size, step pk pv true s (node k v false l r) ∷ ps),
              rw (black, case4),
              record {
                path = (
                  (i.0, i.1, i.2, black),
                  omega (arith, hl),
                  refl,
                  IsRbPath-at ps _ _ f (rw case4 (omega arith)),
                );
                top = λ e. refl;
                same_before = same.0;
                same_behind = same.1;
                some_stack = pos;
              },
            )
      ]
    ]

-- the cases 3 to 6, at a sibling that is not red
remove_case3-Shortens :
    (size : ℕ) (p : Step) (o : Node) (ps : Trail) (h : ℕ) (above : Run (ℕ × Trail))
    → p.other ≡ o
    → is_black o ≡ true
    → 0 < size
    → IsRbPath (p ∷ ps) (h + 1)
    → (p.black ≡ true → Returns above (Shortens ps (h + 1)))
    → Returns (remove_case3 size p ps above) (Shortens (p ∷ ps) h)
remove_case3-Shortens size p leaf ps h above e black pos f up =
    let height : black_height p.other ≡ 0 = rw e in absurd (omega (arith, f.1, height))
remove_case3-Shortens size p (node k v false l r) ps h above e black pos f up = cc
remove_case3-Shortens size p (node k v true l r) ps h above e black pos f up =
    let same : p ≡ step p.key p.value p.black p.side (node k v true l r) =
      ap (λ o. step p.key p.value p.black p.side o) e in
    subst (λ q. Returns (remove_case3 size q ps above) (Shortens (q ∷ ps) h)) (sym same)
      (remove_case3_black size p.key p.value p.black p.side ps k v l r h above pos
        (subst (λ q. IsRbPath (q ∷ ps) (h + 1)) same f) up)

-- the child of the sibling that is next to the place
abbrev nephew : Side → Node → Node → Node
nephew to_left l r = l
nephew to_right l r = r

-- case 2: the step with its new black sibling, and the one of its old red sibling above
turned :
    (s : Side) (pk pv : Ptr) (b : Bool) (k v : Ptr) (l r : Node) (ps : Trail) (h : ℕ)
    → IsRbPath (step pk pv b s (node k v false l r) ∷ ps) (h + 1)
    → let near = nephew s l r in
      let far = nephew s r l in
      let turned_path = step pk pv false s near ∷ step k v true s far ∷ ps in
      (rotate_step (step pk pv b s (node k v false l r))
        ≡ ok (step pk pv b s near, step k v false s far))
      × (is_black near ≡ true)
      × IsRbPath turned_path (h + 1)
      × (before turned_path ≡ before (step pk pv b s (node k v false l r) ∷ ps))
      × (behind turned_path ≡ behind (step pk pv b s (node k v false l r) ∷ ps))
unfolding before behind entries
turned s pk pv false k v l r ps h f = cc
turned to_left pk pv true k v l r ps h ((il, ir, e, c), height, colour, f) =
    let (cl, cr) = true_both (is_black l) (is_black r) c in
    (
      refl,
      cl,
      (
        il,
        omega (arith, height),
        rw cl,
        (ir, omega (arith, height, e), refl, IsRbPath-at ps _ _ f (omega arith)),
      ),
      simp append-nil,
      simp append_assoc,
    )
turned to_right pk pv true k v l r ps h ((il, ir, e, c), height, colour, f) =
    let (cl, cr) = true_both (is_black l) (is_black r) c in
    (
      refl,
      cr,
      (
        ir,
        omega (arith, height, e),
        rw cr,
        (il, omega (arith, height), refl, IsRbPath-at ps _ _ f (omega arith)),
      ),
      simp append_assoc,
      refl,
    )

Shortens-of :
    (ps qs : Trail) (h : ℕ) (res : ℕ × Trail)
    → is_empty qs ≡ false
    → before qs ≡ before ps
    → behind qs ≡ behind ps
    → Shortens qs h res
    → Shortens ps h res
Shortens-of ps qs h res filled e f w = record {
  path = w.path;
  top = λ _. w.top filled;
  same_before = w.same_before ∙ e;
  same_behind = w.same_behind ∙ f;
  some_stack = w.some_stack;
}

-- case 2 at a red sibling, and what follows, which is no case 3
abbrev remove_case2_red : ℕ → Step → Trail → (ℕ → Trail → Run (ℕ × Trail)) → Run (ℕ × Trail)
remove_case2_red size p ps round = do
  (lower, upper) ← rotate_step p
  size' ← stack_push size (length ps + 2)
  remove_case3 size' (record lower { black = false }) (record upper { black = true } ∷ ps)
      (round size' (record upper { black = true } ∷ ps))

remove_case2-Shortens :
    (size : ℕ) (p : Step) (o : Node) (ps : Trail) (h : ℕ) (round : ℕ → Trail → Run (ℕ × Trail))
    → p.other ≡ o
    → is_black o ≡ false
    → IsRbPath (p ∷ ps) (h + 1)
    → length ps + 2 ≤ size
    → length ps + 2 < max_count
    → Returns (remove_case2_red size p ps round) (Shortens (p ∷ ps) h)
remove_case2-Shortens size p leaf ps h round e red f room few = cc
remove_case2-Shortens size p (node k v true l r) ps h round e red f room few = cc
remove_case2-Shortens size p (node k v false l r) ps h round e red f room few =
    let old = step p.key p.value p.black p.side (node k v false l r) in
    let same : p ≡ old = ap (λ o. step p.key p.value p.black p.side o) e in
    let (rotated, black, path, front, back) =
      turned p.side p.key p.value p.black k v l r ps h
        (subst (λ q. IsRbPath (q ∷ ps) (h + 1)) same f) in
    let (size', pushed, held) =
      stack_push-Holds size (length ps + 2) (omega (arith, room)) room few in
    let lower = step p.key p.value false p.side (nephew p.side l r) in
    let up = step k v true p.side (nephew p.side r l) ∷ ps in
    let (res, run, w) =
      remove_case3-Shortens size' lower lower.other up h (round size' up) refl black
        (omega (arith, held)) path (λ e. absurd cc) in
    subst (λ q. Returns (remove_case2_red size q ps round) (Shortens (q ∷ ps) h)) (sym same)
      (res, rw (rotated, pushed, run), Shortens-of (old ∷ ps) (lower ∷ up) h res refl front back w)

-- With more rounds than steps, the repair ends and shortens the path by a black node.
pub remove_case1-Shortens :
    (fuel size : ℕ) (ps : Trail) (h : ℕ)
    → length ps < fuel
    → IsRbPath ps (h + 1)
    → length ps + 1 ≤ size
    → length ps + 1 < max_count
    → Returns (remove_case1 fuel size ps) (Shortens ps h)
unfolding remove_case1
remove_case1-Shortens zero size ps h less f room few = absurd (omega (arith, less))
remove_case1-Shortens (suc fuel) size [] h less f room few = (
  (size, []),
  refl,
  record {
    path = tt;
    top = λ e. absurd cc;
    same_before = refl;
    same_behind = refl;
    some_stack = omega (arith, room);
  },
)
remove_case1-Shortens (suc fuel) size (p ∷ ps) h less f room few =
    elim (Bool-cases (is_black p.other)) [
      | inl black ↦
          let (res, run, w) =
            remove_case3-Shortens size p p.other ps h (remove_case1 fuel size ps) refl black
              (omega (arith, room)) f
              (λ e.
                remove_case1-Shortens fuel size ps (h + 1) (omega (arith, less))
                  (IsRbPath-at ps _ _ f.3 (rw e refl)) (omega (arith, room))
                  (omega (arith, few))) in
          (res, rw (black, run), w)
      | inr red ↦
          let (res, run, w) =
            remove_case2-Shortens size p p.other ps h (λ size' up. remove_case1 fuel size' up) refl
              red f (omega (arith, room)) (omega (arith, few)) in
          (res, rw (red, run), w)
    ]
