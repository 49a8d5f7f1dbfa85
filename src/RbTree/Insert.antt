-- ===== src/RbTree/Insert.antt =====
-- The repair after an insertion: _rbtree_insert_case1 and _rbtree_insert_case2_to_6.
use datatypes.Base.{
  ◌+◌, ◌≡◌, refl, sym, ◌∙◌, inl, inr, Bool, true, false, ◌&&◌, ◌||◌, [], ◌∷◌, append_assoc, arith,
  Bool-cases, Returns,
}
use datatypes.Callbacks.{Ptr}
use datatypes.RbTree.{
  Node, leaf, node, Side, to_left, to_right, step, Trail, link, plug, is_black, set_black,
  insert_case4, insert_case5, insert_case1,
}
use datatypes.RbTree.Entries.{entries, entries-plug_of, entries-link_of}
use datatypes.RbTree.Balance.{
  black_height, IsRb, IsRbPath, IsRb-plug, IsRbPath-at, IsRb-step, both_true, true_both, red-IsRb,
}

-- a root that follows the rules, with given entries
pub record Repairs (m root : Node) : Type 0 where
  pub rules : IsRb root
  pub black_root : is_black root ≡ true
  pub same : entries root ≡ entries m

-- a black subtree in the place of another one
pub Repairs-plug :
    (ps : Trail) (m n : Node)
    → IsRb n
    → is_black n ≡ true
    → IsRbPath ps (black_height n)
    → entries n ≡ entries m
    → Repairs (plug ps m) (plug ps n)
Repairs-plug ps m n i c f e =
    let (rules, black) = IsRb-plug ps n i (rw c) f in
    record { rules = rules; black_root = black; same = entries-plug_of ps n m e }

insert_case5-Repairs :
    (k v : Ptr) (l r : Node) (pk pv : Ptr) (ps : Side) (u : Node) (gk gv : Ptr) (gs : Side)
    (w : Node) (up : Trail)
    → IsRb (node k v false l r)
    → IsRb u
    → black_height u ≡ black_height l
    → is_black u ≡ true
    → IsRb w
    → black_height w ≡ black_height l
    → is_black w ≡ true
    → IsRbPath up (black_height l + 1)
    → Returns
        (insert_case5 (node k v false l r) (step pk pv false ps u) (step gk gv true gs w) up)
        (Repairs (
          plug up
            (link (step gk gv true gs w) (link (step pk pv false ps u) (node k v false l r)))))
unfolding insert_case5 insert_case4 link entries
insert_case5-Repairs k v l r pk pv to_left u gk gv to_left w up n iu hu cu iw hw cw f =
    let (cl, cr) = true_both (is_black l) (is_black r) n.3 in
    (
      _,
      refl,
      Repairs-plug up _ (node pk pv true (node k v false l r) (node gk gv false u w))
          (n, red-IsRb gk gv u w iu iw (hu ∙ sym hw) cu cw, omega (arith, hu, hw, n.2), refl) refl
          (IsRbPath-at up _ _ f (omega (arith, hu, hw, n.2))) (simp append_assoc),
    )
insert_case5-Repairs k v l r pk pv to_left u gk gv to_right w up n iu hu cu iw hw cw f =
    let (cl, cr) = true_both (is_black l) (is_black r) n.3 in
    (
      _,
      refl,
      Repairs-plug up _ (node k v true (node gk gv false w l) (node pk pv false r u))
          (
            red-IsRb gk gv w l iw n.0 hw cw cl,
            red-IsRb pk pv r u n.1 iu (sym n.2 ∙ sym hu) cr cu,
            omega (arith, hu, hw, n.2),
            refl,
          )
          refl (IsRbPath-at up _ _ f (omega (arith, hu, hw, n.2))) (simp append_assoc),
    )
insert_case5-Repairs k v l r pk pv to_right u gk gv to_left w up n iu hu cu iw hw cw f =
    let (cl, cr) = true_both (is_black l) (is_black r) n.3 in
    (
      _,
      refl,
      Repairs-plug up _ (node k v true (node pk pv false u l) (node gk gv false r w))
          (
            red-IsRb pk pv u l iu n.0 hu cu cl,
            red-IsRb gk gv r w n.1 iw (sym n.2 ∙ sym hw) cr cw,
            omega (arith, hu, hw, n.2),
            refl,
          )
          refl (IsRbPath-at up _ _ f (omega (arith, hu, hw, n.2))) (simp append_assoc),
    )
insert_case5-Repairs k v l r pk pv to_right u gk gv to_right w up n iu hu cu iw hw cw f =
    let (cl, cr) = true_both (is_black l) (is_black r) n.3 in
    (
      _,
      refl,
      Repairs-plug up _ (node pk pv true (node gk gv false w u) (node k v false l r))
          (red-IsRb gk gv w u iw iu (hw ∙ sym hu) cw cu, n, omega (arith, hu, hw, n.2), refl) refl
          (IsRbPath-at up _ _ f (omega (arith, hu, hw, n.2))) (simp append_assoc),
    )

set_black-node :
    (n : Node)
    → is_black n ≡ false
    → Returns (set_black true n) λ m.
      (is_black m ≡ true)
      × (entries m ≡ entries n)
      × (black_height m ≡ black_height n + 1)
      × (IsRb n → IsRb m)
unfolding entries
set_black-node leaf e = cc
set_black-node (node k v b l r) e =
    (node k v true l r, refl, (refl, refl, rw e (omega arith), λ i. (i.0, i.1, i.2, refl)))

no_red_root : (p o : Bool) → (p || (o && false)) ≡ true → p ≡ false → ⊥
no_red_root true o f e = ground arith
no_red_root false true f e = ground arith
no_red_root false false f e = ground arith

red_step : (p o g : Bool) → (p || (o && g)) ≡ true → p ≡ false → (o ≡ true) × (g ≡ true)
red_step true o g f e = cc
red_step false o g f e = true_both o g f

-- case 3, the colours of parent, grandparent and uncle
recoloured :
    (pk pv : Ptr) (ps : Side) (u : Node) (gk gv : Ptr) (gs : Side) (w n : Node)
    → IsRb n
    → IsRb u
    → black_height u ≡ black_height n
    → IsRb w
    → black_height w ≡ black_height n + 1
    → is_black w ≡ true
    → let m = link (step gk gv false gs w) (link (step pk pv true ps u) n) in
      IsRb m × (black_height m ≡ black_height n + 1) × (is_black m ≡ false)
recoloured pk pv ps u gk gv gs w n i iu hu iw hw cw =
    let (lower, height, colour) = IsRb-step pk pv true ps u n i iu hu refl in
    let (upper, height', colour') =
      IsRb-step gk gv false gs w (link (step pk pv true ps u) n) lower iw (hw ∙ sym height)
        (both_true (is_black w) _ cw colour) in
    (upper, omega (arith, height, height'), colour')

insert_case5_at :
    (n : Node) (pk pv : Ptr) (ps : Side) (u : Node) (gk gv : Ptr) (gs : Side) (w : Node)
    (up : Trail)
    → is_black n ≡ false
    → IsRb n
    → IsRb u
    → black_height u ≡ black_height n
    → is_black u ≡ true
    → IsRb w
    → black_height w ≡ black_height n
    → is_black w ≡ true
    → IsRbPath up (black_height n + 1)
    → Returns
        (insert_case5 n (step pk pv false ps u) (step gk gv true gs w) up)
        (Repairs (plug up (link (step gk gv true gs w) (link (step pk pv false ps u) n))))
insert_case5_at leaf pk pv ps u gk gv gs w up red n iu hu cu iw hw cw f = cc
insert_case5_at (node k v true l r) pk pv ps u gk gv gs w up red n iu hu cu iw hw cw f = cc
insert_case5_at (node k v false l r) pk pv ps u gk gv gs w up red n iu hu cu iw hw cw f =
    insert_case5-Repairs k v l r pk pv ps u gk gv gs w up n iu (omega (arith, hu)) cu iw
      (omega (arith, hw)) cw (IsRbPath-at up _ _ f (omega arith))

-- The repair ends without a fault, and leaves a tree with the entries that were there, a black root
-- and the red-black rules.
pub insert_case1-Repairs :
    (n : Node) (ps : Trail)
    → is_black n ≡ false
    → IsRb n
    → IsRbPath ps (black_height n)
    → Returns (insert_case1 n ps) (Repairs (plug ps n))
unfolding insert_case1 plug
insert_case1-Repairs n [] red i f =
    let (m, run, (black, same, _, rules)) = set_black-node n red in
    (m, run, record { rules = rules i; black_root = black; same = same })
insert_case1-Repairs n (p ∷ []) red i f = elim (Bool-cases p.black) [
  | inl black ↦
      let (rules, root) = IsRb-plug (p ∷ []) n i (rw red black) f in
      (plug (p ∷ []) n, rw black, record { rules = rules; black_root = root; same = refl })
  | inr red_root ↦ absurd (no_red_root p.black (is_black p.other) f.2 red_root)
]
insert_case1-Repairs n (p ∷ g ∷ ps) red i f = elim (Bool-cases p.black) [
  | inl black ↦
      let (rules, root) = IsRb-plug (p ∷ g ∷ ps) n i (rw red black) f in
      (plug (p ∷ g ∷ ps) n, rw black, record { rules = rules; black_root = root; same = refl })
  | inr red_parent ↦
      let (other_black, g_black) = red_step p.black (is_black p.other) g.black f.2 red_parent in
      let low : IsRbPath (g ∷ ps) (black_height n) =
        IsRbPath-at (g ∷ ps) _ _ f.3 (rw red_parent (omega arith)) in
      let up : IsRbPath ps (black_height n + 1) =
        IsRbPath-at ps _ _ low.3 (rw g_black (omega arith)) in
      elim (Bool-cases (is_black g.other)) [
        | inr red_uncle ↦
            let (w, run, (cw, same, hw, rules)) = set_black-node g.other red_uncle in
            let m =
              link (record g { black = false; other = w }) (link (record p { black = true }) n) in
            let (im, hm, cm) =
              recoloured p.key p.value p.side p.other g.key g.value g.side w n i f.0 f.1
                (rules low.0) (omega (arith, hw, low.1)) cw in
            let (root, run', r) =
              insert_case1-Repairs m ps cm im (IsRbPath-at ps _ _ up (sym hm)) in
            (
              root,
              rw (red_parent, red_uncle, run, run'),
              record {
                rules = r.rules;
                black_root = r.black_root;
                same =
                    r.same
                    ∙ entries-plug_of ps m (link g (link p n)) (
                        entries-link_of g.key g.value false g.black g.side w g.other _ _ same (
                          entries-link_of p.key p.value true p.black p.side p.other p.other n n refl
                            refl));
              },
            )
        | inl black_uncle ↦
            rw (red_parent, g_black, black_uncle)
              (insert_case5_at n p.key p.value p.side p.other g.key g.value g.side g.other ps red i
                f.0 f.1 other_black low.0 low.1 black_uncle up)
      ]
]
