-- ===== src/AssocArray/Shift.antt =====
-- The moves of one cell up or down that make or close a gap in an array of pointers.
use datatypes.Base.{
  ℕ, zero, suc, ◌+◌, ◌-◌, ◌≤◌, ◌<◌, ◌≡◌, refl, sym, ap, ap₂, ◌∙◌, inl, inr, some, List, [], ◌∷◌,
  ◌++◌, append-nil, append_assoc, arith, ltb, Bool-cases, ◌>>=◌, Returns, length, get_elem?, take,
  drop, overwrite, length-append, length-take, length-drop, take-append-drop, take-append,
  drop-append, take-take, take-append_of_le, length-overwrite, take-drop, drop-get_elem?, drop_all,
}
use datatypes.Memory.{move-ok, store-ok, take-overwrite}
use datatypes.Callbacks.{Ptr}
use datatypes.AssocArray.{shift_in, shift_after, shift_out}

take-shift_in :
    (cells : List Ptr) (count offset : ℕ) (x : Ptr)
    → offset ≤ count
    → count < length cells
    → let ks = take count cells in
      let moved = overwrite cells (offset + 1) (take (count - offset) (drop offset cells)) in
      take (count + 1) (overwrite moved offset (x ∷ [])) ≡ take offset ks ++ x ∷ drop offset ks
take-shift_in cells count offset x h room =
    let ks = take count cells in
    let seg = take (count - offset) (drop offset cells) in
    let rest = drop (offset + 1 + length seg) cells in
    let moved = overwrite cells (offset + 1) seg in
    let size : length seg ≡ count - offset =
      omega (arith, length-take (count - offset) (drop offset cells), length-drop offset cells) in
    let seg_lem : seg ≡ drop offset ks =
      take-drop (count - offset) offset cells
      ∙ ap (λ n. drop offset (take n cells)) (omega arith) in
    let front : take offset moved ≡ take offset cells =
      take-append_of_le offset (take (offset + 1) cells) (seg ++ rest)
        (omega (arith, length-take (offset + 1) cells))
      ∙ take-take offset (offset + 1) cells (omega arith) in
    let back : drop (offset + 1) moved ≡ seg ++ rest =
      drop-append (take (offset + 1) cells) (seg ++ rest) (offset + 1)
        (omega (arith, length-take (offset + 1) cells)) in
    let whole : overwrite moved offset (x ∷ []) ≡ (take offset cells ++ x ∷ seg) ++ rest =
      rw (front, back) (sym (append_assoc (take offset cells) (x ∷ seg) rest)) in
    rw whole (
      take-append (take offset cells ++ x ∷ seg) rest (count + 1)
        (omega (arith, length-append (take offset cells) (x ∷ seg), length-take offset cells))
      ∙ ap₂ (λ s t. s ++ x ∷ t) (sym (take-take offset count cells h)) seg_lem)

-- with a gap, a store there and the cells below as they were
pub shift_in-Begins :
    (cells : List Ptr) (count offset : ℕ) (x : Ptr)
    → offset ≤ count
    → count < length cells
    → let ks = take count cells in
      Returns (shift_in cells count offset x) (λ cells'.
        (length cells' ≡ length cells)
        × (take (count + 1) cells' ≡ take offset ks ++ x ∷ drop offset ks))
unfolding shift_in
shift_in-Begins cells count offset x h room =
    let seg = take (count - offset) (drop offset cells) in
    let size : length seg ≡ count - offset =
      omega (arith, length-take (count - offset) (drop offset cells), length-drop offset cells) in
    let moved = overwrite cells (offset + 1) seg in
    let same : length moved ≡ length cells =
      length-overwrite cells (offset + 1) seg (omega arith) in
    (
      overwrite moved offset (x ∷ []),
      rw (
        move-ok cells (offset + 1) offset (count - offset) (omega arith) (omega arith),
        ◌>>=◌,
        store-ok moved offset x (omega arith),
      ),
      (
        length-overwrite moved offset (x ∷ []) (omega arith) ∙ same,
        take-shift_in cells count offset x h room,
      ),
    )

pub shift_after-Begins :
    (cells : List Ptr) (count offset : ℕ) (x : Ptr)
    → offset ≤ count
    → count < length cells
    → let ks = take count cells in
      Returns (shift_after cells count offset x) (λ cells'.
        (length cells' ≡ length cells)
        × (take (count + 1) cells' ≡ take offset ks ++ x ∷ drop offset ks))
unfolding shift_after shift_in
shift_after-Begins cells count offset x h room = elim (Bool-cases (ltb offset count)) [
  | inl inside ↦ rw inside (unfold shift_in in shift_in-Begins cells count offset x h room)
  | inr end ↦
      let last : offset ≡ count = ground arith in
      (
        overwrite cells offset (x ∷ []),
        rw (end, store-ok cells offset x (omega arith)),
        (
          length-overwrite cells offset (x ∷ []) (omega arith),
          take-overwrite cells offset (count + 1) (x ∷ []) (omega arith) (omega arith)
              ∙ ap₂ (λ s t. s ++ x ∷ t) (sym (take-take offset count cells h))
                  (sym
                    (drop_all offset (take count cells) (omega (arith, length-take count cells)))),
        ),
      )
]

pub shift_out-Begins :
    (cells : List Ptr) (count offset : ℕ)
    → offset < count
    → count ≤ length cells
    → let ks = take count cells in
      Returns (shift_out cells count offset) (λ cells'.
        (length cells' ≡ length cells)
        × (take (count - 1) cells' ≡ take offset ks ++ drop (suc offset) ks))
unfolding shift_out
shift_out-Begins cells count offset h room = elim (Bool-cases (ltb offset (count - 1))) [
  | inl inside ↦
      let seg = take (count - 1 - offset) (drop (offset + 1) cells) in
      let size : length seg ≡ count - 1 - offset = omega (
        arith,
        length-take (count - 1 - offset) (drop (offset + 1) cells),
        length-drop (offset + 1) cells,
      ) in
      let below : offset < count - 1 = ground arith in
      let next : offset + 1 ≡ suc offset = omega arith in
      let all : offset + 1 + (count - 1 - offset) ≡ count = omega arith in
      let seg_lem : seg ≡ drop (suc offset) (take count cells) =
        take-drop (count - 1 - offset) (offset + 1) cells
        ∙ ap₂ (λ m n. drop m (take n cells)) next all in
      (
        overwrite cells offset seg,
        rw (
          inside,
          move-ok cells offset (offset + 1) (count - 1 - offset) (omega arith) (omega arith),
        ),
        (
          length-overwrite cells offset seg (omega arith),
          take-overwrite cells offset (count - 1) seg (omega arith) (omega arith)
              ∙ ap₂ (λ s t. s ++ t) (sym (take-take offset count cells (omega arith))) seg_lem,
        ),
      )
  | inr end ↦
      let last : count - 1 ≡ offset = ground arith in
      (
        cells,
        rw end,
        (
          refl,
          ap (λ n. take n cells) last
              ∙ sym (take-take offset count cells (omega arith))
              ∙ sym (append-nil (take offset (take count cells)))
              ∙ ap (λ t. take offset (take count cells) ++ t)
                  (sym (
                    drop_all (suc offset) (take count cells)
                      (omega (arith, length-take count cells)))),
        ),
      )
]

-- a store at one cell in use
pub take-overwrite_one :
    (cells : List Ptr) (count p : ℕ) (x : Ptr)
    → p < count
    → count ≤ length cells
    → take count (overwrite cells p (x ∷ []))
      ≡ take p (take count cells) ++ x ∷ drop (suc p) (take count cells)
take-overwrite_one [] count p x h fits = absurd (omega arith)
take-overwrite_one (c ∷ cells) zero p x h fits = absurd (omega arith)
take-overwrite_one (c ∷ cells) (suc count) zero x h fits = refl
take-overwrite_one (c ∷ cells) (suc count) (suc p) x h fits =
    let next : suc p + 1 ≡ suc (p + 1) = omega arith in
    rw next (ap (λ t. c ∷ t) (take-overwrite_one cells count p x (omega arith) (omega arith)))

-- a store of what is there
pub take_self :
    (ks : List Ptr) (p : ℕ) (old : Ptr)
    → get_elem? ks p ≡ some old
    → take p ks ++ old ∷ drop (suc p) ks ≡ ks
take_self ks p old e =
    ap (λ t. take p ks ++ t) (sym (drop-get_elem? ks p old e)) ∙ take-append-drop p ks
