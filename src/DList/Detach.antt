-- ===== src/DList/Detach.antt =====
-- _list_detach of an item anywhere in the list.
use datatypes.Base.{◌≡◌, ◌∙◌, ◌≢◌, false, Option, some, [], ◌∷◌, ◌++◌, arith, ◌==◌}
use datatypes.Callbacks.{Ptr, null}
use datatypes.SList.Chain.{Cells, first, has, IsDistinct}
use datatypes.DList.{ListItem, item, Heap, write}
use datatypes.DList.Chain.{Links-write, Links, write_same, write_other}

-- the items of a part of the list, between the one before and the one behind
abbrev pub Part : Heap → Ptr → Cells → Ptr → Type 0
Part h prev [] end = Unit
Part h prev (c ∷ cs) end =
    (c.0 ≢ null) × (h c.0 ≡ some (item c.1 (first cs end) prev)) × Part h c.0 cs end

-- the address of the last cell, or the one before if there is none
abbrev pub last_or : Ptr → Cells → Ptr
last_or prev [] = prev
last_or prev (c ∷ cs) = last_or c.0 cs

pub Part-write :
    (h : Heap) (prev : Ptr) (xs : Cells) (end a : Ptr) (c : Option ListItem)
    → Part h prev xs end
    → has a xs ≡ false
    → Part (write h a c) prev xs end
unfolding write
Part-write h prev [] end a c l out = tt
Part-write h prev (x ∷ xs) end a c l out =
    (l.0, ground (arith, l.1), Part-write h x.0 xs end a c l.2 (ground arith))

pub Links-parts :
    (h : Heap) (prev : Ptr) (xs ys : Cells)
    → Links h prev (xs ++ ys)
    → Part h prev xs (first ys null) × Links h (last_or prev xs) ys
Links-parts h prev [] ys l = (tt, l)
Links-parts h prev (x ∷ []) ys l = ((l.0, l.1, tt), l.2)
Links-parts h prev (x ∷ y ∷ xs) ys l =
    let (p, r) = Links-parts h x.0 (y ∷ xs) ys l.2 in ((l.0, l.1, p), r)

pub Links-of :
    (h : Heap) (prev : Ptr) (xs ys : Cells)
    → Part h prev xs (first ys null)
    → Links h (last_or prev xs) ys
    → Links h prev (xs ++ ys)
Links-of h prev [] ys p l = l
Links-of h prev (x ∷ []) ys p l = (p.0, p.1, l)
Links-of h prev (x ∷ y ∷ xs) ys p l = (p.0, p.1, Links-of h x.0 (y ∷ xs) ys p.2 l)

-- the last cell is one of them
pub last_in :
    (prev : Ptr) (c : Ptr × Ptr) (cs : Cells) (a : Ptr)
    → has a (c ∷ cs) ≡ false
    → (a == last_or prev (c ∷ cs)) ≡ false
last_in prev c [] a e = ground (arith, e)
last_in prev c (d ∷ cs) a e = last_in c.0 d cs a (ground (arith, e))

-- the last item of a part, which can be linked to another item
pub Part-end :
    (h : Heap) (prev : Ptr) (c : Ptr × Ptr) (cs : Cells) (end : Ptr)
    → Part h prev (c ∷ cs) end
    → IsDistinct (c ∷ cs)
    → let a = last_or prev (c ∷ cs) in
      (i : ListItem) × (a ≢ null)
      × (h a ≡ some i)
      × ((q : Ptr) → Part (write h a (some (record i { next = q }))) prev (c ∷ cs) q)
Part-end h prev c [] end p dist = (item c.1 end prev, p.0, p.1, λ q. (p.0, write_same h c.0 _, tt))
Part-end h prev c (d ∷ cs) end p dist =
    let (i, some_a, there, relink) = Part-end h c.0 d cs end p.2 dist.1 in
    let a = last_or c.0 (d ∷ cs) in
    (
      i,
      some_a,
      there,
      λ q. (p.0, write_other h a c.0 _ (last_in c.0 d cs c.0 dist.0) ∙ p.1, relink q),
    )

-- the first item of the rest, which can be linked back to another item
pub Links-start :
    (h : Heap) (prev : Ptr) (c : Ptr × Ptr) (cs : Cells) (q : Ptr)
    → Links h prev (c ∷ cs)
    → has c.0 cs ≡ false
    → Links (write h c.0 (some (item c.1 (first cs null) q))) q (c ∷ cs)
Links-start h prev c cs q l out = (l.0, write_same h c.0 _, Links-write h c.0 cs c.0 _ l.2 out)
