-- ===== src/SList/Chain.antt =====
-- What an SList on its heap stands for: the addresses and data of its items, in order.
use datatypes.Base.{
  ◌<◌, ◌≡◌, ◌≢◌, refl, ◌∙◌, Bool, true, false, ◌||◌, Option, none, some, List, [], ◌∷◌, ◌++◌, arith,
  ok, ◌==◌, length,
}
use datatypes.Callbacks.{Ptr, null}
use datatypes.SList.{Item, item, Heap, State, write, load, set_next, release}

abbrev pub Cells : Type 0
Cells = List (Ptr × Ptr)

-- the address of the first cell, or `end` if there is none
abbrev pub first : Cells → Ptr → Ptr
first [] end = end
first (c ∷ cs) end = c.0

-- the address of the last cell, NULL if there is none
abbrev pub last : Cells → Ptr
last [] = null
last (c ∷ []) = c.0
last (c ∷ d ∷ cs) = last (d ∷ cs)

abbrev pub has : Ptr → Cells → Bool
has a [] = false
has a (c ∷ cs) = (a == c.0) || has a cs

-- the items of the cells are on the heap, each linked to the next, the last one to `end`
abbrev pub Links : Heap → Cells → Ptr → Type 0
Links h [] end = Unit
Links h (c ∷ cs) end = (c.0 ≢ null) × (h c.0 ≡ some (item c.1 (first cs end))) × Links h cs end

-- no address occurs twice
abbrev pub IsDistinct : Cells → Type 0
IsDistinct [] = Unit
IsDistinct (c ∷ cs) = (has c.0 cs ≡ false) × IsDistinct cs

pub record IsList (st : State) (xs : Cells) : Type 0 where
  pub links : Links st.heap xs null
  pub distinct : IsDistinct xs
  pub head : st.list.head ≡ first xs null
  pub tail : st.list.tail ≡ last xs
  pub count : st.list.count ≡ length xs

-- an address that can be handed out: not NULL, and not in use
abbrev pub IsFresh : State → Ptr → Type 0
IsFresh st p = (p ≢ null) × (st.heap p ≡ none)

-- a write elsewhere keeps the links
pub Links-write :
    (h : Heap) (xs : Cells) (end a : Ptr) (c : Option Item)
    → Links h xs end
    → has a xs ≡ false
    → Links (write h a c) xs end
unfolding write
Links-write h [] end a c l out = tt
Links-write h (x ∷ xs) end a c l out =
    (l.0, ground (arith, l.1), Links-write h xs end a c l.2 (ground arith))

pub has_unused :
    (h : Heap) (xs : Cells) (end a : Ptr) → Links h xs end → h a ≡ none → has a xs ≡ false
has_unused h [] end a l e = refl
has_unused h (x ∷ xs) end a l e = ground (arith, l.1, has_unused h xs end a l.2 e)

pub has-append :
    (p : Ptr) (front back : Cells) → has p (front ++ back) ≡ (has p front || has p back)
has-append p [] back = refl
has-append p (c ∷ front) back = ground (arith, has-append p front back)

pub Links-append :
    (h : Heap) (xs ys : Cells) (end : Ptr)
    → Links h xs (first ys end)
    → Links h ys end
    → Links h (xs ++ ys) end
Links-append h [] ys end l r = r
Links-append h (x ∷ []) ys end l r = (l.0, l.1, r)
Links-append h (x ∷ y ∷ xs) ys end l r = (l.0, l.1, Links-append h (y ∷ xs) ys end l.2 r)

pub last-append : (xs : Cells) (c : Ptr × Ptr) → last (xs ++ c ∷ []) ≡ c.0
last-append [] c = refl
last-append (x ∷ []) c = refl
last-append (x ∷ y ∷ xs) c = last-append (y ∷ xs) c

pub last-ne :
    (h : Heap) (xs : Cells) (c : Ptr × Ptr) (end : Ptr)
    → Links h (c ∷ xs) end
    → last (c ∷ xs) ≢ null
last-ne h [] c end l = l.0
last-ne h (x ∷ xs) c end l = last-ne h xs x end l.2

-- the heap after a change of the `next` of the last cell
abbrev pub relink : Heap → Cells → Ptr → Heap
relink h [] q = h
relink h (c ∷ []) q = write h c.0 (some (item c.1 q))
relink h (c ∷ d ∷ cs) q = relink h (d ∷ cs) q

pub relink_outside : (h : Heap) (xs : Cells) (q a : Ptr) → has a xs ≡ false → relink h xs q a ≡ h a
unfolding write
relink_outside h [] q a out = refl
relink_outside h (x ∷ []) q a out = ground arith
relink_outside h (x ∷ y ∷ xs) q a out = relink_outside h (y ∷ xs) q a (ground arith)

pub Links-relink :
    (h : Heap) (xs : Cells) (end q : Ptr)
    → Links h xs end
    → IsDistinct xs
    → Links (relink h xs q) xs q
unfolding write
Links-relink h [] end q l d = tt
Links-relink h (x ∷ []) end q l d = (l.0, ground arith, tt)
Links-relink h (x ∷ y ∷ xs) end q l d =
    (l.0, relink_outside h (y ∷ xs) q x.0 d.0 ∙ l.1, Links-relink h (y ∷ xs) end q l.2 d.1)

-- the links of cells that a heap change leaves alone
pub Links-frame :
    (h g : Heap) (xs : Cells) (end : Ptr)
    → Links h xs end
    → ((a : Ptr) → has a xs ≡ true → g a ≡ h a)
    → Links g xs end
Links-frame h g [] end l same = tt
Links-frame h g (x ∷ xs) end l same =
    (l.0, same x.0 (ground arith) ∙ l.1, Links-frame h g xs end l.2 λ a i. same a (ground arith))

pub load-ok :
    (st : State) (p : Ptr) (i : Item) → p ≢ null → st.heap p ≡ some i → load p st ≡ ok (i, st)
unfolding load
load-ok st p i ne e = ground (arith, e)

pub release-ok :
    (st : State) (p : Ptr) (i : Item)
    → p ≢ null
    → st.heap p ≡ some i
    → release p st ≡ ok (tt, record st { heap = write st.heap p none })
unfolding release
release-ok st p i ne e = rw (load-ok st p i ne e)

-- p->next = q at the last cell
pub set_next-relink :
    (st : State) (xs : Cells) (end q : Ptr)
    → Links st.heap xs end
    → 0 < length xs
    → set_next (last xs) q st ≡ ok (tt, record st { heap = relink st.heap xs q })
unfolding set_next
set_next-relink st [] end q l pos = absurd (omega arith)
set_next-relink st (x ∷ []) end q l pos = rw (load-ok st x.0 _ l.0 l.1)
set_next-relink st (x ∷ y ∷ xs) end q l pos = set_next-relink st (y ∷ xs) end q l.2 (omega arith)

-- a list in two parts
pub Links-append_parts :
    (h : Heap) (xs ys : Cells) (end : Ptr)
    → Links h (xs ++ ys) end
    → Links h xs (first ys end) × Links h ys end
Links-append_parts h [] ys end l = (tt, l)
Links-append_parts h (x ∷ []) ys end l = ((l.0, l.1, tt), l.2)
Links-append_parts h (x ∷ y ∷ xs) ys end l =
    let (front, back) = Links-append_parts h (y ∷ xs) ys end l.2 in ((l.0, l.1, front), back)

pub IsDistinct-append_parts :
    (xs ys : Cells) → IsDistinct (xs ++ ys) → IsDistinct xs × IsDistinct ys
IsDistinct-append_parts [] ys d = (tt, d)
IsDistinct-append_parts (x ∷ xs) ys d =
    let (front, back) = IsDistinct-append_parts xs ys d.1 in
    ((ground (arith, d.0, has-append x.0 xs ys), front), back)

pub apart : (xs ys : Cells) (a : Ptr) → IsDistinct (xs ++ ys) → has a ys ≡ true → has a xs ≡ false
apart [] ys a d h = refl
apart (x ∷ xs) ys a d h = ground (arith, d.0, has-append x.0 xs ys, apart xs ys a d.1 h)

pub IsDistinct-erase :
    (xs : Cells) (c : Ptr × Ptr) (ys : Cells) → IsDistinct (xs ++ c ∷ ys) → IsDistinct (xs ++ ys)
IsDistinct-erase [] c ys d = d.1
IsDistinct-erase (x ∷ xs) c ys d = (
  ground (arith, d.0, has-append x.0 xs (c ∷ ys), has-append x.0 xs ys),
  IsDistinct-erase xs c ys d.1,
)

pub first-append : (xs ys : Cells) (end : Ptr) → first (xs ++ ys) end ≡ first xs (first ys end)
first-append [] ys end = refl
first-append (x ∷ xs) ys end = refl

pub last-append_cons :
    (xs : Cells) (y : Ptr × Ptr) (ys : Cells) → last (xs ++ y ∷ ys) ≡ last (y ∷ ys)
last-append_cons [] y ys = refl
last-append_cons (x ∷ []) y ys = refl
last-append_cons (x ∷ z ∷ xs) y ys = last-append_cons (z ∷ xs) y ys
