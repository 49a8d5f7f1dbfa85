-- ===== src/DList/Chain.antt =====
-- What a DList on its heap stands for: the addresses and data of its items, in order.
use datatypes.Base.{◌≡◌, refl, ◌≢◌, false, Option, none, some, [], ◌∷◌, arith, ◌==◌, ok, length}
use datatypes.Callbacks.{Ptr, null}
use datatypes.SList.Chain.{Cells, first, last, has, IsDistinct}
use datatypes.DList.{ListItem, item, Heap, State, write, load}

-- The items of the cells are on the heap, each linked to the next, the last one to NULL, and back to
-- the one before, the first one to `prev`.
abbrev pub Links : Heap → Ptr → Cells → Type 0
Links h prev [] = Unit
Links h prev (c ∷ cs) =
    (c.0 ≢ null) × (h c.0 ≡ some (item c.1 (first cs null) prev)) × Links h c.0 cs

pub record IsList (st : State) (xs : Cells) : Type 0 where
  pub links : Links st.heap null xs
  pub distinct : IsDistinct xs
  pub head : st.list.head ≡ first xs null
  pub tail : st.list.tail ≡ last xs
  pub count : st.list.count ≡ length xs

-- an address that can be handed out: not NULL, and not in use
abbrev pub IsFresh : State → Ptr → Type 0
IsFresh st p = (p ≢ null) × (st.heap p ≡ none)

-- a write elsewhere keeps the links
pub Links-write :
    (h : Heap) (prev : Ptr) (xs : Cells) (a : Ptr) (c : Option ListItem)
    → Links h prev xs
    → has a xs ≡ false
    → Links (write h a c) prev xs
unfolding write
Links-write h prev [] a c l out = tt
Links-write h prev (x ∷ xs) a c l out =
    (l.0, ground (arith, l.1), Links-write h x.0 xs a c l.2 (ground arith))

pub has_unused :
    (h : Heap) (prev : Ptr) (xs : Cells) (a : Ptr) → Links h prev xs → h a ≡ none → has a xs ≡ false
has_unused h prev [] a l e = refl
has_unused h prev (x ∷ xs) a l e = ground (arith, l.1, has_unused h x.0 xs a l.2 e)

-- the item behind a write
pub write_same : (h : Heap) (a : Ptr) (c : Option ListItem) → write h a c a ≡ c
unfolding write
write_same h a c = ground arith

pub write_other :
    (h : Heap) (a b : Ptr) (c : Option ListItem) → (b == a) ≡ false → write h a c b ≡ h b
unfolding write
write_other h a b c e = ground (arith, e)

pub load-ok :
    (st : State) (p : Ptr) (i : ListItem) → p ≢ null → st.heap p ≡ some i → load p st ≡ ok (i, st)
unfolding load
load-ok st p i some_p e = let n : (p == null) ≡ false = ground (arith, some_p) in rw (n, e)
