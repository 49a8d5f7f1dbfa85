-- ===== src/DList.antt =====
-- The doubly-linked list: list.h and list.c, with its items on an explicit heap, as in SList. The
-- address of a new item is the argument `fresh`; a released item is no longer on the heap. Loops run
-- on fuel, one round more than the list has items. DList/Erase goes on from _list_detach.
pub mod Erase
pub mod Chain
pub mod Ends
pub mod Pop
pub mod Detach
pub mod Remove
pub mod Examples
use datatypes.Commands.{Command, pure, and_then, ◌>>=◌, ◌>>◌}
use datatypes.Base.{
  ℕ, zero, suc, ◌+◌, ◌-◌, Bool, false, not, ◌||◌, Option, none, some, List, ◌++◌, Run, ok, fault,
  out_of_fuel, ltb, ◌==◌, if◌then◌else◌, word,
}
use datatypes.Callbacks.{Ptr, null, CompareFunc, by_sign, Freed, free_value}

-- ListItem
pub record ListItem : Type 0 where
  pub it_data : Ptr
  pub next : Ptr
  pub prev : Ptr

abbrev pub item : Ptr → Ptr → Ptr → ListItem
item d n p = record { it_data = d; next = n; prev = p }

abbrev pub Heap : Type 0
Heap = Ptr → Option ListItem

pub record DList : Type 0 where
  pub head : Ptr
  pub tail : Ptr
  pub count : ℕ
  pub frees : Bool

-- list_init
abbrev pub init : Bool → DList
init frees = record { head = null; tail = null; count = 0; frees = frees }

pub record State : Type 0 where
  pub list : DList
  pub heap : Heap
  pub freed : List Freed

abbrev pub Cmd : Type 0 → Type 0
Cmd A = Command State A

unfoldable pub write : Heap → Ptr → Option ListItem → Heap
write h p c a = if a == p then c else h a

-- *p, a fault at NULL and at an address that holds no item
unfoldable pub load : Ptr → Cmd ListItem
load p st = if p == null then fault else elim (st.heap p) [ none ↦ fault | some i ↦ ok (i, st) ]

unfoldable pub store : Ptr → ListItem → Cmd (Unit {0})
store p i st = ok (tt, record st { heap = write st.heap p (some i) })

-- p->next = q
unfoldable pub set_next : Ptr → Ptr → Cmd (Unit {0})
set_next p q = do i ← load p; store p (record i { next = q })

-- p->prev = q
unfoldable pub set_prev : Ptr → Ptr → Cmd (Unit {0})
set_prev p q = do i ← load p; store p (record i { prev = q })

abbrev pub get_list : Cmd DList
get_list st = ok (st.list, st)

abbrev pub set_list : DList → Cmd (Unit {0})
set_list l st = ok (tt, record st { list = l })

-- _list_item_new
unfoldable pub item_new : Ptr → Ptr → Cmd (Unit {0})
item_new fresh d = store fresh (item d null null)

-- pool->free(pool, p) or free(p)
unfoldable pub release : Ptr → Cmd (Unit {0})
release p = do _ ← load p; λ st. ok (tt, record st { heap = write st.heap p none })

-- _list_item_free
unfoldable pub item_free : Ptr → Cmd (Unit {0})
item_free p = do
  i ← load p
  release p
  λ st. ok (tt, record st { freed = st.freed ++ free_value st.list.frees i.it_data })

unfoldable pub append : Ptr → Ptr → Cmd Ptr
append fresh d = do
  l ← get_list
  if ltb l.count (word - 1)
      then (do
        item_new fresh d
        (if not (l.head == null)
            then (do set_next l.tail fresh; set_prev fresh l.tail)
            else set_list (record l { head = fresh }))
        l' ← get_list
        set_list (record l' { tail = fresh; count = l'.count + 1 })
        pure fresh)
      else pure null

unfoldable pub prepend : Ptr → Ptr → Cmd Ptr
prepend fresh d = do
  l ← get_list
  if ltb l.count (word - 1)
      then (do
        item_new fresh d
        set_next fresh l.head
        (if not (l.head == null)
            then set_prev l.head fresh
            else set_list (record l { tail = fresh }))
        l' ← get_list
        set_list (record l' { head = fresh; count = l'.count + 1 })
        pure fresh)
      else pure null

-- `ListItem **ptr`: the address of list->head, of list->tail, or of an item's `next` or `prev`
pub data Slot : Type 0 where
  at_head at_tail : Slot
  at_next at_prev : Ptr → Slot

unfoldable pub read_slot : Slot → Cmd Ptr
read_slot at_head = do l ← get_list; pure l.head
read_slot at_tail = do l ← get_list; pure l.tail
read_slot (at_next p) = do i ← load p; pure i.next
read_slot (at_prev p) = do i ← load p; pure i.prev

unfoldable pub write_slot : Slot → Ptr → Cmd (Unit {0})
write_slot at_head q = do l ← get_list; set_list (record l { head = q })
write_slot at_tail q = do l ← get_list; set_list (record l { tail = q })
write_slot (at_next p) q = set_next p q
write_slot (at_prev p) q = set_prev p q

-- The loop of _list_prepend_new_sorted, which ends at NULL or puts the new item in. The step to
-- `&(*ptr)->prev->next` leads back to the slot of the item, and for the head it is a slot at NULL.
unfoldable pub sorted_loop : CompareFunc → ℕ → Ptr → Ptr → Slot → Cmd (Unit {0})
sorted_loop compare zero d fresh slot = λ _. out_of_fuel
sorted_loop compare (suc fuel) d fresh slot = do
  q ← read_slot slot
  if q == null then pure tt else (do
    i ← load q
    let here = (do set_next fresh q; set_prev fresh i.prev; set_prev q fresh; write_slot slot fresh)
    by_sign (compare i.it_data d) (sorted_loop compare fuel d fresh (at_next i.prev)) here here)

unfoldable pub prepend_new_sorted : CompareFunc → Ptr → Ptr → Cmd Ptr
prepend_new_sorted compare fresh d = do
  l ← get_list
  item_new fresh d
  sorted_loop compare (l.count + 1) d fresh at_head
  l' ← get_list
  set_list (record l' { count = l'.count + 1 })
  pure fresh

unfoldable pub insert_sorted : CompareFunc → Ptr → Ptr → Cmd Ptr
insert_sorted compare fresh d = do
  l ← get_list
  if ltb l.count (word - 1)
      then (if not (l.count == 0)
          then (do
            last ← load l.tail
            by_sign (compare last.it_data d) (append fresh d) (append fresh d)
                (prepend_new_sorted compare fresh d))
          else (do
            item_new fresh d
            set_list (record l { head = fresh; tail = fresh; count = 1 })
            pure fresh))
      else pure null
