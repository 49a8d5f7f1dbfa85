-- ===== src/SList.antt =====
-- The singly-linked list: slist.h and slist.c, with its items on an explicit heap. A command takes the
-- state, the SList and the heap together, and returns a result and the new state. An item comes from
-- a pool or from malloc; either way the address is the argument `fresh` of the command, and a
-- released item is no longer on the heap. `freed` collects the calls of the list's FreeFunc. Loops
-- run on fuel, one round more than the list has items.
pub mod Chain
pub mod Ends
pub mod Remove
pub mod Walk
pub mod Examples
use datatypes.Base.{
  ℕ, zero, suc, ◌+◌, ◌-◌, Bool, false, not, ◌||◌, Option, none, some, List, ◌++◌, Run, ok, fault,
  out_of_fuel, ltb, ◌==◌, if◌then◌else◌, word,
}
pub use datatypes.Commands.{pure, and_then, ◌>>=◌, ◌>>◌}
use datatypes.Commands.{Command}
use datatypes.Callbacks.{Ptr, null, CompareFunc, by_sign, Freed, free_value}

-- SListItem: it_data is the field `data`
pub record Item : Type 0 where
  pub it_data : Ptr
  pub next : Ptr

abbrev pub item : Ptr → Ptr → Item
item d n = record { it_data = d; next = n }

abbrev pub Heap : Type 0
Heap = Ptr → Option Item

pub record SList : Type 0 where
  pub head : Ptr
  pub tail : Ptr
  pub count : ℕ
  pub frees : Bool

abbrev pub init : Bool → SList
init frees = record { head = null; tail = null; count = 0; frees = frees }

pub record State : Type 0 where
  pub list : SList
  pub heap : Heap
  pub freed : List Freed

abbrev pub Cmd : Type 0 → Type 0
Cmd A = Command State A

unfoldable pub write : Heap → Ptr → Option Item → Heap
write h p c a = if a == p then c else h a

-- *p, a fault at NULL and at an address that holds no item
unfoldable pub load : Ptr → Cmd Item
load p st = if p == null then fault else elim (st.heap p) [ none ↦ fault | some i ↦ ok (i, st) ]

-- p->next = q
unfoldable pub set_next : Ptr → Ptr → Cmd (Unit {0})
set_next p q = do
  i ← load p
  λ st. ok (tt, record st { heap = write st.heap p (some (item i.it_data q)) })

abbrev pub get_list : Cmd SList
get_list st = ok (st.list, st)

abbrev pub set_list : SList → Cmd (Unit {0})
set_list l st = ok (tt, record st { list = l })

-- _slist_item_new
unfoldable pub item_new : Ptr → Ptr → Cmd (Unit {0})
item_new fresh d st = ok (tt, record st { heap = write st.heap fresh (some (item d null)) })

-- pool->free(pool, p) or free(p)
unfoldable pub release : Ptr → Cmd (Unit {0})
release p = do _ ← load p; λ st. ok (tt, record st { heap = write st.heap p none })

-- _slist_item_free
unfoldable pub item_free : Ptr → Cmd (Unit {0})
item_free p = do
  i ← load p
  release p
  λ st. ok (tt, record st { freed = st.freed ++ free_value st.list.frees i.it_data })

unfoldable pub append : Ptr → Ptr → Cmd Ptr
append fresh d = do
  l ← get_list
  if ltb l.count (word - 1)
      then (do
        item_new fresh d
        (if not (l.head == null)
            then set_next l.tail fresh
            else set_list (record l { head = fresh }))
        l' ← get_list
        set_list (record l' { tail = fresh; count = l'.count + 1 })
        pure fresh)
      else pure null

unfoldable pub prepend : Ptr → Ptr → Cmd Ptr
prepend fresh d = do
  l ← get_list
  if ltb l.count (word - 1)
      then (do
        item_new fresh d
        set_next fresh l.head
        set_list (record l {
          head = fresh;
          tail = if l.tail == null then fresh else l.tail;
          count = l.count + 1;
        })
        pure fresh)
      else pure null

unfoldable pub pop : Cmd Ptr
pop = do
  l ← get_list
  if not (l.head == null)
      then (do
        i ← load l.head
        release l.head
        set_list (record l {
          head = i.next;
          tail = if i.next == null then null else l.tail;
          count = l.count - 1;
        })
        pure i.it_data)
      else pure null

-- `SListItem **ptr`: the address of list->head or of an item's `next`
pub data Slot : Type 0 where
  at_head : Slot
  at_next : Ptr → Slot

unfoldable pub read_slot : Slot → Cmd Ptr
read_slot at_head = do l ← get_list; pure l.head
read_slot (at_next p) = do i ← load p; pure i.next

unfoldable pub write_slot : Slot → Ptr → Cmd (Unit {0})
write_slot at_head q = do l ← get_list; set_list (record l { head = q })
write_slot (at_next p) q = set_next p q

-- what the loop of slist_remove does when the slot points to the item
unfoldable pub remove_found : Ptr → Slot → Ptr → Cmd (Unit {0})
remove_found p slot tail = do
  i ← load p
  l ← get_list
  (if i.next == null then set_list (record l { tail = tail }) else pure tt)
  write_slot slot i.next
  item_free p
  l' ← get_list
  set_list (record l' { count = l'.count - 1 })

-- the loop of slist_remove
unfoldable pub remove_loop : ℕ → Ptr → Slot → Ptr → Cmd (Unit {0})
remove_loop zero p slot tail = λ _. out_of_fuel
remove_loop (suc fuel) p slot tail = do
  q ← read_slot slot
  if q == null
      then pure tt
      else if q == p
      then remove_found p slot tail
      else remove_loop fuel p (at_next q) q

unfoldable pub remove : Ptr → Cmd (Unit {0})
remove p = do l ← get_list; remove_loop (l.count + 1) p at_head null

-- the loop of slist_remove_by_data
unfoldable pub remove_by_data_loop :
    CompareFunc → ℕ → Ptr → Bool → Slot → Ptr → Bool → Cmd (Unit {0})
remove_by_data_loop compare zero d all slot tail completed = λ _. out_of_fuel
remove_by_data_loop compare (suc fuel) d all slot tail completed = do
  q ← read_slot slot
  if (q == null) || completed then pure tt else (do
    i ← load q
    let skip = remove_by_data_loop compare fuel d all (at_next q) q false
    let drop = (do
      l ← get_list
      (if i.next == null then set_list (record l { tail = tail }) else pure tt)
      item_free q
      write_slot slot i.next
      l' ← get_list
      set_list (record l' { count = l'.count - 1 })
      remove_by_data_loop compare fuel d all slot tail (not all))
    by_sign (compare i.it_data d) skip drop skip)

unfoldable pub remove_by_data : CompareFunc → Ptr → Bool → Cmd (Unit {0})
remove_by_data compare d all = do
  l ← get_list
  remove_by_data_loop compare (l.count + 1) d all at_head null false

-- the loop of _slist_prepend_new_sorted, which ends behind the last item or puts the new one in
unfoldable pub sorted_loop : CompareFunc → ℕ → Ptr → Ptr → Slot → Cmd (Unit {0})
sorted_loop compare zero d fresh slot = λ _. out_of_fuel
sorted_loop compare (suc fuel) d fresh slot = do
  q ← read_slot slot
  if q == null then pure tt else (do
    i ← load q
    let here = (do set_next fresh q; write_slot slot fresh)
    by_sign (compare i.it_data d) (sorted_loop compare fuel d fresh (at_next q)) here here)

unfoldable pub prepend_new_sorted : CompareFunc → Ptr → Ptr → Cmd Ptr
prepend_new_sorted compare fresh d = do
  l ← get_list
  item_new fresh d
  sorted_loop compare (l.count + 1) d fresh at_head
  l' ← get_list
  set_list (record l' { count = l'.count + 1 })
  pure fresh

unfoldable pub insert_sorted : CompareFunc → Ptr → Ptr → Cmd Ptr
insert_sorted compare fresh d = do
  l ← get_list
  if ltb l.count (word - 1)
      then (if not (l.count == 0)
          then (do
            last ← load l.tail
            by_sign (compare last.it_data d) (append fresh d) (append fresh d)
                (prepend_new_sorted compare fresh d))
          else (do
            item_new fresh d
            set_list (record l { head = fresh; tail = fresh; count = 1 })
            pure fresh))
      else pure null

-- the loop of _slist_find from `iter` on
unfoldable pub find_loop : CompareFunc → ℕ → Ptr → Ptr → Cmd Ptr
find_loop compare zero iter d = λ _. out_of_fuel
find_loop compare (suc fuel) iter d = if iter == null then pure null else (do
  i ← load iter
  let later = find_loop compare fuel i.next d
  by_sign (compare i.it_data d) later (pure iter) later)

unfoldable pub find : CompareFunc → Ptr → Ptr → Cmd Ptr
find compare offset d = do
  l ← get_list
  find_loop compare (l.count + 1) (if offset == null then l.head else offset) d

unfoldable pub contains : CompareFunc → Ptr → Cmd Bool
contains compare d = do p ← find compare null d; pure (not (p == null))

-- the loop of slist_free
unfoldable pub free_loop : ℕ → Ptr → Cmd (Unit {0})
free_loop zero iter = λ _. out_of_fuel
free_loop (suc fuel) iter =
    if iter == null then pure tt else (do i ← load iter; item_free iter; free_loop fuel i.next)

unfoldable pub free : Cmd (Unit {0})
free = do l ← get_list; free_loop (l.count + 1) l.head

unfoldable pub clear : Cmd (Unit {0})
clear = do free; l ← get_list; set_list (record l { count = 0; head = null; tail = null })

unfoldable pub item_free_data : Ptr → Cmd (Unit {0})
item_free_data p = do
  i ← load p
  λ st. ok (
    tt,
    record st {
      heap = write st.heap p (some (item null i.next));
      freed = st.freed ++ free_value st.list.frees i.it_data;
    },
  )

-- slist_count, slist_head and slist_empty
abbrev pub count : State → ℕ
count st = st.list.count

abbrev pub head : State → Ptr
head st = st.list.head

abbrev pub is_empty : State → Bool
is_empty st = st.list.head == null
