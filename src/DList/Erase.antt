-- ===== src/DList/Erase.antt =====
-- The doubly-linked list from _list_detach on: removal, search and release.
use datatypes.Base.{ℕ, zero, suc, ◌+◌, ◌-◌, Bool, not, ◌++◌, ok, out_of_fuel, ◌==◌, if◌then◌else◌}
use datatypes.Commands.{pure, ◌>>=◌, ◌>>◌}
use datatypes.Callbacks.{Ptr, null, CompareFunc, by_sign, free_value}
use datatypes.DList.{
  State, Cmd, get_list, set_list, load, store, release, item_free, set_prev, at_head, at_tail,
  at_next, at_prev, write_slot,
}

-- _list_detach
unfoldable pub detach : Ptr → Cmd (Unit {0})
detach p = do
  i ← load p
  write_slot (if i.prev == null then at_head else at_next i.prev) i.next
  write_slot (if i.next == null then at_tail else at_prev i.next) i.prev

unfoldable pub remove : Ptr → Cmd (Unit {0})
remove p = do detach p; item_free p; l ← get_list; set_list (record l { count = l.count - 1 })

-- the loop of list_remove_by_data
unfoldable pub remove_by_data_loop : CompareFunc → ℕ → Ptr → Bool → Ptr → Cmd (Unit {0})
remove_by_data_loop compare zero d all iter = λ _. out_of_fuel
remove_by_data_loop compare (suc fuel) d all iter = if iter == null then pure tt else (do
  i ← load iter
  let later = remove_by_data_loop compare fuel d all i.next
  by_sign (compare i.it_data d) later (do remove iter; (if all then later else pure tt)) later)

unfoldable pub remove_by_data : CompareFunc → Ptr → Bool → Cmd (Unit {0})
remove_by_data compare d all = do
  l ← get_list
  remove_by_data_loop compare (l.count + 1) d all l.head

unfoldable pub pop : Cmd Ptr
pop = do
  l ← get_list
  if not (l.head == null)
      then (do
        i ← load l.head
        (if not (i.next == null)
            then (do set_list (record l { head = i.next }); set_prev i.next null)
            else set_list (record l { head = null; tail = null }))
        release l.head
        l' ← get_list
        set_list (record l' { count = l'.count - 1 })
        pure i.it_data)
      else pure null

-- The loop of _list_find, which looks at both ends in turn; `end` may pass `begin`.
unfoldable pub find_loop : CompareFunc → ℕ → Ptr → Ptr → Ptr → Cmd Ptr
find_loop compare zero begin end d = λ _. out_of_fuel
find_loop compare (suc fuel) begin end d = if begin == null then pure null else (do
  b ← load begin
  let from_end = (do
    e ← load end
    let later = (if b.next == end then pure null else find_loop compare fuel b.next e.prev d)
    by_sign (compare e.it_data d) later (pure end) later)
  by_sign (compare b.it_data d) from_end (pure begin) from_end)

unfoldable pub find : CompareFunc → Ptr → Ptr → Cmd Ptr
find compare offset d = do
  l ← get_list
  find_loop compare (l.count + 1) (if offset == null then l.head else offset) l.tail d

unfoldable pub contains : CompareFunc → Ptr → Cmd Bool
contains compare d = do p ← find compare null d; pure (not (p == null))

-- the loop of list_free
unfoldable pub free_loop : ℕ → Ptr → Cmd (Unit {0})
free_loop zero iter = λ _. out_of_fuel
free_loop (suc fuel) iter =
    if iter == null then pure tt else (do i ← load iter; item_free iter; free_loop fuel i.next)

unfoldable pub free : Cmd (Unit {0})
free = do l ← get_list; free_loop (l.count + 1) l.head

unfoldable pub clear : Cmd (Unit {0})
clear = do free; l ← get_list; set_list (record l { count = 0; head = null; tail = null })

unfoldable pub item_free_data : Ptr → Cmd (Unit {0})
item_free_data p = do
  i ← load p
  store p (record i { it_data = null })
  λ st. ok (tt, record st { freed = st.freed ++ free_value st.list.frees i.it_data })

-- list_count, list_head, list_tail and list_empty
abbrev pub count : State → ℕ
count st = st.list.count

abbrev pub head : State → Ptr
head st = st.list.head

abbrev pub tail : State → Ptr
tail st = st.list.tail

abbrev pub is_empty : State → Bool
is_empty st = st.list.head == null
