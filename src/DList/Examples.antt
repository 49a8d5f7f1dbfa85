-- ===== src/DList/Examples.antt =====
-- Runs of the doubly-linked list.
use datatypes.Base.{
  compare, ◌≡◌, refl, true, none, some, [], ◌∷◌, arith, ◌==◌, if◌then◌else◌, fault, Returns,
}
use datatypes.Commands.{pure, ◌>>=◌, ◌>>◌}
use datatypes.Callbacks.{Ptr, null, Freed, free_value}
use datatypes.DList.{
  item, State, Cmd, init, write, load, store, set_next, set_prev, item_new, release, item_free,
  append, prepend, read_slot, write_slot, sorted_loop, prepend_new_sorted, insert_sorted,
}
use datatypes.SList.Chain.{Cells}
use datatypes.DList.Chain.{IsList}
use datatypes.DList.Remove.{Unlinked, remove-Unlinked}
use datatypes.DList.Pop.{Restored, pop-prepend}
use datatypes.DList.Erase.{
  detach, remove, remove_by_data_loop, remove_by_data, pop, find_loop, find, contains, free_loop,
  free, clear, item_free_data,
}

program : Unit {0}
unfolding write load store set_next set_prev item_new release item_free append prepend read_slot
    write_slot sorted_loop prepend_new_sorted insert_sorted detach remove remove_by_data_loop
    remove_by_data pop find_loop find contains free_loop free clear item_free_data free_value
program = tt

abbrev empty : State
empty = record { list = init true; heap = λ a. none; freed = [] }

-- 5 and 6 behind 4, of which 5 and then the head go away; a search from both ends
session : Cmd (Ptr × Ptr)
session = do
  _ ← append 100 5
  _ ← append 200 6
  _ ← prepend 300 4
  remove 100
  found ← find compare 0 6
  d ← pop
  pure (found, d)

session_run : Returns (session empty) λ (found, st).
    (found ≡ (200, 4))
    × (st.list ≡ record { head = 200; tail = 200; count = 1; frees = true })
    × (st.heap 200 ≡ some (item 6 null null))
    × (st.heap 100 ≡ none)
    × (st.heap 300 ≡ none)
    × (st.freed ≡ Freed.value 5 ∷ [])
unfolding session program
session_run = (_, refl, (refl, refl, refl, refl, refl, refl))

-- A number that belongs between the head and the tail: the loop of _list_prepend_new_sorted steps to
-- the `next` of the head's `prev`, which is NULL.
insert_between : Cmd Ptr
insert_between = do _ ← append 100 1; _ ← append 200 3; insert_sorted compare 300 2

insert_between_run : insert_between empty ≡ fault
unfolding insert_between program
insert_between_run = refl

-- the list of 5 and 6
abbrev sample : State
sample = record {
  list = record { head = 100; tail = 200; count = 2; frees = true };
  heap = λ a.
      if a == 100
      then some (item 5 200 null)
      else if a == 200
      then some (item 6 null 100)
      else none;
  freed = [];
}

abbrev sample_cells : Cells
sample_cells = (100, 5) ∷ (200, 6) ∷ []

sample-IsList : IsList sample sample_cells
sample-IsList = record {
  links = (omega arith, refl, (omega arith, refl, tt));
  distinct = (refl, (refl, tt));
  head = refl;
  tail = refl;
  count = refl;
}

pop-prepend_example : Returns (prepend 300 4 sample) λ (p, st).
    (p ≡ 300)
    × IsList st ((300, 4) ∷ sample_cells)
    × Returns (pop st) (Restored sample sample_cells 300 4)
pop-prepend_example =
    pop-prepend sample sample_cells 300 4 sample-IsList (omega arith, refl) (omega arith)

remove-Unlinked_example :
    Returns (remove 200 sample) λ (_, st). Unlinked sample ((100, 5) ∷ []) (200, 6) [] st
remove-Unlinked_example = remove-Unlinked sample ((100, 5) ∷ []) (200, 6) [] sample-IsList
