-- ===== src/SList/Examples.antt =====
-- Runs of the list, and its theorems at a concrete list.
use datatypes.Base.{
  compare, ◌≡◌, refl, Bool, true, none, some, [], ◌∷◌, ◌++◌, arith, if◌then◌else◌, ok, Returns,
}
use datatypes.Callbacks.{Ptr, null, Freed, free_value}
use datatypes.SList.{
  init, item, Heap, State, Cmd, ◌>>=◌, ◌>>◌, write, load, set_next, release, item_new, item_free,
  append, prepend, pop, read_slot, write_slot, remove_found, remove_loop, remove,
  remove_by_data_loop, remove_by_data, sorted_loop, prepend_new_sorted, insert_sorted, find_loop,
  find, contains, free_loop, free, clear,
}
use datatypes.SList.Chain.{Cells, has, IsList, IsFresh}
use datatypes.SList.Ends.{Appends, Prepends, Pops, append-Appends, prepend-Prepends, pop-Pops}
use datatypes.SList.Remove.{Unlinks, remove-Unlinks}
use datatypes.SList.Walk.{find_cell, free_all, find-find_cell, clear_lem}

-- what the runs compute with
program : Unit {0}
unfolding write load set_next release item_new item_free append prepend pop read_slot write_slot
    remove_found remove_loop remove remove_by_data_loop remove_by_data sorted_loop
    prepend_new_sorted insert_sorted find_loop find contains free_loop free clear free_value
program = tt

abbrev no_items : Heap
no_items a = none

-- a new list with a FreeFunc
abbrev new_list : State
new_list = record { list = init true; heap = no_items; freed = [] }

abbrev sample_cells : Cells
sample_cells = (1, 10) ∷ (2, 20) ∷ (3, 30) ∷ []

-- the items 10, 20 and 30 at the addresses 1, 2 and 3
abbrev sample : State
sample = record {
  list = record { head = 1; tail = 3; count = 3; frees = true };
  heap =
      write (write (write no_items 1 (some (item 10 2))) 2 (some (item 20 3))) 3
        (some (item 30 null));
  freed = [];
}

sample-IsList : IsList sample sample_cells
unfolding program
sample-IsList = record {
  links = (omega arith, refl, (omega arith, refl, (omega arith, refl, tt)));
  distinct = (refl, (refl, (refl, tt)));
  head = refl;
  tail = refl;
  count = refl;
}

four-IsFresh : IsFresh sample 4
unfolding program
four-IsFresh = (omega arith, refl)

-- 20 and 40 behind, 10 in front, 30 and 30 in their places, and all 30 out again
abbrev session : Cmd Bool
session = do
  _ ← append 1 20
  _ ← append 2 40
  _ ← prepend 3 10
  _ ← insert_sorted compare 4 30
  _ ← insert_sorted compare 5 30
  remove_by_data compare 30 true
  remove 2
  contains compare 20

session_runs : Returns (session new_list) λ (found, st).
    (found ≡ true)
    × IsList st ((3, 10) ∷ (1, 20) ∷ [])
    × (st.freed ≡ Freed.value 30 ∷ Freed.value 30 ∷ Freed.value 40 ∷ [])
unfolding program
session_runs = (
  _,
  refl,
  (
    refl,
    record {
      links = (omega arith, refl, (omega arith, refl, tt));
      distinct = (refl, (refl, tt));
      head = refl;
      tail = refl;
      count = refl;
    },
    refl,
  ),
)

append-Appends_example : Returns (append 4 40 sample) (Appends sample_cells 4 40 sample)
append-Appends_example =
    append-Appends sample sample_cells sample-IsList 4 40 four-IsFresh (omega arith)

prepend-Prepends_example : Returns (prepend 4 40 sample) (Prepends sample_cells 4 40 sample)
prepend-Prepends_example =
    prepend-Prepends sample sample_cells sample-IsList 4 40 four-IsFresh (omega arith)

pop-Pops_example : Returns (pop sample) (Pops ((2, 20) ∷ (3, 30) ∷ []) (1, 10) sample)
pop-Pops_example = pop-Pops sample (1, 10) ((2, 20) ∷ (3, 30) ∷ []) sample-IsList

remove-Unlinks_example :
    Returns (remove 2 sample) λ (_, st'). Unlinks ((1, 10) ∷ []) (2, 20) ((3, 30) ∷ []) sample st'
remove-Unlinks_example = remove-Unlinks sample ((1, 10) ∷ []) (2, 20) ((3, 30) ∷ []) sample-IsList

find-find_cell_example :
    (find compare null 30 sample ≡ ok (find_cell compare 30 sample_cells, sample))
    × (find compare 2 30 sample ≡ ok (find_cell compare 30 ((2, 20) ∷ (3, 30) ∷ []), sample))
find-find_cell_example =
    find-find_cell compare sample 30 ((1, 10) ∷ []) ((2, 20) ∷ (3, 30) ∷ []) sample-IsList

clear_lem_example : Returns (clear sample) λ (_, st').
    IsList st' []
    × ((a : Ptr) → st'.heap a ≡ (if has a sample_cells then none else sample.heap a))
    × (st'.freed ≡ sample.freed ++ free_all sample.list.frees sample_cells)
clear_lem_example = clear_lem sample sample_cells sample-IsList
