-- ===== src/Queues/Examples.antt =====
-- Stack and queue at concrete lists.
use datatypes.Base.{◌≡◌, refl, false, none, some, [], ◌∷◌, ◌++◌, arith, ok, Returns, length}
use mathlib.Core.List.{reverse}
use datatypes.Callbacks.{null}
use datatypes.SList.{item, State, ◌>>◌, write}
use datatypes.SList.Chain.{Cells, IsList}
use datatypes.Queues.{stack_pop, stack_head, stack_push, queue_push}
use datatypes.Queues.Orders.{
  items, Takes, shown, push_all, drain, AllFresh, pushed, readers-agree, queue-fifo, stack-lifo,
}

-- what the theorems' hypotheses compute with
program : Unit {0}
unfolding write
program = tt

abbrev sample_cells : Cells
sample_cells = (7, 10) ∷ (8, 20) ∷ []

-- the items 10 and 20 at the addresses 7 and 8
abbrev sample : State
sample = record {
  list = record { head = 7; tail = 8; count = 2; frees = false };
  heap = write (write (λ a. none) 7 (some (item 10 8))) 8 (some (item 20 null));
  freed = [];
}

sample-IsList : IsList sample sample_cells
unfolding program
sample-IsList = record {
  links = (omega arith, refl, (omega arith, refl, tt));
  distinct = (refl, (refl, tt));
  head = refl;
  tail = refl;
  count = refl;
}

abbrev new_cells : Cells
new_cells = (1, 30) ∷ (2, 40) ∷ (9, 50) ∷ []

new_cells-AllFresh : AllFresh sample new_cells
unfolding program
new_cells-AllFresh =
    ((omega arith, refl), refl, ((omega arith, refl), refl, ((omega arith, refl), refl, tt)))

readers-agree_example :
    (stack_head 5 sample ≡ ok (shown 5 sample_cells, sample))
    × Returns (stack_pop sample) (Takes sample_cells sample)
readers-agree_example = readers-agree sample sample_cells 5 sample-IsList

queue-fifo_example :
    Returns
      ((do push_all queue_push new_cells; drain (length (sample_cells ++ new_cells))) sample)
      λ (ds, st'). (ds ≡ items sample_cells ++ items new_cells) × IsList st' []
queue-fifo_example =
    queue-fifo sample sample_cells new_cells sample-IsList new_cells-AllFresh (omega arith)

stack-lifo_example :
    Returns
      ((do push_all stack_push new_cells; drain (length (pushed sample_cells new_cells))) sample)
      λ (ds, st'). (ds ≡ reverse (items new_cells) ++ items sample_cells) × IsList st' []
stack-lifo_example =
    stack-lifo sample sample_cells new_cells sample-IsList new_cells-AllFresh (omega arith)
