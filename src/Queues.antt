-- ===== src/Queues.antt =====
-- The stack and the queue: stack.h, stack.c and queue.h. Both are an SList, and most of their names
-- are macros for its functions. A function that stores through `void **data` returns what it stores.
pub mod Orders
pub mod Examples
use datatypes.Base.{ℕ, Bool, true, false, Run, ok, ◌==◌, if◌then◌else◌}
use datatypes.Callbacks.{Ptr, null}
use datatypes.SList
use datatypes.SList.{State, Cmd, pure, get_list, ◌>>=◌, ◌>>◌, load}

-- stack_pop; `(success, *data)`
unfoldable pub stack_pop : Cmd (Bool × Ptr)
stack_pop = do
  l ← get_list
  if l.count == 0 then pure (false, null) else (do ptr ← SList.pop; pure (true, ptr))

-- stack_head; `*data` is stored only on success
unfoldable pub stack_head : Ptr → Cmd (Bool × Ptr)
stack_head data₀ = do
  l ← get_list
  if l.head == null then pure (false, data₀) else (do i ← load l.head; pure (true, i.it_data))

abbrev pub stack_push : Ptr → Ptr → Cmd Ptr
stack_push = SList.prepend

abbrev pub queue_push : Ptr → Ptr → Cmd Ptr
queue_push = SList.append

abbrev pub queue_pop : Cmd (Bool × Ptr)
queue_pop = stack_pop

abbrev pub queue_head : Ptr → Cmd (Bool × Ptr)
queue_head = stack_head

abbrev pub queue_count : State → ℕ
queue_count = SList.count

abbrev pub queue_clear : Cmd (Unit {0})
queue_clear = SList.clear
