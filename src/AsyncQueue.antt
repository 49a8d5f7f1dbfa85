-- ===== src/AsyncQueue.antt =====
-- The queue for threads: asyncqueue.h and asyncqueue.c. The queue below it is the list of its data,
-- which Queues has over the heap. A thread runs one function at a time; what it does between two
-- uses of the mutex is one action. pthread_cond_wait returns at any time, as the standard allows, with
-- an error only when it has a deadline. A failing lock ends the process, in err.
pub mod Reach
pub mod Signals
pub mod Awake
pub mod Progress
pub mod Examples
use datatypes.Base.{
  ℕ, zero, suc, ◌+◌, ◌-◌, ◌*◌, ◌/◌, ◌%◌, ◌^◌, ◌≤◌, ◌<◌, compare, Ordering, ◌≡◌, refl, sym, ap, ap₂,
  ◌∙◌, ◌≢◌, ◌↔◌, ◌⊎◌, inl, inr, Bool, true, false, not, ◌&&◌, ◌||◌, Option, none, some, List, [],
  ◌∷◌, ◌++◌, append-nil, append_assoc, arith, ltb, leb, ◌==◌, if◌then◌else◌, Bool-cases,
  Option-cases, word, word32, ssize_max, sub64, Run, ok, fault, aborted, out_of_fuel, ◌>>=◌,
  Returns, Returns-both, length, get_elem?, take, drop, tabulate, overwrite, length-append,
  length-take, length-drop, length-tabulate, take-append-drop, take-append, drop-append, take-take,
  take-append_of_le, length-overwrite, take-drop, drop-append_cons, take_all, get_elem?-lt,
  get_elem?-take, drop-get_elem?, get_elem?-none, drop_all,
}
use datatypes.Callbacks.{Ptr}

-- what a thread calls
pub data Call : Type 0 where
  push : Ptr → Call
  pop : ℕ → Call
  clear : Call
  count : Call

-- Where a thread is: outside, before the lock, behind it, in the wait on the condition, before the
-- lock that the wait takes again, behind that, before the unlock with the result of a pop or count.
pub data Place : Type 0 where
  outside : Place
  locking : Call → Place
  running : Call → Place
  blocked : ℕ → Place
  relocking : Bool → Place
  resuming : Bool → Place
  unlocking : Option Ptr → Place

pub record Shared : Type 0 where
  pub queue : List Ptr
  pub waiting : ℕ
  pub locked : Bool

-- what an action does to the queue: the data put, and whether it signals the condition; the data
-- taken
pub data Event : Type 0 where
  quiet : Event
  puts : List Ptr → Bool → Event
  takes : List Ptr → Event

-- what the outside decides: the next call of a thread, and how a wait ends
pub data Choice : Type 0 where
  goes_on : Choice
  calls : Call → Choice
  wakes : Bool → Choice

abbrev pub Action : Type 0
Action = Option (Shared × Place × Event)

-- async_queue_init
abbrev pub init : Shared
init = record { queue = []; waiting = 0; locked = false }

-- queue_pop of the queue
abbrev pub pop_or : Shared → Action → Action
pop_or s failed = elim s.queue [
  | [] ↦ failed
  | d ∷ queue ↦ some (record s { queue = queue }, unlocking (some d), takes (d ∷ []))
]

-- Behind the lock: queue_push stores nothing in a queue of SIZE_MAX data; a pop of an empty queue
-- waits, which unlocks.
unfoldable pub run : Shared → Call → Action
run s (push d) =
    let new = if ltb (length s.queue) (word - 1) then d ∷ [] else [] in
    some (record s { queue = s.queue ++ new }, unlocking none, puts new (not (s.waiting == 0)))
run s (pop ms) = pop_or s (
    if ltb s.waiting (word - 1)
    then some (record s { waiting = s.waiting + 1; locked = false }, blocked ms, quiet)
    else some (s, unlocking none, quiet))
run s clear = some (record s { queue = [] }, unlocking none, takes s.queue)
run s count = some (s, unlocking (some (length s.queue)), quiet)

-- _async_queue_cond_wait after the wait, and the second queue_pop
unfoldable pub resume : Shared → Bool → Action
resume s success =
    let s' = record s { waiting = s.waiting - 1 } in
    let failed = some (s', unlocking none, quiet) in if success then pop_or s' failed else failed

-- the lock, which a thread takes only when it is free
abbrev pub take_lock : Shared → Place → Action
take_lock s place = if s.locked then none else some (record s { locked = true }, place, quiet)

-- the next action of a thread, if it has one
unfoldable pub act : Choice → Shared → Place → Action
unfolding run resume
act (calls c) s outside = some (s, locking c, quiet)
act goes_on s outside = none
act (wakes success) s outside = none
act choice s (locking c) = take_lock s (running c)
act choice s (running c) = run s c
act (wakes success) s (blocked ms) =
    if success || not (ms == 0) then some (s, relocking success, quiet) else none
act goes_on s (blocked ms) = none
act (calls c) s (blocked ms) = none
act choice s (relocking success) = take_lock s (resuming success)
act choice s (resuming success) = resume s success
act choice s (unlocking result) = some (record s { locked = false }, outside, quiet)
