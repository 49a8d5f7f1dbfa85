-- ===== src/AsyncQueue/Reach.antt =====
-- The states that the threads reach, with what they have put into the queue and taken out of it.
use datatypes.Base.{
  subst, ℕ, ◌+◌, ◌-◌, ◌≤◌, ◌≡◌, refl, sym, ap, ◌∙◌, inl, inr, Bool, true, false, not, ◌||◌, none,
  some, List, [], ◌∷◌, ◌++◌, append-nil, append_assoc, arith, ltb, ◌==◌, if◌then◌else◌, Bool-cases,
  word,
}
use datatypes.Callbacks.{Ptr}
use datatypes.AsyncQueue.{
  Call, push, pop, clear, count, Place, outside, locking, running, blocked, relocking, resuming,
  unlocking, Shared, Event, quiet, puts, takes, Choice, goes_on, calls, wakes, Action, init, run,
  resume, act,
}

-- the data put and taken by an event
abbrev pub put_by : Event → List Ptr
put_by quiet = []
put_by (puts ds signals) = ds
put_by (takes ds) = []

abbrev pub taken_by : Event → List Ptr
taken_by quiet = []
taken_by (puts ds signals) = []
taken_by (takes ds) = ds

abbrev pub AreOutside : List Place → Type 0
AreOutside [] = Unit
AreOutside (place ∷ threads) = (place ≡ outside) × AreOutside threads

-- The threads, with everything put and taken so far. One thread acts at a time.
pub data Reach : Shared → List Place → List Ptr → List Ptr → Type 0 where
  starts : (threads : List Place) → AreOutside threads → Reach init threads [] []
  acts :
      (s s' : Shared) (front back : List Place) (place place' : Place) (event : Event)
      (choice : Choice) (put taken : List Ptr)
      → Reach s (front ++ place ∷ back) put taken
      → act choice s place ≡ some (s', place', event)
      → Reach s' (front ++ place' ∷ back) (put ++ put_by event) (taken ++ taken_by event)

-- whether a thread holds the mutex, and whether it counts as waiting
abbrev pub holds : Place → ℕ
holds outside = 0
holds (locking c) = 0
holds (running c) = 1
holds (blocked ms) = 0
holds (relocking success) = 0
holds (resuming success) = 1
holds (unlocking result) = 1

abbrev pub waits : Place → ℕ
waits outside = 0
waits (locking c) = 0
waits (running c) = 0
waits (blocked ms) = 1
waits (relocking success) = 1
waits (resuming success) = 1
waits (unlocking result) = 0

abbrev pub total : (Place → ℕ) → List Place → ℕ
total f [] = 0
total f (place ∷ threads) = f place + total f threads

abbrev pub held : Bool → ℕ
held true = 1
held false = 0

-- What holds in every state: the data come out in the order in which they went in, each once; the
-- counter is the number of the waiting threads; the mutex is held by one thread, if it is locked.
pub record Coherent (s : Shared) (threads : List Place) (put taken : List Ptr) : Type 0 where
  pub in_order : put ≡ taken ++ s.queue
  pub counted : s.waiting ≡ total waits threads
  pub exclusive : total holds threads ≡ held s.locked

-- what an action changes
abbrev Changes : Shared → Place → Action → Type 0
Changes s place none = Unit
Changes s place (some (s', place', event)) =
    (s.queue ++ put_by event ≡ taken_by event ++ s'.queue)
    × (s'.waiting + waits place ≡ s.waiting + waits place')
    × (held s'.locked + holds place ≡ held s.locked + holds place')

take_lock-Changes :
    (s : Shared) (place place' : Place) (locked : Bool)
    → s.locked ≡ locked
    → holds place ≡ 0
    → holds place' ≡ 1
    → waits place ≡ waits place'
    → Changes s place (if locked then none else some (record s { locked = true }, place', quiet))
take_lock-Changes s place place' true e out inside same = tt
take_lock-Changes s place place' false e out inside same =
    (append-nil s.queue, omega (arith, same), omega (arith, out, inside, ap held e))

pop_or-Changes :
    (s s' : Shared) (place : Place) (failed : Action) (queue : List Ptr)
    → s.queue ≡ queue
    → s'.waiting + waits place ≡ s.waiting
    → s'.locked ≡ s.locked
    → holds place ≡ 1
    → Changes s place failed
    → Changes s place (elim queue [
      | [] ↦ failed
      | d ∷ rest ↦ some (record s' { queue = rest }, unlocking (some d), takes (d ∷ []))
    ])
pop_or-Changes s s' place failed [] e waiting locked one h = h
pop_or-Changes s s' place failed (d ∷ rest) e waiting locked one h =
    (append-nil s.queue ∙ e, omega (arith, waiting), omega (arith, one, ap held locked))

held_bound : (locked : Bool) → held locked ≤ 1
held_bound true = omega arith
held_bound false = omega arith

run-Changes : (s : Shared) (c : Call) → 1 ≤ held s.locked → Changes s (running c) (run s c)
unfolding run
run-Changes s (push d) h = (refl, refl, refl)
run-Changes s (pop ms) h =
    pop_or-Changes s s (running (pop ms)) _ s.queue refl (omega arith) refl refl
      (elim (Bool-cases (ltb s.waiting (word - 1))) [
        | inl e ↦ rw e (append-nil s.queue, omega arith, omega (arith, h, held_bound s.locked))
        | inr e ↦ rw e (append-nil s.queue, refl, refl)
      ])
run-Changes s clear h = (refl, refl, refl)
run-Changes s count h = (append-nil s.queue, refl, refl)

resume-Changes :
    (s : Shared) (success : Bool)
    → 1 ≤ s.waiting
    → 1 ≤ held s.locked
    → Changes s (resuming success) (resume s success)
unfolding resume
resume-Changes s true w h =
    pop_or-Changes s (record s { waiting = s.waiting - 1 }) (resuming true) _ s.queue refl
      (omega (arith, w)) refl refl (append-nil s.queue, omega (arith, w), refl)
resume-Changes s false w h = (append-nil s.queue, omega (arith, w), refl)

act-Changes :
    (choice : Choice) (s : Shared) (place : Place)
    → waits place ≤ s.waiting
    → holds place ≤ held s.locked
    → Changes s place (act choice s place)
unfolding act
act-Changes (calls c) s outside w h = (append-nil s.queue, refl, refl)
act-Changes goes_on s outside w h = tt
act-Changes (wakes success) s outside w h = tt
act-Changes choice s (locking c) w h =
    take_lock-Changes s (locking c) (running c) s.locked refl refl refl refl
act-Changes choice s (running c) w h = run-Changes s c h
act-Changes (wakes success) s (blocked ms) w h = elim (Bool-cases (success || not (ms == 0))) [
  | inl e ↦ rw e (append-nil s.queue, refl, refl)
  | inr e ↦ rw e tt
]
act-Changes goes_on s (blocked ms) w h = tt
act-Changes (calls c) s (blocked ms) w h = tt
act-Changes choice s (relocking success) w h =
    take_lock-Changes s (relocking success) (resuming success) s.locked refl refl refl refl
act-Changes choice s (resuming success) w h = resume-Changes s success w h
act-Changes choice s (unlocking result) w h =
    (append-nil s.queue, refl, omega (arith, h, held_bound s.locked))

pub total-append :
    (f : Place → ℕ) (front : List Place) (place : Place) (back : List Place)
    → total f (front ++ place ∷ back) ≡ total f front + f place + total f back
total-append f [] place back = omega arith
total-append f (p ∷ front) place back = omega (arith, total-append f front place back)

pub total-outside :
    (threads : List Place)
    → AreOutside threads
    → (total waits threads ≡ 0) × (total holds threads ≡ 0)
total-outside [] h = (refl, refl)
total-outside (place ∷ threads) (e, h) =
    let (w, o) = total-outside threads h in (rw (e, w), rw (e, o))

changed :
    (s s' : Shared) (front back : List Place) (place place' : Place) (event : Event)
    (put taken : List Ptr)
    → Coherent s (front ++ place ∷ back) put taken
    → Changes s place (some (s', place', event))
    → Coherent s' (front ++ place' ∷ back) (put ++ put_by event) (taken ++ taken_by event)
changed s s' front back place place' event put taken h (queue, waiting, locked) = record {
  in_order =
      ap (λ xs. xs ++ put_by event) h.in_order
      ∙ append_assoc taken s.queue (put_by event)
      ∙ ap (λ xs. taken ++ xs) queue
      ∙ sym (append_assoc taken (taken_by event) s'.queue);
  counted = omega (
    arith,
    waiting,
    h.counted,
    total-append waits front place back,
    total-append waits front place' back,
  );
  exclusive = omega (
    arith,
    locked,
    h.exclusive,
    total-append holds front place back,
    total-append holds front place' back,
  );
}

-- In every state that the threads reach from an empty queue, however their actions follow each other:
-- what was put into the queue is what was taken out of it, in the same order, and then what is in it;
-- the counter `waiting` is the number of the threads in the wait; and one thread is behind the lock if
-- the mutex is locked, and none otherwise.
pub Reach-Coherent :
    (s : Shared) (threads : List Place) (put taken : List Ptr)
    → Reach s threads put taken
    → Coherent s threads put taken
Reach-Coherent s threads put taken (starts _ h) =
    let (w, o) = total-outside threads h in
    record { in_order = refl; counted = sym w; exclusive = o }
Reach-Coherent s threads put taken
      (acts s0 _ front back place place' event choice put0 taken0 r e) =
    let h = Reach-Coherent s0 (front ++ place ∷ back) put0 taken0 r in
    let w : waits place ≤ s0.waiting =
      omega (arith, h.counted, total-append waits front place back) in
    let o : holds place ≤ held s0.locked =
      omega (arith, h.exclusive, total-append holds front place back) in
    changed s0 s front back place place' event put0 taken0 h
      (subst (λ a. Changes s0 place a) e (act-Changes choice s0 place w o))
