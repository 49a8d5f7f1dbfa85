-- ===== src/AsyncQueue/Awake.antt =====
-- Enough threads wake up for the data in the queue, in all runs.
use datatypes.Base.{
  subst, ℕ, ◌+◌, ◌-◌, ◌≤◌, ◌≡◌, refl, ap, ◌⊎◌, inl, inr, Bool, true, false, not, ◌||◌, none, some,
  List, [], ◌∷◌, ◌++◌, arith, ltb, ◌==◌, if◌then◌else◌, Bool-cases, word, length, length-append,
}
use datatypes.Callbacks.{Ptr}
use datatypes.AsyncQueue.{
  Call, push, pop, clear, count, Place, outside, locking, running, blocked, relocking, resuming,
  unlocking, Shared, Event, quiet, takes, Choice, goes_on, calls, wakes, Action, run, resume, act,
}
use datatypes.AsyncQueue.Reach.{
  AreOutside, Reach-Coherent, waits, total, total-append, total-outside,
}
use datatypes.AsyncQueue.Signals.{
  sleeps, woken, signals, Signals, silent, wakes_one, finds_none, Runs, begins, steps, Runs-Reach,
}

-- No thread is in the wait, or enough threads are on their way out of it for what is in the queue,
-- up to the signals that are due.
abbrev pub IsAwake : ℕ → Shared → List Place → Type 0
IsAwake due s threads = (total sleeps threads ≡ 0) ⊎ (length s.queue ≤ total woken threads + due)

abbrev due_by : Bool → ℕ
due_by true = 1
due_by false = 0

-- what an action does to that: nothing, or it leaves an empty queue, or no thread waits
abbrev Keeps : Shared → Place → Action → Type 0
Keeps s place none = Unit
Keeps s place (some (s', place', event)) =
    ((sleeps place' ≤ sleeps place)
      × (length s'.queue + woken place ≤ length s.queue + woken place' + due_by (signals event)))
    ⊎ ((length s'.queue ≡ 0) ⊎ ((s.waiting ≡ 0) × (sleeps place' ≡ 0)))

take_lock-Keeps :
    (s : Shared) (place place' : Place) (locked : Bool)
    → sleeps place' ≤ sleeps place
    → woken place ≤ woken place'
    → Keeps s place (if locked then none else some (record s { locked = true }, place', quiet))
take_lock-Keeps s place place' true a b = tt
take_lock-Keeps s place place' false a b = inl (a, omega (arith, b))

-- a pop of a datum keeps it, and a pop of an empty queue if it leaves the queue empty
pop_or-Keeps :
    (s s' : Shared) (place : Place) (failed : Action) (queue : List Ptr)
    → s.queue ≡ queue
    → woken place ≤ 1
    → (s.queue ≡ [] → Keeps s place failed)
    → Keeps s place (elim queue [
      | [] ↦ failed
      | d ∷ rest ↦ some (record s' { queue = rest }, unlocking (some d), takes (d ∷ []))
    ])
pop_or-Keeps s s' place failed [] e w h = h e
pop_or-Keeps s s' place failed (d ∷ rest) e w h = inl (omega arith, omega (arith, w, ap length e))

length-append_one :
    (xs : List Ptr) (d : Ptr) (more : Bool)
    → length (xs ++ (if more then d ∷ [] else [])) ≤ length xs + 1
length-append_one xs d true = omega (arith, length-append xs (d ∷ []))
length-append_one xs d false = omega (arith, length-append xs [])

run-Keeps : (s : Shared) (c : Call) → Keeps s (running c) (run s c)
unfolding run
run-Keeps s (push d) =
    let new = if ltb (length s.queue) (word - 1) then d ∷ [] else [] in
    let put_one : length (s.queue ++ new) ≤ length s.queue + 1 = length-append_one s.queue d _ in
    elim (Bool-cases (s.waiting == 0)) [
      | inl idle ↦ inr (inr (ground (arith, idle), refl))
      | inr waiting ↦ inl (omega arith, rw waiting (omega (arith, put_one)))
    ]
run-Keeps s (pop ms) = pop_or-Keeps s s (running (pop ms)) _ s.queue refl (omega arith) λ e.
    elim (Bool-cases (ltb s.waiting (word - 1))) [
      | inl more ↦ rw more (inr (inl (ap length e)))
      | inr full ↦ rw full (inr (inl (ap length e)))
    ]
run-Keeps s clear = inr (inl refl)
run-Keeps s count = inl (omega arith, omega arith)

resume-Keeps : (s : Shared) (success : Bool) → Keeps s (resuming success) (resume s success)
unfolding resume
resume-Keeps s true =
    pop_or-Keeps s (record s { waiting = s.waiting - 1 }) (resuming true) _ s.queue refl
      (omega arith) λ e. inr (inl (ap length e))
resume-Keeps s false = inl (omega arith, omega arith)

act-Keeps : (choice : Choice) (s : Shared) (place : Place) → Keeps s place (act choice s place)
unfolding act
act-Keeps (calls c) s outside = inl (omega arith, omega arith)
act-Keeps goes_on s outside = tt
act-Keeps (wakes success) s outside = tt
act-Keeps choice s (locking c) =
    take_lock-Keeps s (locking c) (running c) s.locked (omega arith) (omega arith)
act-Keeps choice s (running c) = run-Keeps s c
act-Keeps (wakes success) s (blocked ms) = elim (Bool-cases (success || not (ms == 0))) [
  | inl e ↦ rw e (inl (omega arith, omega arith))
  | inr e ↦ rw e tt
]
act-Keeps goes_on s (blocked ms) = tt
act-Keeps (calls c) s (blocked ms) = tt
act-Keeps choice s (relocking true) =
    take_lock-Keeps s (relocking true) (resuming true) s.locked (omega arith) (omega arith)
act-Keeps choice s (relocking false) =
    take_lock-Keeps s (relocking false) (resuming false) s.locked (omega arith) (omega arith)
act-Keeps choice s (resuming success) = resume-Keeps s success
act-Keeps choice s (unlocking result) = inl (omega arith, omega arith)

sleeps-waits : (place : Place) → sleeps place ≤ waits place
sleeps-waits outside = omega arith
sleeps-waits (locking c) = omega arith
sleeps-waits (running c) = omega arith
sleeps-waits (blocked ms) = omega arith
sleeps-waits (relocking success) = omega arith
sleeps-waits (resuming success) = omega arith
sleeps-waits (unlocking result) = omega arith

total-sleeps-waits : (threads : List Place) → total sleeps threads ≤ total waits threads
total-sleeps-waits [] = omega arith
total-sleeps-waits (p ∷ threads) = omega (arith, sleeps-waits p, total-sleeps-waits threads)

module _ (s s' : Shared) (front back : List Place) (place place' : Place) where
  Keeps-IsAwake :
      (event : Event)
      → s.waiting ≡ total waits (front ++ place ∷ back)
      → Keeps s place (some (s', place', event))
      → IsAwake 0 s (front ++ place ∷ back)
      → IsAwake (due_by (signals event)) s' (front ++ place' ∷ back)
  Keeps-IsAwake event counted (inr (inl empty)) awake = inr (omega (arith, empty))
  Keeps-IsAwake event counted (inr (inr (idle, up))) awake =
      let both = total-append sleeps front place' back in
      let was = total-append waits front place back in
      inl (
        omega
          (arith, both, was, idle, up, counted, total-sleeps-waits front, total-sleeps-waits back))
  Keeps-IsAwake event counted (inl (stays, enough)) (inl no_one) = inl (
      omega (
        arith,
        stays,
        no_one,
        total-append sleeps front place' back,
        total-append sleeps front place back,
      ))
  Keeps-IsAwake event counted (inl (stays, enough)) (inr h) = inr (
      omega (
        arith,
        enough,
        h,
        total-append woken front place' back,
        total-append woken front place back,
      ))

Signals-IsAwake :
    (signalled : Bool) (s : Shared) (threads threads' : List Place)
    → Signals signalled threads threads'
    → IsAwake (due_by signalled) s threads
    → IsAwake 0 s threads'
Signals-IsAwake signalled s threads threads' (silent _) h = h
Signals-IsAwake signalled s threads threads' (finds_none _ no_one) h = inl no_one
Signals-IsAwake signalled s threads threads' (wakes_one front back ms) (inl no_one) =
    absurd (omega (arith, no_one, total-append sleeps front (blocked ms) back))
Signals-IsAwake signalled s threads threads' (wakes_one front back ms) (inr h) = inr (
    omega (
      arith,
      h,
      total-append woken front (blocked ms) back,
      total-append woken front (relocking true) back,
    ))

total-sleeps-outside : (threads : List Place) → AreOutside threads → total sleeps threads ≡ 0
total-sleeps-outside threads h =
    omega (arith, total-sleeps-waits threads, (total-outside threads h).0)

pub Runs-IsAwake :
    (s : Shared) (threads : List Place) (put taken : List Ptr)
    → Runs s threads put taken
    → IsAwake 0 s threads
Runs-IsAwake s threads put taken (begins _ h) = inl (total-sleeps-outside threads h)
Runs-IsAwake s threads put taken
      (steps s0 _ front back _ place place' event choice put0 taken0 r e signal) =
    let was = front ++ place ∷ back in
    let coherent = Reach-Coherent s0 was put0 taken0 (Runs-Reach s0 was put0 taken0 r) in
    Signals-IsAwake (signals event) s (front ++ place' ∷ back) threads signal (
      Keeps-IsAwake s0 s front back place place' event coherent.counted
        (subst (λ a. Keeps s0 place a) e (act-Keeps choice s0 place))
        (Runs-IsAwake s0 was put0 taken0 r))
