-- ===== src/AsyncQueue/Signals.antt =====
-- pthread_cond_signal in async_queue_push: the runs in which a signal wakes a thread out of the wait.
use datatypes.Base.{subst, ℕ, ◌≡◌, refl, Bool, true, false, some, List, [], ◌∷◌, ◌++◌, append-nil}
use datatypes.Callbacks.{Ptr}
use datatypes.AsyncQueue.{
  Place, outside, locking, running, blocked, relocking, resuming, unlocking, Shared, Event, quiet,
  puts, takes, Choice, wakes, init, act,
}
use datatypes.AsyncQueue.Reach.{Reach, starts, acts, put_by, taken_by, AreOutside, total}

-- whether a thread is in the wait, and whether it is out of it again without an error
abbrev pub sleeps : Place → ℕ
sleeps outside = 0
sleeps (locking c) = 0
sleeps (running c) = 0
sleeps (blocked ms) = 1
sleeps (relocking success) = 0
sleeps (resuming success) = 0
sleeps (unlocking result) = 0

abbrev pub woken : Place → ℕ
woken outside = 0
woken (locking c) = 0
woken (running c) = 0
woken (blocked ms) = 0
woken (relocking true) = 1
woken (relocking false) = 0
woken (resuming true) = 1
woken (resuming false) = 0
woken (unlocking result) = 0

abbrev pub signals : Event → Bool
signals quiet = false
signals (puts ds signalled) = signalled
signals (takes ds) = false

-- what the signal does, if there is one: it wakes one of the threads in the wait, if there are any
pub data Signals : Bool → List Place → List Place → Type 0 where
  silent : (threads : List Place) → Signals false threads threads
  wakes_one :
      (front back : List Place) (ms : ℕ)
      → Signals true (front ++ blocked ms ∷ back) (front ++ relocking true ∷ back)
  finds_none : (threads : List Place) → total sleeps threads ≡ 0 → Signals true threads threads

-- the states of Reach in which each signal has had its effect
pub data Runs : Shared → List Place → List Ptr → List Ptr → Type 0 where
  begins : (threads : List Place) → AreOutside threads → Runs init threads [] []
  steps :
      (s s' : Shared) (front back threads : List Place) (place place' : Place) (event : Event)
      (choice : Choice) (put taken : List Ptr)
      → Runs s (front ++ place ∷ back) put taken
      → act choice s place ≡ some (s', place', event)
      → Signals (signals event) (front ++ place' ∷ back) threads
      → Runs s' threads (put ++ put_by event) (taken ++ taken_by event)

Signals-Reach :
    (signalled : Bool) (s : Shared) (threads threads' : List Place) (put taken : List Ptr)
    → Signals signalled threads threads'
    → Reach s threads put taken
    → Reach s threads' put taken
unfolding act
Signals-Reach signalled s threads threads' put taken (silent _) r = r
Signals-Reach signalled s threads threads' put taken (finds_none _ no_one) r = r
Signals-Reach signalled s threads threads' put taken (wakes_one front back ms) r =
    subst (λ xs. Reach s (front ++ relocking true ∷ back) xs taken) (append-nil put)
      (subst (λ ys. Reach s (front ++ relocking true ∷ back) (put ++ []) ys) (append-nil taken)
        (acts s s front back (blocked ms) (relocking true) quiet (wakes true) put taken r refl))

pub Runs-Reach :
    (s : Shared) (threads : List Place) (put taken : List Ptr)
    → Runs s threads put taken
    → Reach s threads put taken
Runs-Reach s threads put taken (begins _ h) = starts threads h
Runs-Reach s threads put taken
      (steps s0 _ front back _ place place' event choice put0 taken0 r e signal) =
    Signals-Reach (signals event) s (front ++ place' ∷ back) threads put taken signal (
      acts s0 s front back place place' event choice put0 taken0
        (Runs-Reach s0 (front ++ place ∷ back) put0 taken0 r) e)
