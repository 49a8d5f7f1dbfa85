-- ===== src/AsyncQueue/Examples.antt =====
-- Runs of the queue for threads, and its theorems at states that two threads reach.
use datatypes.Base.{◌≤◌, ◌≡◌, refl, ◌⊎◌, true, false, none, some, List, [], ◌∷◌, length}
use datatypes.AsyncQueue.{
  push, pop, Place, outside, locking, running, blocked, relocking, unlocking, Shared, quiet, puts,
  goes_on, calls, wakes, init, run, resume, act,
}
use datatypes.AsyncQueue.Reach.{total, Reach, starts, acts, Coherent, Reach-Coherent}
use datatypes.AsyncQueue.Signals.{sleeps, woken, Runs, begins, steps, silent, wakes_one}
use datatypes.AsyncQueue.Progress.{busy, GoesOn, Runs-GoesOn}

-- the first thread has pushed 7 and holds the mutex, the second one wants to pop
abbrev pushed : Shared
pushed = record { queue = 7 ∷ []; waiting = 0; locked = true }

abbrev threads : List Place
threads = unlocking none ∷ locking (pop 0) ∷ []

threads-Reach : Reach pushed threads (7 ∷ []) []
unfolding act run
threads-Reach =
    let start = starts (outside ∷ outside ∷ []) (refl, (refl, tt)) in
    let second = outside ∷ [] in
    let busy = record init { locked = true } in
    let called =
      acts init init [] second outside (locking (push 7)) quiet (calls (push 7)) [] [] start refl in
    let inside =
      acts init busy [] second (locking (push 7)) (running (push 7)) quiet goes_on [] [] called
        refl in
    let stored =
      acts busy pushed [] second (running (push 7)) (unlocking none) (puts (7 ∷ []) false) goes_on
        [] [] inside refl in
    acts pushed pushed (unlocking none ∷ []) [] outside (locking (pop 0)) quiet (calls (pop 0))
      (7 ∷ []) [] stored refl

Reach-Coherent_example : Coherent pushed threads (7 ∷ []) []
Reach-Coherent_example = Reach-Coherent pushed threads (7 ∷ []) [] threads-Reach

-- The second thread waits in a pop, and the first one has pushed 7, which has woken it.
abbrev signalled : Shared
signalled = record { queue = 7 ∷ []; waiting = 1; locked = true }

abbrev woken_threads : List Place
woken_threads = unlocking none ∷ relocking true ∷ []

threads-Runs : Runs signalled woken_threads (7 ∷ []) []
unfolding act run
threads-Runs =
    let first = outside ∷ [] in
    let asleep = blocked 0 ∷ [] in
    let inside = record init { locked = true } in
    let waits_on = record init { waiting = 1 } in
    let taken = record init { waiting = 1; locked = true } in
    let start = begins (outside ∷ outside ∷ []) (refl, (refl, tt)) in
    let r1 =
      steps init init first [] (outside ∷ locking (pop 0) ∷ []) outside (locking (pop 0)) quiet
        (calls (pop 0)) [] [] start refl (silent _) in
    let r2 =
      steps init inside first [] (outside ∷ running (pop 0) ∷ []) (locking (pop 0))
        (running (pop 0)) quiet goes_on [] [] r1 refl (silent _) in
    let r3 =
      steps inside waits_on first [] (outside ∷ asleep) (running (pop 0)) (blocked 0) quiet goes_on
        [] [] r2 refl (silent _) in
    let r4 =
      steps waits_on waits_on [] asleep (locking (push 7) ∷ asleep) outside (locking (push 7)) quiet
        (calls (push 7)) [] [] r3 refl (silent _) in
    let r5 =
      steps waits_on taken [] asleep (running (push 7) ∷ asleep) (locking (push 7))
        (running (push 7)) quiet goes_on [] [] r4 refl (silent _) in
    steps taken signalled [] asleep woken_threads (running (push 7)) (unlocking none)
      (puts (7 ∷ []) true) goes_on [] [] r5 refl (wakes_one (unlocking none ∷ []) [] 0)

Runs-GoesOn_example :
    ((total sleeps woken_threads ≡ 0) ⊎ (length signalled.queue ≤ total woken woken_threads))
    × (GoesOn signalled woken_threads
        ⊎ ((total busy woken_threads ≡ 0)
            × ((total sleeps woken_threads ≡ 0) ⊎ (signalled.queue ≡ []))))
Runs-GoesOn_example = Runs-GoesOn signalled woken_threads (7 ∷ []) [] threads-Runs

-- A wait may end without a push, or after another thread took what was pushed; the pop then fails,
-- though it has no deadline.
wakes_for_nothing :
    (act (wakes true) (record { queue = []; waiting = 1; locked = false }) (blocked 0)
      ≡ some (record { queue = []; waiting = 1; locked = false }, relocking true, quiet))
    × (resume (record { queue = []; waiting = 1; locked = true }) true
        ≡ some (record { queue = []; waiting = 0; locked = true }, unlocking none, quiet))
unfolding act resume
wakes_for_nothing = (refl, refl)
