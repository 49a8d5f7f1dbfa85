-- ===== src/AsyncQueue/Progress.antt =====
-- The threads do not block each other, and do not wait for what is there.
use datatypes.Base.{
  ℕ, ◌-◌, ◌≤◌, ◌≡◌, refl, ap, ◌⊎◌, inl, inr, true, false, none, some, List, [], ◌∷◌, ◌++◌, arith,
  ltb, ◌==◌, Bool-cases, word, length,
}
use datatypes.Callbacks.{Ptr}
use datatypes.AsyncQueue.{
  push, pop, clear, count, Place, outside, locking, running, blocked, relocking, resuming,
  unlocking, Shared, takes, goes_on, Action, run, resume, act,
}
use datatypes.AsyncQueue.Reach.{Reach-Coherent, holds, total, held}
use datatypes.AsyncQueue.Signals.{sleeps, woken, Runs, Runs-Reach}
use datatypes.AsyncQueue.Awake.{Runs-IsAwake}

-- whether a thread is in a function, and not in the wait on the condition
abbrev pub busy : Place → ℕ
busy outside = 0
busy (locking c) = 1
busy (running c) = 1
busy (blocked ms) = 0
busy (relocking success) = 1
busy (resuming success) = 1
busy (unlocking result) = 1

woken-busy : (place : Place) → woken place ≤ busy place
woken-busy outside = omega arith
woken-busy (locking c) = omega arith
woken-busy (running c) = omega arith
woken-busy (blocked ms) = omega arith
woken-busy (relocking true) = omega arith
woken-busy (relocking false) = omega arith
woken-busy (resuming true) = omega arith
woken-busy (resuming false) = omega arith
woken-busy (unlocking result) = omega arith

total-woken-busy : (threads : List Place) → total woken threads ≤ total busy threads
total-woken-busy [] = omega arith
total-woken-busy (p ∷ threads) = omega (arith, woken-busy p, total-woken-busy threads)

-- an action that there is
abbrev pub IsSome : Action → Type 0
IsSome none = ⊥
IsSome (some a) = Unit

pop_or-IsSome :
    (s : Shared) (failed : Action) (queue : List Ptr)
    → IsSome failed
    → IsSome (elim queue [
      | [] ↦ failed
      | d ∷ rest ↦ some (record s { queue = rest }, unlocking (some d), takes (d ∷ []))
    ])
pop_or-IsSome s failed [] h = h
pop_or-IsSome s failed (d ∷ rest) h = tt

-- the thread behind the lock can go on
holder-acts : (s : Shared) (place : Place) → 1 ≤ holds place → IsSome (act goes_on s place)
unfolding act run resume
holder-acts s outside h = absurd (omega (arith, h))
holder-acts s (locking c) h = absurd (omega (arith, h))
holder-acts s (blocked ms) h = absurd (omega (arith, h))
holder-acts s (relocking success) h = absurd (omega (arith, h))
holder-acts s (running (push d)) h = tt
holder-acts s (running (pop ms)) h =
    pop_or-IsSome s _ s.queue
      (elim (Bool-cases (ltb s.waiting (word - 1))) [ inl e ↦ rw e tt | inr e ↦ rw e tt ])
holder-acts s (running clear) h = tt
holder-acts s (running count) h = tt
holder-acts s (resuming true) h = pop_or-IsSome (record s { waiting = s.waiting - 1 }) _ s.queue tt
holder-acts s (resuming false) h = tt
holder-acts s (unlocking result) h = tt

-- a busy thread can go on when the mutex is free
busy-acts :
    (s : Shared) (place : Place) → s.locked ≡ false → 1 ≤ busy place → IsSome (act goes_on s place)
unfolding act
busy-acts s outside free h = absurd (omega (arith, h))
busy-acts s (blocked ms) free h = absurd (omega (arith, h))
busy-acts s (locking c) free h = rw free tt
busy-acts s (relocking success) free h = rw free tt
busy-acts s (running c) free h = holder-acts s (running c) (omega arith)
busy-acts s (resuming success) free h = holder-acts s (resuming success) (omega arith)
busy-acts s (unlocking result) free h = tt

-- a thread among the others that can go on
abbrev pub GoesOn : Shared → List Place → Type 0
GoesOn s threads =
    (front : List Place) × (place : Place) × (back : List Place) × (threads ≡ front ++ place ∷ back)
    × IsSome (act goes_on s place)

-- a thread that counts
counting :
    (f : Place → ℕ) (threads : List Place)
    → 1 ≤ total f threads
    → (front : List Place) × (place : Place) × (back : List Place) × (threads
        ≡ front ++ place ∷ back)
      × (1 ≤ f place)
counting f [] e = absurd (omega (arith, e))
counting f (place ∷ threads) e = elim (Bool-cases (f place == 0)) [
  | inl out ↦
      let rest : 1 ≤ total f threads = ground (arith, out, e) in
      let (front, p, back, same, one) = counting f threads rest in
      (place ∷ front, p, back, ap (λ xs. place ∷ xs) same, one)
  | inr inside ↦ let one : 1 ≤ f place = ground (arith, inside) in ([], place, threads, refl, one)
]

-- a thread that can go on, if some thread is busy
busy-GoesOn :
    (s : Shared) (threads : List Place)
    → total holds threads ≡ held s.locked
    → GoesOn s threads ⊎ (total busy threads ≡ 0)
busy-GoesOn s threads exclusive = elim (Bool-cases s.locked) [
  | inl locked ↦
      let (front, p, back, same, one) =
        counting holds threads (omega (arith, exclusive, ap held locked)) in
      inl (front, p, back, same, holder-acts s p one)
  | inr free ↦ elim (Bool-cases (total busy threads == 0)) [
    | inl none_busy ↦ inr (ground (arith, none_busy))
    | inr some_busy ↦
        let (front, p, back, same, one) = counting busy threads (ground (arith, some_busy)) in
        inl (front, p, back, same, busy-acts s p free one)
  ]
]

length-zero : (xs : List Ptr) → length xs ≡ 0 → xs ≡ []
length-zero [] h = refl
length-zero (x ∷ xs) h = absurd (omega (arith, h))

-- In every state that the threads reach, however their actions follow each other, when
-- pthread_cond_signal wakes a thread out of the wait if there is one: no thread is in the wait, or at
-- least as many threads are on their way out of it without an error as there are data in the queue;
-- and some thread can go on without a new call and without the end of a wait, or all threads are
-- outside of the functions or in the wait, and then none is in the wait or the queue is empty.
pub Runs-GoesOn :
    (s : Shared) (threads : List Place) (put taken : List Ptr)
    → Runs s threads put taken
    → ((total sleeps threads ≡ 0) ⊎ (length s.queue ≤ total woken threads))
      × (GoesOn s threads
          ⊎ ((total busy threads ≡ 0) × ((total sleeps threads ≡ 0) ⊎ (s.queue ≡ []))))
Runs-GoesOn s threads put taken r =
    let coherent = Reach-Coherent s threads put taken (Runs-Reach s threads put taken r) in
    let awake : (total sleeps threads ≡ 0) ⊎ (length s.queue ≤ total woken threads) =
      elim (Runs-IsAwake s threads put taken r) [
        | inl no_one ↦ inl no_one
        | inr enough ↦ inr (omega (arith, enough))
      ] in
    (
      awake,
      elim (busy-GoesOn s threads coherent.exclusive) [
        | inl on ↦ inl on
        | inr idle ↦ inr (
          idle,
          elim awake [
            | inl no_one ↦ inl no_one
            | inr enough ↦
                inr (length-zero s.queue (omega (arith, enough, idle, total-woken-busy threads)))
          ],
        )
      ],
    )
