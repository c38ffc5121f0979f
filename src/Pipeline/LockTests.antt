-- ===== src/Pipeline/LockTests.antt =====
-- A run of the model of the lock of pipeline/database.py: a background thread and an interactive
-- one, at rest and waiting.
use second_brain_art.Common.{◌≡◌, ◌≤◌, refl, false, [], ◌∷◌, arith}
use second_brain_art.Pipeline.Lock.{
  high, low, PriorityLock, away, waits, sleeps, holds, enter, exit, enters, blocks, exits,
  may_enter, notify_all, System, thread, at, LockStep, arrives, LockSteps, still, step, arrive,
  leave_wait, gives_up, holders, high_waiting, low_holders, total, Consistent,
}
use second_brain_art.Pipeline.Lock.Wakeups.{LockSteps-progress}
use second_brain_art.Pipeline.Lock.Exclusion.{LockSteps-exclusive, LockStep-yields}

abbrev free : PriorityLock
free = record { held = false; high_waiters = 0 }

abbrev resting : System
resting = record { lock = free; threads = thread low away ∷ thread high away ∷ [] }

abbrev both_wait : System
both_wait = at (arrive high (arrive low free)) (thread low waits ∷ []) (thread high waits) []

abbrev both_arrive : LockSteps resting both_wait
both_arrive =
    step (step still (arrives free [] (thread high away ∷ []) low))
      (arrives (arrive low free) (thread low waits ∷ []) [] high)

resting-Consistent : Consistent resting
unfolding total
resting-Consistent = record { one_holder = omega arith; counted = omega arith }

LockSteps-exclusive_example :
    (holders both_wait ≤ 1) × (both_wait.lock.high_waiters ≡ high_waiting both_wait)
LockSteps-exclusive_example = LockSteps-exclusive resting both_wait both_arrive resting-Consistent

LockStep-yields_example :
    low_holders (
      at
        (leave_wait low (arrive high (arrive low free)))
        []
        (thread low away)
        (thread high waits ∷ []))
    ≤ low_holders both_wait
unfolding total
LockStep-yields_example =
    LockStep-yields resting both_wait
      (at (leave_wait low (arrive high (arrive low free))) [] (thread low away)
        (thread high waits ∷ []))
      both_arrive resting-Consistent
      (gives_up (arrive high (arrive low free)) [] (thread high waits ∷ []) low) (omega arith)

-- The interactive thread holds the lock while the background thread falls asleep, and then leaves.
abbrev taken : PriorityLock
taken = enter high (arrive high free)

abbrev background_sleeps :
    LockSteps resting (at taken (thread low sleeps ∷ []) (thread high holds) [])
unfolding may_enter arrive enter
background_sleeps =
    step
      (step
        (step (step still (arrives free (thread low away ∷ []) [] high))
          (enters (arrive high free) (thread low away ∷ []) [] high refl))
        (arrives taken [] (thread high holds ∷ []) low))
      (blocks taken [] (thread high holds ∷ []) low refl)

abbrev released : System
released = exit (at taken (thread low sleeps ∷ []) (thread high away) [])

LockSteps-progress_example : (u : System) × LockStep released u × (holders u ≡ 1)
unfolding total may_enter arrive enter exit notify_all
LockSteps-progress_example =
    LockSteps-progress resting released
      (step background_sleeps (exits taken (thread low sleeps ∷ []) [] high)) refl
      resting-Consistent (omega arith) refl (omega arith)
