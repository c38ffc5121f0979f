-- ===== src/Pipeline/Lock.antt =====
-- The lock of pipeline/database.py (`_PriorityLock`) with the threads that use it. A thread reads its
-- priority when it enters; the regions under the condition's own mutex are the steps. A thread that
-- waits is awake and about to test its condition again, or asleep in `wait()` until `notify_all` wakes
-- it; a sleep may also end unprompted, and a wait by an exception.
pub mod Exclusion
mod Alert
pub mod Wakeups
use second_brain_art.Common.{
  ℕ, suc, ◌+◌, ◌-◌, ◌≡◌, Bool, true, false, not, ◌&&◌, ◌==◌, List, [], ◌∷◌, ◌++◌,
}

pub data Priority : Type 0 where
  high low : Priority

-- `_held` and `_high_waiters`
pub record PriorityLock : Type 0 where
  pub held : Bool
  pub high_waiters : ℕ

pub data Phase : Type 0 where
  away waits sleeps holds : Phase

pub record Thread : Type 0 where
  pub priority : Priority
  pub phase : Phase

-- The first part of `__enter__`, up to the wait.
unfoldable pub arrive : Priority → PriorityLock → PriorityLock
arrive high l = record l { high_waiters = suc l.high_waiters }
arrive low l = l

-- The condition under which the wait of `__enter__` is over.
unfoldable pub may_enter : Priority → PriorityLock → Bool
may_enter high l = not l.held
may_enter low l = not l.held && l.high_waiters == 0

-- The end of the wait.
unfoldable pub leave_wait : Priority → PriorityLock → PriorityLock
leave_wait high l = record l { high_waiters = l.high_waiters - 1 }
leave_wait low l = l

unfoldable pub enter : Priority → PriorityLock → PriorityLock
enter p l = record (leave_wait p l) { held = true }

pub record System : Type 0 where
  pub lock : PriorityLock
  pub threads : List Thread

abbrev pub woken : Phase → Phase
woken away = away
woken waits = waits
woken sleeps = waits
woken holds = holds

abbrev pub notify : Thread → Thread
notify t = record t { phase = woken t.phase }

-- `notify_all` of the condition
unfoldable pub notify_all : List Thread → List Thread
notify_all [] = []
notify_all (t ∷ ts) = notify t ∷ notify_all ts

-- `__exit__`
unfoldable pub exit : System → System
exit s = record { lock = record s.lock { held = false }; threads = notify_all s.threads }

abbrev pub at : PriorityLock → List Thread → Thread → List Thread → System
at l before t after = record { lock = l; threads = before ++ t ∷ after }

abbrev pub thread : Priority → Phase → Thread
thread p phase = record { priority = p; phase = phase }

pub data LockStep : System → System → Type 0 where
  -- `set_thread_priority_low`, `low_priority_section`
  changes :
      (l : PriorityLock) (before after : List Thread) (p q : Priority)
      → LockStep (at l before (thread p away) after) (at l before (thread q away) after)
  arrives :
      (l : PriorityLock) (before after : List Thread) (p : Priority)
      → LockStep (at l before (thread p away) after) (at (arrive p l) before (thread p waits) after)
  enters :
      (l : PriorityLock) (before after : List Thread) (p : Priority)
      → may_enter p l ≡ true
      → LockStep (at l before (thread p waits) after) (at (enter p l) before (thread p holds) after)
  blocks :
      (l : PriorityLock) (before after : List Thread) (p : Priority)
      → may_enter p l ≡ false
      → LockStep (at l before (thread p waits) after) (at l before (thread p sleeps) after)
  wakes :
      (l : PriorityLock) (before after : List Thread) (p : Priority)
      → LockStep (at l before (thread p sleeps) after) (at l before (thread p waits) after)
  gives_up :
      (l : PriorityLock) (before after : List Thread) (p : Priority)
      → LockStep
          (at l before (thread p waits) after)
          (at (leave_wait p l) before (thread p away) after)
  exits :
      (l : PriorityLock) (before after : List Thread) (p : Priority)
      → LockStep (at l before (thread p holds) after) (exit (at l before (thread p away) after))

pub data LockSteps : System → System → Type 0 where
  still : {s : System} → LockSteps s s
  step : {s t u : System} → LockSteps s t → LockStep t u → LockSteps s u

-- No step of the run is a thread of high priority that gives up its wait.
abbrev pub is_patient : {s t : System} → LockStep s t → Bool
is_patient (changes l before after p q) = true
is_patient (arrives l before after p) = true
is_patient (enters l before after p e) = true
is_patient (blocks l before after p e) = true
is_patient (wakes l before after p) = true
is_patient (gives_up l before after high) = false
is_patient (gives_up l before after low) = true
is_patient (exits l before after p) = true

abbrev pub are_patient : {s t : System} → LockSteps s t → Bool
are_patient still = true
are_patient (step ss x) = are_patient ss && is_patient x

abbrev pub bit : Bool → ℕ
bit true = 1
bit false = 0

abbrev pub held_at : Priority → Phase → ℕ
held_at p holds = 1
held_at p _ = 0

abbrev pub high_at : Priority → Phase → ℕ
high_at high waits = 1
high_at high sleeps = 1
high_at _ _ = 0

abbrev pub low_at : Priority → Phase → ℕ
low_at low holds = 1
low_at _ _ = 0

abbrev pub wait_at : Phase → ℕ
wait_at waits = 1
wait_at sleeps = 1
wait_at _ = 0

abbrev pub holding : Thread → ℕ
holding t = held_at t.priority t.phase

abbrev pub waiting_high : Thread → ℕ
waiting_high t = high_at t.priority t.phase

abbrev pub holding_low : Thread → ℕ
holding_low t = low_at t.priority t.phase

-- Some thread waits, at any priority.
abbrev pub waiting : Thread → ℕ
waiting t = wait_at t.phase

unfoldable pub total : (Thread → ℕ) → List Thread → ℕ
total f [] = 0
total f (t ∷ ts) = f t + total f ts

-- The threads that hold the lock, that wait for it at high priority, and that hold it at low
-- priority.
abbrev pub holders : System → ℕ
holders s = total holding s.threads

abbrev pub high_waiting : System → ℕ
high_waiting s = total waiting_high s.threads

abbrev pub low_holders : System → ℕ
low_holders s = total holding_low s.threads

-- The fields of the lock say what the threads do.
pub record Consistent (s : System) : Type 0 where
  pub one_holder : holders s ≡ bit s.lock.held
  pub counted : high_waiting s ≡ s.lock.high_waiters
