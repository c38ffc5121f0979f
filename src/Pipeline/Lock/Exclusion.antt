-- ===== src/Pipeline/Lock/Exclusion.antt =====
-- The lock of pipeline/database.py (`_PriorityLock`) over any sequence of steps of the threads.
use second_brain_art.Common.{ℕ, ◌+◌, ◌≡◌, ◌≤◌, refl, sym, List, [], ◌∷◌, ◌++◌, arith}
use second_brain_art.Pipeline.Lock.{
  Priority, PriorityLock, away, waits, sleeps, holds, woken, notify, notify_all, held_at, low_at,
  blocks, wakes, Phase, Thread, arrive, may_enter, leave_wait, enter, exit, System, at, thread,
  LockStep, changes, arrives, enters, gives_up, exits, LockSteps, still, step, bit, high_at,
  holding, waiting_high, holding_low, total, holders, high_waiting, low_holders, Consistent,
}

total-append : (f : Thread → ℕ) (xs ys : List Thread) → total f (xs ++ ys) ≡ total f xs + total f ys
unfolding total
total-append f [] ys = omega arith
total-append f (x ∷ xs) ys = omega (arith, total-append f xs ys)

-- One thread of the list changes.
pub total-at :
    (f : Thread → ℕ) (before after : List Thread) (t : Thread)
    → total f (before ++ t ∷ after) ≡ f t + (total f before + total f after)
unfolding total
total-at f before after t = omega (arith, total-append f before (t ∷ after))

total-notify_all :
    (f : Thread → ℕ) (ts : List Thread)
    → ((t : Thread) → f (notify t) ≡ f t)
    → total f (notify_all ts) ≡ total f ts
unfolding total notify_all
total-notify_all f [] h = refl
total-notify_all f (t ∷ ts) h = omega (arith, h t, total-notify_all f ts h)

holding-notify : (p : Priority) (phase : Phase) → held_at p (woken phase) ≡ held_at p phase
holding-notify p phase = ground arith

high-notify : (p : Priority) (phase : Phase) → high_at p (woken phase) ≡ high_at p phase
high-notify p phase = ground arith

low-notify : (p : Priority) (phase : Phase) → low_at p (woken phase) ≡ low_at p phase
low-notify p phase = ground arith

Consistent-exit :
    (l : PriorityLock) (before after : List Thread) (p : Priority)
    → Consistent (at l before (thread p holds) after)
    → Consistent (exit (at l before (thread p away) after))
unfolding exit
Consistent-exit l before after p c = record {
  one_holder = ground (
    arith,
    total-notify_all holding (before ++ thread p away ∷ after)
        (λ t. holding-notify t.priority t.phase),
    total-at holding before after (thread p holds),
    total-at holding before after (thread p away),
    c.one_holder,
  );
  counted = ground (
    arith,
    total-notify_all waiting_high (before ++ thread p away ∷ after)
        (λ t. high-notify t.priority t.phase),
    total-at waiting_high before after (thread p holds),
    total-at waiting_high before after (thread p away),
    c.counted,
  );
}

Consistent-at :
    (l m : PriorityLock) (before after : List Thread) (t u : Thread)
    → ((r : ℕ) → holding t + r ≡ bit l.held → holding u + r ≡ bit m.held)
    → ((r : ℕ) → waiting_high t + r ≡ l.high_waiters → waiting_high u + r ≡ m.high_waiters)
    → Consistent (at l before t after)
    → Consistent (at m before u after)
Consistent-at l m before after t u one count c = record {
  one_holder = omega (
    arith,
    total-at holding before after t,
    total-at holding before after u,
    c.one_holder,
    one (total holding before + total holding after),
  );
  counted = omega (
    arith,
    total-at waiting_high before after t,
    total-at waiting_high before after u,
    c.counted,
    count (total waiting_high before + total waiting_high after),
  );
}

pub LockStep-Consistent : {s t : System} → LockStep s t → Consistent s → Consistent t
unfolding arrive may_enter leave_wait enter exit
LockStep-Consistent (changes l before after p q) =
    Consistent-at l l before after (thread p away) (thread q away) (λ r e. e) (λ r e. ground arith)
LockStep-Consistent (arrives l before after p) =
    Consistent-at l (arrive p l) before after (thread p away) (thread p waits) (λ r e. ground arith)
      (λ r e. ground arith)
LockStep-Consistent (enters l before after p h) =
    Consistent-at l (enter p l) before after (thread p waits) (thread p holds) (λ r e. ground arith)
      (λ r e. ground arith)
LockStep-Consistent (blocks l before after p h) =
    Consistent-at l l before after (thread p waits) (thread p sleeps) (λ r e. ground arith)
      (λ r e. ground arith)
LockStep-Consistent (wakes l before after p) =
    Consistent-at l l before after (thread p sleeps) (thread p waits) (λ r e. ground arith)
      (λ r e. ground arith)
LockStep-Consistent (gives_up l before after p) =
    Consistent-at l (leave_wait p l) before after (thread p waits) (thread p away)
      (λ r e. ground arith) (λ r e. ground arith)
LockStep-Consistent (exits l before after p) = Consistent-exit l before after p

pub LockSteps-Consistent : {s t : System} → LockSteps s t → Consistent s → Consistent t
LockSteps-Consistent still c = c
LockSteps-Consistent (step ss x) c = LockStep-Consistent x (LockSteps-Consistent ss c)

-- However threads of both priorities arrive, enter, give up and leave, at most one thread holds the
-- lock, and the count of waiters that the lock keeps is the number of threads that wait at high
-- priority, if the lock agrees with the threads at the start.
pub LockSteps-exclusive :
    (s t : System)
    → LockSteps s t
    → Consistent s
    → (holders t ≤ 1) × (t.lock.high_waiters ≡ high_waiting t)
LockSteps-exclusive s t ss c =
    let d = LockSteps-Consistent ss c in (ground (arith, d.one_holder), sym d.counted)

step-low :
    {t u : System}
    → LockStep t u
    → Consistent t
    → 1 ≤ high_waiting t
    → low_holders u ≤ low_holders t
unfolding arrive may_enter leave_wait enter exit
step-low (changes l before after p q) c h = ground (
  arith,
  total-at holding_low before after (thread p away),
  total-at holding_low before after (thread q away),
)
step-low (arrives l before after p) c h = ground (
  arith,
  total-at holding_low before after (thread p away),
  total-at holding_low before after (thread p waits),
)
step-low (enters l before after p e) c h = ground (
  arith,
  total-at holding_low before after (thread p waits),
  total-at holding_low before after (thread p holds),
  c.counted,
)
step-low (blocks l before after p e) c h = ground (
  arith,
  total-at holding_low before after (thread p waits),
  total-at holding_low before after (thread p sleeps),
)
step-low (wakes l before after p) c h = ground (
  arith,
  total-at holding_low before after (thread p sleeps),
  total-at holding_low before after (thread p waits),
)
step-low (gives_up l before after p) c h = ground (
  arith,
  total-at holding_low before after (thread p waits),
  total-at holding_low before after (thread p away),
)
step-low (exits l before after p) c h = ground (
  arith,
  total-notify_all holding_low (before ++ thread p away ∷ after)
      (λ t. low-notify t.priority t.phase),
  total-at holding_low before after (thread p holds),
  total-at holding_low before after (thread p away),
)

-- While a thread waits at high priority, no thread of low priority gets the lock, in whichever
-- state the threads have reached.
pub LockStep-yields :
    (s t u : System)
    → LockSteps s t
    → Consistent s
    → LockStep t u
    → 1 ≤ high_waiting t
    → low_holders u ≤ low_holders t
LockStep-yields s t u ss c x h = step-low x (LockSteps-Consistent ss c) h
