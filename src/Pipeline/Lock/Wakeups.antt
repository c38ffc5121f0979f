-- ===== src/Pipeline/Lock/Wakeups.antt =====
-- No wakeup of the lock of pipeline/database.py (`_PriorityLock`) is lost, as long as no thread of high
-- priority gives up its wait.
use second_brain_art.Common.{
  ℕ, zero, suc, ◌≡◌, ◌≤◌, ◌⊎◌, inl, inr, refl, ap, true, false, List, [], ◌∷◌, ◌++◌, arith,
}
use second_brain_art.Pipeline.Lock.{
  Priority, high, low, PriorityLock, away, waits, sleeps, holds, Phase, Thread, may_enter, enter,
  System, at, thread, LockStep, enters, LockSteps, are_patient, waiting, total, holders, Consistent,
}
use second_brain_art.Pipeline.Lock.Exclusion.{LockStep-Consistent, LockSteps-Consistent}
use second_brain_art.Pipeline.Lock.Alert.{
  asleep, awake, high_awake, awake_at, high_awake_at, Alert, total-high, total-waiting,
  Alert-rested, LockSteps-Alert,
}

zero-cases : (n : ℕ) → (n ≡ 0) ⊎ (1 ≤ n)
zero-cases zero = inl refl
zero-cases (suc n) = inr (omega arith)

-- A thread at which a weight is positive.
find :
    (f : Thread → ℕ) (ts : List Thread)
    → 1 ≤ total f ts
    → (before : List Thread) × (t : Thread) × (after : List Thread) × (ts ≡ before ++ t ∷ after)
      × (1 ≤ f t)
unfolding total
find f [] h = absurd (omega arith)
find f (t ∷ ts) h = elim (zero-cases (f t)) [
  | inl z ↦
      let (before, u, after, e, k) = find f ts (omega (arith, z)) in
      (t ∷ before, u, after, ap (λ r. t ∷ r) e, k)
  | inr k ↦ ([], t, ts, refl, k)
]

-- The lock is free for a thread of this kind.
enter-at :
    (l : PriorityLock) (ts before after : List Thread) (p : Priority) (phase : Phase)
    → ts ≡ before ++ thread p phase ∷ after
    → 1 ≤ awake_at phase
    → may_enter p l ≡ true
    → Consistent (record { lock = l; threads = ts })
    → (u : System) × LockStep (record { lock = l; threads = ts }) u × (holders u ≡ 1)
unfolding enter
enter-at l ts before after p away e w m c = absurd (ground arith)
enter-at l ts before after p holds e w m c = absurd (ground arith)
enter-at l ts before after p sleeps e w m c = absurd (ground arith)
enter-at l ts before after p waits e w m c =
    let x : LockStep (record { lock = l; threads = ts })
        (at (enter p l) before (thread p holds) after) =
      rw e (enters l before after p m) in
    (at (enter p l) before (thread p holds) after, x, (LockStep-Consistent x c).one_holder)

high-waits :
    (p : Priority) (phase : Phase) → 1 ≤ high_awake_at p phase → (p ≡ high) × (1 ≤ awake_at phase)
high-waits high away h = absurd (ground arith)
high-waits high waits h = (refl, ground arith)
high-waits high sleeps h = absurd (ground arith)
high-waits high holds h = absurd (ground arith)
high-waits low phase h = absurd (ground arith)

progress :
    (l : PriorityLock) (ts : List Thread)
    → l.held ≡ false
    → 1 ≤ total waiting ts
    → Consistent (record { lock = l; threads = ts })
    → Alert (record { lock = l; threads = ts })
    → (u : System) × LockStep (record { lock = l; threads = ts }) u × (holders u ≡ 1)
unfolding may_enter
progress l ts f w c alert = elim (zero-cases (total high_awake ts)) [
  | inl none_high ↦
      let none_asleep : total asleep ts ≡ 0 = elim (zero-cases (total asleep ts)) [
        | inl z ↦ z
        | inr k ↦ absurd (omega (arith, none_high, alert.led f k))
      ] in
      let (before, t, after, e, k) =
        find awake ts (omega (arith, w, total-waiting ts, none_asleep)) in
      let no_waiters : l.high_waiters ≡ 0 =
        omega (arith, c.counted, total-high ts, none_high, alert.no_high f) in
      enter-at l ts before after t.priority t.phase e k (ground (arith, no_waiters)) c
  | inr some_high ↦
      let (before, t, after, e, k) = find high_awake ts some_high in
      let (p, q) = high-waits t.priority t.phase k in
      enter-at l ts before after t.priority t.phase e q (ground arith) c
]

-- No wakeup is lost: in whichever state the threads have reached from one in which none was asleep,
-- with no thread of high priority giving up its wait, when the lock is free and a thread waits, awake
-- or asleep, then a thread that is awake can take the lock in one step.
pub LockSteps-progress :
    (s t : System) (ss : LockSteps s t)
    → are_patient ss ≡ true
    → Consistent s
    → total asleep s.threads ≡ 0
    → t.lock.held ≡ false
    → 1 ≤ total waiting t.threads
    → (u : System) × LockStep t u × (holders u ≡ 1)
LockSteps-progress s t ss k c z f w =
    progress t.lock t.threads f w (LockSteps-Consistent ss c)
      (LockSteps-Alert ss k c (Alert-rested s z))
