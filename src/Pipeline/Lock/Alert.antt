-- ===== src/Pipeline/Lock/Alert.antt =====
-- The invariant of the lock of pipeline/database.py (`_PriorityLock`) that no wakeup is lost, as long
-- as no thread of high priority gives up its wait.
use second_brain_art.Common.{ℕ, ◌+◌, ◌≡◌, ◌≤◌, refl, true, false, List, [], ◌∷◌, ◌++◌, arith}
use second_brain_art.Pipeline.Lock.{
  Priority, high, low, PriorityLock, away, waits, sleeps, holds, Phase, Thread, arrive, may_enter,
  leave_wait, enter, exit, notify_all, woken, System, at, thread, LockStep, changes, arrives,
  enters, blocks, wakes, gives_up, exits, LockSteps, still, step, is_patient, are_patient,
  waiting_high, waiting, total, Consistent,
}
use second_brain_art.Pipeline.Lock.Exclusion.{total-at, LockSteps-Consistent}

abbrev pub asleep_at : Phase → ℕ
asleep_at sleeps = 1
asleep_at _ = 0

abbrev pub awake_at : Phase → ℕ
awake_at waits = 1
awake_at _ = 0

abbrev pub high_asleep_at : Priority → Phase → ℕ
high_asleep_at high sleeps = 1
high_asleep_at _ _ = 0

abbrev pub high_awake_at : Priority → Phase → ℕ
high_awake_at high waits = 1
high_awake_at _ _ = 0

abbrev pub asleep : Thread → ℕ
asleep t = asleep_at t.phase

abbrev pub awake : Thread → ℕ
awake t = awake_at t.phase

abbrev pub high_asleep : Thread → ℕ
high_asleep t = high_asleep_at t.priority t.phase

abbrev pub high_awake : Thread → ℕ
high_awake t = high_awake_at t.priority t.phase

-- While the lock is free, no thread of high priority is asleep, and another one is so only while one
-- of high priority is awake.
pub record Alert (s : System) : Type 0 where
  pub no_high : s.lock.held ≡ false → total high_asleep s.threads ≡ 0
  pub led : s.lock.held ≡ false → 1 ≤ total asleep s.threads → 1 ≤ total high_awake s.threads

pub total-high :
    (ts : List Thread) → total waiting_high ts ≡ total high_awake ts + total high_asleep ts
unfolding total
total-high [] = refl
total-high (t ∷ ts) = ground (arith, total-high ts)

pub total-waiting : (ts : List Thread) → total waiting ts ≡ total awake ts + total asleep ts
unfolding total
total-waiting [] = refl
total-waiting (t ∷ ts) = ground (arith, total-waiting ts)

total-high_asleep : (ts : List Thread) → total high_asleep ts ≤ total asleep ts
unfolding total
total-high_asleep [] = omega arith
total-high_asleep (t ∷ ts) = ground (arith, total-high_asleep ts)

asleep-woken : (phase : Phase) → asleep_at (woken phase) ≡ 0
asleep-woken phase = ground arith

notify_all-asleep : (ts : List Thread) → total asleep (notify_all ts) ≡ 0
unfolding total notify_all
notify_all-asleep [] = refl
notify_all-asleep (t ∷ ts) = omega (arith, asleep-woken t.phase, notify_all-asleep ts)

Alert-at :
    (l m : PriorityLock) (before after : List Thread) (t u : Thread)
    → ((h : ℕ) → m.held ≡ false → (l.held ≡ false → high_asleep t + h ≡ 0) → high_asleep u + h ≡ 0)
    → ((s a : ℕ)
        → m.held ≡ false
        → (l.held ≡ false → 1 ≤ asleep t + s → 1 ≤ high_awake t + a)
        → 1 ≤ asleep u + s
        → 1 ≤ high_awake u + a)
    → Alert (at l before t after)
    → Alert (at m before u after)
Alert-at l m before after t u first second alert = record {
  no_high = λ f. omega (
    arith,
    total-at high_asleep before after u,
    first (total high_asleep before + total high_asleep after) f
        λ g. omega (arith, total-at high_asleep before after t, alert.no_high g),
  );
  led = λ f some_sleep. omega (
    arith,
    total-at high_awake before after u,
    second (total asleep before + total asleep after)
        (total high_awake before + total high_awake after) f
        (λ g k. omega (
          arith,
          total-at high_awake before after t,
          alert.led g (omega (arith, total-at asleep before after t, k)),
        ))
        (omega (arith, some_sleep, total-at asleep before after u)),
  );
}

pub Alert-rested : (s : System) → total asleep s.threads ≡ 0 → Alert s
Alert-rested s z = record {
  no_high = λ _. omega (arith, total-high_asleep s.threads);
  led = λ _ k. absurd (omega (arith, z, k));
}

-- A thread falls asleep only while the lock is held, or, at low priority, while one of high priority
-- waits, which then is awake.
Alert-blocks :
    (l : PriorityLock) (before after : List Thread) (p : Priority)
    → may_enter p l ≡ false
    → Consistent (at l before (thread p waits) after)
    → Alert (at l before (thread p waits) after)
    → Alert (at l before (thread p sleeps) after)
unfolding may_enter
Alert-blocks l before after high h c alert = record {
  no_high = λ f. absurd (ground (arith, f));
  led = λ f _. absurd (ground (arith, f));
}
Alert-blocks l before after low h c alert = record {
  no_high = λ f. omega (
    arith,
    total-at high_asleep before after (thread low waits),
    total-at high_asleep before after (thread low sleeps),
    alert.no_high f,
  );
  led = λ f _. ground (
    arith,
    f,
    c.counted,
    total-high (before ++ thread low waits ∷ after),
    total-at high_awake before after (thread low waits),
    total-at high_awake before after (thread low sleeps),
    alert.no_high f,
  );
}

LockStep-Alert :
    {s t : System} → (x : LockStep s t) → is_patient x ≡ true → Consistent s → Alert s → Alert t
unfolding arrive may_enter leave_wait enter exit
LockStep-Alert (changes l before after p q) k c =
    Alert-at l l before after (thread p away) (thread q away) (λ h f o. ground (arith, o f))
      (λ s a f o m. ground (arith, o f))
LockStep-Alert (arrives l before after p) k c =
    Alert-at l (arrive p l) before after (thread p away) (thread p waits)
      (λ h f o. ground (arith, o)) (λ s a f o m. ground (arith, o))
LockStep-Alert (enters l before after p h) k c =
    Alert-at l (enter p l) before after (thread p waits) (thread p holds)
      (λ h f o. absurd (ground (arith, f))) (λ s a f o m. absurd (ground (arith, f)))
LockStep-Alert (blocks l before after p h) k c = Alert-blocks l before after p h c
LockStep-Alert (wakes l before after p) k c =
    Alert-at l l before after (thread p sleeps) (thread p waits) (λ h f o. ground (arith, o f))
      (λ s a f o m. ground (arith, o f))
LockStep-Alert (gives_up l before after high) k c = absurd (ground (arith, k))
LockStep-Alert (gives_up l before after low) k c =
    Alert-at l l before after (thread low waits) (thread low away) (λ h f o. ground (arith, o f))
      (λ s a f o m. ground (arith, o f))
LockStep-Alert (exits l before after p) k c = λ _.
    Alert-rested (exit (at l before (thread p away) after))
      (notify_all-asleep (before ++ thread p away ∷ after))

pub LockSteps-Alert :
    {s t : System} → (ss : LockSteps s t) → are_patient ss ≡ true → Consistent s → Alert s → Alert t
LockSteps-Alert still k c alert = alert
LockSteps-Alert (step ss x) k c alert =
    LockStep-Alert x (ground (arith, k)) (LockSteps-Consistent ss c)
      (LockSteps-Alert ss (ground (arith, k)) c alert)
