-- ===== src/Heartbeat/Alive.antt =====
-- The launcher's monitor (runtime/heartbeat.py) and a child that makes progress.
use second_brain_art.Common.{
  ℕ, ◌+◌, ◌≡◌, ◌≤◌, refl, true, false, List, [], ◌∷◌, inl, inr, Bool-cases, arith,
}
use second_brain_art.Heartbeat.{StallMonitor, Poll, differs, observe}

-- The monitor after polls that follow one another.
unfoldable pub run : List Poll → StallMonitor → StallMonitor
run [] m = m
run (p ∷ polls) m = run polls (observe p m).1

-- The monotonic clock does not run backwards.
abbrev pub Ascending : ℕ → List Poll → Type 0
Ascending from [] = Unit
Ascending from (p ∷ polls) = (from ≤ p.now) × Ascending p.now polls

-- Progress is counted no earlier than at `from`, within the same timeout.
record Since (from timeout : ℕ) (m : StallMonitor) : Type 0 where
  pub progressed : from ≤ m.last_progress
  pub same_timeout : m.stall_timeout ≡ timeout

Since-observe :
    (from timeout : ℕ) (p : Poll) (m : StallMonitor)
    → from ≤ p.now
    → Since from timeout m
    → Since from timeout (observe p m).1
unfolding observe
Since-observe from timeout p m le s = elim (Bool-cases (differs p.mtime m.last_mtime)) [
  | inl b ↦ rw b (record { progressed = le; same_timeout = s.same_timeout })
  | inr b ↦ rw b (record { progressed = s.progressed; same_timeout = s.same_timeout })
]

Since-run :
    (from at timeout : ℕ) (polls : List Poll) (m : StallMonitor)
    → from ≤ at
    → Ascending at polls
    → Since from timeout m
    → Since from timeout (run polls m)
unfolding run
Since-run from at timeout [] m le a s = s
Since-run from at timeout (p ∷ polls) m le a s =
    Since-run from p.now timeout polls (observe p m).1 (omega (arith, le, a.0)) a.1
      (Since-observe from timeout p m (omega (arith, le, a.0)) s)

observe-calm :
    (from timeout : ℕ) (p : Poll) (m : StallMonitor)
    → Since from timeout m
    → p.now ≤ from + timeout
    → (observe p m).0 ≡ false
unfolding observe
observe-calm from timeout p m s near = elim (Bool-cases (differs p.mtime m.last_mtime)) [
  | inl b ↦ rw b refl
  | inr b ↦ rw b (ground (arith, s.progressed, s.same_timeout, near))
]

-- A child that makes progress is not taken for stalled: after a poll that finds the heartbeat file
-- changed, no poll within the timeout from then on reports a stall, whatever the polls between find
-- and however the wall clock jumps; the monotonic clock must not run backwards.
pub observe-alive :
    (m : StallMonitor) (p : Poll) (polls : List Poll) (last : Poll)
    → differs p.mtime m.last_mtime ≡ true
    → Ascending p.now polls
    → last.now ≤ p.now + m.stall_timeout
    → (observe last (run polls (observe p m).1)).0 ≡ false
unfolding observe
observe-alive m p polls last changed a near =
    let n = (observe p m).1 in
    let s : Since p.now m.stall_timeout n =
      rw changed (record { progressed = omega arith; same_timeout = refl }) in
    observe-calm p.now m.stall_timeout last (run polls n)
      (Since-run p.now p.now m.stall_timeout polls n (omega arith) a s) near
