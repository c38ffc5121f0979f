-- ===== src/Heartbeat/Tests.antt =====
-- Runs of the model of runtime/heartbeat.py: a child that beats at 10 and then falls silent.
use second_brain_art.Common.{ℕ, ◌≡◌, refl, true, false, some, [], ◌∷◌, arith}
use second_brain_art.Heartbeat.{StallMonitor, Poll, observe}
use second_brain_art.Heartbeat.Alive.{run, observe-alive}

abbrev poll : ℕ → ℕ → Poll
poll now mtime = record { now = now; wall = now; mtime = some mtime }

abbrev fresh : StallMonitor
fresh = record {
  stall_timeout = 40;
  last_mtime = some 7;
  seen_first_beat = false;
  last_progress = 0;
  last_wall_poll = 0;
  grace_until = 0;
}

reports_stall : (observe (poll 60 8) (run (poll 10 8 ∷ poll 30 8 ∷ poll 45 8 ∷ []) fresh)).0 ≡ true
unfolding observe run
reports_stall = refl

observe-alive_example :
    (observe (poll 50 8) (run (poll 30 8 ∷ []) (observe (poll 10 8) fresh).1)).0 ≡ false
observe-alive_example =
    observe-alive fresh (poll 10 8) (poll 30 8 ∷ []) (poll 50 8) refl (omega arith, tt)
      (omega arith)
