-- ===== src/Health/Tests.antt =====
-- Runs of the breaker of runtime/supervisor.py.
use second_brain_art.Common.{ℕ, suc, ◌≤◌, true, List, [], ◌∷◌, ◌≡◌, ◌⊎◌, refl, length, arith}
use second_brain_art.Python.Dict.{lookup, insert, remove}
use second_brain_art.Health.{Request, PluginHealth, empty, prune, window_at, record_strike, clear}
use second_brain_art.Python.Sets.{is_in, discard}
use second_brain_art.Health.Requests.{
  Call, strike, cleared, run_call, run_calls, requests_for, clears, run_calls-requests, IsTripped,
  record_strike-IsTripped,
}

abbrev crash : Request
crash = record { plugin_type = "tool"; source_path = "p.py"; name = "p"; reason = "boom" }

abbrev crash_at : ℕ → Call
crash_at now = strike true now true crash

-- Three strikes in a minute, two more, a reload and three strikes that are further apart.
abbrev history : List Call
history =
    crash_at 1
    ∷ crash_at 30
    ∷ crash_at 61
    ∷ crash_at 62
    ∷ cleared "p.py"
    ∷ crash_at 100
    ∷ crash_at 130
    ∷ crash_at 161
    ∷ []

trips : length (run_calls history empty).requests ≡ 1
unfolding run_calls run_call record_strike clear is_in discard prune window_at lookup insert remove
trips = refl

run_calls-requests_example :
    requests_for "p.py" (run_calls history empty).requests ≤ suc (clears "p.py" history)
run_calls-requests_example = run_calls-requests history "p.py"

abbrev struck : PluginHealth
struck = record { strikes = ("p.py", 1 ∷ 30 ∷ []) ∷ []; quarantined = []; requests = [] }

record_strike-IsTripped_example :
    (((record_strike true 61 true crash struck).requests ≡ [])
      × ((record_strike true 61 true crash struck).quarantined ≡ []))
    ⊎ ((true ≡ true)
        × (true ≡ true)
        × IsTripped 61 crash struck (record_strike true 61 true crash struck))
unfolding lookup
record_strike-IsTripped_example =
    record_strike-IsTripped true true 61 crash struck
      ((omega arith, (omega arith, tt)), ((omega arith, tt), (tt, tt)))
