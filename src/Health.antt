-- ===== src/Health.antt =====
-- `PluginHealth` of runtime/supervisor.py: the breaker that counts the strikes of a plugin in a
-- sliding window. The lock is left out: each method runs as a whole. Times are whole seconds.
pub mod Requests
mod Tests
use second_brain_art.Python.Sets.{is_in, discard}
use second_brain_art.Common.{
  ℕ, zero, suc, ◌+◌, Bool, true, false, not, ◌&&◌, ◌||◌, Option, none, some, List, [], ◌∷◌, ◌++◌,
  String, str_eq, ltb, leb, if◌then◌else◌, length,
}
use second_brain_art.Python.Dict.{Dict, lookup, insert, remove}

abbrev pub strike_threshold : ℕ
strike_threshold = 3

abbrev pub strike_window : ℕ
strike_window = 60

-- The payload of PLUGIN_QUARANTINE_REQUESTED.
pub record Request : Type 0 where
  pub plugin_type : String
  pub source_path : String
  pub name : String
  pub reason : String

-- A deque has its oldest strike first; `requests` is what was emitted, newest first.
pub record PluginHealth : Type 0 where
  pub strikes : Dict (List ℕ)
  pub quarantined : List String
  pub requests : List Request

abbrev pub empty : PluginHealth
empty = record { strikes = []; quarantined = []; requests = [] }

abbrev pub deque_of : Option (List ℕ) → List ℕ
deque_of none = []
deque_of (some ts) = ts

-- Drops the strikes at the front that are out of the window.
unfoldable pub prune : ℕ → List ℕ → List ℕ
prune now [] = []
prune now (t ∷ ts) = let rest = prune now ts in if ltb (t + strike_window) now then rest else t ∷ ts

unfoldable pub record_success : String → PluginHealth → PluginHealth
record_success key h = if str_eq key "" then h else record h { strikes = remove key h.strikes }

unfoldable pub window_at : ℕ → String → PluginHealth → List ℕ
window_at now key h = prune now (deque_of (lookup key h.strikes) ++ (now ∷ []))

abbrev pub add_strike : ℕ → Bool → Request → PluginHealth → PluginHealth
add_strike now eligible r h =
    let key = r.source_path in
    let dq = window_at now key h in
    if eligible && leb strike_threshold (length dq)
    then record h {
      strikes = remove key (insert key dq h.strikes);
      quarantined = key ∷ h.quarantined;
      requests = r ∷ h.requests;
    }
    else record h { strikes = insert key dq h.strikes }

-- `record_strike`, with the setting of the supervisor and the time; `r.source_path` is the key.
unfoldable pub record_strike : Bool → ℕ → Bool → Request → PluginHealth → PluginHealth
record_strike enabled now eligible r h =
    if not enabled || str_eq r.source_path ""
    then h
    else if is_in r.source_path h.quarantined
    then h
    else add_strike now eligible r h

unfoldable pub clear : String → PluginHealth → PluginHealth
clear key h =
    if str_eq key ""
    then h
    else record h { strikes = remove key h.strikes; quarantined = discard key h.quarantined }
