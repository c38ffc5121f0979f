-- ===== src/Heartbeat.antt =====
-- The stall watchdog (runtime/heartbeat.py): the probes of the child, and the monitor with which the
-- launcher decides that a child has stalled. Times are whole seconds of the clocks, which are
-- arguments; the heartbeat file is the number that its modification time is.
pub mod Alive
mod Tests
use second_brain_art.Common.{
  ℕ, ℤ, pos, negsuc, ◌+◌, ◌-◌, ◌*◌, Bool, true, false, not, ◌&&◌, ◌||◌, Option, none, some, List,
  [], ◌∷◌, String, str_eq, ltb, leb, ◌==◌, max, if◌then◌else◌,
}
use second_brain_art.Python.Dict.{Dict, lookup, insert, remove}

pub record Probe : Type 0 where
  pub name : String
  pub max_staleness : ℕ
  pub last_beat : ℕ

pub record Registry : Type 0 where
  pub probes : Dict Probe
  pub stale_warned : Dict ℕ

unfoldable pub register : String → ℕ → ℕ → Registry → Registry
register name max_staleness now r =
    let probe : Probe = record { name = name; max_staleness = max_staleness; last_beat = now } in
    record r { probes = insert name probe r.probes }

unfoldable pub unregister : String → Registry → Registry
unregister name r = record {
  probes = remove name r.probes;
  stale_warned = remove name r.stale_warned;
}

unfoldable pub unregister_all : Registry → Registry
unregister_all r = record { probes = []; stale_warned = [] }

abbrev pub is_stale : ℕ → Probe → Bool
is_stale now p = ltb p.max_staleness (now - p.last_beat)

-- `_stale_probes`
unfoldable pub stale_probes : ℕ → Dict Probe → List Probe
stale_probes now [] = []
stale_probes now ((name, p) ∷ probes) =
    let rest = stale_probes now probes in if is_stale now p then p ∷ rest else rest

abbrev pub relog_every : ℕ
relog_every = 60

-- The probe was not warned of, or not lately.
abbrev pub warn_due : Option ℕ → ℕ → Bool
warn_due none now = true
warn_due (some last) now = leb relog_every (now - last)

unfoldable pub warn_of : ℕ → List Probe → Dict ℕ → Dict ℕ
warn_of now [] warned = warned
warn_of now (p ∷ probes) warned =
    warn_of now probes
      (if warn_due (lookup p.name warned) now then insert p.name now warned else warned)

-- The rest of `_tick`, for the probes that are stale: whether the heartbeat is written.
abbrev pub tick_with : List Probe → ℕ → Registry → Bool × Registry
tick_with [] now r = (true, record r { stale_warned = [] })
tick_with (p ∷ probes) now r =
    (false, record r { stale_warned = warn_of now (p ∷ probes) r.stale_warned })

unfoldable pub tick : ℕ → Registry → Bool × Registry
tick now r = tick_with (stale_probes now r.probes) now r

abbrev pub sleep_gap : ℕ
sleep_gap = 30

-- `_StallMonitor`
pub record StallMonitor : Type 0 where
  pub stall_timeout : ℕ
  pub last_mtime : Option ℕ
  pub seen_first_beat : Bool
  pub last_progress : ℕ
  pub last_wall_poll : ℕ
  pub grace_until : ℕ

unfoldable pub new_monitor : ℕ → Option ℕ → ℕ → ℕ → StallMonitor
new_monitor stall_timeout baseline now wall = record {
  stall_timeout = stall_timeout;
  last_mtime = baseline;
  seen_first_beat = false;
  last_progress = now;
  last_wall_poll = wall;
  grace_until = 0;
}

-- What a poll reads: the two clocks and the file.
pub record Poll : Type 0 where
  pub now : ℕ
  pub wall : ℕ
  pub mtime : Option ℕ

-- `mtime_ns is not None and mtime_ns != self._last_mtime`
abbrev pub differs : Option ℕ → Option ℕ → Bool
differs none last = false
differs (some m) none = true
differs (some m) (some last) = not (m == last)

-- The start of `observe`: a gap of the wall clock grants a whole window of grace.
abbrev pub note_wall : Poll → StallMonitor → StallMonitor
note_wall p m = record m {
  grace_until =
      if ltb sleep_gap (p.wall - m.last_wall_poll) then p.now + m.stall_timeout else m.grace_until;
  last_wall_poll = p.wall;
}

abbrev pub progress : Poll → StallMonitor → StallMonitor
progress p m = record m { last_mtime = p.mtime; seen_first_beat = true; last_progress = p.now }

abbrev pub overdue : Poll → StallMonitor → Bool
overdue p m =
    m.seen_first_beat
    && (not (ltb p.now m.grace_until) && ltb m.stall_timeout (p.now - m.last_progress))

unfoldable pub observe : Poll → StallMonitor → Bool × StallMonitor
observe p m =
    let n = note_wall p m in
    if differs p.mtime n.last_mtime then (false, progress p n) else (overdue p n, n)

abbrev pub min_stall_timeout : ℕ
min_stall_timeout = 30

abbrev pub default_stall_timeout : ℕ
default_stall_timeout = 120

-- `clamp_stall_timeout`, for a number, or `none` for what is no number
unfoldable pub clamp_stall_timeout : Option ℤ → ℕ
clamp_stall_timeout none = default_stall_timeout
clamp_stall_timeout (some (negsuc value)) = 0
clamp_stall_timeout (some (pos value)) = if value == 0 then 0 else max value min_stall_timeout
