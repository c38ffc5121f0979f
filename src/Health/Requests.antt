-- ===== src/Health/Requests.antt =====
-- About the quarantine requests of `PluginHealth` of runtime/supervisor.py.
use second_brain_art.Common.{
  ℕ, suc, ◌+◌, ◌≤◌, Bool, true, false, ◌&&◌, List, [], ◌∷◌, ◌++◌, String, str_eq, eq_iff, ltb, leb,
  if◌then◌else◌, length, All, ◌≡◌, refl, arith, Bool-cases, ◌⊎◌, inl, inr,
}
use second_brain_art.Python.Dict.{lookup}
use second_brain_art.Python.Sets.{is_in, discard}
use second_brain_art.Health.{
  Request, PluginHealth, deque_of, prune, strike_window, strike_threshold, window_at, add_strike,
  record_success, record_strike, clear, empty,
}

-- A call of one of the methods.
pub data Call : Type 0 where
  strike : Bool → ℕ → Bool → Request → Call
  success cleared : String → Call

unfoldable pub run_call : Call → PluginHealth → PluginHealth
run_call (strike enabled now eligible r) h = record_strike enabled now eligible r h
run_call (success key) h = record_success key h
run_call (cleared key) h = clear key h

unfoldable pub run_calls : List Call → PluginHealth → PluginHealth
run_calls [] h = h
run_calls (c ∷ calls) h = run_calls calls (run_call c h)

-- How many requests there are for a key, and how often it was cleared.
unfoldable pub requests_for : String → List Request → ℕ
requests_for key [] = 0
requests_for key (r ∷ rs) =
    let rest = requests_for key rs in if str_eq r.source_path key then suc rest else rest

unfoldable pub clears : String → List Call → ℕ
clears key [] = 0
clears key (cleared k ∷ calls) =
    let rest = clears key calls in if str_eq k key then suc rest else rest
clears key (strike e n l r ∷ calls) = clears key calls
clears key (success k ∷ calls) = clears key calls

abbrev bit : Bool → ℕ
bit true = 1
bit false = 0

strike-Within :
    (enabled : Bool) (now : ℕ) (eligible : Bool) (r : Request) (key : String) (n : ℕ)
    (h : PluginHealth)
    → requests_for key h.requests ≤ n + bit (is_in key h.quarantined)
    → requests_for key (record_strike enabled now eligible r h).requests
      ≤ n + bit (is_in key (record_strike enabled now eligible r h).quarantined)
unfolding record_strike requests_for is_in
strike-Within enabled now eligible r key n h w = ground (arith, eq_iff r.source_path key)

is_in-discard :
    (k key : String) (keys : List String)
    → is_in key (discard k keys) ≡ (if str_eq k key then false else is_in key keys)
unfolding is_in discard
is_in-discard k key [] = ground arith
is_in-discard k key (j ∷ keys) =
    ground (arith, eq_iff k key, eq_iff j k, eq_iff j key, is_in-discard k key keys)

clear-Within :
    (k key : String) (n : ℕ) (h : PluginHealth)
    → requests_for key h.requests ≤ n + bit (is_in key h.quarantined)
    → requests_for key (clear k h).requests
      ≤ (if str_eq k key then suc n else n) + bit (is_in key (clear k h).quarantined)
unfolding clear
clear-Within k key n h w = ground (arith, is_in-discard k key h.quarantined)

success-Within :
    (k key : String) (n : ℕ) (h : PluginHealth)
    → requests_for key h.requests ≤ n + bit (is_in key h.quarantined)
    → requests_for key (record_success k h).requests
      ≤ n + bit (is_in key (record_success k h).quarantined)
unfolding record_success
success-Within k key n h w = ground arith

none_yet : (key : String) → requests_for key [] ≤ 0 + bit (is_in key [])
unfolding requests_for is_in
none_yet key = omega arith

run_calls-Within :
    (calls : List Call) (key : String) (n : ℕ) (h : PluginHealth)
    → requests_for key h.requests ≤ n + bit (is_in key h.quarantined)
    → requests_for key (run_calls calls h).requests
      ≤ (n + clears key calls) + bit (is_in key (run_calls calls h).quarantined)
unfolding run_calls run_call clears
run_calls-Within [] key n h w = omega arith
run_calls-Within (strike e now l r ∷ calls) key n h w =
    run_calls-Within calls key n (record_strike e now l r h) (strike-Within e now l r key n h w)
run_calls-Within (success k ∷ calls) key n h w =
    run_calls-Within calls key n (record_success k h) (success-Within k key n h w)
run_calls-Within (cleared k ∷ calls) key n h w =
    let rest =
      run_calls-Within calls key (if str_eq k key then suc n else n) (clear k h)
        (clear-Within k key n h w) in
    ground (arith, rest)

-- Whatever is called on a new `PluginHealth`, and in whatever order, the quarantine of a plugin is
-- requested at most once more often than its history was cleared.
pub run_calls-requests :
    (calls : List Call) (key : String)
    → requests_for key (run_calls calls empty).requests ≤ suc (clears key calls)
run_calls-requests calls key =
    let w = run_calls-Within calls key 0 empty (none_yet key) in ground (arith, w)

-- Each time is at most the ones behind it.
abbrev pub Ascending : List ℕ → Type 0
Ascending [] = Unit
Ascending (t ∷ ts) = All (λ u. t ≤ u) ts × Ascending ts

later-recent :
    (now t : ℕ) (ts : List ℕ)
    → now ≤ t + strike_window
    → All (λ u. t ≤ u) ts
    → All (λ u. now ≤ u + strike_window) ts
later-recent now t [] h a = tt
later-recent now t (u ∷ ts) h a = (omega (arith, a.0), later-recent now t ts h a.1)

prune-recent :
    (now : ℕ) (ts : List ℕ) → Ascending ts → All (λ t. now ≤ t + strike_window) (prune now ts)
unfolding prune
prune-recent now [] a = tt
prune-recent now (t ∷ ts) a = elim (Bool-cases (ltb (t + strike_window) now)) [
  | inl e ↦ rw e (prune-recent now ts a.1)
  | inr e ↦ rw e (ground arith, later-recent now t ts (ground arith) a.0)
]

-- What a strike does that trips the breaker.
pub record IsTripped (now : ℕ) (r : Request) (from to : PluginHealth) : Type 0 where
  pub fresh : is_in r.source_path from.quarantined ≡ false
  pub enough : strike_threshold ≤ length (window_at now r.source_path from)
  pub recent : All (λ t. now ≤ t + strike_window) (window_at now r.source_path from)
  pub requested : to.requests ≡ r ∷ from.requests
  pub quarantined : to.quarantined ≡ r.source_path ∷ from.quarantined

and_left : (a b : Bool) → (a && b) ≡ true → a ≡ true
and_left a b h = ground arith

enough_strikes : (a : Bool) (n : ℕ) → (a && leb strike_threshold n) ≡ true → strike_threshold ≤ n
enough_strikes a n h = ground arith

add_strike-IsTripped :
    (eligible : Bool) (now : ℕ) (r : Request) (h : PluginHealth)
    → Ascending (deque_of (lookup r.source_path h.strikes) ++ (now ∷ []))
    → is_in r.source_path h.quarantined ≡ false
    → (((add_strike now eligible r h).requests ≡ h.requests)
        × ((add_strike now eligible r h).quarantined ≡ h.quarantined))
      ⊎ ((eligible ≡ true) × IsTripped now r h (add_strike now eligible r h))
add_strike-IsTripped eligible now r h a f =
    let n = length (window_at now r.source_path h) in
    elim (Bool-cases (eligible && leb strike_threshold n)) [
      | inr e ↦ inl (rw e refl, rw e refl)
      | inl e ↦ inr (
        and_left eligible (leb strike_threshold n) e,
        record {
          fresh = f;
          enough = enough_strikes eligible n e;
          recent = unfold window_at in (prune-recent now _ a);
          requested = rw e refl;
          quarantined = rw e refl;
        },
      )
    ]

-- A strike of a plugin that is not eligible requests no quarantine, nor does one while the supervisor
-- is off. Any other one does so only for a plugin that is not in quarantine yet, with at least three
-- strikes, this one among them, that all are at most 60 seconds old; it requests the quarantine once
-- and remembers it. The strikes must have been recorded in the order of their times.
pub record_strike-IsTripped :
    (enabled eligible : Bool) (now : ℕ) (r : Request) (h : PluginHealth)
    → Ascending (deque_of (lookup r.source_path h.strikes) ++ (now ∷ []))
    → (((record_strike enabled now eligible r h).requests ≡ h.requests)
        × ((record_strike enabled now eligible r h).quarantined ≡ h.quarantined))
      ⊎ ((enabled ≡ true)
          × (eligible ≡ true)
          × IsTripped now r h (record_strike enabled now eligible r h))
unfolding record_strike
record_strike-IsTripped false eligible now r h a = inl (refl, refl)
record_strike-IsTripped true eligible now r h a = elim (Bool-cases (str_eq r.source_path "")) [
  | inl s ↦ rw s (inl (refl, refl))
  | inr s ↦ rw s (elim (Bool-cases (is_in r.source_path h.quarantined)) [
    | inl q ↦ rw q (inl (refl, refl))
    | inr q ↦ rw q (elim (add_strike-IsTripped eligible now r h a q) [
      | inl u ↦ inl u
      | inr t ↦ inr (refl, t.0, t.1)
    ])
  ])
]
