-- ===== src/Conversation/Core.antt =====
-- The operations of `ConversationState` in state_machine/conversation.py: turn order, the stack of
-- suspended phases, events.
use second_brain_art.Common.{
  Bool, true, false, Option, none, some, List, [], ◌∷◌, String, str_eq, if◌then◌else◌, get_elem?,
  map,
}
use second_brain_art.Conversation.Types.{
  Phase, awaiting_input, ActionType, call_command, call_tool, send_attachment, FormStep, PhaseFrame,
  Kind, user, agent, Participant, unknown_participant, not_in_turn_order, Happening, Event,
  Emission, Conversation,
}
use second_brain_art.Conversation.Exec.{Exec, exn, pure, raise, modify, ◌>>=◌}

abbrev pub base_phase : Phase
base_phase = awaiting_input

abbrev pub turn_order : Conversation → List String
turn_order cs = map (λ (p : Participant). p.id) cs.participants

abbrev pub find : String → List Participant → Option Participant
find i [] = none
find i (p ∷ ps) = if str_eq p.id i then some p else find i ps

-- The entry behind `i` in the order, or the first where `i` is the last.
abbrev pub entry_after : String → String → List String → Option String
entry_after i first [] = none
entry_after i first (j ∷ []) = if str_eq j i then some first else none
entry_after i first (j ∷ k ∷ ids) = if str_eq j i then some k else entry_after i first (k ∷ ids)

-- `other_id`: a single participant is its own other, without a look at `actor_id`.
abbrev pub other_in : String → List String → Option String
other_in i [] = none
other_in i (j ∷ []) = some i
other_in i (j ∷ k ∷ ids) = entry_after i j (j ∷ k ∷ ids)

unfoldable pub other_id : String → Exec String
other_id actor cs = elim (other_in actor (turn_order cs)) [
  | none ↦ raise (exn not_in_turn_order) cs
  | some other ↦ pure other cs
]

unfoldable pub assign_priority : String → Exec (Unit {0})
assign_priority actor = modify (λ cs. record cs { turn_priority = actor })

unfoldable pub switch_priority : String → Exec (Unit {0})
switch_priority actor = do other ← other_id actor; assign_priority other

unfoldable pub set_priority : String → Exec (Unit {0})
set_priority actor cs = elim (find actor cs.participants) [
  | none ↦ raise (exn unknown_participant) cs
  | some _ ↦ assign_priority actor cs
]

-- The default permission of a kind of participant, and the explicit one that overrides it.
abbrev pub default_permission : Kind → ActionType → Bool
default_permission user call_command = true
default_permission _ call_command = false
default_permission agent call_tool = true
default_permission _ call_tool = false
default_permission user send_attachment = true
default_permission _ send_attachment = false
default_permission _ _ = true

abbrev pub explicit_permission : Participant → ActionType → Option Bool
explicit_permission p call_command = p.can_command
explicit_permission p call_tool = p.can_tool
explicit_permission p send_attachment = p.can_attach
explicit_permission p _ = none

unfoldable pub allows : Participant → ActionType → Bool
allows p action = elim (explicit_permission p action) [
  | none ↦ default_permission p.kind action
  | some b ↦ b
]

-- The top frame of the stack, and its current step.
abbrev pub frame : Conversation → Option PhaseFrame
frame cs = elim cs.frames [ [] ↦ none | f ∷ _ ↦ some f ]

abbrev pub step : PhaseFrame → Option FormStep
step f = get_elem? f.steps f.step_index

-- The phase that a stack of frames stands for.
abbrev pub phase_of : List PhaseFrame → Phase
phase_of [] = base_phase
phase_of (f ∷ _) = f.phase

unfoldable pub push_phase : PhaseFrame → Conversation → Conversation
push_phase f cs = record cs {
  frames = record f { previous_phase = cs.phase } ∷ cs.frames;
  phase = f.phase;
}

abbrev pub drop_top : List PhaseFrame → List PhaseFrame
drop_top [] = []
drop_top (f ∷ fs) = fs

unfoldable pub pop_phase : Conversation → Conversation
pop_phase cs = record cs { frames = drop_top cs.frames; phase = phase_of (drop_top cs.frames) }

unfoldable pub reset_phase : Conversation → Conversation
reset_phase cs = record cs { frames = []; phase = base_phase }

unfoldable pub make_event : Happening → String → Conversation → Event
make_event what actor cs = record { type_ = what; actor_id = actor; phase = cs.phase }

unfoldable pub log_event : Event → Conversation → Conversation
log_event ev cs = record cs { history = ev ∷ cs.history }

-- `cs.event(...)`
unfoldable pub event : Happening → String → Exec Event
event what actor cs = (pure (make_event what actor cs)) (log_event (make_event what actor cs) cs)

unfoldable pub emit : Emission → Conversation → Conversation
emit e cs = record cs { emitted = e ∷ cs.emitted }
