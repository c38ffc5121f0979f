-- ===== src/Conversation/Actions.antt =====
-- The actions of state_machine/action.py that do not replay another, their legality, and the table
-- of state_machine/action_map.py.
use second_brain_art.Common.{
  ℕ, Bool, true, false, not, ◌&&◌, Option, none, some, List, [], ◌∷◌, String, str_eq, if◌then◌else◌,
}
use second_brain_art.Python.{Value, null, text}
use second_brain_art.Python.Dict.{remove}
use second_brain_art.Errors.{
  ErrorCode, invalid_action, wrong_turn, wrong_actor_type, attachment_not_allowed, succeeded,
}
use second_brain_art.Conversation.Types.{
  Phase, awaiting_input, filling_command_form, filling_tool_form, parsing_attachment,
  approving_request, ActionType, send_text, call_command, call_tool, send_attachment, end_turn,
  cancel, answer_approval, submit_form_text, skip_form, back_form, Args, FormStep, Payload, Pending,
  PhaseFrame, user, Participant, Reason, no_form, nothing_to_go_back, bad_attachment, parser_failed,
  not_a_dict, actor_cannot, not_legal_here, not_your_turn, unknown_actor, message, turn_changed,
  cancelled, form_step, attachment, Result, progressed, finished, Conversation,
}
use second_brain_art.Conversation.Exec.{
  exn, Exec, pure, raise, refuse, modify, get, guarded, when, ◌>>=◌, ◌>>◌,
}
use second_brain_art.Conversation.Core.{
  find, other_id, switch_priority, set_priority, allows, frame, step, pop_phase, reset_phase, event,
  emit,
}
use second_brain_art.Conversation.Env.{CallableSpec, Env}
use second_brain_art.Conversation.Callable.{missing}

-- The content of an action: nothing, a text, or a dict with the keys that the actions read.
pub record ContentFields : Type 0 where
  pub text_ : Option Value
  pub value : Option Value
  pub request_id : Option String
  pub payload : Payload
  pub whole : Value

pub data Content : Type 0 where
  nothing : Content
  words : String → Content
  fields : ContentFields → Content

-- The classes of actions.
pub data Action : Type 0 where
  send_text_action end_turn_action cancel_action call_command_action call_tool_action : Action
  send_attachment_action answer_approval_action submit_form_action skip_form_action : Action
  back_form_action invalid : Action

-- `ACTION_MAP`
abbrev awaiting : ActionType → Action
awaiting send_text = send_text_action
awaiting call_command = call_command_action
awaiting call_tool = call_tool_action
awaiting send_attachment = send_attachment_action
awaiting end_turn = end_turn_action
awaiting _ = invalid

abbrev filling : ActionType → Action
filling call_command = call_command_action
filling send_text = submit_form_action
filling submit_form_text = submit_form_action
filling skip_form = skip_form_action
filling back_form = back_form_action
filling cancel = cancel_action
filling _ = invalid

abbrev approving : ActionType → Action
approving send_text = answer_approval_action
approving answer_approval = answer_approval_action
approving cancel = cancel_action
approving _ = invalid

abbrev parsing : ActionType → Action
parsing cancel = cancel_action
parsing _ = invalid

unfoldable pub create_action : Phase → ActionType → Action
create_action awaiting_input t = awaiting t
create_action filling_command_form t = filling t
create_action filling_tool_form t = filling t
create_action approving_request t = approving t
create_action parsing_attachment t = parsing t
create_action _ t = invalid

-- What the class is called in its results.
abbrev pub action_name : Action → String
action_name send_text_action = "send_text"
action_name end_turn_action = "end_turn"
action_name cancel_action = "cancel"
action_name call_command_action = "call_command"
action_name call_tool_action = "call_tool"
action_name send_attachment_action = "send_attachment"
action_name answer_approval_action = "answer_approval"
action_name submit_form_action = "submit_form_text"
action_name skip_form_action = "skip_form"
action_name back_form_action = "back_form"
action_name invalid = "invalid"

-- `is_legal`: none where the action is legal.
abbrev permitted : ActionType → Participant → Option (ErrorCode × Reason)
permitted t p = if allows p t then none else some (wrong_actor_type, actor_cannot t)

abbrev needs_permission : Action → Participant → Option (ErrorCode × Reason)
needs_permission call_command_action p = permitted call_command p
needs_permission call_tool_action p = permitted call_tool p
needs_permission send_attachment_action p = permitted send_attachment p
needs_permission _ p = none

abbrev pub legal_for :
    Action → String → Conversation → Option Participant → Option (ErrorCode × Reason)
legal_for a actor cs none = some (invalid_action, unknown_actor)
legal_for a actor cs (some p) =
    if str_eq actor cs.turn_priority then needs_permission a p else some (wrong_turn, not_your_turn)

unfoldable pub illegality : Action → String → Conversation → Option (ErrorCode × Reason)
illegality invalid actor cs = some (invalid_action, not_legal_here)
illegality a actor cs = legal_for a actor cs (find actor cs.participants)

abbrev is_user : Option Participant → Bool
is_user none = false
is_user (some p) = elim p.kind [ user ↦ true | _ ↦ false ]

abbrev is_base : Phase → Bool
is_base awaiting_input = true
is_base _ = false

abbrev text_of : Content → Value
text_of nothing = text ""
text_of (words s) = text s
text_of (fields f) = elim f.text_ [ none ↦ text "" | some v ↦ v ]

-- `SendText.execute`: a user's text in the base phase hands the turn on.
unfoldable pub send_text_execute : String → Content → Exec Result
send_text_execute actor content = do
  ev ← event (message (text_of content)) actor
  cs ← get
  when (is_user (find actor cs.participants) && is_base cs.phase) (switch_priority actor)
  pure (succeeded "send_text" ev)

-- `EndTurn.execute`
unfoldable pub end_turn_execute : Exec Result
end_turn_execute = do
  before ← get
  modify reset_phase
  switch_priority before.turn_priority
  after ← get
  ev ← event (turn_changed before.turn_priority after.turn_priority) before.turn_priority
  pure (succeeded "end_turn" ev)

-- Who has the turn after an approval was cancelled.
abbrev pub resumer : String → Option Pending → Option String → Exec String
resumer actor (some p) previous = pure p.actor_id
resumer actor none (some a) = pure a
resumer actor none none = other_id actor

abbrev pub resume_turn : String → PhaseFrame → Phase → Exec (Unit {0})
resume_turn actor f approving_request = resumer actor f.pending f.previous_priority >>= set_priority
resume_turn actor f _ = pure tt

abbrev pub restore_priority : String → Option PhaseFrame → Exec (Unit {0})
restore_priority actor none = pure tt
restore_priority actor (some f) = resume_turn actor f f.phase

abbrev pub is_command : ActionType → Bool
is_command call_command = true
is_command _ = false

abbrev pub finish_call : PhaseFrame → Option String → Conversation → Conversation
finish_call f none cs = cs
finish_call f (some id) cs =
    if is_command f.action_type then emit (finished id f.name false) cs else cs

abbrev pub finish_cancelled : Option PhaseFrame → Conversation → Conversation
finish_cancelled none cs = cs
finish_cancelled (some f) cs = finish_call f f.call_id cs

abbrev pub type_of : Option PhaseFrame → Option ActionType
type_of none = none
type_of (some f) = some f.action_type

-- `Cancel.execute`
unfoldable pub cancel_execute : String → Exec Result
cancel_execute actor = do
  cs ← get
  modify pop_phase
  restore_priority actor (frame cs)
  modify (finish_cancelled (frame cs))
  ev ← event (cancelled (type_of (frame cs))) actor
  pure (succeeded "cancel" ev)

-- Frames are mutable objects: the frame on top of the stack is changed in its place.
abbrev pub change_top : (PhaseFrame → PhaseFrame) → List PhaseFrame → List PhaseFrame
change_top u [] = []
change_top u (f ∷ fs) = u f ∷ fs

unfoldable pub update_frame : (PhaseFrame → PhaseFrame) → Conversation → Conversation
update_frame u cs = record cs { frames = change_top u cs.frames }

-- `_emit_command_progress`
abbrev pub progress_call : PhaseFrame → Option String → Conversation → Conversation
progress_call f none cs = cs
progress_call f (some id) cs =
    if is_command f.action_type then emit (progressed id f.name f.args) cs else cs

unfoldable pub progress : PhaseFrame → Conversation → Conversation
progress f cs = progress_call f f.call_id cs

-- What is queued of a parsed attachment.
abbrev pub queue : Option ℕ → Conversation → Conversation
queue none cs = cs
queue (some a) cs = record cs { pending_attachments = a ∷ cs.pending_attachments }

module _ (env : Env) where
  -- `ConversationState.spec` for a frame, and what is missing of its form.
  abbrev pub frame_spec : PhaseFrame → Option CallableSpec
  frame_spec f = elim f.name [ none ↦ none | some n ↦ env.spec f.actor_id f.action_type n ]

  abbrev pub frame_missing : PhaseFrame → Args → Conversation → List FormStep
  frame_missing f args cs = elim (frame_spec f) [ none ↦ [] | some s ↦ missing s args cs ]

  -- `_rewind_form`: forgets the value entered last and shows the first missing step again.
  abbrev pub rewound : PhaseFrame → String → List String → Conversation → PhaseFrame
  rewound f last history cs =
      let args = remove last f.args in
      record f {
        args = args;
        form_history = history;
        steps = frame_missing f args cs;
        step_index = 0;
      }

  abbrev pub shown : PhaseFrame → String → List FormStep → Exec Result
  shown f actor [] = refuse invalid_action nothing_to_go_back
  shown f actor (s ∷ steps) = do
    ev ← event (form_step f.name s.name) actor
    pure (succeeded "back_form" ev)

  abbrev pub rewind : PhaseFrame → String → List String → Exec Result
  rewind f actor [] = refuse invalid_action nothing_to_go_back
  rewind f actor (last ∷ history) = do
    cs ← get
    let g = rewound f last history cs
    modify (update_frame (λ f. rewound f last history cs))
    modify (progress g)
    shown g actor g.steps

  abbrev pub back_at : String → PhaseFrame → Option FormStep → Exec Result
  back_at actor f none = refuse invalid_action no_form
  back_at actor f (some s) = rewind f actor f.form_history

  abbrev pub back_on : String → Option PhaseFrame → Exec Result
  back_on actor none = refuse invalid_action no_form
  back_on actor (some f) = back_at actor f (step f)

  -- `BackForm.execute`. The history is kept newest first.
  unfoldable pub back_form_execute : String → Exec Result
  back_form_execute actor = do cs ← get; back_on actor (frame cs)

  -- The attachment parser, which runs in the phase `parsing_attachment`.
  abbrev pub parse_attachment : Value → Exec (Option ℕ)
  parse_attachment v cs = elim (env.parse v) [
    | none ↦ raise (exn parser_failed) cs
    | some a ↦ pure a cs
  ]

  abbrev pub keep : Conversation → Conversation
  keep cs = cs

  abbrev pub whole_of : Content → Value
  whole_of (fields f) = f.whole
  whole_of _ = null

  -- Contents that `dict(self.content or {})` refuses.
  abbrev pub is_no_dict : Content → Bool
  is_no_dict nothing = false
  is_no_dict (words s) = not (str_eq s "")
  is_no_dict (fields f) = false

  -- `SendAttachment.execute`
  unfoldable pub send_attachment_execute : String → Content → Exec Result
  send_attachment_execute actor content =
      if is_no_dict content
      then raise (exn not_a_dict)
      else if not (env.extension_allowed (whole_of content))
      then refuse attachment_not_allowed bad_attachment
      else (do
        modify (λ cs. record cs { phase = parsing_attachment })
        parsed ← guarded (parse_attachment (whole_of content)) keep reset_phase
        modify (queue parsed)
        cs ← get
        when (is_user (find actor cs.participants)) (switch_priority actor)
        ev ← event attachment actor
        pure (succeeded "send_attachment" ev))
