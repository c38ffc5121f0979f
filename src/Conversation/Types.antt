-- ===== src/Conversation/Types.antt =====
-- The data of the conversation state machine: state_machine/conversation_phases.py, and the
-- dataclasses of state_machine/conversation.py.
use second_brain_art.Common.{ℕ, Bool, Option, List, String}
use second_brain_art.Python.{Value}
use second_brain_art.Python.Dict.{Dict}
use second_brain_art.Errors.{ActionError, ActionResult}

pub data Phase : Type 0 where
  awaiting_input filling_command_form filling_tool_form parsing_attachment : Phase
  approving_request calling_tool calling_command : Phase

-- The names of actions; `unknown` is any other.
pub data ActionType : Type 0 where
  send_text call_command call_tool send_attachment end_turn cancel : ActionType
  answer_approval submit_form_text skip_form back_form unknown : ActionType

abbrev pub Args : Type 0
Args = Dict Value

-- The fields of a form step that the state machine reads. `kind` is its `type`, and `rule` names
-- its enum, its labels and its validator.
pub record FormStep : Type 0 where
  pub name : String
  pub required : Bool
  pub kind : String
  pub rule : ℕ
  pub default : Value
  pub prompt_when_missing : Bool

-- A call's payload: a name, arguments, and the marks of a resumed call.
pub record Payload : Type 0 where
  pub name : Option String
  pub args : Args
  pub approved : Bool
  pub call_id : Option String

pub record Pending : Type 0 where
  pub type_ : ActionType
  pub actor_id : String
  pub content : Payload

-- A suspended flow. The last six fields before `steps` are keys of the frame's `data`.
pub record PhaseFrame : Type 0 where
  pub phase : Phase
  pub action_type : ActionType
  pub actor_id : String
  pub name : Option String
  pub args : Args
  pub call_id : Option String
  pub form_history : List String
  pub request_id : Option String
  pub pending : Option Pending
  pub previous_priority : Option String
  pub answer : FormStep
  pub steps : List FormStep
  pub step_index : ℕ
  pub previous_phase : Phase

pub data Kind : Type 0 where
  user agent other_kind : Kind

pub record Participant : Type 0 where
  pub id : String
  pub kind : Kind
  pub can_command : Option Bool
  pub can_tool : Option Bool
  pub can_attach : Option Bool

-- What may be raised besides an `ActionError`: a KeyError, a ValueError, an error of the attachment
-- parser, of a field's conversion or of a plugin, and running out of the depth at which actions
-- replay others.
pub data Exn : Type 0 where
  unknown_participant not_in_turn_order parser_failed not_a_dict coercion_failed recursion_limit :
      Exn
  plugin_error : ℕ → Exn

pub data Reason : Type 0 where
  unknown_actor not_your_turn not_legal_here no_form no_request stale_request : Reason
  nothing_to_go_back needs_yes_or_no : Reason
  actor_cannot : ActionType → Reason
  unknown_callable : Option String → Reason
  bad_field : String → Reason
  bad_args not_required_to_skip bad_attachment handler_failed : Reason
  exception : Exn → Reason

abbrev pub Error : Type 0
Error = ActionError Reason Phase

pub data Happening : Type 0 where
  message : Value → Happening
  turn_changed : String → String → Happening
  cancelled : Option ActionType → Happening
  form_started form_step : Option String → String → Happening
  approval_requested : String → String → Happening
  approval_answered : Value → Happening
  called : ActionType → String → Happening
  attachment : Happening
  error : Error → Happening

pub record Event : Type 0 where
  pub type_ : Happening
  pub actor_id : String
  pub phase : Phase

abbrev pub Result : Type 0
Result = ActionResult Reason Phase Event

-- What is emitted on the event bus about a command's call.
pub data Emission : Type 0 where
  started : String → String → Emission
  progressed : String → Option String → Args → Emission
  finished : String → Option String → Bool → Emission

-- `frames` is `cache["phases"]`, the top of the stack first; `history` and `emitted` are newest
-- first; `minted` counts the call ids that were made.
pub record Conversation : Type 0 where
  pub participants : List Participant
  pub turn_priority : String
  pub phase : Phase
  pub frames : List PhaseFrame
  pub history : List Event
  pub last_error : Option Error
  pub pending_attachments : List ℕ
  pub emitted : List Emission
  pub minted : ℕ
