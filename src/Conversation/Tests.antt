-- ===== src/Conversation/Tests.antt =====
-- Runs of the state machine on a small conversation: a user and an agent, and one command that needs
-- an approval, whose handler queues an attachment.
use second_brain_art.Common.{
  true, false, none, some, [], ◌∷◌, String, str_eq, if◌then◌else◌, ◌≡◌, refl, length, arith,
}
use second_brain_art.Python.{null}
use second_brain_art.Python.Dict.{lookup}
use second_brain_art.Conversation.Types.{
  awaiting_input, send_text, call_command, answer_approval, end_turn, user, agent, Participant,
  Payload, Pending, PhaseFrame, Conversation, Error,
}
use second_brain_art.Conversation.Exec.{◌>>=◌, guarded}
use second_brain_art.Conversation.Env.{returned, CallableSpec, Fields, Env}
use second_brain_art.Conversation.Callable.{
  execute_callable, resolve, missing, select, supersede, validate, check_steps, run_or_ask,
  ask_approval, run, emit_started, emit_finished, handle, command, approval_frame,
}
use second_brain_art.Conversation.Actions.{illegality, words, create_action}
use second_brain_art.Conversation.Enact.{attempt, execute, fail_with, as_content, enact, enact_at}
use second_brain_art.Conversation.Core.{
  other_id, set_priority, assign_priority, push_phase, pop_phase, reset_phase, event, log_event,
  make_event, emit, allows,
}
use second_brain_art.Conversation.Replay.{
  answer_approval_execute, answer_frame, coerce_answer, lenient,
}
use second_brain_art.Conversation.Tracks.{Tracks}
use second_brain_art.Conversation.Tracks.Enacts.{enact-Tracks}
use second_brain_art.Conversation.Turns.{enact-turn, IsRefusal, refusal, turned_down}
use second_brain_art.Conversation.Depth.{enact-deep}
use second_brain_art.Conversation.Approval.{asked, decided, answer-decided}

abbrev the_user : Participant
the_user = record {
  id = "user";
  kind = user;
  can_command = none;
  can_tool = none;
  can_attach = none;
}

abbrev the_agent : Participant
the_agent = record {
  id = "agent";
  kind = agent;
  can_command = none;
  can_tool = none;
  can_attach = none;
}

abbrev wipe : CallableSpec
wipe = record {
  name = "wipe";
  form = λ args cs. [];
  handler = some (λ cs actor args.
      (record cs { pending_attachments = 7 ∷ cs.pending_attachments }, returned null));
  require_approval = true;
  approval_actor_id = none;
  accepts = λ args. true;
}

-- Fields that accept every value as it is.
abbrev any_value : Fields
any_value = record {
  validate = λ s v. true;
  coerce = λ s v. some v;
  validate-coerce = λ s v h. (v, refl);
}

abbrev one_command : Env
one_command = record {
  spec = λ actor t name. if str_eq name "wipe" then some wipe else none;
  fields = any_value;
  call_id = λ n. "cmd";
  printed = λ o. "";
  extension_allowed = λ v. true;
  parse = λ v. some none;
}

abbrev idle : Conversation
idle = record {
  participants = the_user ∷ the_agent ∷ [];
  turn_priority = "user";
  phase = awaiting_input;
  frames = [];
  history = [];
  last_error = none;
  pending_attachments = [];
  emitted = [];
  minted = 0;
}

abbrev wipe_call : Payload
wipe_call = record { name = some "wipe"; args = []; approved = false; call_id = none }

abbrev wipe_frame : PhaseFrame
wipe_frame = approval_frame one_command command wipe "user" "agent" wipe_call

abbrev wipe_pending : Pending
wipe_pending = record { type_ = call_command; actor_id = "user"; content = wipe_call }

-- The call asks the agent, whose yes runs the handler, and whose no does not.
abbrev waiting_state : Conversation
waiting_state = (enact one_command call_command (as_content wipe_call) "user" idle).1

asks :
    (waiting_state.turn_priority ≡ "agent")
    × (length waiting_state.frames ≡ 1)
    × (waiting_state.pending_attachments ≡ [])
unfolding enact enact_at attempt illegality create_action allows execute execute_callable resolve
    missing select supersede validate check_steps run_or_ask ask_approval run emit_started
    emit_finished handle other_id set_priority assign_priority push_phase pop_phase reset_phase
    event log_event make_event emit answer_approval_execute answer_frame coerce_answer lenient
    fail_with ◌>>=◌ guarded lookup
asks = (refl, refl, refl)

-- The run after an answer by text.
abbrev answered : String → Conversation
answered s = (enact one_command send_text (words s) "agent" waiting_state).1

answers :
    ((answered "Approve").pending_attachments ≡ 7 ∷ [])
    × ((answered "n").pending_attachments ≡ [])
    × ((answered "n").frames ≡ [])
    × (length (answered "maybe").frames ≡ 1)
unfolding enact enact_at attempt illegality create_action allows execute execute_callable resolve
    missing select supersede validate check_steps run_or_ask ask_approval run emit_started
    emit_finished handle other_id set_priority assign_priority push_phase pop_phase reset_phase
    event log_event make_event emit answer_approval_execute answer_frame coerce_answer lenient
    fail_with ◌>>=◌ guarded lookup
answers = (refl, refl, refl, refl)

enact-Tracks_example :
    Tracks (enact one_command answer_approval (words "yes") "agent" waiting_state).1
enact-Tracks_example =
    enact-Tracks one_command answer_approval (words "yes") "agent" waiting_state
      (enact-Tracks one_command call_command (as_content wipe_call) "user" idle refl)

enact-turn_example :
    (e : Error) × IsRefusal e
    × (enact one_command end_turn (words "") "agent" idle
        ≡ (refusal "end_turn" e "agent" idle, turned_down e "agent" idle))
unfolding create_action
enact-turn_example = enact-turn one_command end_turn (words "") "agent" idle refl

enact-deep_example :
    enact one_command answer_approval (words "yes") "agent" waiting_state
    ≡ enact_at one_command 5 answer_approval (words "yes") "agent" waiting_state
enact-deep_example =
    enact-deep one_command 5 answer_approval (words "yes") "agent" waiting_state
      (rw asks.1 (omega arith))

answer-decided_example :
    enact one_command send_text
      (words " Yes ")
      "agent"
      (asked "agent" wipe_frame wipe_pending [] idle)
    ≡ decided one_command true "agent" wipe_pending [] idle
unfolding create_action lenient
answer-decided_example =
    answer-decided one_command true send_text (words " Yes ") "agent" wipe_frame wipe_pending []
      idle the_agent the_user refl refl refl refl refl refl refl refl
