-- ===== src/Conversation/Enact.antt =====
-- `Action.enact` of state_machine/action.py and `ConversationState.enact`. An action that answers a
-- frame pops it and replays what it suspended, so the number of frames bounds the depth.
use second_brain_art.Common.{
  ℕ, zero, suc, false, Option, none, some, [], String, str_eq, if◌then◌else◌, length,
}
use second_brain_art.Python.{null}
use second_brain_art.Errors.{ErrorCode, invalid_action, execution_failed, failed}
use second_brain_art.Conversation.Types.{
  ActionType, Payload, not_legal_here, exception, recursion_limit, Reason, Error, error, Result,
  Conversation,
}
use second_brain_art.Conversation.Exec.{
  make_error, action_error, exn, Outcome, ok, err, Exec, raise, refuse,
}
use second_brain_art.Conversation.Core.{make_event, log_event}
use second_brain_art.Conversation.Env.{Env}
use second_brain_art.Conversation.Callable.{command, tool, execute_callable}
use second_brain_art.Conversation.Actions.{
  Content, nothing, words, fields, Action, send_text_action, end_turn_action, cancel_action,
  call_command_action, call_tool_action, send_attachment_action, answer_approval_action,
  submit_form_action, skip_form_action, back_form_action, invalid, create_action, action_name,
  illegality, send_text_execute, end_turn_execute, cancel_execute, back_form_execute,
  send_attachment_execute,
}
use second_brain_art.Conversation.Replay.{
  Replay, submit_form_execute, skip_form_execute, answer_approval_execute,
}

-- `_CallableAction.payload`
abbrev pub payload_of : Content → Payload
payload_of nothing = record { name = none; args = []; approved = false; call_id = none }
payload_of (words s) = record { name = some s; args = []; approved = false; call_id = none }
payload_of (fields f) = f.payload

abbrev pub as_content : Payload → Content
as_content p =
    fields (record { text_ = none; value = none; request_id = none; payload = p; whole = null })

-- The failure of an action: the last error, an event, and a failed result that carries both.
unfoldable pub fail_with : String → String → Error → Exec Result
fail_with name actor e cs =
    let ev = make_event (error e) actor cs in
    (ok (failed name e ev), log_event ev (record cs { last_error = some e }))

abbrev pub settle : String → String → Outcome Result × Conversation → Outcome Result × Conversation
settle name actor (ok r, cs) = (ok r, cs)
settle name actor (err (action_error e), cs) = fail_with name actor e cs
settle name actor (err (exn x), cs) =
    fail_with name actor (make_error execution_failed (exception x) cs) cs

-- `actor_id or cs.turn_priority`
abbrev pub actor_or : String → Conversation → String
actor_or actor cs = if str_eq actor "" then cs.turn_priority else actor

module _ (env : Env) where
  -- `execute` of each class.
  unfoldable pub execute : Replay → Action → String → Content → Exec Result
  execute replay send_text_action actor c = send_text_execute actor c
  execute replay end_turn_action actor c = end_turn_execute
  execute replay cancel_action actor c = cancel_execute actor
  execute replay call_command_action actor c = execute_callable env command actor (payload_of c)
  execute replay call_tool_action actor c = execute_callable env tool actor (payload_of c)
  execute replay send_attachment_action actor c = send_attachment_execute env actor c
  execute replay answer_approval_action actor c = answer_approval_execute env replay actor c
  execute replay submit_form_action actor c = submit_form_execute env replay actor c
  execute replay skip_form_action actor c = skip_form_execute env replay actor
  execute replay back_form_action actor c = back_form_execute env actor
  execute replay invalid actor c = refuse invalid_action not_legal_here

  abbrev pub attempt_if :
      Replay → Action → String → Content → Option (ErrorCode × Reason) → Exec Result
  attempt_if replay a actor c (some (code, reason)) cs =
      fail_with (action_name a) actor (make_error code reason cs) cs
  attempt_if replay a actor c none cs = settle (action_name a) actor (execute replay a actor c cs)

  -- `Action.enact`
  unfoldable pub attempt : Replay → Action → String → Content → Exec Result
  attempt replay a actor c cs = attempt_if replay a actor c (illegality a actor cs) cs

  -- `ConversationState.enact`, at most as many replays deep as the fuel says.
  unfoldable pub enact_at : ℕ → ActionType → Content → String → Exec Result
  enact_at zero t c actor cs = raise (exn recursion_limit) cs
  enact_at (suc n) t c actor cs =
      attempt (λ u p who. enact_at n u (as_content p) who) (create_action cs.phase t)
        (actor_or actor cs) c cs

  unfoldable pub enact : ActionType → Content → String → Exec Result
  enact t c actor cs = enact_at (suc (length cs.frames)) t c actor cs
