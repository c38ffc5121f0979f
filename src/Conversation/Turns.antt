-- ===== src/Conversation/Turns.antt =====
-- Whose actions have an effect: `is_legal` and `enact` of state_machine/action.py.
use second_brain_art.Common.{false, Option, none, some, [], ◌∷◌, String, str_eq, ◌≡◌, refl}
use second_brain_art.Errors.{invalid_action, wrong_turn}
use second_brain_art.Conversation.Types.{
  ActionType, Participant, not_your_turn, not_legal_here, unknown_actor, Error, error, Result,
  Conversation,
}
use second_brain_art.Conversation.Exec.{make_error, Outcome, ok}
use second_brain_art.Conversation.Core.{make_event, log_event}
use second_brain_art.Conversation.Env.{Env}
use second_brain_art.Conversation.Actions.{
  Content, Action, send_text_action, end_turn_action, cancel_action, call_command_action,
  call_tool_action, send_attachment_action, answer_approval_action, submit_form_action,
  skip_form_action, back_form_action, invalid, create_action, action_name, illegality, legal_for,
}
use second_brain_art.Conversation.Replay.{Replay}
use second_brain_art.Conversation.Enact.{actor_or, fail_with, attempt_if, attempt, enact_at, enact}

-- The conversation after an action was turned down: an error event more and the last error, and
-- nothing else.
abbrev pub turned_down : Error → String → Conversation → Conversation
turned_down e actor cs = record cs {
  history = record { type_ = error e; actor_id = actor; phase = cs.phase } ∷ cs.history;
  last_error = some e;
}

-- What one gets for an action that is turned down.
abbrev pub refusal : String → Error → String → Conversation → Outcome Result
refusal name e actor cs = ok (record {
  ok = false;
  action = name;
  events = record { type_ = error e; actor_id = actor; phase = cs.phase } ∷ [];
  error = some e;
})

-- The error codes of `is_legal`.
pub data IsRefusal : Error → Type 0 where
  out_of_turn : (e : Error) → e.code ≡ wrong_turn → IsRefusal e
  illegal : (e : Error) → e.code ≡ invalid_action → IsRefusal e

module _ (env : Env) (replay : Replay) where
  attempt-legal_for :
      (a : Action) (actor : String) (c : Content) (cs : Conversation) (o : Option Participant)
      → str_eq actor cs.turn_priority ≡ false
      → (e : Error) × IsRefusal e
        × (attempt_if env replay a actor c (legal_for a actor cs o) cs
            ≡ (refusal (action_name a) e actor cs, turned_down e actor cs))
  unfolding fail_with log_event make_event
  attempt-legal_for a actor c cs none h =
      (make_error invalid_action unknown_actor cs, illegal _ refl, refl)
  attempt-legal_for a actor c cs (some p) h =
      rw h (make_error wrong_turn not_your_turn cs, out_of_turn _ refl, refl)

  attempt-turn :
      (a : Action) (actor : String) (c : Content) (cs : Conversation)
      → str_eq actor cs.turn_priority ≡ false
      → (e : Error) × IsRefusal e
        × (attempt env replay a actor c cs
            ≡ (refusal (action_name a) e actor cs, turned_down e actor cs))
  unfolding attempt illegality fail_with log_event make_event
  attempt-turn invalid actor c cs h =
      (make_error invalid_action not_legal_here cs, illegal _ refl, refl)
  attempt-turn send_text_action actor c cs h = attempt-legal_for send_text_action actor c cs _ h
  attempt-turn end_turn_action actor c cs h = attempt-legal_for end_turn_action actor c cs _ h
  attempt-turn cancel_action actor c cs h = attempt-legal_for cancel_action actor c cs _ h
  attempt-turn call_command_action actor c cs h =
      attempt-legal_for call_command_action actor c cs _ h
  attempt-turn call_tool_action actor c cs h = attempt-legal_for call_tool_action actor c cs _ h
  attempt-turn send_attachment_action actor c cs h =
      attempt-legal_for send_attachment_action actor c cs _ h
  attempt-turn answer_approval_action actor c cs h =
      attempt-legal_for answer_approval_action actor c cs _ h
  attempt-turn submit_form_action actor c cs h = attempt-legal_for submit_form_action actor c cs _ h
  attempt-turn skip_form_action actor c cs h = attempt-legal_for skip_form_action actor c cs _ h
  attempt-turn back_form_action actor c cs h = attempt-legal_for back_form_action actor c cs _ h

module _ (env : Env) where
  -- An action of anyone but the participant whose turn it is is turned down, whatever the action,
  -- its content and the phase: the result has failed, with one event and an error whose code is
  -- `wrong_turn` or `invalid_action`, and the conversation has that event and that last error, and
  -- is otherwise the one it was: no handler ran.
  pub enact-turn :
      (t : ActionType) (c : Content) (actor : String) (cs : Conversation)
      → str_eq (actor_or actor cs) cs.turn_priority ≡ false
      → (e : Error) × IsRefusal e
        × (enact env t c actor cs ≡ (
          refusal (action_name (create_action cs.phase t)) e (actor_or actor cs) cs,
          turned_down e (actor_or actor cs) cs,
        ))
  unfolding enact enact_at
  enact-turn t c actor cs h =
      attempt-turn env _ (create_action cs.phase t) (actor_or actor cs) c cs h
