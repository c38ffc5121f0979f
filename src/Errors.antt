-- ===== src/Errors.antt =====
-- state_machine/errors.py: the error codes, the error and the result of an action. Both state
-- machines use them; `R` is the type of the messages of one of them, `E` that of its events.
use second_brain_art.Common.{Bool, true, false, Option, none, some, List, [], ◌∷◌, String}

pub data ErrorCode : Type 0 where
  invalid_action wrong_turn wrong_actor_type unknown_command unknown_tool missing_input : ErrorCode
  invalid_input execution_failed attachment_not_allowed approval_required : ErrorCode

pub record ActionError (R : Type 0) (P : Type 0) : Type 0 where
  pub code : ErrorCode
  pub message : R
  pub retry_phase : Option P

pub record ActionResult (R : Type 0) (P : Type 0) (E : Type 0) : Type 0 where
  pub ok : Bool
  pub action : String
  pub events : List E
  pub error : Option (ActionError R P)

-- `ActionResult(True, action, events=[event])`
abbrev pub succeeded : {R P E : Type 0} → String → E → ActionResult R P E
succeeded action event = record { ok = true; action = action; events = event ∷ []; error = none }

-- `ActionResult.fail(action, err)` with the event that the caller appends to it.
abbrev pub failed : {R P E : Type 0} → String → ActionError R P → E → ActionResult R P E
failed action err event = record {
  ok = false;
  action = action;
  events = event ∷ [];
  error = some err;
}
