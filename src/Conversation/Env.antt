-- ===== src/Conversation/Env.antt =====
-- What the state machine takes from the runtime: the registered commands and tools with their
-- handlers, the fields of forms, and the parser of attachments.
use second_brain_art.Common.{ℕ, Bool, true, Option, some, List, String, ◌≡◌}
use second_brain_art.Python.{Value, Obj}
use second_brain_art.Conversation.Types.{ActionType, Args, FormStep, Conversation}
use second_brain_art.Conversation.Exec.{Raised}

-- How a handler ends: with a value, with a failed `ActionResult` (and its error, if it has one), or
-- by raising.
pub data Handled : Type 0 where
  returned : Value → Handled
  returned_failure : Option Raised → Handled
  threw : Raised → Handled

-- `CallableSpec`. The form may depend on the arguments and the conversation. A handler is plugin
-- code, and may change the conversation in any way.
pub record CallableSpec : Type 0 where
  pub name : String
  pub form : Args → Conversation → List FormStep
  pub handler : Option (Conversation → String → Args → Conversation × Handled)
  pub require_approval : Bool
  pub approval_actor_id : Option String
  pub accepts : Args → Bool

-- `FormStep.validate` and `FormStep.coerce`, as an interface: what one accepts, the other converts.
pub record Fields : Type 0 where
  pub validate : FormStep → Value → Bool
  pub coerce : FormStep → Value → Option Value
  pub validate-coerce :
      (s : FormStep) (v : Value) → validate s v ≡ true → (w : Value) × (coerce s v ≡ some w)

-- `spec` is `ConversationState.spec`; `call_id n` is the n-th call id minted;
-- `printed` is `str` of
-- an object; `extension_allowed` is the test on an attachment's extension; `parse` is the attachment parser:
-- `none` where it raises, and otherwise the attachment to queue, if it gave one.
pub record Env : Type 0 where
  pub spec : String → ActionType → String → Option CallableSpec
  pub fields : Fields
  pub call_id : ℕ → String
  pub printed : Obj → String
  pub extension_allowed : Value → Bool
  pub parse : Value → Option (Option ℕ)
