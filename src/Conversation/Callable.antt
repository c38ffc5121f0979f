-- ===== src/Conversation/Callable.antt =====
-- `_CallableAction` of state_machine/action.py: commands and tool calls.
use second_brain_art.Common.{
  ◌+◌, Bool, true, false, not, ◌&&◌, ◌||◌, Option, none, some, List, [], ◌∷◌, String, str_eq,
  if◌then◌else◌,
}
use second_brain_art.Python.{Value, null}
use second_brain_art.Python.Dict.{lookup, has_key}
use second_brain_art.Errors.{
  ErrorCode, unknown_command, unknown_tool, invalid_input, execution_failed, succeeded,
}
use second_brain_art.Conversation.Types.{
  Phase, filling_command_form, filling_tool_form, approving_request, calling_tool, calling_command,
  ActionType, call_command, call_tool, answer_approval, Args, FormStep, Payload, PhaseFrame,
  unknown_callable, bad_field, bad_args, handler_failed, form_started, approval_requested, called,
  Result, started, finished, Conversation,
}
use second_brain_art.Conversation.Exec.{
  make_error, action_error, Outcome, ok, err, Exec, pure, refuse, modify, get, guarded, when, ◌>>=◌,
  ◌>>◌,
}
use second_brain_art.Conversation.Core.{
  other_id, set_priority, frame, push_phase, pop_phase, reset_phase, event, emit,
}
use second_brain_art.Conversation.Env.{
  Handled, returned, returned_failure, threw, CallableSpec, Env,
}

-- `CallCommand` and `CallTool`, by their class attributes.
pub data Callable : Type 0 where
  command tool : Callable

abbrev pub action_of : Callable → ActionType
action_of command = call_command
action_of tool = call_tool

abbrev pub name_of : Callable → String
name_of command = "call_command"
name_of tool = "call_tool"

abbrev pub missing_code : Callable → ErrorCode
missing_code command = unknown_command
missing_code tool = unknown_tool

abbrev pub calling_phase : Callable → Phase
calling_phase command = calling_command
calling_phase tool = calling_tool

abbrev pub form_phase : Callable → Phase
form_phase command = filling_command_form
form_phase tool = filling_tool_form

abbrev pub is_form_phase : Phase → Bool
is_form_phase filling_command_form = true
is_form_phase filling_tool_form = true
is_form_phase _ = false

-- The parts of a form or approval frame that its kind does not use.
abbrev pub no_step : FormStep
no_step = record {
  name = "input";
  required = true;
  kind = "boolean";
  rule = 0;
  default = null;
  prompt_when_missing = false;
}

abbrev pub wanted : Args → FormStep → Bool
wanted args s = not (has_key s.name args) && (s.required || s.prompt_when_missing)

unfoldable pub select : Args → List FormStep → List FormStep
select args [] = []
select args (s ∷ steps) = let rest = select args steps in if wanted args s then s ∷ rest else rest

-- `_missing`: the steps still to be asked for.
unfoldable pub missing : CallableSpec → Args → Conversation → List FormStep
missing spec args cs = select args (spec.form args cs)

abbrev pub get_or_null : Option Value → Value
get_or_null none = null
get_or_null (some v) = v

module _ (env : Env) where
  -- Every step must accept the argument of its name.
  unfoldable pub check_steps : List FormStep → Args → Exec (Unit {0})
  check_steps [] args = pure tt
  check_steps (s ∷ steps) args =
      let rest = check_steps steps args in
      if env.fields.validate s (get_or_null (lookup s.name args))
      then rest
      else refuse invalid_input (bad_field s.name)

  -- `_validate`
  unfoldable pub validate : CallableSpec → Args → Exec (Unit {0})
  validate spec args = if has_key "arg" args then pure tt else (do
    cs ← get
    check_steps (spec.form args cs) args
    if spec.accepts args then pure tt else refuse invalid_input bad_args)

  -- `spec`
  abbrev pub known : Callable → Option String → Option CallableSpec → Exec CallableSpec
  known c name none = refuse (missing_code c) (unknown_callable name)
  known c name (some s) = pure s

  unfoldable pub resolve : Callable → String → Option String → Exec CallableSpec
  resolve c actor none = refuse (missing_code c) (unknown_callable none)
  resolve c actor (some name) =
      if str_eq name ""
      then refuse (missing_code c) (unknown_callable (some name))
      else known c (some name) (env.spec actor (action_of c) name)

  -- `_emit_invocation_started`: a command gets a new call id.
  unfoldable pub emit_started : Callable → CallableSpec → Exec (Option String)
  emit_started tool spec cs = pure none cs
  emit_started command spec cs =
      let id = env.call_id cs.minted in
      pure (some id) (emit (started id spec.name) (record cs { minted = cs.minted + 1 }))

  -- `_emit_command_finished`
  unfoldable pub emit_finished :
      Callable → Option String → CallableSpec → Bool → Conversation → Conversation
  emit_finished command (some id) spec good cs = emit (finished id (some spec.name) good) cs
  emit_finished command none spec good cs = cs
  emit_finished tool id spec good cs = cs

  -- `_supersede_pending_form`
  abbrev pub superseded : PhaseFrame → Conversation → Conversation
  superseded f cs = elim f.call_id [
    | none ↦ pop_phase cs
    | some id ↦ pop_phase (emit (finished id f.name false) cs)
  ]

  abbrev pub supersede_frame : Option PhaseFrame → Conversation → Conversation
  supersede_frame none cs = cs
  supersede_frame (some f) cs = if is_form_phase f.phase then superseded f cs else cs

  unfoldable pub supersede : Conversation → Conversation
  supersede cs = supersede_frame (frame cs) cs

  -- The call of the handler, with a failed result turned into a raise.
  abbrev outcome : Conversation × Handled → Outcome Value × Conversation
  outcome (cs, returned v) = (ok v, cs)
  outcome (cs, threw e) = (err e, cs)
  outcome (cs, returned_failure (some e)) = (err e, cs)
  outcome (cs, returned_failure none) =
      (err (action_error (make_error execution_failed handler_failed cs)), cs)

  unfoldable pub handle : CallableSpec → String → Args → Exec Value
  handle spec actor args cs = elim spec.handler [
    | none ↦ pure null cs
    | some f ↦ outcome (f cs actor args)
  ]

  abbrev pub or_started : Callable → CallableSpec → Option String → Exec (Option String)
  or_started c spec none = emit_started c spec
  or_started c spec (some id) = pure (some id)

  -- `_run`
  unfoldable pub run : Callable → CallableSpec → String → Args → Option String → Exec Result
  run c spec actor args call_id = do
    modify (λ cs. record cs { phase = calling_phase c })
    id ← or_started c spec call_id
    guarded (handle spec actor args) (emit_finished c id spec false) reset_phase
    modify (emit_finished c id spec true)
    ev ← event (called (action_of c) spec.name) actor
    pure (succeeded (name_of c) ev)

  abbrev pub approval_frame : Callable → CallableSpec → String → String → Payload → PhaseFrame
  approval_frame c spec actor approver payload = record {
    phase = approving_request;
    action_type = answer_approval;
    actor_id = approver;
    name = some spec.name;
    args = [];
    call_id = none;
    form_history = [];
    request_id = none;
    pending = some (record { type_ = action_of c; actor_id = actor; content = payload });
    previous_priority = none;
    answer = no_step;
    steps = [];
    step_index = 0;
    previous_phase = approving_request;
  }

  abbrev pub approver_of : String → Option String → Exec String
  approver_of actor none = other_id actor
  approver_of actor (some a) = pure a

  -- `_approval`
  unfoldable pub ask_approval : Callable → CallableSpec → String → Payload → Exec Result
  ask_approval c spec actor payload = do
    approver ← approver_of actor spec.approval_actor_id
    modify (push_phase (approval_frame c spec actor approver payload))
    set_priority approver
    ev ← event (approval_requested spec.name approver) actor
    pure (succeeded (name_of c) ev)

  abbrev pub form_frame :
      Callable → CallableSpec → String → Args → Option String → List FormStep → PhaseFrame
  form_frame c spec actor args call_id steps = record {
    phase = form_phase c;
    action_type = action_of c;
    actor_id = actor;
    name = some spec.name;
    args = args;
    call_id = call_id;
    form_history = [];
    request_id = none;
    pending = none;
    previous_priority = none;
    answer = no_step;
    steps = steps;
    step_index = 0;
    previous_phase = form_phase c;
  }

  -- The branch of `execute` that starts a form at its first missing step.
  unfoldable pub start_form :
      Callable
      → CallableSpec
      → String
      → Args
      → Option String
      → FormStep
      → List FormStep
      → Exec Result
  start_form c spec actor args call_id s steps = do
    id ← or_started c spec call_id
    modify (push_phase (form_frame c spec actor args id (s ∷ steps)))
    ev ← event (form_started (some spec.name) s.name) actor
    pure (succeeded (name_of c) ev)

  -- The rest of `execute`, with all arguments there.
  unfoldable pub run_or_ask : Callable → CallableSpec → String → Payload → Exec Result
  run_or_ask c spec actor payload = do
    validate spec payload.args
    (if spec.require_approval && not payload.approved
        then ask_approval c spec actor payload
        else run c spec actor payload.args payload.call_id)

  abbrev pub proceed : Callable → CallableSpec → String → Payload → List FormStep → Exec Result
  proceed c spec actor payload [] = run_or_ask c spec actor payload
  proceed c spec actor payload (s ∷ steps) =
      start_form c spec actor payload.args payload.call_id s steps

  abbrev pub missing_now : CallableSpec → Payload → Conversation → List FormStep
  missing_now spec payload cs =
      if has_key "arg" payload.args then [] else missing spec payload.args cs

  abbrev pub is_none {ℓ} : {A : Type ℓ} → Option A → Bool
  is_none none = true
  is_none (some _) = false

  -- `_CallableAction.execute`
  unfoldable pub execute_callable : Callable → String → Payload → Exec Result
  execute_callable c actor payload = do
    spec ← resolve c actor payload.name
    when (is_none payload.call_id) (modify supersede)
    cs ← get
    proceed c spec actor payload (missing_now spec payload cs)
