-- ===== src/Conversation/Replay.antt =====
-- The actions of state_machine/action.py that replay the action a frame suspended: SubmitFormText,
-- SkipForm and AnswerApproval.
use second_brain_art.Common.{
  ℕ, suc, ◌-◌, Bool, true, false, not, ◌&&◌, ◌||◌, ◌==◌, Option, none, some, List, [], ◌∷◌, String,
  str_eq, if◌then◌else◌, int_eq, pos, length,
}
use second_brain_art.Python.{Value, null, bool, int, text, other, truthy}
use second_brain_art.Python.Numerals.{codes, strip, lower}
use second_brain_art.Python.Dict.{insert}
use second_brain_art.Errors.{invalid_action, invalid_input, succeeded}
use second_brain_art.Conversation.Types.{
  Phase, approving_request, ActionType, FormStep, Payload, Pending, PhaseFrame, no_form, no_request,
  stale_request, needs_yes_or_no, bad_field, not_required_to_skip, coercion_failed, form_step,
  approval_answered, Error, Event, Result,
}
use second_brain_art.Conversation.Exec.{exn, Exec, pure, raise, refuse, modify, get, ◌>>=◌, ◌>>◌}
use second_brain_art.Conversation.Core.{
  other_id, set_priority, frame, step, push_phase, pop_phase, reset_phase, event,
}
use second_brain_art.Conversation.Env.{Env}
use second_brain_art.Conversation.Callable.{get_or_null}
use second_brain_art.Conversation.Actions.{
  Content, nothing, words, fields, update_frame, progress, frame_missing, is_command,
}

-- Replays an action of the given type, with a payload, for an actor.
abbrev pub Replay : Type 0
Replay = ActionType → Payload → String → Exec Result

-- The text that a form gets.
abbrev pub submitted : Content → Value
submitted nothing = null
submitted (words s) = text s
submitted (fields f) = get_or_null f.text_

-- A frame with the value of its current step and the field in its history; `stepped` is on the
-- next step.
unfoldable pub recorded : PhaseFrame → FormStep → Value → PhaseFrame
recorded f s v = record f { args = insert s.name v f.args; form_history = s.name ∷ f.form_history }

abbrev pub stepped : PhaseFrame → PhaseFrame
stepped f = record f { step_index = suc f.step_index }

abbrev pub on_steps : PhaseFrame → List FormStep → PhaseFrame
on_steps f steps = record f { steps = steps; step_index = 0 }

-- The payload with which the suspended call goes on.
abbrev pub collected : PhaseFrame → Payload
collected f = record { name = f.name; args = f.args; approved = false; call_id = f.call_id }

-- The error of a failed replay, anchored to the phase of the form; the same object is `last_error`.
abbrev pub anchored : Phase → Option Error → Option Error
anchored p none = none
anchored p (some e) = some (record e { retry_phase = some p })

abbrev pub last_step : PhaseFrame → PhaseFrame
last_step f = record f { step_index = length f.steps - 1 }

unfoldable pub retry : PhaseFrame → Result → Exec Result
retry f r = do
  modify (push_phase (last_step f))
  modify (λ cs. record cs { last_error = anchored cs.phase cs.last_error })
  cs ← get
  pure (record r { error = anchored cs.phase r.error })

unfoldable pub after_replay : PhaseFrame → Result → Exec Result
after_replay f r = if not r.ok && is_command f.action_type then retry f r else pure r

-- A request id that both sides give has to agree.
abbrev pub differ : Option String → Option String → Bool
differ (some got) (some expected) =
    not (str_eq got "") && not (str_eq expected "") && not (str_eq got expected)
differ _ _ = false

abbrev pub stale : Content → PhaseFrame → Bool
stale (fields c) f = differ c.request_id f.request_id
stale _ f = false

abbrev pub raw_of : Content → Value
raw_of nothing = null
raw_of (words s) = text s
raw_of (fields f) = elim f.value [
  | some v ↦ v
  | none ↦ elim f.text_ [ some v ↦ v | none ↦ f.whole ]
]

abbrev pub same_codes : List ℕ → List ℕ → Bool
same_codes [] [] = true
same_codes (c ∷ cs) (d ∷ ds) = c == d && same_codes cs ds
same_codes _ _ = false

abbrev pub among : List ℕ → List String → Bool
among cs [] = false
among cs (w ∷ ws) = same_codes cs (codes w) || among cs ws

abbrev pub yes_words : List String
yes_words = "y" ∷ "yes" ∷ "approve" ∷ "approved" ∷ "true" ∷ "1" ∷ []

abbrev pub no_words : List String
no_words = "n" ∷ "no" ∷ "deny" ∷ "denied" ∷ "false" ∷ "0" ∷ "cancel" ∷ []

abbrev pub in_words : List ℕ → Option Bool
in_words cs =
    if among cs yes_words then some true else if among cs no_words then some false else none

abbrev pub yes_or_no : Option Bool → Exec Value
yes_or_no (some b) = pure (bool b)
yes_or_no none = refuse invalid_input needs_yes_or_no

abbrev pub at_step :
    (PhaseFrame → FormStep → Exec Result) → PhaseFrame → Option FormStep → Exec Result
at_step run f none = refuse invalid_action no_form
at_step run f (some s) = run f s

abbrev pub on_form : (PhaseFrame → FormStep → Exec Result) → Option PhaseFrame → Exec Result
on_form run none = refuse invalid_action no_form
on_form run (some f) = at_step run f (step f)

-- Who asked for what is answered.
abbrev pub asker : String → Option Pending → Exec String
asker actor none = other_id actor
asker actor (some p) = if str_eq p.actor_id "" then other_id actor else pure p.actor_id

abbrev pub is_approval : Phase → Bool
is_approval approving_request = true
is_approval _ = false

abbrev pub approved_content : Pending → Payload
approved_content p = record p.content { approved = true }

abbrev pub first_event : Event → Result → Result
first_event ev r = record r { events = ev ∷ r.events }

abbrev pub receive : Event → Exec Result
receive ev = do modify reset_phase; pure (succeeded "answer_approval" ev)

module _ (env : Env) where
  -- The lenient parser of answers: words, and the numbers 1 and 0.
  unfoldable pub lenient : Value → Option Bool
  lenient null = none
  lenient (bool b) = some b
  lenient (int z) =
      if int_eq z (pos 1) then some true else if int_eq z (pos 0) then some false else none
  lenient (text s) = in_words (lower (strip (codes s)))
  lenient (other o) = in_words (lower (strip (codes (env.printed o))))

  abbrev pub converted : Option Value → Exec Value
  converted (some v) = pure v
  converted none = raise (exn coercion_failed)

  abbrev pub typed : FormStep → Value → Exec Value
  typed s v =
      if env.fields.validate s v
      then converted (env.fields.coerce s v)
      else refuse invalid_input (bad_field s.name)

  -- `AnswerApproval._coerce`
  unfoldable pub coerce_answer : PhaseFrame → Content → Exec Value
  coerce_answer f content =
      if str_eq f.answer.kind "boolean"
      then yes_or_no (lenient (raw_of content))
      else typed f.answer (raw_of content)

  module _ (replay : Replay) where
    -- The end of `SubmitFormText.execute` and of `SkipForm.execute`: the next missing step, or the
    -- replay of the call that the form was for.
    unfoldable pub go_on : String → String → PhaseFrame → List FormStep → Exec Result
    go_on label actor f (s ∷ steps) = do
      modify (update_frame (λ f. on_steps f (s ∷ steps)))
      ev ← event (form_step f.name s.name) actor
      pure (succeeded label ev)
    go_on label actor f [] = do
      modify pop_phase
      r ← replay f.action_type (collected f) f.actor_id
      after_replay f r

    unfoldable pub fill : String → String → PhaseFrame → FormStep → Value → Exec Result
    fill label actor f s v = do
      let g = recorded f s v
      modify (update_frame (λ f. recorded f s v))
      modify (progress g)
      modify (update_frame stepped)
      cs ← get
      go_on label actor (stepped g) (frame_missing env g g.args cs)

    abbrev pub fill_converted : String → PhaseFrame → FormStep → Option Value → Exec Result
    fill_converted actor f s none = refuse invalid_input (bad_field s.name)
    fill_converted actor f s (some v) = fill "submit_form_text" actor f s v

    abbrev pub submit_step : String → Value → PhaseFrame → FormStep → Exec Result
    submit_step actor v f s =
        if env.fields.validate s v
        then fill_converted actor f s (env.fields.coerce s v)
        else refuse invalid_input (bad_field s.name)

    abbrev pub skip_step : String → PhaseFrame → FormStep → Exec Result
    skip_step actor f s =
        if s.required
        then refuse invalid_input not_required_to_skip
        else fill "skip_form" actor f s s.default

    -- `SubmitFormText.execute`
    unfoldable pub submit_form_execute : String → Content → Exec Result
    submit_form_execute actor content = do
      cs ← get
      on_form (submit_step actor (submitted content)) (frame cs)

    -- `SkipForm.execute`
    unfoldable pub skip_form_execute : String → Exec Result
    skip_form_execute actor = do cs ← get; on_form (skip_step actor) (frame cs)

    -- A boolean answer to a pending action decides it.
    abbrev pub decide : Event → Pending → Bool → Exec Result
    decide ev p false = do modify reset_phase; pure (succeeded "answer_approval" ev)
    decide ev p true = do
      r ← replay p.type_ (approved_content p) p.actor_id
      pure (first_event ev r)

    abbrev pub resolve : PhaseFrame → Value → Event → Option Pending → Exec Result
    resolve f v ev none = receive ev
    resolve f v ev (some p) =
        if str_eq f.answer.kind "boolean" then decide ev p (truthy v) else receive ev

    unfoldable pub answer_frame : String → Content → PhaseFrame → Exec Result
    answer_frame actor content f = do
      v ← coerce_answer f content
      who ← asker actor f.pending
      modify pop_phase
      set_priority who
      ev ← event (approval_answered v) actor
      resolve f v ev f.pending

    abbrev pub answer_on : String → Content → Option PhaseFrame → Exec Result
    answer_on actor content none = refuse invalid_action no_request
    answer_on actor content (some f) =
        if not (is_approval f.phase)
        then refuse invalid_action no_request
        else if stale content f
        then refuse invalid_input stale_request
        else answer_frame actor content f

    -- `AnswerApproval.execute`
    unfoldable pub answer_approval_execute : String → Content → Exec Result
    answer_approval_execute actor content = do cs ← get; answer_on actor content (frame cs)
