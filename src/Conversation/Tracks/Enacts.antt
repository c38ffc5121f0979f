-- ===== src/Conversation/Tracks/Enacts.antt =====
-- The phase and the stack of frames under the actions of state_machine/action.py and `enact`.
use second_brain_art.Common.{
  ℕ, zero, suc, Bool, true, false, not, Option, none, some, List, [], ◌∷◌, String, str_eq, refl,
}
use second_brain_art.Python.{Value, truthy}
use second_brain_art.Errors.{ErrorCode}
use second_brain_art.Conversation.Types.{
  ActionType, PhaseFrame, FormStep, Payload, Pending, Reason, Error, Event, Result, Conversation,
}
use second_brain_art.Conversation.Exec.{action_error, exn, Outcome, ok, err, Exec}
use second_brain_art.Conversation.Core.{frame, step, log_event}
use second_brain_art.Conversation.Env.{Env}
use second_brain_art.Conversation.Actions.{
  Content, Action, send_text_action, end_turn_action, cancel_action, call_command_action,
  call_tool_action, send_attachment_action, answer_approval_action, submit_form_action,
  skip_form_action, back_form_action, invalid, illegality,
}
use second_brain_art.Conversation.Replay.{
  Replay, recorded, retry, after_replay, yes_or_no, converted, typed, coerce_answer, go_on, fill,
  fill_converted, at_step, on_form, submit_form_execute, skip_form_execute, asker, decide, resolve,
  answer_frame, answer_on, answer_approval_execute, is_approval, stale, raw_of, lenient,
}
use second_brain_art.Conversation.Enact.{
  fail_with, settle, execute, attempt_if, attempt, enact_at, enact,
}
use second_brain_art.Conversation.Tracks.{
  Tracks, Keeps, pure-Keeps, get-Keeps, reset-Keeps, pop-Keeps, push-Keeps, bind-Keeps, if-Keeps,
}
use second_brain_art.Conversation.Tracks.Calls.{
  raise-Keeps, refuse-Keeps, event-Keeps, other_id-Keeps, set_priority-Keeps,
  execute_callable-Keeps,
}
use second_brain_art.Conversation.Tracks.Steps.{
  send_text-Keeps, end_turn-Keeps, cancel-Keeps, update_frame-Keeps, progress-Keeps,
  back_form-Keeps, attachment-Keeps,
}

fail_with-Keeps : (name actor : String) (e : Error) → Keeps (fail_with name actor e)
unfolding fail_with log_event
fail_with-Keeps name actor e = record { keeps = λ cs t. t }

settle-Tracks :
    (name actor : String) (r : Outcome Result) (cs : Conversation)
    → Tracks cs
    → Tracks (settle name actor (r, cs)).1
settle-Tracks name actor (ok r) cs t = t
settle-Tracks name actor (err (action_error e)) cs t = (fail_with-Keeps name actor e).keeps cs t
settle-Tracks name actor (err (exn x)) cs t = (fail_with-Keeps name actor _).keeps cs t

retry-Keeps : (f : PhaseFrame) (r : Result) → Keeps (retry f r)
unfolding retry
retry-Keeps f r =
    bind-Keeps (push-Keeps _)
      λ _. bind-Keeps (record { keeps = λ cs t. t }) λ _. bind-Keeps get-Keeps λ cs. pure-Keeps _

after_replay-Keeps : (f : PhaseFrame) (r : Result) → Keeps (after_replay f r)
unfolding after_replay
after_replay-Keeps f r = if-Keeps _ (retry-Keeps f r) (pure-Keeps r)

yes_or_no-Keeps : (o : Option Bool) → Keeps (yes_or_no o)
yes_or_no-Keeps none = refuse-Keeps _ _
yes_or_no-Keeps (some b) = pure-Keeps _

module _ (env : Env) where
  converted-Keeps : (o : Option Value) → Keeps (converted env o)
  converted-Keeps none = raise-Keeps _
  converted-Keeps (some v) = pure-Keeps v

  typed-Keeps : (s : FormStep) (v : Value) → Keeps (typed env s v)
  typed-Keeps s v =
      if-Keeps (env.fields.validate s v) (converted-Keeps (env.fields.coerce s v))
        (refuse-Keeps _ _)

  coerce_answer-Keeps : (f : PhaseFrame) (c : Content) → Keeps (coerce_answer env f c)
  unfolding coerce_answer
  coerce_answer-Keeps f c =
      if-Keeps (str_eq f.answer.kind "boolean") (yes_or_no-Keeps (lenient env (raw_of c)))
        (typed-Keeps f.answer (raw_of c))

  module _ (replay : Replay)
      (h : (t : ActionType) (p : Payload) (a : String) → Keeps (replay t p a)) where
    go_on-Keeps :
        (label actor : String) (f : PhaseFrame) (steps : List FormStep)
        → Keeps (go_on env replay label actor f steps)
    unfolding go_on
    go_on-Keeps label actor f [] =
        bind-Keeps pop-Keeps λ _. bind-Keeps (h _ _ _) (after_replay-Keeps f)
    go_on-Keeps label actor f (s ∷ steps) =
        bind-Keeps (update_frame-Keeps _ λ g. refl)
          λ _. bind-Keeps (event-Keeps _ _) λ ev. pure-Keeps _

    fill-Keeps :
        (label actor : String) (f : PhaseFrame) (s : FormStep) (v : Value)
        → Keeps (fill env replay label actor f s v)
    unfolding fill recorded
    fill-Keeps label actor f s v = bind-Keeps (update_frame-Keeps _ λ g. refl) λ _.
        bind-Keeps (progress-Keeps _) λ _.
          bind-Keeps (update_frame-Keeps _ λ g. refl)
            λ _. bind-Keeps get-Keeps λ cs. go_on-Keeps label actor _ _

    fill_converted-Keeps :
        (actor : String) (f : PhaseFrame) (s : FormStep) (o : Option Value)
        → Keeps (fill_converted env replay actor f s o)
    fill_converted-Keeps actor f s none = refuse-Keeps _ _
    fill_converted-Keeps actor f s (some v) = fill-Keeps _ actor f s v

    on_form-Keeps :
        (run : PhaseFrame → FormStep → Exec Result)
        (k : (f : PhaseFrame) (s : FormStep) → Keeps (run f s)) (o : Option PhaseFrame)
        → Keeps (on_form run o)
    on_form-Keeps run k none = refuse-Keeps _ _
    on_form-Keeps run k (some f) = at_step-Keeps f (step f)
      where
        at_step-Keeps : (f : PhaseFrame) (o : Option FormStep) → Keeps (at_step run f o)
        at_step-Keeps f none = refuse-Keeps _ _
        at_step-Keeps f (some s) = k f s

    submit-Keeps : (actor : String) (c : Content) → Keeps (submit_form_execute env replay actor c)
    unfolding submit_form_execute
    submit-Keeps actor c = bind-Keeps get-Keeps λ cs.
        on_form-Keeps _ (λ f s. if-Keeps _ (fill_converted-Keeps actor f s _) (refuse-Keeps _ _))
          (frame cs)

    skip-Keeps : (actor : String) → Keeps (skip_form_execute env replay actor)
    unfolding skip_form_execute
    skip-Keeps actor = bind-Keeps get-Keeps λ cs.
        on_form-Keeps _ (λ f s. if-Keeps _ (refuse-Keeps _ _) (fill-Keeps _ actor f s _)) (frame cs)

    asker-Keeps : (actor : String) (o : Option Pending) → Keeps (asker actor o)
    asker-Keeps actor none = other_id-Keeps actor
    asker-Keeps actor (some p) = if-Keeps _ (other_id-Keeps actor) (pure-Keeps _)

    decide-Keeps : (ev : Event) (p : Pending) (b : Bool) → Keeps (decide env replay ev p b)
    decide-Keeps ev p false = bind-Keeps reset-Keeps λ _. pure-Keeps _
    decide-Keeps ev p true = bind-Keeps (h _ _ _) λ r. pure-Keeps _

    resolve-Keeps :
        (f : PhaseFrame) (v : Value) (ev : Event) (o : Option Pending)
        → Keeps (resolve env replay f v ev o)
    resolve-Keeps f v ev none = bind-Keeps reset-Keeps λ _. pure-Keeps _
    resolve-Keeps f v ev (some p) =
        if-Keeps _ (decide-Keeps ev p (truthy v)) (bind-Keeps reset-Keeps λ _. pure-Keeps _)

    answer_frame-Keeps :
        (actor : String) (c : Content) (f : PhaseFrame) → Keeps (answer_frame env replay actor c f)
    unfolding answer_frame
    answer_frame-Keeps actor c f = bind-Keeps (coerce_answer-Keeps f c) λ v.
        bind-Keeps (asker-Keeps actor f.pending) λ who. bind-Keeps pop-Keeps λ _.
          bind-Keeps (set_priority-Keeps who)
            λ _. bind-Keeps (event-Keeps _ _) λ ev. resolve-Keeps f v ev f.pending

    answer_on-Keeps :
        (actor : String) (c : Content) (o : Option PhaseFrame)
        → Keeps (answer_on env replay actor c o)
    answer_on-Keeps actor c none = refuse-Keeps _ _
    answer_on-Keeps actor c (some f) =
        if-Keeps (not (is_approval f.phase)) (refuse-Keeps _ _)
          (if-Keeps (stale c f) (refuse-Keeps _ _) (answer_frame-Keeps actor c f))

    answer-Keeps :
        (actor : String) (c : Content) → Keeps (answer_approval_execute env replay actor c)
    unfolding answer_approval_execute
    answer-Keeps actor c = bind-Keeps get-Keeps λ cs. answer_on-Keeps actor c (frame cs)

    execute-Keeps :
        (a : Action) (actor : String) (c : Content) → Keeps (execute env replay a actor c)
    unfolding execute
    execute-Keeps send_text_action actor c = send_text-Keeps actor c
    execute-Keeps end_turn_action actor c = end_turn-Keeps
    execute-Keeps cancel_action actor c = cancel-Keeps actor
    execute-Keeps call_command_action actor c = execute_callable-Keeps env _ actor _
    execute-Keeps call_tool_action actor c = execute_callable-Keeps env _ actor _
    execute-Keeps send_attachment_action actor c = attachment-Keeps env actor c
    execute-Keeps answer_approval_action actor c = answer-Keeps actor c
    execute-Keeps submit_form_action actor c = submit-Keeps actor c
    execute-Keeps skip_form_action actor c = skip-Keeps actor
    execute-Keeps back_form_action actor c = back_form-Keeps env actor
    execute-Keeps invalid actor c = refuse-Keeps _ _

    attempt_if-Keeps :
        (a : Action) (actor : String) (c : Content) (o : Option (ErrorCode × Reason))
        → Keeps (attempt_if env replay a actor c o)
    attempt_if-Keeps a actor c (some (code, reason)) = record {
      keeps = λ cs t. (fail_with-Keeps _ actor _).keeps cs t;
    }
    attempt_if-Keeps a actor c none = record {
      keeps = λ cs t. settle-Tracks _ actor _ _ ((execute-Keeps a actor c).keeps cs t);
    }

    attempt-Keeps :
        (a : Action) (actor : String) (c : Content) → Keeps (attempt env replay a actor c)
    unfolding attempt
    attempt-Keeps a actor c = record {
      keeps = λ cs t. (attempt_if-Keeps a actor c (illegality a actor cs)).keeps cs t;
    }

  enact_at-Keeps :
      (n : ℕ) (t : ActionType) (c : Content) (actor : String) → Keeps (enact_at env n t c actor)
  unfolding enact_at
  enact_at-Keeps zero t c actor = record { keeps = λ cs k. k }
  enact_at-Keeps (suc n) t c actor = record {
    keeps = λ cs k. (attempt-Keeps _ (λ u p who. enact_at-Keeps n u _ who) _ _ c).keeps cs k;
  }

  -- Where the phase is the one that the stack of frames stands for (that of the top frame, or the
  -- base phase if there is none), it is so after any action, with any content, by anyone, whether
  -- the action succeeds or fails, and whatever the plugins' handlers did to the conversation.
  pub enact-Tracks :
      (t : ActionType) (c : Content) (actor : String) (cs : Conversation)
      → Tracks cs
      → Tracks (enact env t c actor cs).1
  unfolding enact
  enact-Tracks t c actor cs k = (enact_at-Keeps _ t c actor).keeps cs k
