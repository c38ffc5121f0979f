-- ===== src/Conversation/Depth.antt =====
-- The depth at which actions of state_machine/action.py replay others.
use second_brain_art.Common.{
  ℕ, zero, suc, ◌<◌, Bool, true, false, not, Option, none, some, List, [], ◌∷◌, String, str_eq, ◌≡◌,
  refl, ◌∙◌, ap, length, arith,
}
use second_brain_art.Python.{Value, truthy}
use second_brain_art.Errors.{ErrorCode}
use second_brain_art.Conversation.Types.{
  ActionType, PhaseFrame, FormStep, Payload, Pending, Reason, Event, Result, Conversation,
  approval_answered,
}
use second_brain_art.Conversation.Exec.{Exec, ◌>>=◌}
use second_brain_art.Conversation.Core.{frame, step, pop_phase}
use second_brain_art.Conversation.Env.{Env}
use second_brain_art.Conversation.Actions.{
  Content, Action, send_text_action, end_turn_action, cancel_action, call_command_action,
  call_tool_action, send_attachment_action, answer_approval_action, submit_form_action,
  skip_form_action, back_form_action, invalid, create_action, action_name, illegality, update_frame,
  progress, frame_missing,
}
use second_brain_art.Conversation.Replay.{
  Replay, recorded, stepped, after_replay, converted, typed, coerce_answer, go_on, fill,
  fill_converted, submit_step, skip_step, at_step, on_form, submit_form_execute, skip_form_execute,
  submitted, asker, decide, resolve, answer_frame, is_approval, stale, answer_on,
  answer_approval_execute, raw_of, lenient,
}
use second_brain_art.Conversation.Enact.{
  actor_or, as_content, settle, execute, attempt_if, attempt, enact_at, enact,
}
use second_brain_art.Conversation.Flat.{
  Agree, Flat, pure-Flat, raise-Flat, refuse-Flat, if-Flat, event-Flat, other_id-Flat,
  set_priority-Flat, bind-agree, bind-first, yes_or_no-Flat, progress_call-frames, if-agree,
  frame-some, change_top-length, drop_top-length, popped-length,
}

module _ (env : Env) where
  converted-Flat : (o : Option Value) → Flat (converted env o)
  converted-Flat none = raise-Flat _
  converted-Flat (some v) = pure-Flat v

  typed-Flat : (s : FormStep) (v : Value) → Flat (typed env s v)
  typed-Flat s v =
      if-Flat (env.fields.validate s v) (converted-Flat (env.fields.coerce s v)) (refuse-Flat _ _)

  coerce_answer-Flat : (f : PhaseFrame) (c : Content) → Flat (coerce_answer env f c)
  unfolding coerce_answer
  coerce_answer-Flat f c =
      if-Flat (str_eq f.answer.kind "boolean") (yes_or_no-Flat (lenient env (raw_of c)))
        (typed-Flat f.answer (raw_of c))

  asker-Flat : (actor : String) (o : Option Pending) → Flat (asker actor o)
  asker-Flat actor none = other_id-Flat actor
  asker-Flat actor (some p) = if-Flat (str_eq p.actor_id "") (other_id-Flat actor) (pure-Flat _)

  module _ (r q : Replay) (n : ℕ) (h : Agree n r q) where
    popped-agree :
        {B : Type 0} (t : ActionType) (p : Payload) (a : String) (k : Result → Exec B)
        (cs : Conversation)
        → 0 < length cs.frames
        → length cs.frames ≡ n
        → (r t p a >>= k) (pop_phase cs) ≡ (q t p a >>= k) (pop_phase cs)
    unfolding pop_phase
    popped-agree t p a k cs lt e =
        bind-first _ _ k (pop_phase cs) (h t p a (pop_phase cs) (drop_top-length cs.frames n lt e))

    go_on-agree :
        (label actor : String) (f : PhaseFrame) (steps : List FormStep) (cs : Conversation)
        → 0 < length cs.frames
        → length cs.frames ≡ n
        → go_on env r label actor f steps cs ≡ go_on env q label actor f steps cs
    unfolding go_on ◌>>=◌
    go_on-agree label actor f [] cs lt e =
        popped-agree f.action_type _ f.actor_id (after_replay f) cs lt e
    go_on-agree label actor f (s ∷ steps) cs lt e = refl

    fill-agree :
        (label actor : String) (f : PhaseFrame) (s : FormStep) (v : Value) (cs : Conversation)
        → 0 < length cs.frames
        → length cs.frames ≡ n
        → fill env r label actor f s v cs ≡ fill env q label actor f s v cs
    unfolding fill ◌>>=◌ update_frame progress
    fill-agree label actor f s v cs lt e =
        let g = recorded f s v in
        let c1 = update_frame (λ f. recorded f s v) cs in
        let c2 = progress g c1 in
        let c3 = update_frame stepped c2 in
        let size : length c3.frames ≡ length cs.frames =
          change_top-length stepped c2.frames
          ∙ ap length (progress_call-frames g g.call_id c1)
          ∙ change_top-length (λ f. recorded f s v) cs.frames in
        go_on-agree label actor (stepped g) (frame_missing env g g.args c3) c3 (rw size lt)
          (size ∙ e)

    fill_converted-agree :
        (actor : String) (f : PhaseFrame) (s : FormStep) (o : Option Value) (cs : Conversation)
        → 0 < length cs.frames
        → length cs.frames ≡ n
        → fill_converted env r actor f s o cs ≡ fill_converted env q actor f s o cs
    fill_converted-agree actor f s none cs lt e = refl
    fill_converted-agree actor f s (some v) cs lt e = fill-agree _ actor f s v cs lt e

    submit_step-agree :
        (actor : String) (v : Value) (f : PhaseFrame) (s : FormStep) (cs : Conversation)
        → 0 < length cs.frames
        → length cs.frames ≡ n
        → submit_step env r actor v f s cs ≡ submit_step env q actor v f s cs
    submit_step-agree actor v f s cs lt e =
        if-agree (env.fields.validate s v) _ _ _ _ cs
          (fill_converted-agree actor f s (env.fields.coerce s v) cs lt e) refl

    skip_step-agree :
        (actor : String) (f : PhaseFrame) (s : FormStep) (cs : Conversation)
        → 0 < length cs.frames
        → length cs.frames ≡ n
        → skip_step env r actor f s cs ≡ skip_step env q actor f s cs
    skip_step-agree actor f s cs lt e =
        if-agree s.required _ _ _ _ cs refl (fill-agree "skip_form" actor f s s.default cs lt e)

    at_step-agree :
        (k l : PhaseFrame → FormStep → Exec Result) (f : PhaseFrame) (o : Option FormStep)
        (cs : Conversation)
        → ((s : FormStep) → k f s cs ≡ l f s cs)
        → at_step k f o cs ≡ at_step l f o cs
    at_step-agree k l f none cs h = refl
    at_step-agree k l f (some s) cs h = h s

    form-agree :
        (k l : PhaseFrame → FormStep → Exec Result) (o : Option PhaseFrame) (cs : Conversation)
        → ((f : PhaseFrame) → o ≡ some f → (s : FormStep) → k f s cs ≡ l f s cs)
        → on_form k o cs ≡ on_form l o cs
    form-agree k l none cs h = refl
    form-agree k l (some f) cs h = at_step-agree k l f (step f) cs (h f refl)

    submit-agree :
        (actor : String) (c : Content) (cs : Conversation)
        → length cs.frames ≡ n
        → submit_form_execute env r actor c cs ≡ submit_form_execute env q actor c cs
    unfolding submit_form_execute ◌>>=◌
    submit-agree actor c cs e =
        form-agree _ _ (frame cs) cs
          λ f t s. submit_step-agree actor (submitted c) f s cs (frame-some cs f t) e

    skip-agree :
        (actor : String) (cs : Conversation)
        → length cs.frames ≡ n
        → skip_form_execute env r actor cs ≡ skip_form_execute env q actor cs
    unfolding skip_form_execute ◌>>=◌
    skip-agree actor cs e =
        form-agree _ _ (frame cs) cs λ f t s. skip_step-agree actor f s cs (frame-some cs f t) e

    decide-agree :
        (ev : Event) (p : Pending) (b : Bool) (cs : Conversation)
        → length cs.frames < n
        → decide env r ev p b cs ≡ decide env q ev p b cs
    decide-agree ev p false cs lt = refl
    decide-agree ev p true cs lt = bind-first _ _ _ cs (h p.type_ _ p.actor_id cs lt)

    resolve-agree :
        (f : PhaseFrame) (v : Value) (ev : Event) (o : Option Pending) (cs : Conversation)
        → length cs.frames < n
        → resolve env r f v ev o cs ≡ resolve env q f v ev o cs
    resolve-agree f v ev none cs lt = refl
    resolve-agree f v ev (some p) cs lt =
        if-agree (str_eq f.answer.kind "boolean") _ _ _ _ cs (decide-agree ev p (truthy v) cs lt)
          refl

    answer_frame-agree :
        (actor : String) (c : Content) (f : PhaseFrame) (cs : Conversation)
        → 0 < length cs.frames
        → length cs.frames ≡ n
        → answer_frame env r actor c f cs ≡ answer_frame env q actor c f cs
    unfolding answer_frame ◌>>=◌ pop_phase
    answer_frame-agree actor c f cs lt e = bind-agree (coerce_answer-Flat f c) _ _ cs λ v ds d.
        bind-agree (asker-Flat actor f.pending) _ _ ds λ who es k.
          bind-agree (set_priority-Flat who) _ _ (pop_phase es) λ _ gs m.
            bind-agree (event-Flat (approval_answered v) actor) _ _ gs λ ev hs o.
              resolve-agree f v ev f.pending hs
                (popped-length hs.frames es.frames cs.frames n (o ∙ m) (k ∙ d) lt e)

    answer_on-agree :
        (actor : String) (c : Content) (o : Option PhaseFrame) (cs : Conversation)
        → ((f : PhaseFrame) → o ≡ some f → 0 < length cs.frames)
        → length cs.frames ≡ n
        → answer_on env r actor c o cs ≡ answer_on env q actor c o cs
    answer_on-agree actor c none cs lt e = refl
    answer_on-agree actor c (some f) cs lt e =
        if-agree (not (is_approval f.phase)) _ _ _ _ cs refl
          (if-agree (stale c f) _ _ _ _ cs refl (answer_frame-agree actor c f cs (lt f refl) e))

    execute-agree :
        (a : Action) (actor : String) (c : Content) (cs : Conversation)
        → length cs.frames ≡ n
        → execute env r a actor c cs ≡ execute env q a actor c cs
    unfolding execute answer_approval_execute ◌>>=◌
    execute-agree send_text_action actor c cs e = refl
    execute-agree end_turn_action actor c cs e = refl
    execute-agree cancel_action actor c cs e = refl
    execute-agree call_command_action actor c cs e = refl
    execute-agree call_tool_action actor c cs e = refl
    execute-agree send_attachment_action actor c cs e = refl
    execute-agree answer_approval_action actor c cs e =
        answer_on-agree actor c (frame cs) cs (frame-some cs) e
    execute-agree submit_form_action actor c cs e = submit-agree actor c cs e
    execute-agree skip_form_action actor c cs e = skip-agree actor cs e
    execute-agree back_form_action actor c cs e = refl
    execute-agree invalid actor c cs e = refl

    attempt_if-agree :
        (a : Action) (actor : String) (c : Content) (o : Option (ErrorCode × Reason))
        (cs : Conversation)
        → length cs.frames ≡ n
        → attempt_if env r a actor c o cs ≡ attempt_if env q a actor c o cs
    attempt_if-agree a actor c (some e) cs k = refl
    attempt_if-agree a actor c none cs k =
        ap (settle (action_name a) actor) (execute-agree a actor c cs k)

    attempt-agree :
        (a : Action) (actor : String) (c : Content) (cs : Conversation)
        → length cs.frames ≡ n
        → attempt env r a actor c cs ≡ attempt env q a actor c cs
    unfolding attempt
    attempt-agree a actor c cs e = attempt_if-agree a actor c (illegality a actor cs) cs e

  enact_at-agree :
      (n m : ℕ) (t : ActionType) (c : Content) (actor : String) (cs : Conversation)
      → length cs.frames < n
      → length cs.frames < m
      → enact_at env n t c actor cs ≡ enact_at env m t c actor cs
  unfolding enact_at
  enact_at-agree zero m t c actor cs lt le = absurd (omega arith)
  enact_at-agree (suc n) zero t c actor cs lt le = absurd (omega arith)
  enact_at-agree (suc n) (suc m) t c actor cs lt le =
      attempt-agree _ _ (length cs.frames)
        (λ u p who ds l. enact_at-agree n m u (as_content p) who ds (omega arith) (omega arith))
        (create_action cs.phase t) (actor_or actor cs) c cs refl

  -- The depth that `enact` allows is enough: any other one that is greater than the number of frames
  -- gives the same result and the same conversation, for every action, content, actor and
  -- conversation, so that the limit on the depth is never what decides.
  pub enact-deep :
      (m : ℕ) (t : ActionType) (c : Content) (actor : String) (cs : Conversation)
      → length cs.frames < m
      → enact env t c actor cs ≡ enact_at env m t c actor cs
  unfolding enact
  enact-deep m t c actor cs lt =
      enact_at-agree (suc (length cs.frames)) m t c actor cs (omega arith) lt
