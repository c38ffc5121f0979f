-- ===== src/Conversation/Approval.antt =====
-- What the answer to a gated call does: `AnswerApproval` of state_machine/action.py.
use second_brain_art.Common.{
  ℕ, ◌<◌, Bool, true, false, Option, none, some, List, [], ◌∷◌, String, str_eq, eq_iff, ◌≡◌, refl,
  sym, ◌∙◌, ap, length, arith,
}
use second_brain_art.Python.{bool}
use second_brain_art.Errors.{ErrorCode, succeeded}
use second_brain_art.Conversation.Types.{
  ActionType, approving_request, Participant, Pending, PhaseFrame, Reason, Event, approval_answered,
  Result, Conversation,
}
use second_brain_art.Conversation.Exec.{
  Exec, action_error, exn, pure, Outcome, ok, err, ◌>>=◌, continue,
}
use second_brain_art.Conversation.Core.{
  find, phase_of, base_phase, pop_phase, reset_phase, set_priority, assign_priority, make_event,
  log_event, event,
}
use second_brain_art.Conversation.Env.{Env}
use second_brain_art.Conversation.Actions.{
  Content, nothing, words, fields, Action, answer_approval_action, create_action, illegality,
}
use second_brain_art.Conversation.Replay.{
  Replay, answer_on, raw_of, lenient, stale, first_event, approved_content, coerce_answer,
  answer_frame, answer_approval_execute, decide,
}
use second_brain_art.Conversation.Enact.{
  as_content, fail_with, attempt_if, settle, execute, attempt, enact_at, enact,
}
use second_brain_art.Conversation.Depth.{enact-deep}

abbrev pub waiting : PhaseFrame → Pending → PhaseFrame
waiting f p = record f { phase = approving_request; pending = some p }

-- A conversation that waits for `actor` to answer a frame `f` with the pending call `p`.
abbrev pub asked : String → PhaseFrame → Pending → List PhaseFrame → Conversation → Conversation
asked actor f p fs cs = record cs {
  frames = waiting f p ∷ fs;
  phase = approving_request;
  turn_priority = actor;
}

-- It without the frame, with the turn handed back, and the answer in the history.
abbrev pub reply_event : Bool → String → List PhaseFrame → Event
reply_event b actor fs = record {
  type_ = approval_answered (bool b);
  actor_id = actor;
  phase = phase_of fs;
}

abbrev pub handed_back : Bool → String → Pending → List PhaseFrame → Conversation → Conversation
handed_back b actor p fs cs = record cs {
  frames = fs;
  phase = phase_of fs;
  turn_priority = p.actor_id;
  history = reply_event b actor fs ∷ cs.history;
}

abbrev pub with_event : Event → Outcome Result × Conversation → Outcome Result × Conversation
with_event ev (ok r, cs) = (ok (first_event ev r), cs)
with_event ev (err e, cs) = (err e, cs)

module _ {A B : Type 0} where
  bind-at :
      (m : Exec A) (k : A → Exec B) (cs ds : Conversation) (a : A)
      → m cs ≡ (ok a, ds)
      → (m >>= k) cs ≡ k a ds
  unfolding ◌>>=◌
  bind-at m k cs ds a e = ap (λ (x : Outcome A × Conversation). continue x.0 k x.1) e

set_priority-at :
    (actor : String) (cs : Conversation) (o : Participant)
    → find actor cs.participants ≡ some o
    → set_priority actor cs ≡ (ok tt, record cs { turn_priority = actor })
unfolding set_priority assign_priority
set_priority-at actor cs o h = rw (h, set_priority) refl

-- `enact` does not raise.
abbrev Returned : Outcome Result × Conversation → Type 0
Returned (ok r, cs) = Unit {0}
Returned (err e, cs) = ⊥

settle-Returned :
    (name actor : String) (x : Outcome Result × Conversation) → Returned (settle name actor x)
unfolding fail_with
settle-Returned name actor (ok r, cs) = tt
settle-Returned name actor (err (action_error e), cs) = tt
settle-Returned name actor (err (exn e), cs) = tt

module _ (env : Env) where
  attempt_if-Returned :
      (r : Replay) (a : Action) (actor : String) (c : Content) (o : Option (ErrorCode × Reason))
      (cs : Conversation)
      → Returned (attempt_if env r a actor c o cs)
  unfolding fail_with
  attempt_if-Returned r a actor c (some e) cs = tt
  attempt_if-Returned r a actor c none cs = settle-Returned _ actor _

  enact-Returned :
      (t : ActionType) (c : Content) (actor : String) (cs : Conversation)
      → Returned (enact env t c actor cs)
  unfolding enact enact_at attempt
  enact-Returned t c actor cs = attempt_if-Returned _ _ _ c _ cs

  -- What a yes and a no lead to.
  abbrev pub decided :
      Bool → String → Pending → List PhaseFrame → Conversation → Outcome Result × Conversation
  decided true actor p fs cs = with_event (reply_event true actor fs) (
      enact env p.type_ (as_content (approved_content p)) p.actor_id
        (handed_back true actor p fs cs))
  decided false actor p fs cs = (
    ok (succeeded "answer_approval" (reply_event false actor fs)),
    record (handed_back false actor p fs cs) { frames = []; phase = base_phase },
  )

  module _ (r : Replay) where
    -- The frame is taken off, the turn goes back, and the answer decides.
    frame-at :
        (b : Bool) (c : Content) (actor : String) (f : PhaseFrame) (p : Pending)
        (fs : List PhaseFrame) (cs : Conversation) (o : Participant)
        → str_eq p.actor_id "" ≡ false
        → find p.actor_id cs.participants ≡ some o
        → str_eq f.answer.kind "boolean" ≡ true
        → lenient env (raw_of c) ≡ some b
        → answer_frame env r actor c (waiting f p) (asked actor f p fs cs)
          ≡ decide env r (reply_event b actor fs) p b (handed_back b actor p fs cs)
    unfolding answer_frame coerce_answer set_priority assign_priority pop_phase event log_event
        make_event ◌>>=◌
    frame-at b c actor f p fs cs o hp ho hk hl = rw hk (
        rw hl (
          rw hp (
            bind-at (set_priority p.actor_id)
              (λ _. event (approval_answered (bool b)) actor >>= λ ev. decide env r ev p b)
              (pop_phase (asked actor f p fs cs)) _ tt
              (set_priority-at p.actor_id (pop_phase (asked actor f p fs cs)) o ho))))

    on-at :
        (c : Content) (actor : String) (f : PhaseFrame) (p : Pending) (cs : Conversation)
        → stale c f ≡ false
        → answer_on env r actor c (some (waiting f p)) cs
          ≡ answer_frame env r actor c (waiting f p) cs
    on-at nothing actor f p cs h = refl
    on-at (words s) actor f p cs h = refl
    on-at (fields d) actor f p cs h = rw h refl

    legal-at :
        (t : ActionType) (c : Content) (actor : String) (f : PhaseFrame) (p : Pending)
        (fs : List PhaseFrame) (cs : Conversation) (q : Participant)
        → find actor cs.participants ≡ some q
        → attempt env r answer_approval_action actor c (asked actor f p fs cs)
          ≡ settle "answer_approval" actor
              (answer_on env r actor c (some (waiting f p)) (asked actor f p fs cs))
    unfolding attempt illegality execute answer_approval_execute ◌>>=◌
    legal-at t c actor f p fs cs q hq = rw hq (rw ((eq_iff actor actor).1 refl) refl)

    attempt-at :
        (b : Bool) (t : ActionType) (c : Content) (actor : String) (f : PhaseFrame) (p : Pending)
        (fs : List PhaseFrame) (cs : Conversation) (q : Participant) (o : Participant)
        → find actor cs.participants ≡ some q
        → str_eq p.actor_id "" ≡ false
        → find p.actor_id cs.participants ≡ some o
        → str_eq f.answer.kind "boolean" ≡ true
        → stale c f ≡ false
        → lenient env (raw_of c) ≡ some b
        → attempt env r answer_approval_action actor c (asked actor f p fs cs)
          ≡ settle "answer_approval" actor
              (decide env r (reply_event b actor fs) p b (handed_back b actor p fs cs))
    attempt-at b t c actor f p fs cs q o hq hp ho hk hs hl =
        legal-at t c actor f p fs cs q hq
        ∙ ap (settle "answer_approval" actor) (
            on-at c actor f p (asked actor f p fs cs) hs
            ∙ frame-at b c actor f p fs cs o hp ho hk hl)

  settle-ok :
      (ev : Event) (name actor : String) (x : Outcome Result × Conversation)
      → Returned x
      → settle name actor (continue x.0 (λ r. pure (first_event ev r)) x.1) ≡ with_event ev x
  settle-ok ev name actor (ok r, cs) h = refl
  settle-ok ev name actor (err e, cs) h = absurd h

  settle-decided :
      (b : Bool) (m : ℕ) (actor : String) (p : Pending) (fs : List PhaseFrame) (cs : Conversation)
      → length fs < m
      → settle "answer_approval" actor (
          decide env
            (λ u w who. enact_at env m u (as_content w) who)
            (reply_event b actor fs)
            p
            b
            (handed_back b actor p fs cs))
        ≡ decided b actor p fs cs
  unfolding ◌>>=◌ reset_phase
  settle-decided false m actor p fs cs lt = refl
  settle-decided true m actor p fs cs lt =
      let ev = reply_event true actor fs in
      let hb = handed_back true actor p fs cs in
      ap
        (λ (x : Outcome Result × Conversation).
          settle "answer_approval" actor (continue x.0 (λ r. pure (first_event ev r)) x.1))
        (sym (enact-deep env m p.type_ (as_content (approved_content p)) p.actor_id hb lt))
      ∙ settle-ok ev "answer_approval" actor _ (enact-Returned p.type_ _ p.actor_id hb)

  -- Answering an approval. Let the top frame ask `actor`, whose turn it is, about a pending call of
  -- a participant, with a boolean answer; let the content not name another request, and read as a
  -- yes or a no by the lenient parser. Then a yes is exactly the pending call, made anew by the one
  -- who wanted it and marked as approved, on the conversation without the frame, with the answer as
  -- the first event of its result; and a no empties the stack and makes no call.
  pub answer-decided :
      (b : Bool) (t : ActionType) (c : Content) (actor : String) (f : PhaseFrame) (p : Pending)
      (fs : List PhaseFrame) (cs : Conversation) (q : Participant) (o : Participant)
      → create_action approving_request t ≡ answer_approval_action
      → str_eq actor "" ≡ false
      → find actor cs.participants ≡ some q
      → str_eq p.actor_id "" ≡ false
      → find p.actor_id cs.participants ≡ some o
      → str_eq f.answer.kind "boolean" ≡ true
      → stale c f ≡ false
      → lenient env (raw_of c) ≡ some b
      → enact env t c actor (asked actor f p fs cs) ≡ decided b actor p fs cs
  unfolding enact enact_at
  answer-decided b t c actor f p fs cs q o ht ha hq hp ho hk hs hl = rw ht (
      rw ha (
        attempt-at _ b t c actor f p fs cs q o hq hp ho hk hs hl
        ∙ settle-decided b (length (waiting f p ∷ fs)) actor p fs cs (omega arith)))
