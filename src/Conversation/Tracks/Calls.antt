-- ===== src/Conversation/Tracks/Calls.antt =====
-- The phase and the stack of frames under the operations of state_machine/conversation.py and the
-- calls of state_machine/action.py.
use second_brain_art.Common.{Bool, true, Option, none, some, List, [], ◌∷◌, String, arith}
use second_brain_art.Errors.{ErrorCode}
use second_brain_art.Conversation.Types.{
  PhaseFrame, FormStep, Payload, Reason, Happening, Args, Conversation,
}
use second_brain_art.Conversation.Exec.{Raised, Exec, raise, refuse, modify, ◌>>=◌}
use second_brain_art.Conversation.Core.{
  other_id, assign_priority, set_priority, switch_priority, frame, event, emit, log_event,
  pop_phase,
}
use second_brain_art.Conversation.Env.{CallableSpec, Env}
use second_brain_art.Conversation.Callable.{
  Callable, command, tool, check_steps, validate, known, resolve, emit_started, emit_finished,
  superseded, supersede_frame, supersede, or_started, run, ask_approval, approver_of, start_form,
  run_or_ask, proceed, execute_callable,
}
use second_brain_art.Conversation.Tracks.{
  Tracks, Keeps, Restores, pure-Keeps, get-Keeps, push-Keeps, bind-Keeps, bind-Restores,
  guarded-Restores, weaken, modify-Restores, if-Keeps, when-Keeps,
}

module _ {A : Type 0} where
  pub raise-Keeps : (e : Raised) → Keeps {A = A} (raise e)
  raise-Keeps e = record { keeps = λ cs t. t }

  pub refuse-Keeps : (code : ErrorCode) (reason : Reason) → Keeps {A = A} (refuse code reason)
  refuse-Keeps code reason = record { keeps = λ cs t. t }

pub event-Keeps : (what : Happening) (actor : String) → Keeps (event what actor)
unfolding event log_event
event-Keeps what actor = record { keeps = λ cs t. t }

pub other_id-Keeps : (actor : String) → Keeps (other_id actor)
unfolding other_id
other_id-Keeps actor = record { keeps = λ cs t. ground arith }

assign_priority-Keeps : (actor : String) → Keeps (assign_priority actor)
unfolding assign_priority
assign_priority-Keeps actor = record { keeps = λ cs t. t }

pub switch_priority-Keeps : (actor : String) → Keeps (switch_priority actor)
unfolding switch_priority
switch_priority-Keeps actor = bind-Keeps (other_id-Keeps actor) assign_priority-Keeps

pub set_priority-Keeps : (actor : String) → Keeps (set_priority actor)
unfolding set_priority assign_priority
set_priority-Keeps actor = record { keeps = λ cs t. ground arith }

module _ (env : Env) where
  superseded-Tracks :
      (f : PhaseFrame) (cs : Conversation) → Tracks cs → Tracks (superseded env f cs)
  unfolding pop_phase emit
  superseded-Tracks f cs t = ground arith

  supersede_frame-Tracks :
      (o : Option PhaseFrame) (cs : Conversation) → Tracks cs → Tracks (supersede_frame env o cs)
  supersede_frame-Tracks none cs t = t
  supersede_frame-Tracks (some f) cs t =
      let s : Tracks (superseded env f cs) = superseded-Tracks f cs t in ground arith

  supersede-Keeps : Keeps (modify (supersede env))
  unfolding supersede
  supersede-Keeps = record { keeps = λ cs t. supersede_frame-Tracks (frame cs) cs t }

  check_steps-Keeps : (steps : List FormStep) (args : Args) → Keeps (check_steps env steps args)
  unfolding check_steps
  check_steps-Keeps [] args = pure-Keeps tt
  check_steps-Keeps (s ∷ steps) args = if-Keeps _ (check_steps-Keeps steps args) (refuse-Keeps _ _)

  validate-Keeps : (spec : CallableSpec) (args : Args) → Keeps (validate env spec args)
  unfolding validate
  validate-Keeps spec args = if-Keeps _ (pure-Keeps tt) (
      bind-Keeps get-Keeps λ cs.
        bind-Keeps (check_steps-Keeps (spec.form args cs) args)
          λ _. if-Keeps _ (pure-Keeps tt) (refuse-Keeps _ _))

  known-Keeps :
      (c : Callable) (n : Option String) (o : Option CallableSpec) → Keeps (known env c n o)
  known-Keeps c n none = refuse-Keeps _ _
  known-Keeps c n (some s) = pure-Keeps s

  resolve-Keeps :
      (c : Callable) (actor : String) (n : Option String) → Keeps (resolve env c actor n)
  unfolding resolve
  resolve-Keeps c actor none = refuse-Keeps _ _
  resolve-Keeps c actor (some n) = if-Keeps _ (refuse-Keeps _ _) (known-Keeps c (some n) _)

  -- The invocation starts without touching the stack; a finished call leaves it empty.
  emit_started-Keeps : (c : Callable) (spec : CallableSpec) → Keeps (emit_started env c spec)
  unfolding emit_started emit
  emit_started-Keeps tool spec = record { keeps = λ cs t. t }
  emit_started-Keeps command spec = record { keeps = λ cs t. t }

  or_started-Keeps :
      (c : Callable) (spec : CallableSpec) (o : Option String) → Keeps (or_started env c spec o)
  or_started-Keeps c spec none = emit_started-Keeps c spec
  or_started-Keeps c spec (some id) = pure-Keeps (some id)

  emit_finished-Keeps :
      (c : Callable) (id : Option String) (spec : CallableSpec) (good : Bool)
      → Keeps (modify (emit_finished env c id spec good))
  unfolding emit_finished emit
  emit_finished-Keeps command (some id) spec good = record { keeps = λ cs t. t }
  emit_finished-Keeps command none spec good = record { keeps = λ cs t. t }
  emit_finished-Keeps tool id spec good = record { keeps = λ cs t. t }

  -- A call leaves the stack empty, whatever the handler did and however it ended.
  started-Restores :
      (c : Callable) (spec : CallableSpec) (o : Option String) {B : Type 0}
      {f : Option String → Exec B}
      → ((id : Option String) → Restores (f id))
      → Restores (or_started env c spec o >>= f)
  unfolding ◌>>=◌ emit_started
  started-Restores c spec (some id) h = record { restores = λ cs. (h (some id)).restores cs }
  started-Restores tool spec none h = record { restores = λ cs. (h none).restores cs }
  started-Restores command spec none h = record { restores = λ cs. (h _).restores _ }

  pub run-Restores :
      (c : Callable) (spec : CallableSpec) (actor : String) (args : Args) (o : Option String)
      → Restores (run env c spec actor args o)
  unfolding run
  run-Restores c spec actor args o = modify-Restores _ _ (
      started-Restores c spec o λ id. bind-Restores (guarded-Restores _ _) λ v.
        bind-Keeps (emit_finished-Keeps c id spec true)
          λ _. bind-Keeps (event-Keeps _ _) λ ev. pure-Keeps _)

  approver_of-Keeps : (actor : String) (o : Option String) → Keeps (approver_of env actor o)
  approver_of-Keeps actor none = other_id-Keeps actor
  approver_of-Keeps actor (some a) = pure-Keeps a

  ask_approval-Keeps :
      (c : Callable) (spec : CallableSpec) (actor : String) (p : Payload)
      → Keeps (ask_approval env c spec actor p)
  unfolding ask_approval
  ask_approval-Keeps c spec actor p =
      bind-Keeps (approver_of-Keeps actor spec.approval_actor_id) λ approver.
        bind-Keeps (push-Keeps _) λ _.
          bind-Keeps (set_priority-Keeps approver)
            λ _. bind-Keeps (event-Keeps _ _) λ ev. pure-Keeps _

  start_form-Keeps :
      (c : Callable) (spec : CallableSpec) (actor : String) (args : Args) (o : Option String)
      (s : FormStep) (steps : List FormStep)
      → Keeps (start_form env c spec actor args o s steps)
  unfolding start_form
  start_form-Keeps c spec actor args o s steps =
      bind-Keeps (or_started-Keeps c spec o)
        λ id. bind-Keeps (push-Keeps _) λ _. bind-Keeps (event-Keeps _ _) λ ev. pure-Keeps _

  run_or_ask-Keeps :
      (c : Callable) (spec : CallableSpec) (actor : String) (p : Payload)
      → Keeps (run_or_ask env c spec actor p)
  unfolding run_or_ask
  run_or_ask-Keeps c spec actor p = bind-Keeps (validate-Keeps spec p.args) λ _.
      if-Keeps _ (ask_approval-Keeps c spec actor p)
        (weaken (run-Restores c spec actor p.args p.call_id))

  proceed-Keeps :
      (c : Callable) (spec : CallableSpec) (actor : String) (p : Payload) (steps : List FormStep)
      → Keeps (proceed env c spec actor p steps)
  proceed-Keeps c spec actor p [] = run_or_ask-Keeps c spec actor p
  proceed-Keeps c spec actor p (s ∷ steps) = start_form-Keeps c spec actor p.args p.call_id s steps

  pub execute_callable-Keeps :
      (c : Callable) (actor : String) (p : Payload) → Keeps (execute_callable env c actor p)
  unfolding execute_callable
  execute_callable-Keeps c actor p = bind-Keeps (resolve-Keeps c actor p.name) λ spec.
      bind-Keeps (when-Keeps _ supersede-Keeps)
        λ _. bind-Keeps get-Keeps λ cs. proceed-Keeps c spec actor p _
