-- ===== src/Conversation/Tracks/Steps.antt =====
-- About the actions of state_machine/action.py that replay nothing.
use second_brain_art.Common.{
  ℕ, Option, none, some, List, [], ◌∷◌, String, ◌≡◌, refl, sym, ◌∙◌, arith,
}
use second_brain_art.Conversation.Types.{
  Phase, awaiting_input, filling_command_form, filling_tool_form, parsing_attachment,
  approving_request, calling_tool, calling_command, PhaseFrame, FormStep, Pending, Conversation,
}
use second_brain_art.Conversation.Exec.{modify}
use second_brain_art.Conversation.Core.{emit, phase_of, frame, step}
use second_brain_art.Conversation.Env.{Env}
use second_brain_art.Conversation.Actions.{
  Content, send_text_execute, end_turn_execute, resumer, resume_turn, finish_call, progress_call,
  restore_priority, finish_cancelled, cancel_execute, change_top, update_frame, progress, queue,
  rewound, shown, rewind, back_at, back_on, back_form_execute, send_attachment_execute,
}
use second_brain_art.Conversation.Tracks.{
  Tracks, Keeps, pure-Keeps, get-Keeps, reset-Keeps, pop-Keeps, bind-Keeps, bind-Restores,
  guarded-Restores, modify-Restores, weaken, if-Keeps, when-Keeps,
}
use second_brain_art.Conversation.Tracks.Calls.{
  raise-Keeps, refuse-Keeps, event-Keeps, other_id-Keeps, switch_priority-Keeps, set_priority-Keeps,
}

pub send_text-Keeps : (actor : String) (c : Content) → Keeps (send_text_execute actor c)
unfolding send_text_execute
send_text-Keeps actor c = bind-Keeps (event-Keeps _ _) λ ev.
    bind-Keeps get-Keeps
      λ cs. bind-Keeps (when-Keeps _ (switch_priority-Keeps actor)) λ _. pure-Keeps _

pub end_turn-Keeps : Keeps end_turn_execute
unfolding end_turn_execute
end_turn-Keeps = bind-Keeps get-Keeps λ before. bind-Keeps reset-Keeps λ _.
    bind-Keeps (switch_priority-Keeps _)
      λ _. bind-Keeps get-Keeps λ after. bind-Keeps (event-Keeps _ _) λ ev. pure-Keeps _

resumer-Keeps :
    (actor : String) (o : Option Pending) (previous : Option String)
    → Keeps (resumer actor o previous)
resumer-Keeps actor (some p) previous = pure-Keeps _
resumer-Keeps actor none (some a) = pure-Keeps _
resumer-Keeps actor none none = other_id-Keeps actor

resume_turn-Keeps : (actor : String) (f : PhaseFrame) (p : Phase) → Keeps (resume_turn actor f p)
resume_turn-Keeps actor f approving_request =
    bind-Keeps (resumer-Keeps actor f.pending f.previous_priority) set_priority-Keeps
resume_turn-Keeps actor f awaiting_input = pure-Keeps tt
resume_turn-Keeps actor f filling_command_form = pure-Keeps tt
resume_turn-Keeps actor f filling_tool_form = pure-Keeps tt
resume_turn-Keeps actor f parsing_attachment = pure-Keeps tt
resume_turn-Keeps actor f calling_tool = pure-Keeps tt
resume_turn-Keeps actor f calling_command = pure-Keeps tt

restore_priority-Keeps : (actor : String) (o : Option PhaseFrame) → Keeps (restore_priority actor o)
restore_priority-Keeps actor none = pure-Keeps tt
restore_priority-Keeps actor (some f) = resume_turn-Keeps actor f f.phase

finish_call-Tracks :
    (f : PhaseFrame) (o : Option String) (cs : Conversation)
    → Tracks cs
    → Tracks (finish_call f o cs)
unfolding emit
finish_call-Tracks f none cs t = t
finish_call-Tracks f (some id) cs t = ground arith

finish_cancelled-Keeps : (o : Option PhaseFrame) → Keeps (modify (finish_cancelled o))
finish_cancelled-Keeps none = record { keeps = λ cs t. t }
finish_cancelled-Keeps (some f) = record { keeps = λ cs t. finish_call-Tracks f f.call_id cs t }

pub cancel-Keeps : (actor : String) → Keeps (cancel_execute actor)
unfolding cancel_execute
cancel-Keeps actor = bind-Keeps get-Keeps λ cs. bind-Keeps pop-Keeps λ _.
    bind-Keeps (restore_priority-Keeps actor (frame cs)) λ _.
      bind-Keeps (finish_cancelled-Keeps (frame cs))
        λ _. bind-Keeps (event-Keeps _ _) λ ev. pure-Keeps _

change_top-phase :
    (u : PhaseFrame → PhaseFrame) (h : (f : PhaseFrame) → (u f).phase ≡ f.phase)
    (fs : List PhaseFrame)
    → phase_of (change_top u fs) ≡ phase_of fs
change_top-phase u h [] = refl
change_top-phase u h (f ∷ fs) = h f

pub update_frame-Keeps :
    (u : PhaseFrame → PhaseFrame)
    → ((f : PhaseFrame) → (u f).phase ≡ f.phase)
    → Keeps (modify (update_frame u))
unfolding update_frame
update_frame-Keeps u h = record { keeps = λ cs t. t ∙ sym (change_top-phase u h cs.frames) }

progress_call-Tracks :
    (f : PhaseFrame) (o : Option String) (cs : Conversation)
    → Tracks cs
    → Tracks (progress_call f o cs)
unfolding emit
progress_call-Tracks f none cs t = t
progress_call-Tracks f (some id) cs t = ground arith

pub progress-Keeps : (f : PhaseFrame) → Keeps (modify (progress f))
unfolding progress
progress-Keeps f = record { keeps = λ cs t. progress_call-Tracks f f.call_id cs t }

module _ (env : Env) where
  shown-Keeps :
      (f : PhaseFrame) (actor : String) (steps : List FormStep) → Keeps (shown env f actor steps)
  shown-Keeps f actor [] = refuse-Keeps _ _
  shown-Keeps f actor (s ∷ steps) = bind-Keeps (event-Keeps _ _) λ ev. pure-Keeps _

  rewind-Keeps :
      (f : PhaseFrame) (actor : String) (history : List String) → Keeps (rewind env f actor history)
  rewind-Keeps f actor [] = refuse-Keeps _ _
  rewind-Keeps f actor (last ∷ history) = bind-Keeps get-Keeps λ cs.
      bind-Keeps (update_frame-Keeps _ λ g. refl)
        λ _. bind-Keeps (progress-Keeps _) λ _. shown-Keeps (rewound env f last history cs) actor _

  back_at-Keeps :
      (actor : String) (f : PhaseFrame) (o : Option FormStep) → Keeps (back_at env actor f o)
  back_at-Keeps actor f none = refuse-Keeps _ _
  back_at-Keeps actor f (some s) = rewind-Keeps f actor f.form_history

  back_on-Keeps : (actor : String) (o : Option PhaseFrame) → Keeps (back_on env actor o)
  back_on-Keeps actor none = refuse-Keeps _ _
  back_on-Keeps actor (some f) = back_at-Keeps actor f (step f)

  pub back_form-Keeps : (actor : String) → Keeps (back_form_execute env actor)
  unfolding back_form_execute
  back_form-Keeps actor = bind-Keeps get-Keeps λ cs. back_on-Keeps actor (frame cs)

  queue-Keeps : (o : Option ℕ) → Keeps (modify (queue o))
  queue-Keeps none = record { keeps = λ cs t. t }
  queue-Keeps (some a) = record { keeps = λ cs t. t }

  pub attachment-Keeps :
      (actor : String) (c : Content) → Keeps (send_attachment_execute env actor c)
  unfolding send_attachment_execute
  attachment-Keeps actor c = if-Keeps _ (raise-Keeps _) (
      if-Keeps _ (refuse-Keeps _ _) (
        weaken (
          modify-Restores _ _ (
            bind-Restores (guarded-Restores _ _) λ parsed. bind-Keeps (queue-Keeps parsed) λ _.
              bind-Keeps get-Keeps λ cs.
                bind-Keeps (when-Keeps _ (switch_priority-Keeps actor))
                  λ _. bind-Keeps (event-Keeps _ _) λ ev. pure-Keeps _))))
