-- ===== src/Conversation/Tracks.antt =====
-- The phase and the stack of frames of the conversation of state_machine/conversation.py.
pub mod Calls
pub mod Steps
pub mod Enacts
use second_brain_art.Common.{Bool, true, false, if◌then◌else◌, ◌≡◌, refl}
use second_brain_art.Conversation.Types.{PhaseFrame, Conversation}
use second_brain_art.Conversation.Exec.{
  Outcome, ok, err, Exec, pure, modify, get, continue, guarded, ◌>>=◌, ◌>>◌,
}
use second_brain_art.Conversation.Core.{phase_of, reset_phase, pop_phase, push_phase}

-- The phase is that of the top frame, or the base phase where there is none.
abbrev pub Tracks : Conversation → Type 0
Tracks cs = cs.phase ≡ phase_of cs.frames

-- A method that keeps this, whether it returns or raises; one that brings it about from any state.
pub record Keeps {A : Type 0} (m : Exec A) : Type 0 where
  pub keeps : (cs : Conversation) → Tracks cs → Tracks (m cs).1

pub record Restores {A : Type 0} (m : Exec A) : Type 0 where
  pub restores : (cs : Conversation) → Tracks (m cs).1

module _ {A : Type 0} where
  pub pure-Keeps : (a : A) → Keeps (pure a)
  pure-Keeps a = record { keeps = λ cs t. t }

pub get-Keeps : Keeps get
get-Keeps = record { keeps = λ cs t. t }

pub reset-Keeps : Keeps (modify reset_phase)
unfolding reset_phase
reset-Keeps = record { keeps = λ cs t. refl }

pub pop-Keeps : Keeps (modify pop_phase)
unfolding pop_phase
pop-Keeps = record { keeps = λ cs t. refl }

pub push-Keeps : (f : PhaseFrame) → Keeps (modify (push_phase f))
unfolding push_phase
push-Keeps f = record { keeps = λ cs t. refl }

module _ {A B : Type 0} where
  continue-Keeps :
      (r : Outcome A) (cs : Conversation) (t : Tracks cs) (f : A → Exec B)
      (k : (a : A) → Keeps (f a))
      → Tracks (continue r f cs).1
  continue-Keeps (ok a) cs t f k = (k a).keeps cs t
  continue-Keeps (err e) cs t f k = t

  pub bind-Keeps :
      {m : Exec A} {f : A → Exec B} → Keeps m → ((a : A) → Keeps (f a)) → Keeps (m >>= f)
  unfolding ◌>>=◌
  bind-Keeps {m} {f} h k = record {
    keeps = λ cs t. continue-Keeps (m cs).0 (m cs).1 (h.keeps cs t) f k;
  }

  pub bind-Restores :
      {m : Exec A} {f : A → Exec B} → Restores m → ((a : A) → Keeps (f a)) → Restores (m >>= f)
  unfolding ◌>>=◌
  bind-Restores {m} {f} h k = record {
    restores = λ cs. continue-Keeps (m cs).0 (m cs).1 (h.restores cs) f k;
  }

module _ {A : Type 0} where
  guarded_outcome :
      (r : Outcome A) (cs : Conversation) (handler : Conversation → Conversation)
      → Tracks (guarded (λ _. (r, cs)) handler reset_phase cs).1
  unfolding guarded reset_phase
  guarded_outcome (ok a) cs handler = refl
  guarded_outcome (err e) cs handler = refl

  pub guarded-Restores :
      (m : Exec A) (handler : Conversation → Conversation)
      → Restores (guarded m handler reset_phase)
  unfolding guarded
  guarded-Restores m handler = record { restores = λ cs. guarded_outcome (m cs).0 (m cs).1 handler }

  pub weaken : {m : Exec A} → Restores m → Keeps m
  weaken h = record { keeps = λ cs t. h.restores cs }

  pub if-Keeps : (b : Bool) {m n : Exec A} → Keeps m → Keeps n → Keeps (if b then m else n)
  if-Keeps true h k = h
  if-Keeps false h k = k

pub when-Keeps : (b : Bool) {m : Exec (Unit {0})} → Keeps m → Keeps (if b then m else pure tt)
when-Keeps b h = if-Keeps b h (pure-Keeps tt)

module _ {B : Type 0} where
  pub modify-Restores :
      (g : Conversation → Conversation) (f : Unit {0} → Exec B)
      → Restores (f tt)
      → Restores (modify g >>= f)
  unfolding ◌>>=◌
  modify-Restores g f h = record { restores = λ cs. h.restores (g cs) }
