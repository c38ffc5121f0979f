-- ===== src/Conversation/Flat.antt =====
-- Methods of state_machine/action.py that leave the stack of frames alone.
use second_brain_art.Common.{
  ℕ, ◌<◌, Bool, true, false, Option, none, some, List, [], ◌∷◌, String, if◌then◌else◌, ◌≡◌, refl,
  ap, length, arith,
}
use second_brain_art.Errors.{ErrorCode}
use second_brain_art.Conversation.Types.{
  ActionType, PhaseFrame, Payload, Reason, Happening, Conversation,
}
use second_brain_art.Conversation.Exec.{
  Raised, Outcome, ok, err, Exec, pure, raise, refuse, continue, ◌>>=◌,
}
use second_brain_art.Conversation.Core.{
  frame, drop_top, set_priority, assign_priority, other_id, event, log_event, emit,
}
use second_brain_art.Conversation.Actions.{change_top, progress_call}
use second_brain_art.Conversation.Replay.{Replay, yes_or_no}

-- Two replays that agree on the conversations with fewer than `n` frames.
abbrev pub Agree : ℕ → Replay → Replay → Type 0
Agree n r s =
    (t : ActionType) (p : Payload) (a : String) (cs : Conversation)
    → length cs.frames < n
    → r t p a cs ≡ s t p a cs

-- Methods that leave the stack alone.
pub record Flat {A : Type 0} (m : Exec A) : Type 0 where
  flat : (cs : Conversation) → (m cs).1.frames ≡ cs.frames

module _ {A : Type 0} where
  pub pure-Flat : (a : A) → Flat (pure a)
  pure-Flat a = record { flat = λ cs. refl }

  pub raise-Flat : (e : Raised) → Flat {A = A} (raise e)
  raise-Flat e = record { flat = λ cs. refl }

  pub refuse-Flat : (code : ErrorCode) (reason : Reason) → Flat {A = A} (refuse code reason)
  refuse-Flat code reason = record { flat = λ cs. refl }

  pub if-Flat : (b : Bool) {m n : Exec A} → Flat m → Flat n → Flat (if b then m else n)
  if-Flat true h k = h
  if-Flat false h k = k

pub event-Flat : (what : Happening) (actor : String) → Flat (event what actor)
unfolding event log_event
event-Flat what actor = record { flat = λ cs. refl }

pub other_id-Flat : (actor : String) → Flat (other_id actor)
unfolding other_id
other_id-Flat actor = record { flat = λ cs. ground arith }

pub set_priority-Flat : (actor : String) → Flat (set_priority actor)
unfolding set_priority assign_priority
set_priority-Flat actor = record { flat = λ cs. ground arith }

module _ {A B : Type 0} where
  continue-agree :
      (r : Outcome A) (cs : Conversation) (f g : A → Exec B)
      → ((a : A) → f a cs ≡ g a cs)
      → continue r f cs ≡ continue r g cs
  continue-agree (ok a) cs f g h = h a
  continue-agree (err e) cs f g h = refl

  pub bind-agree :
      {m : Exec A} (k : Flat m) (f g : A → Exec B) (cs : Conversation)
      → ((a : A) (ds : Conversation) → ds.frames ≡ cs.frames → f a ds ≡ g a ds)
      → (m >>= f) cs ≡ (m >>= g) cs
  unfolding ◌>>=◌
  bind-agree {m} k f g cs h = continue-agree (m cs).0 (m cs).1 f g λ a. h a (m cs).1 (k.flat cs)

  pub bind-first :
      (m n : Exec A) (f : A → Exec B) (cs : Conversation)
      → m cs ≡ n cs
      → (m >>= f) cs ≡ (n >>= f) cs
  unfolding ◌>>=◌
  bind-first m n f cs e = ap (λ (x : Outcome A × Conversation). continue x.0 f x.1) e

pub yes_or_no-Flat : (o : Option Bool) → Flat (yes_or_no o)
yes_or_no-Flat none = refuse-Flat _ _
yes_or_no-Flat (some b) = pure-Flat _

pub progress_call-frames :
    (f : PhaseFrame) (o : Option String) (cs : Conversation)
    → (progress_call f o cs).frames ≡ cs.frames
unfolding emit
progress_call-frames f none cs = refl
progress_call-frames f (some id) cs = ground arith

module _ {A : Type 0} where
  pub if-agree :
      (b : Bool) (m n m' n' : Exec A) (cs : Conversation)
      → m cs ≡ m' cs
      → n cs ≡ n' cs
      → (if b then m else n) cs ≡ (if b then m' else n') cs
  if-agree true m n m' n' cs h k = h
  if-agree false m n m' n' cs h k = k

pub frame-some : (cs : Conversation) (f : PhaseFrame) → frame cs ≡ some f → 0 < length cs.frames
frame-some cs f e = ground arith

pub change_top-length :
    (u : PhaseFrame → PhaseFrame) (fs : List PhaseFrame) → length (change_top u fs) ≡ length fs
change_top-length u [] = refl
change_top-length u (f ∷ fs) = refl

pub drop_top-length :
    (fs : List PhaseFrame) (n : ℕ) → 0 < length fs → length fs ≡ n → length (drop_top fs) < n
drop_top-length [] n h e = omega arith
drop_top-length (f ∷ fs) n h e = omega arith

pub popped-length :
    (fs gs hs : List PhaseFrame) (n : ℕ)
    → fs ≡ drop_top gs
    → gs ≡ hs
    → 0 < length hs
    → length hs ≡ n
    → length fs < n
popped-length fs gs hs n e k h l = rw e (rw k (drop_top-length hs n h l))
