-- ===== src/Conversation/Exec.antt =====
-- Methods that change the conversation and may raise. What was changed before a raise stays.
use second_brain_art.Common.{some, Bool, if◌then◌else◌}
use second_brain_art.Errors.{ErrorCode}
use second_brain_art.Conversation.Types.{Conversation, Exn, Reason, Error}

-- `Action.error`: an error that carries the phase in which it is made.
abbrev pub make_error : ErrorCode → Reason → Conversation → Error
make_error code reason cs = record { code = code; message = reason; retry_phase = some cs.phase }

pub data Raised : Type 0 where
  action_error : Error → Raised
  exn : Exn → Raised

pub data Outcome {ℓ} (A : Type ℓ) : Type ℓ where
  ok : A → Outcome A
  err : Raised → Outcome A

abbrev pub Exec : Type 0 → Type 0
Exec A = Conversation → Outcome A × Conversation

module _ {A : Type 0} where
  abbrev pub pure : A → Exec A
  pure a cs = (ok a, cs)

  abbrev pub raise : Raised → Exec A
  raise e cs = (err e, cs)

  abbrev pub refuse : ErrorCode → Reason → Exec A
  refuse code reason cs = (err (action_error (make_error code reason cs)), cs)

abbrev pub modify : (Conversation → Conversation) → Exec (Unit {0})
modify f cs = (ok tt, f cs)

abbrev pub get : Exec Conversation
get cs = (ok cs, cs)

module _ {A B : Type 0} where
  abbrev pub continue : Outcome A → (A → Exec B) → Exec B
  continue (ok a) f = f a
  continue (err e) f = raise e

  infixl 5 ◌>>=◌ ◌>>◌
  unfoldable pub ◌>>=◌ : Exec A → (A → Exec B) → Exec B
  ◌>>=◌ m f cs = let (r, cs') = m cs in continue r f cs'

  abbrev pub ◌>>◌ : Exec A → Exec B → Exec B
  m >> n = m >>= λ _. n

module _ {A : Type 0} where
  -- `try: body` / `except: handler; raise` / `finally: cleanup`
  unfoldable pub guarded :
      Exec A → (Conversation → Conversation) → (Conversation → Conversation) → Exec A
  guarded body handler cleanup cs =
      let (r, cs') = body cs in
      elim r [ ok a ↦ (ok a, cleanup cs') | err e ↦ (err e, cleanup (handler cs')) ]

abbrev pub when : Bool → Exec (Unit {0}) → Exec (Unit {0})
when b m = if b then m else pure tt
