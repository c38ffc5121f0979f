-- ===== src/History/Fixed.antt =====
-- What `heal_orphans` of state_machine/serialization.py does to histories that need no repair.
use second_brain_art.Common.{
  ℕ, zero, suc, ◌≤◌, true, Option, List, [], ◌∷◌, ◌++◌, String, length, ◌≡◌, refl, ap, ◌∙◌, arith,
}
use second_brain_art.History.{
  ToolCall, Message, user_message, assistant_message, tool_message, other_message, calls_of,
  call_ids, is_kept, keep, leading, following, answer_ids, unanswered, results, taken, rest_after,
  loop, heal_orphans,
}
use second_brain_art.History.Healed.{Answered, length-rest_after}

-- Every tool's message answers one of the calls with the given ids.
abbrev pub NoOrphans : List (Option String) → List Message → Type 0
NoOrphans ids [] = Unit
NoOrphans ids (m ∷ ms) = (is_kept ids m ≡ true) × NoOrphans ids ms

keep-NoOrphans :
    (ids : List (Option String)) (ms : List Message) → NoOrphans ids ms → keep ids ms ≡ ms
unfolding keep
keep-NoOrphans ids [] h = refl
keep-NoOrphans ids (m ∷ ms) h = rw h.0 (ap (λ l. m ∷ l) (keep-NoOrphans ids ms h.1))

leading-following : (ms : List Message) → leading ms ++ following ms ≡ ms
unfolding leading following
leading-following [] = refl
leading-following (user_message s ∷ ms) = refl
leading-following (other_message s ∷ ms) = refl
leading-following (assistant_message s calls ∷ ms) = refl
leading-following (tool_message i n c ∷ ms) =
    ap (λ l. tool_message i n c ∷ l) (leading-following ms)

following-Answered : (ms : List Message) → Answered ms → Answered (following ms)
unfolding following
following-Answered [] h = tt
following-Answered (user_message s ∷ ms) h = h
following-Answered (other_message s ∷ ms) h = h
following-Answered (assistant_message s calls ∷ ms) h = h
following-Answered (tool_message i n c ∷ ms) h = following-Answered ms h.1

append-nil : (ms : List Message) → ms ++ [] ≡ ms
append-nil [] = refl
append-nil (m ∷ ms) = ap (λ l. m ∷ l) (append-nil ms)

taken-whole :
    (calls : List ToolCall) (ms : List Message)
    → unanswered calls (answer_ids (leading ms)) ≡ []
    → taken calls ms ++ rest_after calls ms ≡ ms
unfolding taken rest_after results
taken-whole [] ms h = refl
taken-whole (c ∷ calls) ms h = rw h (rw (append-nil (leading ms)) (leading-following ms))

rest_after-Answered :
    (calls : List ToolCall) (ms : List Message) → Answered ms → Answered (rest_after calls ms)
unfolding rest_after
rest_after-Answered [] ms h = h
rest_after-Answered (c ∷ calls) ms h = following-Answered ms h

loop_fixed : (n : ℕ) (ms : List Message) → length ms ≤ n → Answered ms → loop n ms ≡ ms
unfolding loop
loop_fixed zero [] h a = refl
loop_fixed zero (m ∷ ms) h a = absurd (omega arith)
loop_fixed (suc n) [] h a = refl
loop_fixed (suc n) (m ∷ ms) h a =
    let less : length (rest_after (calls_of m) ms) ≤ length ms =
      length-rest_after (calls_of m) ms in
    let rest : loop n (rest_after (calls_of m) ms) ≡ rest_after (calls_of m) ms =
      loop_fixed n (rest_after (calls_of m) ms) (omega arith)
        (rest_after-Answered (calls_of m) ms a.1) in
    ap (λ l. m ∷ l) (ap (λ l. taken (calls_of m) ms ++ l) rest ∙ taken-whole (calls_of m) ms a.0)

-- A history in which every call is answered before the next message that is not a tool's, and in
-- which every tool's message answers a call, is left as it is.
pub heal_orphans_fixed :
    (h : List Message) → Answered h → NoOrphans (call_ids h) h → heal_orphans h ≡ h
unfolding heal_orphans
heal_orphans_fixed h a o =
    rw (keep-NoOrphans (call_ids h) h o) (loop_fixed (length h) h (omega arith) a)
