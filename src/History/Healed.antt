-- ===== src/History/Healed.antt =====
-- About histories after `heal_orphans` of state_machine/serialization.py.
use second_brain_art.Common.{
  ℕ, zero, suc, ◌≤◌, true, Option, none, some, List, [], ◌∷◌, ◌++◌, String, eq_iff, if◌then◌else◌,
  length, ◌≡◌, refl, ap, ◌∙◌, arith, Bool-cases, inl, inr,
}
use second_brain_art.History.{
  ToolCall, Message, user_message, assistant_message, tool_message, other_message, same_id, has_id,
  calls_of, call_ids, keep, is_tool, leading, following, answer_ids, unanswered, results, taken,
  rest_after, loop, heal_orphans,
}

-- Every call of every assistant's message is answered by a tool's message that comes behind it
-- before any other message.
abbrev pub Answered : List Message → Type 0
Answered [] = Unit
Answered (m ∷ ms) = (unanswered (calls_of m) (answer_ids (leading ms)) ≡ []) × Answered ms

same_id_refl : (i : Option String) → same_id i i ≡ true
same_id_refl none = refl
same_id_refl (some s) = (eq_iff s s).1 refl

has_id-append_left :
    (i : Option String) (xs ys : List (Option String))
    → has_id i xs ≡ true
    → has_id i (xs ++ ys) ≡ true
unfolding has_id
has_id-append_left i [] ys h = ground arith
has_id-append_left i (x ∷ xs) ys h = elim (Bool-cases (same_id x i)) [
  | inl t ↦ rw t refl
  | inr t ↦ rw t (has_id-append_left i xs ys (rw t at h))
]

has_id-append_right :
    (i : Option String) (xs ys : List (Option String))
    → has_id i ys ≡ true
    → has_id i (xs ++ ys) ≡ true
unfolding has_id
has_id-append_right i [] ys h = h
has_id-append_right i (x ∷ xs) ys h = elim (Bool-cases (same_id x i)) [
  | inl t ↦ rw t refl
  | inr t ↦ rw t (has_id-append_right i xs ys h)
]

-- All messages are tools'.
abbrev AllTools : List Message → Type 0
AllTools [] = Unit
AllTools (m ∷ ms) = (is_tool m ≡ true) × AllTools ms

leading-AllTools : (ms : List Message) → AllTools (leading ms)
unfolding leading
leading-AllTools [] = tt
leading-AllTools (user_message s ∷ ms) = tt
leading-AllTools (other_message s ∷ ms) = tt
leading-AllTools (assistant_message s calls ∷ ms) = tt
leading-AllTools (tool_message i n c ∷ ms) = (refl, leading-AllTools ms)

results-AllTools : (calls : List ToolCall) → AllTools (results calls)
unfolding results
results-AllTools [] = tt
results-AllTools (c ∷ calls) = (refl, results-AllTools calls)

append-AllTools : (xs ys : List Message) → AllTools xs → AllTools ys → AllTools (xs ++ ys)
append-AllTools [] ys h k = k
append-AllTools (x ∷ xs) ys h k = (h.0, append-AllTools xs ys h.1 k)

leading-append : (xs ys : List Message) → AllTools xs → leading (xs ++ ys) ≡ xs ++ leading ys
unfolding leading
leading-append [] ys h = refl
leading-append (tool_message i n c ∷ xs) ys h =
    ap (λ l. tool_message i n c ∷ l) (leading-append xs ys h.1)
leading-append (user_message s ∷ xs) ys h = absurd (ground arith)
leading-append (other_message s ∷ xs) ys h = absurd (ground arith)
leading-append (assistant_message s calls ∷ xs) ys h = absurd (ground arith)

answer_ids-append : (xs ys : List Message) → answer_ids (xs ++ ys) ≡ answer_ids xs ++ answer_ids ys
unfolding answer_ids
answer_ids-append [] ys = refl
answer_ids-append (tool_message i n c ∷ xs) ys = ap (λ l. i ∷ l) (answer_ids-append xs ys)
answer_ids-append (user_message s ∷ xs) ys = answer_ids-append xs ys
answer_ids-append (other_message s ∷ xs) ys = answer_ids-append xs ys
answer_ids-append (assistant_message s calls ∷ xs) ys = answer_ids-append xs ys

-- Tools' messages have no calls.
tools-Answered : (xs ys : List Message) → AllTools xs → Answered ys → Answered (xs ++ ys)
unfolding unanswered
tools-Answered [] ys h k = k
tools-Answered (tool_message i n c ∷ xs) ys h k = (refl, tools-Answered xs ys h.1 k)
tools-Answered (user_message s ∷ xs) ys h k = absurd (ground arith)
tools-Answered (other_message s ∷ xs) ys h k = absurd (ground arith)
tools-Answered (assistant_message s calls ∷ xs) ys h k = absurd (ground arith)

-- Calls are answered by ids that hold those they had and those they lacked.
covered :
    (calls : List ToolCall) (got all : List (Option String))
    → ((i : Option String) → has_id i got ≡ true → has_id i all ≡ true)
    → ((i : Option String)
        → has_id i (answer_ids (results (unanswered calls got))) ≡ true
        → has_id i all ≡ true)
    → unanswered calls all ≡ []
unfolding unanswered results answer_ids has_id
covered [] got all h k = refl
covered (c ∷ calls) got all h k = elim (Bool-cases (has_id c.id got)) [
  | inl t ↦ rw (h c.id t) (covered calls got all h (rw t at k))
  | inr t ↦
      let k2 : (i : Option String)
          → has_id i (c.id ∷ answer_ids (results (unanswered calls got))) ≡ true
          → has_id i all ≡ true =
        rw t at k in
      rw (k2 c.id (rw (same_id_refl c.id) refl))
        (covered calls got all h λ i e. k2 i (has_id-append_right i (c.id ∷ []) _ e))
]

taken-AllTools : (calls : List ToolCall) (ms : List Message) → AllTools (taken calls ms)
unfolding taken
taken-AllTools [] ms = tt
taken-AllTools (c ∷ calls) ms =
    append-AllTools (leading ms) _ (leading-AllTools ms)
      (results-AllTools (unanswered (c ∷ calls) (answer_ids (leading ms))))

covered_by :
    (calls : List ToolCall) (got more : List (Option String))
    → unanswered calls ((got ++ answer_ids (results (unanswered calls got))) ++ more) ≡ []
covered_by calls got more =
    covered calls got _
      (λ i e.
        has_id-append_left i (got ++ answer_ids (results (unanswered calls got))) more
          (has_id-append_left i got _ e))
      (λ i e.
        has_id-append_left i (got ++ answer_ids (results (unanswered calls got))) more
          (has_id-append_right i got _ e))

unanswered-nil : (got : List (Option String)) → unanswered [] got ≡ []
unfolding unanswered
unanswered-nil got = refl

taken-covers :
    (c : ToolCall) (calls : List ToolCall) (ms : List Message) (more : List (Option String))
    → unanswered (c ∷ calls) (answer_ids (taken (c ∷ calls) ms) ++ more) ≡ []
unfolding taken
taken-covers c calls ms more =
    rw (answer_ids-append (leading ms) (results (unanswered (c ∷ calls) (answer_ids (leading ms)))))
      (covered_by (c ∷ calls) (answer_ids (leading ms)) more)

taken-answers :
    (calls : List ToolCall) (ms more : List Message)
    → unanswered calls (answer_ids (leading (taken calls ms ++ more))) ≡ []
taken-answers [] ms more = unanswered-nil _
taken-answers (c ∷ calls) ms more =
    rw (leading-append (taken (c ∷ calls) ms) more (taken-AllTools (c ∷ calls) ms)) (
      rw (answer_ids-append (taken (c ∷ calls) ms) (leading more))
        (taken-covers c calls ms (answer_ids (leading more))))

loop-Answered : (n : ℕ) (ms : List Message) → Answered (loop n ms)
unfolding loop
loop-Answered zero ms = tt
loop-Answered (suc n) [] = tt
loop-Answered (suc n) (m ∷ ms) = (
  taken-answers (calls_of m) ms (loop n (rest_after (calls_of m) ms)),
  tools-Answered (taken (calls_of m) ms) _ (taken-AllTools (calls_of m) ms)
      (loop-Answered n (rest_after (calls_of m) ms)),
)

-- The messages that are not tools'.
unfoldable pub spoken : List Message → List Message
spoken [] = []
spoken (m ∷ ms) = let rest = spoken ms in if is_tool m then rest else m ∷ rest

spoken-append : (xs ys : List Message) → AllTools xs → spoken (xs ++ ys) ≡ spoken ys
unfolding spoken
spoken-append [] ys h = refl
spoken-append (x ∷ xs) ys h = rw h.0 (spoken-append xs ys h.1)

spoken-cons :
    (m : Message) (xs ys : List Message) → spoken xs ≡ spoken ys → spoken (m ∷ xs) ≡ spoken (m ∷ ys)
unfolding spoken
spoken-cons m xs ys e = rw e refl

spoken-following : (ms : List Message) → spoken (following ms) ≡ spoken ms
unfolding spoken following
spoken-following [] = refl
spoken-following (m ∷ ms) = elim (Bool-cases (is_tool m)) [
  | inl t ↦ rw t (spoken-following ms)
  | inr t ↦ rw t (rw t refl)
]

length-following : (ms : List Message) → length (following ms) ≤ length ms
unfolding following
length-following [] = omega arith
length-following (m ∷ ms) =
    let rest : length (following ms) ≤ length ms = length-following ms in
    elim (Bool-cases (is_tool m)) [ inl t ↦ rw t (omega arith) | inr t ↦ rw t (omega arith) ]

spoken-keep : (ids : List (Option String)) (ms : List Message) → spoken (keep ids ms) ≡ spoken ms
unfolding spoken keep
spoken-keep ids [] = refl
spoken-keep ids (user_message s ∷ ms) = ap (λ l. user_message s ∷ l) (spoken-keep ids ms)
spoken-keep ids (other_message s ∷ ms) = ap (λ l. other_message s ∷ l) (spoken-keep ids ms)
spoken-keep ids (assistant_message s calls ∷ ms) =
    ap (λ l. assistant_message s calls ∷ l) (spoken-keep ids ms)
spoken-keep ids (tool_message i n c ∷ ms) = elim (Bool-cases (has_id i ids)) [
  | inl t ↦ rw t (spoken-keep ids ms)
  | inr t ↦ rw t (spoken-keep ids ms)
]

spoken-rest_after :
    (calls : List ToolCall) (ms : List Message) → spoken (rest_after calls ms) ≡ spoken ms
unfolding rest_after
spoken-rest_after [] ms = refl
spoken-rest_after (c ∷ calls) ms = spoken-following ms

pub length-rest_after :
    (calls : List ToolCall) (ms : List Message) → length (rest_after calls ms) ≤ length ms
unfolding rest_after
length-rest_after [] ms = omega arith
length-rest_after (c ∷ calls) ms = length-following ms

spoken-loop : (n : ℕ) (ms : List Message) → length ms ≤ n → spoken (loop n ms) ≡ spoken ms
unfolding loop
spoken-loop zero [] h = refl
spoken-loop zero (m ∷ ms) h = absurd (omega arith)
spoken-loop (suc n) [] h = refl
spoken-loop (suc n) (m ∷ ms) h =
    spoken-cons m (taken (calls_of m) ms ++ loop n (rest_after (calls_of m) ms)) ms (
      spoken-append (taken (calls_of m) ms) _ (taken-AllTools (calls_of m) ms)
      ∙ spoken-loop n (rest_after (calls_of m) ms) (
          let less : length (rest_after (calls_of m) ms) ≤ length ms =
            length-rest_after (calls_of m) ms in
          omega arith)
      ∙ spoken-rest_after (calls_of m) ms)

-- Healing a history, whatever it is, leaves every message that is not a tool's, in order, and gives
-- a history in which every call of every assistant's message is answered by a tool's message behind
-- it, before the next message that is not a tool's.
pub heal_orphans-Answered :
    (h : List Message) → Answered (heal_orphans h) × (spoken (heal_orphans h) ≡ spoken h)
unfolding heal_orphans
heal_orphans-Answered h = (
  loop-Answered _ (keep (call_ids h) h),
  spoken-loop _ (keep (call_ids h) h) (omega arith) ∙ spoken-keep (call_ids h) h,
)
