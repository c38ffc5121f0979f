-- ===== src/History.antt =====
-- `heal_orphans` of state_machine/serialization.py, on a history in the shape that providers take.
pub mod Healed
pub mod Fixed
mod Tests
use second_brain_art.Common.{
  ℕ, zero, suc, Bool, true, false, not, ◌||◌, Option, none, some, List, [], ◌∷◌, ◌++◌, String,
  str_eq, if◌then◌else◌, length, map,
}

-- A tool call: its id, the name of its function, and its own name.
pub record ToolCall : Type 0 where
  pub id : Option String
  pub function_name : Option String
  pub name : Option String

-- Messages by role. An assistant's message without `tool_calls` has none.
pub data Message : Type 0 where
  user_message : String → Message
  assistant_message : String → List ToolCall → Message
  tool_message : Option String → Option String → String → Message
  other_message : String → Message

abbrev pub same_id : Option String → Option String → Bool
same_id none none = true
same_id (some a) (some b) = str_eq a b
same_id _ _ = false

-- `i in ids`
unfoldable pub has_id : Option String → List (Option String) → Bool
has_id i [] = false
has_id i (j ∷ ids) = let rest = has_id i ids in if same_id j i then true else rest

abbrev pub calls_of : Message → List ToolCall
calls_of (assistant_message text calls) = calls
calls_of _ = []

abbrev pub call_ids_in : List ToolCall → List (Option String) → List (Option String)
call_ids_in [] ids = ids
call_ids_in (c ∷ calls) ids = c.id ∷ call_ids_in calls ids

unfoldable pub call_ids : List Message → List (Option String)
call_ids [] = []
call_ids (m ∷ ms) = call_ids_in (calls_of m) (call_ids ms)

-- Not a tool's message, or one that answers a call.
abbrev pub is_kept : List (Option String) → Message → Bool
is_kept ids (tool_message i name content) = has_id i ids
is_kept ids _ = true

unfoldable pub keep : List (Option String) → List Message → List Message
keep ids [] = []
keep ids (m ∷ ms) = let rest = keep ids ms in if is_kept ids m then m ∷ rest else rest

-- The tools' messages at the front, their ids, and what is behind them.
abbrev pub is_tool : Message → Bool
is_tool (tool_message i name content) = true
is_tool _ = false

unfoldable pub leading : List Message → List Message
leading [] = []
leading (m ∷ ms) = let rest = leading ms in if is_tool m then m ∷ rest else []

unfoldable pub following : List Message → List Message
following [] = []
following (m ∷ ms) = let rest = following ms in if is_tool m then rest else m ∷ ms

abbrev pub answer_id : Message → List (Option String) → List (Option String)
answer_id (tool_message i name content) ids = i ∷ ids
answer_id _ ids = ids

unfoldable pub answer_ids : List Message → List (Option String)
answer_ids [] = []
answer_ids (m ∷ ms) = answer_id m (answer_ids ms)

unfoldable pub unanswered : List ToolCall → List (Option String) → List ToolCall
unanswered [] got = []
unanswered (c ∷ calls) got =
    let rest = unanswered calls got in if has_id c.id got then rest else c ∷ rest

abbrev pub or_name : Option String → Option String → Option String
or_name none name = name
or_name (some f) name = if str_eq f "" then name else some f

abbrev pub interruption : String
interruption = "{\"error\": \"Tool execution was interrupted before completion.\"}"

-- The result that stands in for the one that a call did not get.
abbrev pub interrupted : ToolCall → Message
interrupted c = tool_message c.id (or_name c.function_name c.name) interruption

unfoldable pub results : List ToolCall → List Message
results [] = []
results (c ∷ calls) = interrupted c ∷ results calls

-- What an assistant's message with calls takes along: the tools' messages behind it, and a result
-- for each call that they leave unanswered.
unfoldable pub taken : List ToolCall → List Message → List Message
taken [] ms = []
taken (c ∷ calls) ms = leading ms ++ results (unanswered (c ∷ calls) (answer_ids (leading ms)))

unfoldable pub rest_after : List ToolCall → List Message → List Message
rest_after [] ms = ms
rest_after (c ∷ calls) ms = following ms

-- The loop over what is kept, for at most as many rounds as the fuel says.
unfoldable pub loop : ℕ → List Message → List Message
loop zero ms = []
loop (suc n) [] = []
loop (suc n) (m ∷ ms) = m ∷ (taken (calls_of m) ms ++ loop n (rest_after (calls_of m) ms))

unfoldable pub heal_orphans : List Message → List Message
heal_orphans history = let kept = keep (call_ids history) history in loop (length kept) kept
