-- ===== src/History/Tests.antt =====
-- Runs of the repair of histories on small ones.
use second_brain_art.Common.{some, none, List, [], ◌∷◌, ◌≡◌, refl}
use second_brain_art.History.{
  ToolCall, Message, user_message, assistant_message, tool_message, interrupted, has_id, call_ids,
  keep, leading, following, answer_ids, unanswered, results, taken, rest_after, loop, heal_orphans,
}
use second_brain_art.History.Healed.{Answered, spoken, heal_orphans-Answered}
use second_brain_art.History.Fixed.{heal_orphans_fixed}

abbrev search_call : ToolCall
search_call = record { id = some "a"; function_name = some "search"; name = none }

abbrev draw_call : ToolCall
draw_call = record { id = some "b"; function_name = none; name = some "draw" }

abbrev found : Message
found = tool_message (some "a") (some "search") "3 results"

-- An orphan, and a call that was interrupted.
abbrev broken : List Message
broken =
    tool_message (some "z") none "?"
    ∷ assistant_message "" (search_call ∷ draw_call ∷ [])
    ∷ found
    ∷ user_message "go on"
    ∷ []

abbrev whole : List Message
whole = user_message "hi" ∷ assistant_message "" (search_call ∷ []) ∷ found ∷ []

heals :
    heal_orphans broken
    ≡ assistant_message "" (search_call ∷ draw_call ∷ [])
      ∷ found
      ∷ interrupted draw_call
      ∷ user_message "go on"
      ∷ []
unfolding has_id call_ids keep leading following answer_ids unanswered results taken rest_after loop
    heal_orphans
heals = refl

heal_orphans-Answered_example :
    Answered (heal_orphans broken) × (spoken (heal_orphans broken) ≡ spoken broken)
heal_orphans-Answered_example = heal_orphans-Answered broken

heal_orphans_fixed_example : heal_orphans whole ≡ whole
unfolding has_id call_ids leading answer_ids unanswered
heal_orphans_fixed_example =
    heal_orphans_fixed whole (refl, (refl, (refl, tt))) (refl, (refl, (refl, tt)))
