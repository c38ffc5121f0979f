-- ===== src/Agent.antt =====
-- The registry of tools (agent/tool_registry.py). What a tool's own code returns, or how it fails, is
-- an argument of `call`; the regular expression over a tool's source is a field of the tool, `none`
-- when the source cannot be read.
pub mod Scope
pub mod Closure
pub mod Scoped
mod Tests
use second_brain_art.Common.{
  ℕ, ◌+◌, Bool, true, false, not, ◌&&◌, Option, none, some, List, [], ◌∷◌, String, if◌then◌else◌,
}
use second_brain_art.Python.Dict.{Dict, lookup, insert, remove}
use second_brain_art.Python.Sets.{is_in}

-- The attributes of BaseTool that the registry and the scopes read.
pub record Tool : Type 0 where
  pub name : String
  pub requires_services : List String
  pub dependencies_tools : List String
  pub max_calls : ℕ
  pub background_safe : Bool
  pub source_calls : Option (List String)

pub record ToolRegistry : Type 0 where
  pub tools : Dict Tool
  pub visible_tool_names : Option (List String)

abbrev pub empty : ToolRegistry
empty = record { tools = []; visible_tool_names = none }

unfoldable pub register : Tool → ToolRegistry → ToolRegistry
register tool r = record r { tools = insert tool.name tool r.tools }

unfoldable pub unregister : String → ToolRegistry → ToolRegistry
unregister name r = record r { tools = remove name r.tools }

-- Who calls: the session, and whether the runtime is there and says that the session is attended.
pub record Caller : Type 0 where
  pub session_key : Option String
  pub has_runtime : Bool
  pub attended : Bool

-- How the code of a tool ends: with a result, an exception, or by the timeout of the supervisor.
pub data ToolRun {ℓ} (R : Type ℓ) : Type ℓ where
  finished : R → ToolRun R
  raised timed_out : String → ToolRun R

-- What `call` returns.
pub data ToolReply {ℓ} (R : Type ℓ) : Type ℓ where
  replied : R → ToolReply R
  unknown_tool : String → ToolReply R
  needs_conversation : String → ToolReply R
  not_ready : List String → ToolReply R
  failed_with : String → ToolReply R

abbrev pub given : Option String → Bool
given none = false
given (some key) = true

-- The services that are missing or not loaded.
abbrev pub missing_service : Dict Bool → String → Bool
missing_service services name = elim (lookup name services) [
  | none ↦ true
  | some loaded ↦ not loaded
]

unfoldable pub missing : Dict Bool → List String → List String
missing services [] = []
missing services (name ∷ names) =
    let rest = missing services names in if missing_service services name then name ∷ rest else rest

abbrev pub unattended : Tool → Caller → Bool
unattended tool caller =
    not tool.background_safe
    && (given caller.session_key && (caller.has_runtime && not caller.attended))

module _ {ℓ} {R : Type ℓ} where
  -- Inside a tool the call runs at once, so that it cannot time out; what fails is a text either way.
  abbrev pub outcome : ToolRun R → ToolReply R
  outcome (finished r) = replied r
  outcome (raised e) = failed_with e
  outcome (timed_out e) = failed_with e

  abbrev pub with_services : List String → ToolRun R → ToolReply R
  with_services [] run = outcome run
  with_services (name ∷ names) run = not_ready (name ∷ names)

  abbrev pub call_tool : Dict Bool → Caller → Tool → ToolRun R → ToolReply R
  call_tool services caller tool run =
      if unattended tool caller
      then needs_conversation tool.name
      else with_services (missing services tool.requires_services) run

  unfoldable pub call : ToolRegistry → Dict Bool → Caller → String → ToolRun R → ToolReply R
  call r services caller name run = elim (lookup name r.tools) [
    | none ↦ unknown_tool name
    | some tool ↦ call_tool services caller tool run
  ]

unfoldable pub named_in : List String → Dict Tool → List Tool
named_in names [] = []
named_in names ((name, tool) ∷ tools) =
    let rest = named_in names tools in if is_in name names then tool ∷ rest else rest

unfoldable pub tool_values : Dict Tool → List Tool
tool_values [] = []
tool_values ((name, tool) ∷ tools) = tool ∷ tool_values tools

-- `_visible_tools`
unfoldable pub visible_tools : ToolRegistry → List Tool
visible_tools r = elim r.visible_tool_names [
  | none ↦ tool_values r.tools
  | some names ↦ named_in names r.tools
]

abbrev pub total_calls : List Tool → ℕ
total_calls [] = 0
total_calls (tool ∷ tools) = tool.max_calls + total_calls tools

-- `max_tool_calls`
unfoldable pub max_tool_calls : ToolRegistry → ℕ
max_tool_calls r = total_calls (visible_tools r)

abbrev pub may_see : Option (List String) → String → Bool
may_see none name = true
may_see (some names) name = is_in name names

-- `get_schema`, up to the export of the tool found
unfoldable pub get_schema : ToolRegistry → String → Option Tool
get_schema r name = if may_see r.visible_tool_names name then lookup name r.tools else none
