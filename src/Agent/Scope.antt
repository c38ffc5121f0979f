-- ===== src/Agent/Scope.antt =====
-- The scope of an agent profile (runtime/agent_scope.py): which tools the agent sees, and which of
-- their helpers stay callable. The fields of a profile that the code reads are those of `Profile`.
use second_brain_art.Common.{
  ℕ, zero, suc, ◌+◌, Bool, true, false, not, ◌&&◌, ◌||◌, Option, none, some, List, [], ◌∷◌, ◌++◌,
  String, str_eq, length, if◌then◌else◌,
}
use second_brain_art.Python.Dict.{Dict, lookup, insert, has_key}
use second_brain_art.Python.Sets.{is_in, add}
use second_brain_art.Agent.{Tool, ToolRegistry}

-- `tools_list`, when it is a list of names or one of the empty values, or something else
pub data ToolsField : Type 0 where
  listed : List String → ToolsField
  not_a_list : ToolsField

pub record Profile : Type 0 where
  pub prompt_suffix : String
  pub whitelist_or_blacklist_tools : String
  pub tools_list : ToolsField
  pub llm : String

pub record AgentScope : Type 0 where
  pub profile_name : String
  pub prompt_suffix : String
  pub tools_allow : Option (List String)
  pub tools_deny : Option (List String)

abbrev pub scope_of : String → Profile → List String → AgentScope
scope_of name profile tools = record {
  profile_name = name;
  prompt_suffix = profile.prompt_suffix;
  tools_allow =
      if str_eq profile.whitelist_or_blacklist_tools "whitelist" then some tools else none;
  tools_deny = if str_eq profile.whitelist_or_blacklist_tools "blacklist" then some tools else none;
}

abbrev pub tools_of : ToolsField → Option (List String)
tools_of (listed tools) = some tools
tools_of not_a_list = none

-- `load_scope`; `none` when it raises
unfoldable pub load_scope : String → Profile → Option AgentScope
load_scope name profile =
    let mode = profile.whitelist_or_blacklist_tools in
    if str_eq mode "whitelist" || str_eq mode "blacklist"
    then elim (tools_of profile.tools_list) [
      | none ↦ none
      | some tools ↦ some (scope_of name profile tools)
    ]
    else none

abbrev pub some_names : Option (List String) → Bool
some_names none = false
some_names (some []) = false
some_names (some (name ∷ names)) = true

abbrev pub is_set : Option (List String) → Bool
is_set none = false
is_set (some names) = true

abbrev pub has_tool_filter : AgentScope → Bool
has_tool_filter s = is_set s.tools_allow || some_names s.tools_deny

abbrev pub keys : Dict Tool → List String
keys [] = []
keys ((name, tool) ∷ tools) = name ∷ keys tools

abbrev pub without : List String → List String → List String
without [] denied = []
without (name ∷ names) denied =
    let rest = without names denied in if is_in name denied then rest else name ∷ rest

abbrev pub names_or_none : Option (List String) → List String
names_or_none none = []
names_or_none (some names) = names

-- The names that a scope makes visible, of the tools that are registered.
abbrev pub filtered : Dict Tool → Option (List String) → Option (List String) → List String
filtered tools (some allowed) denied = allowed
filtered tools none denied = without (keys tools) (names_or_none denied)

abbrev pub visible_names : AgentScope → Dict Tool → List String
visible_names s tools =
    if has_tool_filter s then filtered tools s.tools_allow s.tools_deny else keys tools

-- The tools that a tool calls, as it declares and as its source shows.
unfoldable pub deps_of : Tool → List String
deps_of tool = tool.dependencies_tools ++ names_or_none tool.source_calls

unfoldable pub offer_dep :
    Dict Tool → String → List String × List String → List String × List String
offer_dep tools dep (expanded, pending) =
    if has_key dep tools && not (is_in dep expanded)
    then (expanded ++ (dep ∷ []), dep ∷ pending)
    else (expanded, pending)

unfoldable pub offer_deps :
    Dict Tool → List String → List String × List String → List String × List String
offer_deps tools [] s = s
offer_deps tools (dep ∷ deps) s = offer_deps tools deps (offer_dep tools dep s)

abbrev pub expand_tool :
    Dict Tool → Option Tool → List String × List String → List String × List String
expand_tool tools none s = s
expand_tool tools (some tool) s = offer_deps tools (deps_of tool) s

-- The loop of `_expand_tool_dependencies`, for a list of names with the end of Python's first.
unfoldable pub expand_loop : ℕ → Dict Tool → List String × List String → Option (List String)
expand_loop fuel tools (expanded, []) = some expanded
expand_loop zero tools (expanded, name ∷ pending) = none
expand_loop (suc fuel) tools (expanded, name ∷ pending) =
    expand_loop fuel tools (expand_tool tools (lookup name tools) (expanded, pending))

-- `_expand_tool_dependencies`
unfoldable pub expand_tool_dependencies : Dict Tool → List String → Option (List String)
expand_tool_dependencies tools names =
    expand_loop (length names + length (keys tools)) tools (names, names)

unfoldable pub only_named : List String → Dict Tool → Dict Tool
only_named names [] = []
only_named names ((name, tool) ∷ tools) =
    let rest = only_named names tools in if is_in name names then (name, tool) ∷ rest else rest

-- `scoped_registry`; `same_db` says that the database is the registry's own.
unfoldable pub scoped_registry : Bool → AgentScope → ToolRegistry → ToolRegistry
scoped_registry same_db s r =
    let visible = visible_names s r.tools in
    let callable = names_or_none (expand_tool_dependencies r.tools visible) in
    if not (has_tool_filter s) && same_db
    then r
    else record { tools = only_named callable r.tools; visible_tool_names = some visible }

unfoldable pub add_names : List Tool → List String → List String
add_names [] seen = seen
add_names (tool ∷ tools) seen = add_names tools (add tool.name seen)

unfoldable pub add_tools : List Tool → Dict Tool → Dict Tool
add_tools [] known = known
add_tools (tool ∷ tools) known = add_tools tools (insert tool.name tool known)

abbrev pub no_tools : List Tool → Bool
no_tools [] = true
no_tools (tool ∷ tools) = false

abbrev pub with_name : List Tool → List Tool
with_name [] = []
with_name (tool ∷ tools) =
    let rest = with_name tools in if str_eq tool.name "" then rest else tool ∷ rest

abbrev pub shown : Bool → List Tool → Option (List String) → Option (List String)
shown visible tools none = none
shown visible tools (some seen) = some (if visible then add_names tools seen else seen)

-- `registry_with_tools`, for a registry that can be cloned
unfoldable pub registry_with_tools : List Tool → Bool → ToolRegistry → ToolRegistry
registry_with_tools tools visible r =
    let usable = with_name tools in
    if no_tools usable then r else record {
      tools = add_tools usable r.tools;
      visible_tool_names = shown visible usable r.visible_tool_names;
    }

-- `a or b` on services that may be missing
module _ {ℓ} {S : Type ℓ} where
  abbrev pub service_or : Option S → Option S → Option S
  service_or none s = s
  service_or (some s) t = some s

  -- `resolve_agent_llm`, for the profile's `llm` and the configuration's default profile
  unfoldable pub resolve_agent_llm : String → String → Dict S → Option S
  resolve_agent_llm llm default_llm_profile services =
      let chosen = if str_eq llm "" then "default" else llm in
      let ref = if str_eq chosen "default" then default_llm_profile else chosen in
      if str_eq ref ""
      then lookup "llm" services
      else service_or (lookup ref services) (lookup "llm" services)
