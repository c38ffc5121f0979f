-- ===== src/Agent/Tests.antt =====
-- Runs of the model of agent/tool_registry.py and runtime/agent_scope.py on three tools, one of which
-- calls another.
use second_brain_art.Common.{
  ◌≡◌, ◌↔◌, refl, true, false, none, some, List, [], ◌∷◌, String, if◌then◌else◌,
}
use second_brain_art.Python.Dict.{lookup, has_key}
use second_brain_art.Python.Sets.{is_in}
use second_brain_art.Agent.{
  Tool, ToolRegistry, Caller, needs_conversation, finished, call, get_schema, missing,
}
use second_brain_art.Agent.Scope.{
  AgentScope, expand_tool_dependencies, expand_loop, offer_deps, offer_dep, deps_of,
  scoped_registry,
}
use second_brain_art.Agent.Closure.{Reaches}
use second_brain_art.Agent.Scoped.{permits, scoped_registry_lem}

abbrev tool : String → List String → Tool
tool name calls = record {
  name = name;
  requires_services = [];
  dependencies_tools = calls;
  max_calls = 3;
  background_safe = false;
  source_calls = none;
}

abbrev registry : ToolRegistry
registry = record {
  tools =
      ("search", tool "search" ("fetch" ∷ []))
      ∷ ("fetch", tool "fetch" [])
      ∷ ("delete", tool "delete" [])
      ∷ [];
  visible_tool_names = none;
}

abbrev searcher : AgentScope
searcher = record {
  profile_name = "searcher";
  prompt_suffix = "";
  tools_allow = some ("search" ∷ []);
  tools_deny = none;
}

abbrev background : Caller
background = record { session_key = some "s"; has_runtime = true; attended = false }

expands : expand_tool_dependencies registry.tools ("search" ∷ []) ≡ some ("search" ∷ "fetch" ∷ [])
unfolding expand_tool_dependencies expand_loop offer_deps offer_dep deps_of lookup is_in
expands = refl

refuses : call registry [] background "delete" (finished true) ≡ needs_conversation "delete"
unfolding call missing lookup
refuses = refl

scoped_registry_lem_example :
    ((x : String)
      → get_schema (scoped_registry true searcher registry) x ≡ (
          if permits searcher.tools_allow searcher.tools_deny registry.tools x
          then lookup x registry.tools
          else none))
    × ((x : String)
        → (has_key x (scoped_registry true searcher registry).tools ≡ true) ↔ (
            (has_key x registry.tools ≡ true)
            × (root : String) × (permits searcher.tools_allow searcher.tools_deny registry.tools
                  root
                ≡ true)
            × Reaches registry.tools (root ∷ []) x))
scoped_registry_lem_example = scoped_registry_lem true searcher registry refl
