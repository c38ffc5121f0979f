-- ===== src/Agent/Scoped.antt =====
-- What an agent can see and call in a scope (runtime/agent_scope.py).
use second_brain_art.Common.{
  str_eq, ◌≡◌, refl, ap, sym, ◌∙◌, ◌↔◌, Bool, true, false, not, ◌&&◌, Option, none, some, List, [],
  ◌∷◌, String, eq_iff, if◌then◌else◌, arith, Bool-cases, inl, inr,
}
use second_brain_art.Python.Dict.{Dict, lookup, has_key, found}
use second_brain_art.Python.Sets.{is_in}
use second_brain_art.Agent.{Tool, ToolRegistry, get_schema}
use second_brain_art.Agent.Scope.{
  AgentScope, names_or_none, expand_tool_dependencies, only_named, visible_names, has_tool_filter,
  scoped_registry, without, keys, filtered,
}
use second_brain_art.Agent.Closure.{Reaches, given, through, expand_tool_dependencies_lem}

lookup-only_named :
    (x : String) (names : List String) (tools : Dict Tool)
    → lookup x (only_named names tools) ≡ (if is_in x names then lookup x tools else none)
unfolding only_named lookup
lookup-only_named x names [] = ground arith
lookup-only_named x names ((key, tool) ∷ tools) =
    ground (arith, lookup-only_named x names tools, eq_iff key x)

found-if : (b : Bool) (o : Option Tool) → found (if b then o else none) ≡ (b && found o)
found-if true o = refl
found-if false o = refl

has_key-only_named :
    (x : String) (names : List String) (tools : Dict Tool)
    → has_key x (only_named names tools) ≡ (is_in x names && has_key x tools)
has_key-only_named x names tools =
    ap found (lookup-only_named x names tools) ∙ found-if (is_in x names) (lookup x tools)

-- A name that is visible is looked up among the callable ones as among all.
seen-only_named :
    (x : String) (visible names : List String) (tools : Dict Tool)
    → (is_in x visible ≡ true → is_in x names ≡ true)
    → (if is_in x visible then lookup x (only_named names tools) else none)
      ≡ (if is_in x visible then lookup x tools else none)
seen-only_named x visible names tools h = elim (Bool-cases (is_in x visible)) [
  | inl b ↦
      rw b (lookup-only_named x names tools ∙ ap (λ c. if c then lookup x tools else none) (h b))
  | inr b ↦ rw b refl
]

both-true : (a b : Bool) → a ≡ true → b ≡ true → (a && b) ≡ true
both-true a b h k = ground arith

unfiltered {ℓ} :
    {A : Type ℓ} (filter same : Bool) (x y : A)
    → filter ≡ true
    → (if not filter && same then x else y) ≡ y
unfiltered true same x y h = refl
unfiltered false same x y h = absurd (ground arith)

-- The registry of a scope with a filter.
abbrev scoped : AgentScope → ToolRegistry → List String → ToolRegistry
scoped s r names = record {
  tools = only_named names r.tools;
  visible_tool_names = some (visible_names s r.tools);
}

filtered-eq :
    (same_db : Bool) (s : AgentScope) (r : ToolRegistry) (names : List String)
    → has_tool_filter s ≡ true
    → expand_tool_dependencies r.tools (visible_names s r.tools) ≡ some names
    → scoped_registry same_db s r ≡ scoped s r names
unfolding scoped_registry
filtered-eq same_db s r names h e =
    let callable = names_or_none (expand_tool_dependencies r.tools (visible_names s r.tools)) in
    unfiltered (has_tool_filter s) same_db r (scoped s r callable) h
    ∙ ap (λ o. scoped s r (names_or_none o)) e

scoped_by_names :
    (same_db : Bool) (s : AgentScope) (r : ToolRegistry)
    → has_tool_filter s ≡ true
    → ((x : String)
        → get_schema (scoped_registry same_db s r) x
          ≡ (if is_in x (visible_names s r.tools) then lookup x r.tools else none))
      × ((x : String)
          → (has_key x (scoped_registry same_db s r).tools ≡ true)
            ↔ ((has_key x r.tools ≡ true) × Reaches r.tools (visible_names s r.tools) x))
unfolding get_schema
scoped_by_names same_db s r h =
    let (names, e, member) = expand_tool_dependencies_lem r.tools (visible_names s r.tools) in
    rw (filtered-eq same_db s r names h e) (
      λ x. seen-only_named x (visible_names s r.tools) names r.tools (λ v. (member x).1 (given v)),
      λ x. (
        λ k.
            let both : (is_in x names && has_key x r.tools) ≡ true =
              sym (has_key-only_named x names r.tools) ∙ k in
            (ground (arith, both), (member x).0 (ground (arith, both))),
        λ k.
            has_key-only_named x names r.tools
            ∙ both-true (is_in x names) (has_key x r.tools) ((member x).1 k.1) k.0,
      ),
    )

is_in-without :
    (x : String) (names denied : List String)
    → is_in x (without names denied) ≡ (is_in x names && not (is_in x denied))
unfolding is_in
is_in-without x [] denied = refl
is_in-without x (name ∷ names) denied = elim (Bool-cases (str_eq name x)) [
  | inl b ↦
      let same : is_in name denied ≡ is_in x denied =
        ap (λ k. is_in k denied) ((eq_iff name x).0 b) in
      ground (arith, same, is_in-without x names denied)
  | inr b ↦ ground (arith, is_in-without x names denied)
]

is_in-keys : (x : String) (tools : Dict Tool) → is_in x (keys tools) ≡ has_key x tools
unfolding is_in lookup
is_in-keys x [] = refl
is_in-keys x ((name, tool) ∷ tools) = elim (Bool-cases (str_eq name x)) [
  | inl b ↦ rw b refl
  | inr b ↦ rw b (is_in-keys x tools)
]

-- A tool is in a scope: it is on the list of allowed ones, when there is such a list; otherwise it is
-- registered and not denied.
abbrev pub permits : Option (List String) → Option (List String) → Dict Tool → String → Bool
permits (some allowed) denied tools x = is_in x allowed
permits none none tools x = has_key x tools
permits none (some denied) tools x = has_key x tools && not (is_in x denied)

filtered-permits :
    (x : String) (tools : Dict Tool) (allowed denied : Option (List String))
    → is_in x (filtered tools allowed denied) ≡ permits allowed denied tools x
unfolding is_in
filtered-permits x tools (some allowed) denied = refl
filtered-permits x tools none none =
    ground (arith, is_in-without x (keys tools) [], is_in-keys x tools)
filtered-permits x tools none (some denied) =
    ground (arith, is_in-without x (keys tools) denied, is_in-keys x tools)

visible-permits :
    (x : String) (s : AgentScope) (tools : Dict Tool)
    → has_tool_filter s ≡ true
    → is_in x (visible_names s tools) ≡ permits s.tools_allow s.tools_deny tools x
visible-permits x s tools h = rw h (filtered-permits x tools s.tools_allow s.tools_deny)

Reaches-root :
    {tools : Dict Tool} {names : List String} {x : String}
    → Reaches tools names x
    → (root : String) × (is_in root names ≡ true) × Reaches tools (root ∷ []) x
unfolding is_in
Reaches-root (given {x} h) = (x, h, given (ground (arith, eq_iff x x)))
Reaches-root (through r e) = let (root, h, chain) = Reaches-root r in (root, h, through chain e)

Reaches-from :
    {tools : Dict Tool} {names : List String} {root x : String}
    → is_in root names ≡ true
    → Reaches tools (root ∷ []) x
    → Reaches tools names x
unfolding is_in
Reaches-from {names} {root} h (given {x} k) =
    given (ap (λ y. is_in y names) (sym ((eq_iff root x).0 (ground arith))) ∙ h)
Reaches-from h (through r e) = through (Reaches-from h r) e

-- In a scope with a filter an agent sees exactly the registered tools that the scope permits, as they
-- are registered: the allowed ones when it has a list of those, else the ones that are not denied. It
-- can call exactly the registered tools to which a chain of calls leads from a permitted name, which is
-- itself such a chain.
pub scoped_registry_lem :
    (same_db : Bool) (s : AgentScope) (r : ToolRegistry)
    → has_tool_filter s ≡ true
    → ((x : String)
        → get_schema (scoped_registry same_db s r) x
          ≡ (if permits s.tools_allow s.tools_deny r.tools x then lookup x r.tools else none))
      × ((x : String)
          → (has_key x (scoped_registry same_db s r).tools ≡ true) ↔ (
              (has_key x r.tools ≡ true)
              × (root : String) × (permits s.tools_allow s.tools_deny r.tools root ≡ true)
              × Reaches r.tools (root ∷ []) x))
scoped_registry_lem same_db s r h =
    let (seen, called) = scoped_by_names same_db s r h in
    (
      λ x. seen x ∙ ap (λ b. if b then lookup x r.tools else none) (visible-permits x s r.tools h),
      λ x. (
        λ k.
            let (known, chain) = (called x).0 k in
            let (root, v, from_root) = Reaches-root chain in
            (known, root, sym (visible-permits root s r.tools h) ∙ v, from_root),
        λ k.
            let (known, root, v, from_root) = k in
            (called x).1 (known, Reaches-from (visible-permits root s r.tools h ∙ v) from_root),
      ),
    )
