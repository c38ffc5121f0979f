-- ===== src/Agent/Closure.antt =====
-- The tools that stay callable in a scope (runtime/agent_scope.py): those that the visible ones reach
-- through the tools they call.
use second_brain_art.Common.{
  ℕ, zero, suc, ◌+◌, ◌≡◌, ◌≤◌, refl, ◌↔◌, ◌⊎◌, inl, inr, Bool, true, false, ◌&&◌, Option, none,
  some, List, [], ◌∷◌, ◌++◌, String, str_eq, eq_iff, if◌then◌else◌, arith, Bool-cases, length,
}
use second_brain_art.Python.Dict.{Dict, lookup, has_key}
use second_brain_art.Python.Sets.{is_in, is_in-append}
use second_brain_art.Python.Worklist.{Grows, Grows-none, Grows-both}
use second_brain_art.Agent.{Tool}
use second_brain_art.Agent.Scope.{
  keys, deps_of, offer_dep, offer_deps, expand_tool, expand_loop, expand_tool_dependencies,
}

abbrev calls_from : Dict Tool → Option Tool → String → Bool
calls_from tools none name = false
calls_from tools (some tool) name = has_key name tools && is_in name (deps_of tool)

-- The registered tool named `a` calls the registered tool named `b`.
unfoldable pub calls : Dict Tool → String → String → Bool
calls tools a b = calls_from tools (lookup a tools) b

-- A name is reached from `names` through tools that call one another.
pub data Reaches (tools : Dict Tool) (names : List String) : String → Type 0 where
  given : {x : String} → is_in x names ≡ true → Reaches tools names x
  through : {a b : String} → Reaches tools names a → calls tools a b ≡ true → Reaches tools names b

offer_dep-Grows :
    (tools : Dict Tool) (dep : String) (s : List String × List String)
    → Grows (λ x. str_eq dep x && has_key x tools) s (offer_dep tools dep s)
unfolding offer_dep is_in
offer_dep-Grows tools dep (expanded, pending) = record {
  found = λ x. ground (arith, is_in-append x expanded (dep ∷ []), eq_iff dep x);
  queued = λ x. ground (arith, is_in-append x expanded (dep ∷ []), eq_iff dep x);
}

offer_deps-Grows :
    (tools : Dict Tool) (deps : List String) (s : List String × List String)
    → Grows (λ x. has_key x tools && is_in x deps) s (offer_deps tools deps s)
unfolding offer_deps is_in
offer_deps-Grows tools [] s = record { found = λ x. ground arith; queued = λ x. ground arith }
offer_deps-Grows tools (dep ∷ deps) s =
    let t = offer_dep tools dep s in
    let g =
      Grows-both (λ x. str_eq dep x && has_key x tools) (λ x. has_key x tools && is_in x deps) s t
        (offer_deps tools deps t) (offer_dep-Grows tools dep s) (offer_deps-Grows tools deps t) in
    record { found = λ x. ground (arith, g.found x); queued = g.queued }

expand-Grows :
    (tools : Dict Tool) (o : Option Tool) (s : List String × List String)
    → Grows (λ x. calls_from tools o x) s (expand_tool tools o s)
expand-Grows tools none s = Grows-none s
expand-Grows tools (some tool) s = offer_deps-Grows tools (deps_of tool) s

-- The registered names that are not expanded yet.
unfoldable pub unexpanded : List String → Dict Tool → ℕ
unexpanded expanded [] = 0
unexpanded expanded ((name, tool) ∷ tools) =
    let rest = unexpanded expanded tools in if is_in name expanded then rest else suc rest

unexpanded-le :
    (name : String) (expanded : List String) (tools : Dict Tool)
    → unexpanded (expanded ++ (name ∷ [])) tools ≤ unexpanded expanded tools
unfolding unexpanded is_in
unexpanded-le name expanded [] = omega arith
unexpanded-le name expanded ((key, tool) ∷ tools) =
    ground (arith, unexpanded-le name expanded tools, is_in-append key expanded (name ∷ []))

unexpanded-lt :
    (name : String) (expanded : List String) (tools : Dict Tool)
    → has_key name tools ≡ true
    → is_in name expanded ≡ false
    → suc (unexpanded (expanded ++ (name ∷ [])) tools) ≤ unexpanded expanded tools
unfolding unexpanded is_in lookup
unexpanded-lt name expanded [] n f = absurd (ground arith)
unexpanded-lt name expanded ((key, tool) ∷ tools) n f = ground (
  arith,
  unexpanded-lt name expanded tools,
  unexpanded-le name expanded tools,
  is_in-append key expanded (name ∷ []),
  eq_iff key name,
  eq_iff name key,
)

unfoldable pub work : Dict Tool → List String × List String → ℕ
work tools s = length s.1 + unexpanded s.0 tools

offer_dep-work :
    (tools : Dict Tool) (dep : String) (s : List String × List String)
    → work tools (offer_dep tools dep s) ≤ work tools s
unfolding work offer_dep
offer_dep-work tools dep (expanded, pending) = ground (arith, unexpanded-lt dep expanded tools)

offer_deps-work :
    (tools : Dict Tool) (deps : List String) (s : List String × List String)
    → work tools (offer_deps tools deps s) ≤ work tools s
unfolding offer_deps
offer_deps-work tools [] s = omega arith
offer_deps-work tools (dep ∷ deps) s =
    omega (arith, offer_dep-work tools dep s, offer_deps-work tools deps (offer_dep tools dep s))

expand-work :
    (tools : Dict Tool) (o : Option Tool) (s : List String × List String)
    → work tools (expand_tool tools o s) ≤ work tools s
expand-work tools none s = omega arith
expand-work tools (some tool) s = offer_deps-work tools (deps_of tool) s

module _ (tools : Dict Tool) (names : List String) where
  -- The invariant of the loop.
  record Inv (s : List String × List String) : Type 0 where
    pub sound : (x : String) → is_in x s.0 ≡ true → Reaches tools names x
    pub started : (x : String) → is_in x names ≡ true → is_in x s.0 ≡ true
    pub fringe : (x : String) → is_in x s.1 ≡ true → is_in x s.0 ≡ true
    pub closed :
        (x y : String)
        → is_in x s.0 ≡ true
        → calls tools x y ≡ true
        → (is_in x s.1 ≡ true) ⊎ (is_in y s.0 ≡ true)

  Inv-expand :
      (name : String) (expanded pending : List String)
      → Inv (expanded, name ∷ pending)
      → Inv (expand_tool tools (lookup name tools) (expanded, pending))
  unfolding is_in calls
  Inv-expand name expanded pending i =
      let g = expand-Grows tools (lookup name tools) (expanded, pending) in
      let here : is_in name expanded ≡ true = i.fringe name (ground (arith, eq_iff name name)) in
      record {
        sound = λ x h. elim (Bool-cases (is_in x expanded)) [
          | inl old ↦ i.sound x old
          | inr new ↦ through (i.sound name here) (ground (arith, g.found x))
        ];
        started = λ x h. ground (arith, g.found x, i.started x h);
        fringe = λ x h. ground (arith, g.found x, g.queued x, i.fringe x);
        closed = λ x y h k.
            ground (arith, g.found x, g.found y, g.queued x, i.closed x y, eq_iff name x);
      }

  Done : ℕ → List String × List String → Type 0
  Done fuel s = (t : List String) × (expand_loop fuel tools s ≡ some t) × Inv (t, [])

  loop-Done :
      (fuel : ℕ) (expanded pending : List String)
      → work tools (expanded, pending) ≤ fuel
      → Inv (expanded, pending)
      → Done fuel (expanded, pending)
  unfolding expand_loop work Done
  loop-Done fuel expanded [] h i = (expanded, refl, i)
  loop-Done zero expanded (name ∷ pending) h i = absurd (omega arith)
  loop-Done (suc fuel) expanded (name ∷ pending) h i =
      let s = expand_tool tools (lookup name tools) (expanded, pending) in
      loop-Done fuel s.0 s.1
        (omega (arith, expand-work tools (lookup name tools) (expanded, pending)))
        (Inv-expand name expanded pending i)

  complete : (t : List String) (x : String) → Inv (t, []) → Reaches tools names x → is_in x t ≡ true
  unfolding is_in
  complete t x i (given h) = i.started x h
  complete t x i (through {a} r e) =
      let before = complete t a i r in ground (arith, i.closed a x before e)

unexpanded-keys :
    (expanded : List String) (tools : Dict Tool) → unexpanded expanded tools ≤ length (keys tools)
unfolding unexpanded
unexpanded-keys expanded [] = omega arith
unexpanded-keys expanded ((name, tool) ∷ tools) = ground (arith, unexpanded-keys expanded tools)

-- The search for the tools that a set of names needs ends within its fuel, and returns exactly the
-- names themselves and those of the registered tools that they reach through calls.
pub expand_tool_dependencies_lem :
    (tools : Dict Tool) (names : List String)
    → (t : List String) × (expand_tool_dependencies tools names ≡ some t)
      × ((x : String) → (is_in x t ≡ true) ↔ Reaches tools names x)
unfolding expand_tool_dependencies work Done
expand_tool_dependencies_lem tools names =
    let start : Inv tools names (names, names) = record {
      sound = λ x h. given h;
      started = λ x h. h;
      fringe = λ x h. h;
      closed = λ x y h k. inl h;
    } in
    let (t, e, i) =
      loop-Done tools names (length names + length (keys tools)) names names
        (omega (arith, unexpanded-keys names tools)) start in
    (t, e, λ x. (i.sound x, complete tools names t x i))
