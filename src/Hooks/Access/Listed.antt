-- ===== src/Hooks/Access/Listed.antt =====
-- The layers of tool access agree: what the hook lets through (agent/hooks.py) the session is shown
-- (agent/tool_access.py).
use wheelta_robinhood_agent.Common.{
  ℕ, ◌≡◌, refl, ◌∙◌, true, false, Option, none, some, List, [], ◌++◌, any, kept_first, ok, Dict,
  ok-injective, >>=-eq-ok,
}
use wheelta_robinhood_agent.Gating.{OrderVenue, executes_orders, check_venue}
use wheelta_robinhood_agent.AccountScope.{Argument}
use wheelta_robinhood_agent.Hooks.{
  ToolName, agent_tool, mcp_tool, other_tool, same_name, ToolSpec, HookDeps, HookState, passed,
}
use wheelta_robinhood_agent.Hooks.Resolve.{
  resolve, registered_spec, of_spec, Caller, Decision, is_delegation, venue, venue_from,
}
use wheelta_robinhood_agent.Hooks.Decide.{decide}
use wheelta_robinhood_agent.Hooks.Decided.{decide-IsPermitted}
use wheelta_robinhood_agent.Hooks.Access.{
  ToolAccess, is_usable, of_registries, allowed_builtins, venue_or, build_tool_access,
}
use wheelta_robinhood_agent.Hooks.Access.Registries.{
  any-append, or_left, or_right, listed, registered_named, role_usable, orderable_executes,
  permitted_tier, delegates, registered_kind,
}

same_venue :
    (deps : HookDeps) (o : Option OrderVenue)
    → venue_or deps.role_tools true o deps.effective_mode ≡ venue_from deps o
same_venue deps none = refl
same_venue deps (some v) = refl

module _ (deps : HookDeps) (s : HookState) (input : Dict Argument) (caller : Caller)
    (d : Decision) where
  spec_listed :
      (server tool : ℕ) (o : Option ToolSpec)
      → registered_spec deps.registries server tool ≡ o
      → ((spec : ToolSpec) → o ≡ some spec → is_delegation spec.tier ≡ false)
      → decide deps s (of_spec server tool o) input caller none ≡ passed d
      → any (same_name (mcp_tool server tool)) (
          of_registries deps.role_tools true deps.writes_enabled
            (executes_orders (venue deps))
            deps.registries
            (λ b. b))
        ≡ true
  spec_listed server tool none e kinds h =
      let permitted = decide-IsPermitted deps s (of_spec server tool none) input caller none d h in
      absurd (let t = permitted.tiered in cc)
  spec_listed server tool (some spec) e kinds h =
      let r = of_spec server tool (some spec) in
      let permitted = decide-IsPermitted deps s r input caller none d h in
      let same : d.tier ≡ spec.tier = let t = permitted.tiered in cc in
      let access = rw same at permitted.accessible in
      let (role, known, has, single) = access.called in
      let usable = role_usable deps.role_tools role (mcp_tool server tool) has in
      let by_tier =
        permitted_tier deps.role_tools deps.writes_enabled (executes_orders (venue deps)) spec.tier
          spec.live_order_tool access.in_scope (kinds spec refl) access.writes access.live_tool
          (λ x.
            orderable_executes deps server (venue deps) deps.effective_mode (access.orderable x)) in
      let named : spec.name ≡ tool = registered_named server tool spec deps.registries e in
      listed deps.role_tools deps.writes_enabled (executes_orders (venue deps)) server tool spec
        deps.registries e (rw (named, usable) by_tier)

  name_listed :
      (name : ToolName)
      → ((server tool : ℕ) (spec : ToolSpec)
          → registered_spec deps.registries server tool ≡ some spec
          → is_delegation spec.tier ≡ false)
      → decide deps s (resolve name deps.registries) input caller none ≡ passed d
      → any (same_name name) (
          allowed_builtins deps.role_tools true
          ++ of_registries deps.role_tools true deps.writes_enabled
              (executes_orders (venue deps))
              deps.registries
              (λ b. b))
        ≡ true
  unfolding resolve
  name_listed agent_tool kinds h =
      let r = resolve agent_tool deps.registries in
      let permitted = decide-IsPermitted deps s r input caller none d h in
      let (role, known, has, single) = permitted.accessible.called in
      let usable = role_usable deps.role_tools role agent_tool has in
      let shown =
        of_registries deps.role_tools true deps.writes_enabled (executes_orders (venue deps))
          deps.registries (λ b. b) in
      any-append (same_name agent_tool) (allowed_builtins deps.role_tools true) shown
      ∙ or_left (any (same_name agent_tool) (allowed_builtins deps.role_tools true))
          (any (same_name agent_tool) shown)
          (rw (kept_first (is_usable deps.role_tools true) agent_tool [] usable) refl)
  name_listed (mcp_tool server tool) kinds h =
      let name = mcp_tool server tool in
      let shown =
        of_registries deps.role_tools true deps.writes_enabled (executes_orders (venue deps))
          deps.registries (λ b. b) in
      let spec = registered_spec deps.registries server tool in
      any-append (same_name name) (allowed_builtins deps.role_tools true) shown
      ∙ or_right (any (same_name name) (allowed_builtins deps.role_tools true))
          (any (same_name name) shown)
          (spec_listed server tool spec refl (λ x e. kinds server tool x e) h)
  name_listed (other_tool n) kinds h =
      let r = resolve (other_tool n) deps.registries in
      let permitted = decide-IsPermitted deps s r input caller none d h in
      absurd (let t = permitted.tiered in cc)

-- Over registries without a delegation tool, a tool that the hook lets an agent call is among the allowed
-- tools that the session was built with from the same settings, Mignons included.
pub decide-listed :
    (deps : HookDeps) (s : HookState) (name : ToolName) (input : Dict Argument) (caller : Caller)
    (d : Decision) (disallowed_builtins : List ToolName) (access : ToolAccess)
    → any delegates deps.registries ≡ false
    → build_tool_access deps.role_tools true deps.effective_mode deps.writes_enabled deps.registries
        deps.order_venue disallowed_builtins
      ≡ ok access
    → decide deps s (resolve name deps.registries) input caller none ≡ passed d
    → any (same_name name) access.allowed_tools ≡ true
unfolding build_tool_access
decide-listed deps s name input caller d disallowed_builtins access kinds built h =
    let mode = deps.effective_mode in
    let (u, consistent, made) =
      >>=-eq-ok (check_venue mode (venue_or deps.role_tools true deps.order_venue mode)) _ built in
    let is = ok-injective made in
    let kinds' = λ (server : ℕ) (tool : ℕ) (spec : ToolSpec).
      registered_kind server tool spec deps.registries kinds in
    rw⁻¹ is
      (rw (same_venue deps deps.order_venue) (name_listed deps s input caller d name kinds' h))
