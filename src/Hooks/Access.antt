-- ===== src/Hooks/Access.antt =====
-- agent/tool_access.py: the tools that a session is shown. The SDK's built-ins that it names in its lists are
-- `disallowed_builtins`.
pub mod Registries
pub mod Listed
use wheelta_robinhood_agent.Common.{
  ℕ, Bool, true, false, not, ◌&&◌, ◌||◌, Option, none, some, List, [], ◌∷◌, ◌++◌, any, keep_if, map,
  if◌then◌else◌, Result, ok, err, ◌>>=◌, ◌>>◌,
}
use wheelta_robinhood_agent.Gating.{
  ExecutionMode, OrderVenue, order_venue, executes_orders, check_venue,
}
use wheelta_robinhood_agent.Hooks.{
  ToolTier, reads, workspace_writes, orders, delegation, excluded, ToolName, agent_tool, mcp_tool,
  same_name, ToolSpec, ToolRegistry, Role, orchestrator, market, company, macro,
}

pub record ToolAccess : Type 0 where
  pub order_venue : OrderVenue
  pub allowed_tools : List ToolName
  pub disallowed_tools : List ToolName

module _ (role_tools : Role → ToolName → Bool) (mignons : Bool) where
  abbrev pub roles : List Role
  roles = if mignons then orchestrator ∷ market ∷ company ∷ macro ∷ [] else orchestrator ∷ []

  -- `usable`: some role of the session has the tool.
  abbrev pub is_usable : ToolName → Bool
  is_usable name =
      any (λ role. role_tools role name) roles && (mignons || not (same_name name agent_tool))

  module _ (writes : Bool) (places : Bool) where
    abbrev pub tier_permits : ToolTier → Bool → Bool
    tier_permits reads live_order_tool = true
    tier_permits workspace_writes live_order_tool = writes
    tier_permits orders live_order_tool = live_order_tool && places
    tier_permits delegation live_order_tool = false
    tier_permits excluded live_order_tool = false

    abbrev pub is_permitted : ℕ → ToolSpec → Bool
    is_permitted server spec =
        is_usable (mcp_tool server spec.name) && tier_permits spec.tier spec.live_order_tool

    abbrev pub of_tools : ℕ → List ToolSpec → (Bool → Bool) → List ToolName
    of_tools server specs chosen =
        map (λ spec. mcp_tool server spec.name)
          (keep_if (λ spec. chosen (is_permitted server spec)) specs)

    -- The tools of the registries that are permitted, or those that are not.
    abbrev pub of_registries : List ToolRegistry → (Bool → Bool) → List ToolName
    of_registries [] chosen = []
    of_registries (r ∷ rs) chosen = of_tools r.server r.tools chosen ++ of_registries rs chosen

  abbrev pub allowed_builtins : List ToolName
  allowed_builtins = keep_if is_usable (agent_tool ∷ [])

  abbrev pub denied_builtins : List ToolName
  denied_builtins = keep_if (λ name. not (is_usable name)) (agent_tool ∷ [])

  abbrev pub venue_or : Option OrderVenue → ExecutionMode → OrderVenue
  venue_or none mode = order_venue mode false
  venue_or (some venue) mode = venue

  -- The lists stand for sets, which the source sorts.
  unfoldable pub build_tool_access :
      ExecutionMode
      → Bool
      → List ToolRegistry
      → Option OrderVenue
      → List ToolName
      → Result ToolAccess
  build_tool_access mode writes registries given disallowed_builtins =
      let venue = venue_or given mode in
      do
        check_venue mode venue
        ok (record {
          order_venue = venue;
          allowed_tools =
              allowed_builtins ++ of_registries writes (executes_orders venue) registries (λ b. b);
          disallowed_tools =
              disallowed_builtins
              ++ denied_builtins
              ++ of_registries writes (executes_orders venue) registries not;
        })
