-- ===== src/Hooks/Resolve.antt =====
-- agent/hooks.py: how a tool's name is resolved, the caller's role, and whether an order tool may be called
-- (`_resolve`, `caller_role`, `_order_tool_denial`).
use wheelta_robinhood_agent.Common.{
  ℕ, Bool, true, false, not, ◌&&◌, ◌||◌, Option, none, some, List, [], ◌∷◌, ◌==◌, if◌then◌else◌,
  Result, ok, err, Dict,
}
use wheelta_robinhood_agent.Gating.{
  OrderVenue, simulated, order_venue, executes_orders, check_venue,
}
use wheelta_robinhood_agent.AccountScope.{Argument, text, empty_text, not_text}
use wheelta_robinhood_agent.Hooks.{
  ToolTier, workspace_writes, orders, delegation, excluded, builtin_server, robinhood,
  order_work_server, ToolName, agent_tool, mcp_tool, other_tool, ToolSpec, ToolRegistry, Role,
  orchestrator, Check, denied, passed, ◌>>◌, deny_if, or_deny, HookDeps, venue_inconsistent,
  no_orders, executor_needs_proxy, simulated_needs_proxy, main_with_type, unknown_sub_agent,
}

pub record Resolved : Type 0 where
  pub server : ℕ
  pub tool : ℕ
  pub tier : Option ToolTier
  pub live_order_tool : Bool
  pub name : ToolName  -- `qualified`

abbrev pub is_builtin : ToolName → Bool
is_builtin (mcp_tool server tool) = false
is_builtin agent_tool = true
is_builtin (other_tool name) = true

abbrev pub get_spec : List ToolSpec → ℕ → Option ToolSpec
get_spec [] tool = none
get_spec (spec ∷ specs) tool = if spec.name == tool then some spec else get_spec specs tool

-- The spec in the first registry of the server.
abbrev pub registered_spec : List ToolRegistry → ℕ → ℕ → Option ToolSpec
registered_spec [] server tool = none
registered_spec (r ∷ rs) server tool =
    if r.server == server then get_spec r.tools tool else registered_spec rs server tool

abbrev pub of_spec : ℕ → ℕ → Option ToolSpec → Resolved
of_spec server tool none = record {
  server = server;
  tool = tool;
  tier = none;
  live_order_tool = false;
  name = mcp_tool server tool;
}
of_spec server tool (some spec) = record {
  server = server;
  tool = tool;
  tier = some spec.tier;
  live_order_tool = spec.live_order_tool;
  name = mcp_tool server tool;
}

-- `_resolve`; the tool of a built-in is not compared with any.
unfoldable pub resolve : ToolName → List ToolRegistry → Resolved
resolve agent_tool registries = record {
  server = builtin_server;
  tool = 0;
  tier = some delegation;
  live_order_tool = false;
  name = agent_tool;
}
resolve (mcp_tool server tool) registries =
    of_spec server tool (registered_spec registries server tool)
resolve (other_tool name) registries = record {
  server = builtin_server;
  tool = name;
  tier = none;
  live_order_tool = false;
  name = other_tool name;
}

-- What a hook's data say of the caller; null is an absent value.
pub record Caller : Type 0 where
  pub agent_id : Option Argument
  pub agent_type : Option Argument

-- `_ExecutorCall`
pub record ExecutorCall : Type 0 where
  pub job_id : ℕ
  pub after_stop_cancel : Bool

pub record Decision : Type 0 where
  pub tier : ToolTier
  pub effective : Dict Argument
  pub upstream : Option (Dict Argument)

abbrev pub is_orders : ToolTier → Bool
is_orders orders = true
is_orders _ = false

abbrev pub is_writes : ToolTier → Bool
is_writes workspace_writes = true
is_writes _ = false

abbrev pub is_delegation : ToolTier → Bool
is_delegation delegation = true
is_delegation _ = false

abbrev pub is_excluded : ToolTier → Bool
is_excluded excluded = true
is_excluded _ = false

-- A tier whose calls act: S, X or D.
abbrev pub acts : ToolTier → Bool
acts tier = is_writes tier || (is_orders tier || is_delegation tier)

abbrev pub is_simulated : OrderVenue → Bool
is_simulated simulated = true
is_simulated _ = false

abbrev pub is_orchestrator : Role → Bool
is_orchestrator orchestrator = true
is_orchestrator _ = false

abbrev pub is_err : Result (Unit {0}) → Bool
is_err (ok u) = false
is_err (err e) = true

module _ (deps : HookDeps) where
  -- `deps.proxy_dispatch is not None and deps.proxy_dispatch.proxied(server)`
  abbrev pub proxies : Option (ℕ → Bool) → ℕ → Bool
  proxies none server = false
  proxies (some proxied) server = proxied server

  abbrev pub venue_from : Option OrderVenue → OrderVenue
  venue_from none = order_venue deps.effective_mode false
  venue_from (some v) = v

  abbrev pub venue : OrderVenue
  venue = venue_from deps.order_venue

  -- `_order_tool_denial`
  unfoldable pub check_order_tool : ℕ → Check (Unit {0})
  check_order_tool server = do
    deny_if (is_err (check_venue deps.effective_mode venue)) venue_inconsistent
    deny_if (not (executes_orders venue)) no_orders
    deny_if (server == order_work_server && not (proxies deps.proxy_dispatch robinhood))
        executor_needs_proxy
    deny_if
        (is_simulated venue
          && not (
              proxies deps.proxy_dispatch
                (if server == order_work_server then robinhood else server)))
        simulated_needs_proxy

  abbrev pub main_role : Option Argument → Check Role
  main_role none = passed orchestrator
  main_role (some agent_type) = denied main_with_type

  abbrev pub sub_role : Argument → Option Role → Check Role
  sub_role (text id) role = or_deny role unknown_sub_agent
  sub_role empty_text role = denied unknown_sub_agent
  sub_role (not_text value) role = denied unknown_sub_agent

  unfoldable pub caller_role : Option Argument → Option Argument → Check Role
  caller_role none agent_type = main_role agent_type
  caller_role (some agent_id) agent_type = sub_role agent_id (deps.role_of agent_type)
