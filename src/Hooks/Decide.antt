-- ===== src/Hooks/Decide.antt =====
-- agent/hooks.py, `decide`: the checks of a call, in their order. Of what it returns the appended board filters
-- are left out.
use wheelta_robinhood_agent.Common.{
  ℕ, Bool, true, false, not, ◌&&◌, ◌||◌, Option, none, some, ◌==◌, if◌then◌else◌, Dict,
}
use wheelta_robinhood_agent.RunControl.{stop_requested}
use wheelta_robinhood_agent.AccountScope.{Argument}
use wheelta_robinhood_agent.Hooks.{
  ToolTier, robinhood, order_work_server, tavily, wheelta, place_order_tool, cancel_tool, work_tool,
  board_query_tool, quotes_tool, equity_quotes_tool, orders_tool, account_tool, review_tool,
  ToolName, OutputRepairGate, Check, passed, ◌>>=◌, ◌>>◌, deny_if, deny_for, or_deny, HookDeps,
  HookState, gate_closed, withheld_for, not_builtin, not_registered, excluded_tool, denied_tier_x,
  not_executor_tool, nested_spawn, not_for_role, writes_disabled, kill_switch_engaged, run_stopping,
  filters_failed, Denial,
}
use wheelta_robinhood_agent.Hooks.Gate.{denial}
use wheelta_robinhood_agent.Hooks.Workspace.{check_workspace}
use wheelta_robinhood_agent.Hooks.Resolve.{
  Resolved, is_builtin, Caller, ExecutorCall, Decision, is_orders, is_writes, is_delegation,
  is_excluded, acts, is_orchestrator, check_order_tool, caller_role,
}
use wheelta_robinhood_agent.Hooks.Checks.{
  check_account, check_spawn, check_web, withheld_reason, check_work, check_placement, check_cancel,
}

-- `if b: check`
abbrev pub when : Bool → Check (Unit {0}) → Check (Unit {0})
when true check = check
when false check = passed tt

abbrev pub is_call : Resolved → ℕ → ℕ → Bool
is_call r server tool = r.server == server && r.tool == tool

-- `EXECUTOR_TOOLS`
abbrev pub is_executor_tool : ℕ → Bool
is_executor_tool tool =
    tool == quotes_tool
    || (tool == equity_quotes_tool
        || (tool == orders_tool
            || (tool == account_tool
                || (tool == review_tool || (tool == place_order_tool || tool == cancel_tool)))))

module _ (deps : HookDeps) where
  abbrev pub check_gate :
      Option ExecutorCall → Option OutputRepairGate → ToolName → Check (Unit {0})
  check_gate none (some gate) name = deny_for gate_closed (denial gate name)
  check_gate none none name = passed tt
  check_gate (some call) gate name = passed tt

  -- A call of the executor, or one of an agent in its role.
  abbrev pub check_caller : Resolved → ToolTier → Caller → Option ExecutorCall → Check (Unit {0})
  check_caller r tier caller (some call) =
      deny_if (not (r.server == robinhood && is_executor_tool r.tool)) not_executor_tool
  check_caller r tier caller none = do
    role ← caller_role deps caller.agent_id caller.agent_type
    deny_if (is_delegation tier && not (is_orchestrator role)) nested_spawn
    deny_if (not (deps.role_tools role r.name)) not_for_role

  -- The executor's one cancel after the stop latch.
  abbrev pub is_latch_cancel : Resolved → Option ExecutorCall → Bool
  is_latch_cancel r none = false
  is_latch_cancel r (some call) = call.after_stop_cancel && r.tool == cancel_tool

  abbrev pub check_switches : HookState → Resolved → Option ExecutorCall → Check (Unit {0})
  check_switches s r executor = do
    deny_if deps.kill_switch kill_switch_engaged
    deny_if (stop_requested s.stop && not (is_latch_cancel r executor)) run_stopping

  -- Which tier may be called, on which server, and by whom.
  unfoldable pub check_access :
      HookState
      → Resolved
      → ToolTier
      → Dict Argument
      → Caller
      → Option ExecutorCall
      → Check (Unit {0})
  unfolding check_order_tool caller_role check_spawn
  check_access s r tier input caller executor = do
    deny_if (is_excluded tier) excluded_tool
    when (not (is_builtin r.name))
        (deny_for withheld_for (withheld_reason deps deps.withheld r.server))
    deny_if (is_orders tier && not r.live_order_tool) denied_tier_x
    when (is_orders tier) (check_order_tool deps r.server)
    check_caller r tier caller executor
    when (is_delegation tier) (check_spawn deps s input)
    deny_if (is_writes tier && not deps.writes_enabled) writes_disabled
    when (acts tier) (check_switches s r executor)

  -- What the call would do.
  unfoldable pub check_action :
      HookState → Resolved → ToolTier → Dict Argument → Option ExecutorCall → Check (Unit {0})
  unfolding check_workspace check_placement check_cancel check_work
  check_action s r tier input executor = do
    when (is_writes tier) (check_workspace deps r.tool input)
    when (is_orders tier && is_call r robinhood place_order_tool)
        (check_placement deps executor input)
    when (is_call r robinhood cancel_tool) (check_cancel deps executor input)
    when (is_call r order_work_server work_tool) (check_work deps input)

  abbrev pub with_effective : ToolTier → Dict Argument → Check Decision
  with_effective tier effective =
      passed (record { tier = tier; effective = effective; upstream = none })

  unfoldable pub decision :
      HookState
      → Resolved
      → ToolTier
      → Dict Argument
      → Caller
      → Option (Dict Argument)
      → Check Decision
  unfolding check_web
  decision s r tier input caller upstream =
      if r.server == tavily
      then (do
        effective ← check_web deps s r.tool input caller.agent_id
        with_effective tier effective)
      else if is_call r wheelta board_query_tool
      then (do
        updated ← or_deny (deps.append_rules_filters input) filters_failed
        with_effective tier updated)
      else passed (record { tier = tier; effective = input; upstream = upstream })

  abbrev pub unregistered : Bool → Denial
  unregistered true = not_builtin
  unregistered false = not_registered

  unfoldable pub decide :
      HookState → Resolved → Dict Argument → Caller → Option ExecutorCall → Check Decision
  unfolding check_access check_account check_action decision
  decide s r input caller executor = do
    check_gate executor deps.output_gate r.name
    tier ← or_deny r.tier (unregistered (is_builtin r.name))
    check_access s r tier input caller executor
    upstream ← check_account deps (is_builtin r.name) r.server r.tool input
    check_action s r tier input executor
    decision s r tier input caller upstream
