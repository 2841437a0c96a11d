-- ===== src/Hooks/Permitted.antt =====
-- What `decide` of agent/hooks.py lets through.
use wheelta_robinhood_agent.Common.{
  leb-false→lt, ℕ, ◌<◌, ◌≡◌, refl, Bool, true, false, not, ◌&&◌, Option, none, some, length, leb,
  ◌==◌, ==_iff, if◌then◌else◌, Dict,
}
use wheelta_robinhood_agent.Gating.{
  ExecutionMode, live, off, OrderVenue, broker, simulated, no_venue, executes_orders, check_venue,
}
use wheelta_robinhood_agent.RunControl.{stop_requested}
use wheelta_robinhood_agent.AccountScope.{Argument}
use wheelta_robinhood_agent.Hooks.{
  ToolTier, robinhood, order_work_server, Role, MignonLimits, passed, deny_if, deny_for, or_deny,
  HookDeps, HookState, venue_inconsistent, no_orders, executor_needs_proxy, simulated_needs_proxy,
  withheld_for, denied_tier_x, excluded_tool, not_executor_tool, nested_spawn, not_for_role,
  writes_disabled, kill_switch_engaged, run_stopping, mignons_disabled, agent_inputs, not_a_mignon,
  brief_invalid, per_run_reached, concurrent_reached,
}
use wheelta_robinhood_agent.Hooks.Workspace.{required_str}
use wheelta_robinhood_agent.Hooks.Resolve.{
  Resolved, is_builtin, Caller, ExecutorCall, is_orders, is_writes, is_delegation, is_excluded,
  acts, is_simulated, is_orchestrator, is_err, proxies, venue, check_order_tool, caller_role,
}
use wheelta_robinhood_agent.Hooks.Checks.{check_spawn, description, prompt, withheld_reason}
use wheelta_robinhood_agent.Hooks.Decide.{
  when, is_executor_tool, check_caller, is_latch_cancel, check_switches, check_access,
}
use wheelta_robinhood_agent.Hooks.Passing.{
  >>=-passed, then-passed, deny_if-passed, deny_not-passed, deny_unless-passed, when-passed,
  or_deny-passed, deny_for-passed,
}

module _ (deps : HookDeps) where
  -- Orders go to the broker in live mode, or to the simulated broker through the validating proxy.
  unfoldable pub IsOrderable : ℕ → OrderVenue → ExecutionMode → Type 0
  IsOrderable server broker live = Unit {0}
  IsOrderable server simulated off =
      proxies deps deps.proxy_dispatch (if server == order_work_server then robinhood else server)
      ≡ true
  IsOrderable server broker off = ⊥
  IsOrderable server simulated live = ⊥
  IsOrderable server no_venue mode = ⊥

  venue-IsOrderable :
      (server : ℕ) (v : OrderVenue) (mode : ExecutionMode)
      → is_err (check_venue mode v) ≡ false
      → executes_orders v ≡ true
      → (is_simulated v ≡ true
          → proxies deps deps.proxy_dispatch
              (if server == order_work_server then robinhood else server)
            ≡ true)
      → IsOrderable server v mode
  unfolding IsOrderable check_venue executes_orders
  venue-IsOrderable server broker live c x p = tt
  venue-IsOrderable server simulated off c x p = p refl
  venue-IsOrderable server broker off c x p = absurd cc
  venue-IsOrderable server simulated live c x p = absurd cc
  venue-IsOrderable server no_venue mode c x p = absurd cc

  order_tool-IsOrderable :
      (server : ℕ)
      → check_order_tool deps server ≡ passed tt
      → IsOrderable server (venue deps) deps.effective_mode
  unfolding check_order_tool
  order_tool-IsOrderable server h =
      let (consistent, h1) =
        then-passed
          (deny_if (is_err (check_venue deps.effective_mode (venue deps))) venue_inconsistent) _
          h in
      let (executing, h2) =
        then-passed (deny_if (not (executes_orders (venue deps))) no_orders) _ h1 in
      let (work, h3) =
        then-passed
          (deny_if (server == order_work_server && not (proxies deps deps.proxy_dispatch robinhood))
            executor_needs_proxy)
          _ h2 in
      venue-IsOrderable server (venue deps) deps.effective_mode
        (deny_if-passed (is_err (check_venue deps.effective_mode (venue deps))) venue_inconsistent
          consistent)
        (deny_not-passed (executes_orders (venue deps)) no_orders executing)
        (deny_unless-passed (is_simulated (venue deps)) _ simulated_needs_proxy h3)

  -- The executor on its own tools, or an agent on its role's tools.
  abbrev MayCall : Resolved → ToolTier → Caller → Option ExecutorCall → Type 0
  MayCall r tier caller (some call) = (r.server ≡ robinhood) × (is_executor_tool r.tool ≡ true)
  MayCall r tier caller none =
      (role : Role) × (caller_role deps caller.agent_id caller.agent_type ≡ passed role)
      × (deps.role_tools role r.name ≡ true)
      × (is_delegation tier ≡ true → is_orchestrator role ≡ true)

  and_both : (a b : Bool) → (a && b) ≡ true → (a ≡ true) × (b ≡ true)
  and_both true true h = (refl, refl)
  and_both true false h = absurd cc
  and_both false b h = absurd cc

  caller-MayCall :
      (r : Resolved) (tier : ToolTier) (caller : Caller) (executor : Option ExecutorCall)
      → check_caller deps r tier caller executor ≡ passed tt
      → MayCall r tier caller executor
  caller-MayCall r tier caller (some call) h =
      let both =
        deny_not-passed (r.server == robinhood && is_executor_tool r.tool) not_executor_tool h in
      let (at_server, listed) = and_both (r.server == robinhood) (is_executor_tool r.tool) both in
      ((==_iff r.server robinhood).0 at_server, listed)
  caller-MayCall r tier caller none h =
      let (role, known, h1) = >>=-passed (caller_role deps caller.agent_id caller.agent_type) _ h in
      let (nested, listed) =
        then-passed (deny_if (is_delegation tier && not (is_orchestrator role)) nested_spawn) _
          h1 in
      (
        role,
        known,
        deny_not-passed (deps.role_tools role r.name) not_for_role listed,
        deny_unless-passed (is_delegation tier) (is_orchestrator role) nested_spawn nested,
      )

  -- One more Mignon stays within the limits of the run.
  pub record HasRoom (s : HookState) : Type 0 where
    pub limits : MignonLimits
    pub limited : deps.mignon_limits ≡ some limits
    pub spawned_lt : s.spawned < limits.max_per_run
    pub active_lt : length s.active < limits.max_concurrent

  spawn-HasRoom :
      (s : HookState) (input : Dict Argument) → check_spawn deps s input ≡ passed tt → HasRoom s
  unfolding check_spawn
  spawn-HasRoom s input h =
      let (limits, some_limits, h1) =
        >>=-passed (or_deny deps.mignon_limits mignons_disabled) _ h in
      let (keys, h2) = then-passed (deny_if _ agent_inputs) _ h1 in
      let (mignon, h3) = then-passed (deny_if _ not_a_mignon) _ h2 in
      let (described, text1, h4) = >>=-passed (required_str input (some description)) _ h3 in
      let (prompted, text2, h5) = >>=-passed (required_str input (some prompt)) _ h4 in
      let (brief, h6) = then-passed (deny_if _ brief_invalid) _ h5 in
      let (per_run, at_once) =
        then-passed (deny_if (leb limits.max_per_run s.spawned) per_run_reached) _ h6 in
      record {
        limits = limits;
        limited = or_deny-passed deps.mignon_limits mignons_disabled some_limits;
        spawned_lt =
            leb-false→lt limits.max_per_run s.spawned
              (deny_if-passed (leb limits.max_per_run s.spawned) per_run_reached per_run);
        active_lt = leb-false→lt limits.max_concurrent (length s.active) (
            deny_if-passed (leb limits.max_concurrent (length s.active)) concurrent_reached
              at_once);
      }

  -- No switch stops a call that acts; after the stop latch that is only the executor's one cancel.
  pub record IsRunning (s : HookState) (r : Resolved) (executor : Option ExecutorCall)
      : Type 0 where
    pub not_killed : deps.kill_switch ≡ false
    pub not_stopped : stop_requested s.stop ≡ true → is_latch_cancel deps r executor ≡ true

  switches-IsRunning :
      (s : HookState) (r : Resolved) (executor : Option ExecutorCall)
      → check_switches deps s r executor ≡ passed tt
      → IsRunning s r executor
  switches-IsRunning s r executor h =
      let (killed, h1) = then-passed (deny_if deps.kill_switch kill_switch_engaged) _ h in
      record {
        not_killed = deny_if-passed deps.kill_switch kill_switch_engaged killed;
        not_stopped =
            deny_unless-passed (stop_requested s.stop) (is_latch_cancel deps r executor)
              run_stopping h1;
      }

  pub record IsAccessible (s : HookState) (r : Resolved) (tier : ToolTier) (caller : Caller)
      (executor : Option ExecutorCall) : Type 0 where
    pub in_scope : is_excluded tier ≡ false
    pub connected : is_builtin r.name ≡ false → withheld_reason deps deps.withheld r.server ≡ none
    pub live_tool : is_orders tier ≡ true → r.live_order_tool ≡ true
    pub orderable : is_orders tier ≡ true → IsOrderable r.server (venue deps) deps.effective_mode
    pub called : MayCall r tier caller executor
    pub spawns : is_delegation tier ≡ true → HasRoom s
    pub writes : is_writes tier ≡ true → deps.writes_enabled ≡ true
    pub running : acts tier ≡ true → IsRunning s r executor

  negated : (b : Bool) → b ≡ false → not b ≡ true
  negated true h = absurd cc
  negated false h = refl

  pub access-IsAccessible :
      (s : HookState) (r : Resolved) (tier : ToolTier) (input : Dict Argument) (caller : Caller)
      (executor : Option ExecutorCall)
      → check_access deps s r tier input caller executor ≡ passed tt
      → IsAccessible s r tier caller executor
  unfolding check_access
  access-IsAccessible s r tier input caller executor h =
      let (scope, h1) = then-passed (deny_if (is_excluded tier) excluded_tool) _ h in
      let withheld = deny_for withheld_for (withheld_reason deps deps.withheld r.server) in
      let (source, h2) = then-passed (when (not (is_builtin r.name)) withheld) _ h1 in
      let (live_tool, h3) =
        then-passed (deny_if (is_orders tier && not r.live_order_tool) denied_tier_x) _ h2 in
      let order_tool = check_order_tool deps r.server in
      let (orderable, h4) = then-passed (when (is_orders tier) order_tool) _ h3 in
      let (called, h5) = then-passed (check_caller deps r tier caller executor) _ h4 in
      let spawn = check_spawn deps s input in
      let (spawns, h6) = then-passed (when (is_delegation tier) spawn) _ h5 in
      let (writes, h7) =
        then-passed (deny_if (is_writes tier && not deps.writes_enabled) writes_disabled) _ h6 in
      let switches = check_switches deps s r executor in
      record {
        in_scope = deny_if-passed (is_excluded tier) excluded_tool scope;
        connected = λ b.
            deny_for-passed withheld_for (withheld_reason deps deps.withheld r.server) (
              when-passed (not (is_builtin r.name)) withheld source
                (negated (is_builtin r.name) b));
        live_tool = deny_unless-passed (is_orders tier) r.live_order_tool denied_tier_x live_tool;
        orderable = λ x.
            order_tool-IsOrderable r.server (when-passed (is_orders tier) order_tool orderable x);
        called = caller-MayCall r tier caller executor called;
        spawns = λ x. spawn-HasRoom s input (when-passed (is_delegation tier) spawn spawns x);
        writes = deny_unless-passed (is_writes tier) deps.writes_enabled writes_disabled writes;
        running = λ x. switches-IsRunning s r executor (when-passed (acts tier) switches h7 x);
      }
