-- ===== src/Hooks/Checks.antt =====
-- agent/hooks.py: the checks of a spawn, a web call, the start of order work, an account, a placement and a
-- cancel (`check_spawn`, `check_web`, `check_work`, and those that `decide` makes itself).
use wheelta_robinhood_agent.Common.{
  ℕ, ◌+◌, Bool, true, false, not, ◌||◌, Option, none, some, is_some, List, [], any, length, ltb,
  leb, ◌==◌, if◌then◌else◌, Dict, find, get_or,
}
use wheelta_robinhood_agent.Executor.Types.{WorkRequest, order_input}
use wheelta_robinhood_agent.AccountScope.{
  AccountScopeSpec, Argument, text, empty_text, not_text, account_scope_for, known_unscoped,
  unknown_server, check_account_scope, resolve_account_argument,
}
use wheelta_robinhood_agent.AccountScope
use wheelta_robinhood_agent.Hooks.{
  robinhood, order_work_server, tavily, wheelta, search_tool, extract_tool, MignonLimits, Check,
  denied, passed, ◌>>=◌, ◌>>◌, deny_if, attempt, deny_for, or_deny, Placement, given, planned,
  ParsedRequest, issue, request, OrderWorkView, HookDeps, HookState, pretrade_denial,
  request_invalid, plan_refused, web_denial, out_of_scope, mignons_disabled, agent_inputs,
  not_a_mignon, brief_invalid, per_run_reached, concurrent_reached, placement_over,
  no_pretrade_gate, no_order_work, work_withheld, too_late, job_held, job_placing, refused_urls,
  repeated_urls,
}
use wheelta_robinhood_agent.Hooks.Workspace.{required_str}
use wheelta_robinhood_agent.Hooks.Resolve.{ExecutorCall}

-- The arguments of an `Agent` call.
abbrev pub subagent_type : ℕ
subagent_type = 1

abbrev pub description : ℕ
description = 2

abbrev pub prompt : ℕ
prompt = 3

-- `AGENT_INPUT_KEYS`
abbrev pub is_agent_input : ℕ → Bool
is_agent_input key = key == description || (key == prompt || key == subagent_type)

-- An argument of a cancel.
abbrev pub order_id : ℕ
order_id = 4

abbrev pub elem : ℕ → List ℕ → Bool
elem x xs = any (λ y. y == x) xs

-- Which of `account_scope_for`'s servers it is: `_UNSCOPED_SERVERS` has the local server too.
abbrev pub local_server : ℕ
local_server = 5

abbrev pub scope_server : ℕ → AccountScope.Server
scope_server server =
    if server == robinhood
    then AccountScope.robinhood
    else if server == wheelta
        || (server == tavily || (server == local_server || server == order_work_server))
    then known_unscoped
    else unknown_server

module _ (deps : HookDeps) where
  abbrev pub scope_of : ℕ → ℕ → AccountScopeSpec
  scope_of server tool = account_scope_for deps.account_scope_table (scope_server server) tool

  -- The account that a call names, and the arguments that are sent upstream instead.
  unfoldable pub check_account : Bool → ℕ → ℕ → Dict Argument → Check (Option (Dict Argument))
  check_account true server tool input = passed none
  check_account false server tool input = do
    deny_for out_of_scope (
        check_account_scope deps.is_account_key deps.placeholder deps.account_number
          (scope_of server tool) input)
    passed (
        resolve_account_argument deps.is_account_key deps.placeholder deps.account_number
          (scope_of server tool) input)

  abbrev pub within_limits : HookState → MignonLimits → Check (Unit {0})
  within_limits s limits = do
    deny_if (leb limits.max_per_run s.spawned) per_run_reached
    deny_if (leb limits.max_concurrent (length s.active)) concurrent_reached

  unfoldable pub check_spawn : HookState → Dict Argument → Check (Unit {0})
  unfolding required_str
  check_spawn s input = do
    limits ← or_deny deps.mignon_limits mignons_disabled
    deny_if (any (λ e. not (is_agent_input e.key)) input) agent_inputs
    deny_if (not (is_some (deps.role_of (find input subagent_type)))) not_a_mignon
    described ← required_str input (some description)
    prompted ← required_str input (some prompt)
    deny_if (not (deps.parse_brief (find input prompt))) brief_invalid
    within_limits s limits

  -- `mignon_urls.get(caller, set()) if isinstance(caller, str) else set()`
  abbrev pub urls_seen : HookState → Option Argument → List ℕ
  urls_seen s (some (text id)) = get_or [] (find s.mignon_urls id)
  urls_seen s (some empty_text) = []
  urls_seen s (some (not_text value)) = []
  urls_seen s none = []

  abbrev pub check_urls : HookState → Option Argument → List ℕ → Check (Unit {0})
  check_urls s caller urls = do
    deny_if (any (λ u. elem (deps.url_key u) s.refused_urls) urls) refused_urls
    deny_if (any (λ u. elem u (urls_seen s caller)) urls) repeated_urls

  abbrev pub precheck : Option (Dict Argument → Option ℕ) → Dict Argument → Check (Unit {0})
  precheck none effective = passed tt
  precheck (some search) effective = deny_for web_denial (search effective)

  unfoldable pub check_web : HookState → ℕ → Dict Argument → Option Argument → Check (Dict Argument)
  check_web s tool input caller = do
    effective ← or_deny (deps.effective_input tool input) (web_denial tool)
    if tool == extract_tool
        then check_urls s caller (deps.urls_of effective)
        else if tool == search_tool
        then precheck deps.web_precheck effective
        else passed tt
    passed effective

  -- `deps.withheld is not None` and its reason for the server.
  abbrev pub withheld_reason : Option (ℕ → Option ℕ) → ℕ → Option ℕ
  withheld_reason none server = none
  withheld_reason (some reasons) server = reasons server

  abbrev pub parsed_request : ParsedRequest → Check WorkRequest
  parsed_request (issue reason) = denied (request_invalid reason)
  parsed_request (request r) = passed r

  -- `deps.pretrade_gate(...)`, whose reason denies.
  unfoldable pub check_pretrade : Placement → Option ℕ → Bool → Check (Unit {0})
  check_pretrade placement job self_in_flight = do
    gate ← or_deny deps.pretrade_gate no_pretrade_gate
    reason ← attempt (gate placement job self_in_flight)
    deny_for pretrade_denial reason

  unfoldable pub check_work : Dict Argument → Check (Unit {0})
  unfolding check_pretrade order_input
  check_work input = do
    view ← or_deny deps.order_work no_order_work
    remaining ← or_deny deps.session_remaining no_order_work
    deny_if view.placement_ended placement_over
    deny_if (is_some (withheld_reason deps.withheld robinhood)) work_withheld
    r ← parsed_request (deps.parse_work_request input)
    deny_if (ltb remaining (deps.window_seconds + deps.wind_down_seconds)) too_late
    check_pretrade (planned (order_input r r.start_price r.quantity)) none false
    deny_for plan_refused (view.plan r)

  abbrev pub placement_over_in : Option OrderWorkView → Bool
  placement_over_in none = false
  placement_over_in (some view) = view.placement_ended

  abbrev pub job_of : Option ExecutorCall → Option ℕ
  job_of none = none
  job_of (some call) = some call.job_id

  -- A placement: no job of the run stopped placing, and the pre-trade gate lets it through.
  unfoldable pub check_placement : Option ExecutorCall → Dict Argument → Check (Unit {0})
  unfolding check_pretrade
  check_placement executor input = do
    deny_if (placement_over_in deps.order_work) placement_over
    check_pretrade (given input) (job_of executor) (not (is_some executor))

  abbrev pub held_by : OrderWorkView → Option Argument → Bool
  held_by view (some (text id)) = view.holds (text id)
  held_by view (some empty_text) = view.holds empty_text
  held_by view (some (not_text value)) = false
  held_by view none = false

  -- A cancel by the agent: no job holds the order, and none is placing.
  abbrev pub check_cancel_in : Option OrderWorkView → Dict Argument → Check (Unit {0})
  check_cancel_in none input = passed tt
  check_cancel_in (some view) input = do
    deny_if (held_by view (find input order_id)) job_held
    deny_if view.placing job_placing

  unfoldable pub check_cancel : Option ExecutorCall → Dict Argument → Check (Unit {0})
  check_cancel none input = check_cancel_in deps.order_work input
  check_cancel (some call) input = passed tt
