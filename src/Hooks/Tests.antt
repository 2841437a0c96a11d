-- ===== src/Hooks/Tests.antt =====
-- The theorems about agent/hooks.py and agent/tool_access.py at a session in live mode.
use wheelta_robinhood_agent.Common.{
  ◌≡◌, ◌↔◌, refl, arith, true, false, none, some, [], ◌∷◌, any, Dict,
}
use wheelta_robinhood_agent.Gating.{broker, executes_orders, check_venue}
use wheelta_robinhood_agent.RunControl.{infrastructure_failure}
use wheelta_robinhood_agent.AccountScope.{
  Argument, text, account_scope_for, check_account_scope, resolve_account_argument,
}
use wheelta_robinhood_agent.Hooks.{
  reads, robinhood, place_order_tool, cancel_tool, quotes_tool, agent_tool, mcp_tool, same_name,
  HookDeps, HookState,
}
use wheelta_robinhood_agent.Hooks.Gate.{open_gate, denial}
use wheelta_robinhood_agent.Hooks.Gate.Narrowing.{restricts, narrowed_by, narrowed_by-leaves}
use wheelta_robinhood_agent.Hooks.Resolve.{resolve, Decision, check_order_tool, caller_role, acts}
use wheelta_robinhood_agent.Hooks.Checks.{
  check_account, check_pretrade, check_placement, check_cancel, description, prompt,
}
use wheelta_robinhood_agent.Hooks.Decide.{check_access, check_action, decision, decide}
use wheelta_robinhood_agent.Hooks.Calls.{
  ToolUse, checked, stopped, let_through, after_register, after_dispatch, answer, pre_tool_use,
}
use wheelta_robinhood_agent.Hooks.Calls.Recorded.{IsAnswered, pre_tool_use-IsAnswered}
use wheelta_robinhood_agent.Hooks.Calls.Spawns.{
  asks, returns, after_events, IsWithin, events-IsWithin,
}
use wheelta_robinhood_agent.Hooks.Calls.Stopping.{events_reads, events_cancels}
use wheelta_robinhood_agent.Hooks.Admission.{ExecutorUse, admit, admission, check_executor}
use wheelta_robinhood_agent.Hooks.Admission.Recorded.{IsSettled, admit-IsSettled}
use wheelta_robinhood_agent.Hooks.Access.{ToolAccess, build_tool_access}
use wheelta_robinhood_agent.Hooks.Access.Listed.{decide-listed}
use wheelta_robinhood_agent.Hooks.Samples.{registries, deps, start, caller, order, placing}
use wheelta_robinhood_agent.Hooks.Placed.{injected, IsChecked, decide-IsChecked}
use wheelta_robinhood_agent.Pretrade.{
  validate_opening_leg, pretrade_feedback, compare_bounds, cushion_ratio, annualized_ratio,
}
use wheelta_robinhood_agent.FactsRules.{count}
use wheelta_robinhood_agent.Facts.Reads.{is_recent}
use wheelta_robinhood_agent.RoleGate.{sell, check_role}
use wheelta_robinhood_agent.PretradeGate.{ParsedLegs, gate}
use wheelta_robinhood_agent.PretradeGate.Samples.{today, rules, evidence, sell_one, itself}

abbrev brief : Dict Argument
brief = record { key = description; value = text 1 } ∷ record { key = prompt; value = text 2 } ∷ []

abbrev spawning : ToolUse
spawning = record {
  use_id = some 5;
  sdk_use_id = some 5;
  name = agent_tool;
  input = some brief;
  caller = caller;
  now = 100;
  tool_call_id = 50;
}

pre_tool_use-IsAnswered_example :
    IsAnswered
      (λ log entry. true)
      deps
      start
      spawning
      (pre_tool_use (λ log entry. true) deps spawning start)
pre_tool_use-IsAnswered_example = pre_tool_use-IsAnswered (λ log entry. true) deps start spawning

events-IsWithin_example :
    IsWithin
      (record { max_per_run = 2; max_concurrent = 1 })
      (after_events (λ log entry. true) (asks deps spawning ∷ returns deps 200 (some 5) ∷ []) start)
events-IsWithin_example =
    events-IsWithin (record { max_per_run = 2; max_concurrent = 1 }) (λ log entry. true)
      (asks deps spawning ∷ returns deps 200 (some 5) ∷ []) start (refl, (refl, tt))
      (record { spawned_le = omega arith; active_le = omega arith })

abbrev reading : ToolUse
reading = record spawning { name = mcp_tool robinhood quotes_tool; input = some order }

abbrev latched : HookState
latched = record start {
  stop = some (record { reason = infrastructure_failure; requested_at = 90 });
}

abbrev read : Decision
read = record { tier = reads; effective = order; upstream = none }

events_reads_example : acts reads ≡ false
unfolding pre_tool_use resolve checked answer after_dispatch after_register let_through decide
    check_access check_account check_action decision caller_role denial account_scope_for
    check_account_scope resolve_account_argument check_cancel
events_reads_example = events_reads (λ log entry. true) [] deps latched reading read refl refl

narrowed_by-leaves_example :
    (denial
        (narrowed_by
          (restricts 1 (agent_tool ∷ mcp_tool 1 2 ∷ []) ∷ restricts 2 (mcp_tool 1 2 ∷ []) ∷ [])
          open_gate)
        (mcp_tool 1 2)
      ≡ none)
    ↔ (true ≡ true)
narrowed_by-leaves_example =
    narrowed_by-leaves
      (restricts 1 (agent_tool ∷ mcp_tool 1 2 ∷ []) ∷ restricts 2 (mcp_tool 1 2 ∷ []) ∷ [])
      (mcp_tool 1 2)

abbrev access : ToolAccess
access = record {
  order_venue = broker;
  allowed_tools =
      agent_tool
      ∷ mcp_tool robinhood quotes_tool
      ∷ mcp_tool robinhood place_order_tool
      ∷ mcp_tool robinhood cancel_tool
      ∷ [];
  disallowed_tools = [];
}

decide-listed_example :
    any (same_name (mcp_tool robinhood place_order_tool)) access.allowed_tools ≡ true
unfolding build_tool_access resolve decide check_access check_account check_action decision
    check_order_tool caller_role check_placement check_pretrade check_venue executes_orders denial
    account_scope_for check_account_scope resolve_account_argument check_cancel
decide-listed_example =
    decide-listed deps start (mcp_tool robinhood place_order_tool) order caller placing [] access
      refl refl refl

abbrev job_placing : ExecutorUse
job_placing = record {
  tool = place_order_tool;
  input = order;
  call = record { job_id = 30; after_stop_cancel = false };
  now = 100;
  tool_call_id = 51;
}

admit-IsSettled_example :
    IsSettled
      (λ log entry. true)
      deps
      start
      job_placing
      (admit (λ log entry. true) deps job_placing start)
admit-IsSettled_example = admit-IsSettled (λ log entry. true) deps start job_placing

abbrev cancelling : ExecutorUse
cancelling = record job_placing {
  tool = cancel_tool;
  call = record { job_id = 30; after_stop_cancel = true };
}

events_cancels_example : (cancel_tool ≡ cancel_tool) × (true ≡ true)
unfolding admit admission check_executor stopped resolve decide check_access check_account
    check_action decision check_order_tool check_venue executes_orders account_scope_for
    check_account_scope resolve_account_argument check_cancel pre_tool_use checked answer
    after_dispatch after_register let_through caller_role denial
events_cancels_example =
    events_cancels (λ log entry. true) (asks deps reading ∷ []) deps latched cancelling placing refl
      refl refl

-- The session with the gate before a placement, which reads every placement as one put to sell.
abbrev gated : HookDeps
gated = record deps {
  pretrade_gate = some (
      injected today rules (count 60) evidence 2000000 sell [] (some itself) (λ p. sell_one)
        (λ denial. 0));
}

decide-IsChecked_example :
    (parsed : ParsedLegs) × IsChecked today rules
      (count 60)
      evidence
      2000000
      sell
      []
      (some itself)
      (λ p. sell_one)
      (λ denial. 0)
      sell_one
      none
      true
      parsed
unfolding resolve decide check_access check_account check_action decision check_order_tool
    caller_role check_placement check_pretrade check_venue executes_orders denial account_scope_for
    check_account_scope resolve_account_argument check_cancel gate check_role validate_opening_leg
    pretrade_feedback compare_bounds is_recent cushion_ratio annualized_ratio
decide-IsChecked_example =
    decide-IsChecked today rules (count 60) evidence 2000000 sell [] (some itself) (λ p. sell_one)
      (λ denial. 0) gated start (resolve (mcp_tool robinhood place_order_tool) registries) order
      caller none placing refl refl refl
