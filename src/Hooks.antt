-- ===== src/Hooks.antt =====
-- agent/hooks.py: what every tool call passes before it is sent, and how it is recorded. Texts (servers, tools,
-- arguments, IDs) are numbers, and `text_of` gives the characters of one. `HookDeps` holds what the source
-- injects; a lookup that may raise returns an `Attempt`.
pub mod Gate
pub mod Workspace
pub mod Resolve
pub mod Checks
pub mod Decide
pub mod Passing
pub mod Owned
pub mod Permitted
pub mod Decided
pub mod Placed
pub mod Calls
pub mod Admission
pub mod Access
pub mod Samples
mod Tests
use wheelta_robinhood_agent.Common.{
  ℕ, Bool, true, false, Option, none, some, List, [], ◌∷◌, ◌==◌, if◌then◌else◌, Dict,
}
use wheelta_robinhood_agent.Executor.Types.{WorkRequest, OrderInput}
use wheelta_robinhood_agent.Gating.{ExecutionMode, OrderVenue}
use wheelta_robinhood_agent.RunControl.{RunControl}
use wheelta_robinhood_agent.AccountScope.{AccountScopeSpec, Argument, ScopeDenial}

-- domain/enums.py
pub data ToolTier : Type 0 where
  reads workspace_writes orders delegation excluded : ToolTier

-- The servers' names.
abbrev pub builtin_server : ℕ
builtin_server = 0

abbrev pub robinhood : ℕ
robinhood = 1

abbrev pub order_work_server : ℕ
order_work_server = 2

abbrev pub tavily : ℕ
tavily = 3

abbrev pub wheelta : ℕ
wheelta = 4

-- The tools' names that the code compares with.
abbrev pub place_order_tool : ℕ
place_order_tool = 1

abbrev pub cancel_tool : ℕ
cancel_tool = 2

abbrev pub work_tool : ℕ
work_tool = 3

abbrev pub board_query_tool : ℕ
board_query_tool = 4

abbrev pub search_tool : ℕ
search_tool = 5

abbrev pub extract_tool : ℕ
extract_tool = 6

abbrev pub quotes_tool : ℕ
quotes_tool = 7

abbrev pub equity_quotes_tool : ℕ
equity_quotes_tool = 8

abbrev pub orders_tool : ℕ
orders_tool = 9

abbrev pub account_tool : ℕ
account_tool = 10

abbrev pub review_tool : ℕ
review_tool = 11

-- The SDK's name of a tool, split at its marks: `Agent`, `mcp__<server>__<tool>`, or another built-in.
pub data ToolName : Type 0 where
  agent_tool : ToolName
  mcp_tool : (server tool : ℕ) → ToolName
  other_tool : ℕ → ToolName

abbrev pub same_name : ToolName → ToolName → Bool
same_name agent_tool agent_tool = true
same_name (mcp_tool s t) (mcp_tool s' t') = if s == s' then t == t' else false
same_name (other_tool n) (other_tool m) = n == m
same_name _ _ = false

-- integrations/registry.py
pub record ToolSpec : Type 0 where
  pub name : ℕ
  pub tier : ToolTier
  pub live_order_tool : Bool

pub record ToolRegistry : Type 0 where
  pub server : ℕ
  pub tools : List ToolSpec

-- agent/mignons.py
pub data Role : Type 0 where
  orchestrator market company macro : Role

pub record MignonLimits : Type 0 where
  pub max_per_run : ℕ
  pub max_concurrent : ℕ

-- `IntRule`: a number, `none`, or another marker.
pub data IntRule : Type 0 where
  number : ℕ → IntRule
  no_limit unenforceable : IntRule

pub record WorkspaceRules : Type 0 where
  pub max_owned_watchlists : IntRule
  pub max_owned_scans : IntRule
  pub max_owned_alerts : IntRule
  pub max_items_per_owned_watchlist : IntRule
  pub max_mutations_per_run : IntRule

pub data WorkspaceKind : Type 0 where
  watchlist scan alert : WorkspaceKind

pub data WorkspaceAction : Type 0 where
  create mutate add_item : WorkspaceAction

pub record WorkspaceTargetSpec : Type 0 where
  pub kind : WorkspaceKind
  pub action : WorkspaceAction
  pub is_verified : Bool
  pub id_arg : Option ℕ
  pub name_arg : Option ℕ

-- A lookup in the ledger, or another call that may raise.
pub data Attempt {ℓ} (A : Type ℓ) : Type ℓ where
  raised : Attempt A
  returned : A → Attempt A

-- The texts of the denials, by what they say.
pub data Denial : Type 0 where
  gate_closed withheld_for pretrade_denial request_invalid plan_refused web_denial : ℕ → Denial
  out_of_scope : ScopeDenial → Denial
  not_builtin not_registered excluded_tool denied_tier_x venue_inconsistent no_orders : Denial
  executor_needs_proxy simulated_needs_proxy not_executor_tool main_with_type : Denial
  unknown_sub_agent nested_spawn not_for_role mignons_disabled agent_inputs not_a_mignon : Denial
  argument_missing brief_invalid per_run_reached concurrent_reached writes_disabled : Denial
  kill_switch_engaged run_stopping target_unverified cap_unenforceable count_unavailable : Denial
  cap_reached outside_prefix name_taken not_owned placement_over no_pretrade_gate : Denial
  no_order_work work_withheld too_late job_held job_placing refused_urls repeated_urls : Denial
  filters_failed use_id_mismatch input_not_object : Denial

-- `_Denied` raised, another exception raised, or the value returned.
pub data Check {ℓ} (A : Type ℓ) : Type ℓ where
  denied : Denial → Check A
  failed : Check A
  passed : A → Check A

module _ {ℓ κ} {A : Type ℓ} {B : Type κ} where
  infixl 5 ◌>>=◌
  abbrev pub ◌>>=◌ : Check A → (A → Check B) → Check B
  denied reason >>= next = denied reason
  failed >>= next = failed
  passed value >>= next = next value

infixl 5 ◌>>◌
abbrev pub ◌>>◌ {ℓ} : {A : Type ℓ} → Check (Unit {0}) → Check A → Check A
checked >> next = checked >>= λ _. next

abbrev pub deny_if : Bool → Denial → Check (Unit {0})
deny_if true reason = denied reason
deny_if false reason = passed tt

abbrev pub attempt {ℓ} : {A : Type ℓ} → Attempt A → Check A
attempt raised = failed
attempt (returned a) = passed a

-- `if reason is not None: raise _Denied(reason)`
abbrev pub deny_for {ℓ} : {A : Type ℓ} → (A → Denial) → Option A → Check (Unit {0})
deny_for denial none = passed tt
deny_for denial (some reason) = denied (denial reason)

abbrev pub or_deny {ℓ} : {A : Type ℓ} → Option A → Denial → Check A
or_deny none reason = denied reason
or_deny (some a) reason = passed a

-- What the pre-trade gate is asked about: a placement's arguments, or the first order of a job.
pub data Placement : Type 0 where
  given : Dict Argument → Placement
  planned : OrderInput → Placement

pub data ParsedRequest : Type 0 where
  issue : ℕ → ParsedRequest
  request : WorkRequest → ParsedRequest

-- The order-walk runner as the hooks see it, at the time of the call.
pub record OrderWorkView : Type 0 where
  pub placement_ended : Bool
  pub holds : Argument → Bool
  pub placing : Bool
  pub plan : WorkRequest → Option ℕ

-- `OutputRepairGate`
pub record OutputRepairGate : Type 0 where
  pub reason : Option ℕ
  pub permitted : Option (List ToolName)

pub record OwnedWorkspaceObject : Type 0 where
  pub name : ℕ

-- What is injected, as it is at the time of a call. Also here, as parameters of which nothing is assumed, are
-- functions of the package: `role_of` and `role_tools` (agent/mignons.py, for the session's agent),
-- `parse_brief` (domain/mignon_brief.py), `effective_input` (integrations/websearch/inputs.py), `urls_of` and
-- `url_key` (`_extract_urls`, `_url_key`), `append_rules_filters`, `parse_work_request`, and `is_account_key`.
pub record HookDeps : Type 0 where
  pub effective_mode : ExecutionMode
  pub kill_switch : Bool
  pub writes_enabled : Bool
  pub text_of : ℕ → List ℕ
  pub workspace_prefix : List ℕ
  pub is_account_key : ℕ → Bool
  pub placeholder : ℕ
  pub account_number : ℕ
  pub rules : WorkspaceRules
  pub by_id : WorkspaceKind → ℕ → Attempt (Option OwnedWorkspaceObject)
  pub by_name : WorkspaceKind → ℕ → Attempt (Option OwnedWorkspaceObject)
  pub mutations_this_run : Attempt (Option ℕ)
  pub owned_count : WorkspaceKind → Attempt (Option ℕ)
  pub items_in : ℕ → Attempt (Option ℕ)
  pub registries : List ToolRegistry
  pub role_of : Option Argument → Option Role
  pub role_tools : Role → ToolName → Bool
  pub account_scope_table : ℕ → Option AccountScopeSpec
  pub workspace_targets : ℕ → Option WorkspaceTargetSpec
  pub web_precheck : Option (Dict Argument → Option ℕ)
  pub withheld : Option (ℕ → Option ℕ)
  pub proxy_dispatch : Option (ℕ → Bool)
  pub mignon_limits : Option MignonLimits
  pub order_venue : Option OrderVenue
  pub output_gate : Option OutputRepairGate
  pub pretrade_gate : Option (Placement → Option ℕ → Bool → Attempt (Option ℕ))
  pub order_work : Option OrderWorkView
  pub session_remaining : Option ℕ
  pub wind_down_seconds : ℕ
  pub window_seconds : ℕ
  pub parse_brief : Option Argument → Bool
  pub effective_input : ℕ → Dict Argument → Option (Dict Argument)
  pub urls_of : Dict Argument → List ℕ
  pub url_key : ℕ → ℕ
  pub append_rules_filters : Dict Argument → Option (Dict Argument)
  pub parse_work_request : Dict Argument → ParsedRequest

-- An allowed call that waits for its result.
pub record Call : Type 0 where
  pub tool_call_id : ℕ
  pub server : ℕ
  pub tool : ℕ
  pub tier : ToolTier
  pub effective_input : Dict Argument

-- What the recorder is told of a call.
pub data Entry : Type 0 where
  requested dispatched registered reserved : (tool_call_id : ℕ) → Entry
  denial_of failure_of : (tool_call_id : ℕ) → Entry

-- What the hooks of one session share, and what was recorded, the last entry first. `mignon_urls` is filled
-- when a result is delivered, which is not modelled.
pub record HookState : Type 0 where
  pub calls : Dict Call
  pub spawned : ℕ
  pub active : List ℕ
  pub mignon_urls : Dict (List ℕ)
  pub refused_urls : List ℕ
  pub stop : RunControl
  pub log : List Entry
