-- ===== src/Hooks/Calls.antt =====
-- agent/hooks.py: `pre_tool_use` and the executor's `admit`, with the recording around `decide`, and what the hooks
-- after a call do to the session's bookkeeping. Whether a recording or a registration succeeds is a
-- parameter, which may read all that was recorded before. The envelopes of the results are left out.
pub mod Recorded
pub mod Spawns
pub mod Stopping
use wheelta_robinhood_agent.Common.{
  ℕ, suc, Bool, true, false, not, ◌&&◌, Option, none, some, is_some, List, [], ◌∷◌, ◌++◌, map, any,
  keep_if, ◌==◌, if◌then◌else◌, aware, Dict, Item, find, assign,
}
use wheelta_robinhood_agent.RunControl.{
  RunControl, infrastructure_failure, request_stop, slot_after,
}
use wheelta_robinhood_agent.AccountScope.{Argument}
use wheelta_robinhood_agent.Hooks
use wheelta_robinhood_agent.Hooks.{
  ToolTier, robinhood, order_work_server, tavily, work_tool, extract_tool, ToolName, mcp_tool,
  ParsedRequest, issue, request, OrderWorkView, Denial, Check, denied, failed, passed, ◌>>=◌, ◌>>◌,
  deny_if, or_deny, HookDeps, Entry, requested, dispatched, registered, reserved, denial_of,
  failure_of, HookState, use_id_mismatch, input_not_object, executor_needs_proxy,
}
use wheelta_robinhood_agent.Hooks.Resolve.{
  Resolved, resolve, is_builtin, Caller, ExecutorCall, Decision, is_delegation, proxies,
}
use wheelta_robinhood_agent.Hooks.Checks.{elem}
use wheelta_robinhood_agent.Hooks.Decide.{decide, is_call}

-- The input of `PreToolUse`, the time, and the ID under which the request is recorded.
pub record ToolUse : Type 0 where
  pub use_id : Option ℕ
  pub sdk_use_id : Option ℕ
  pub name : ToolName
  pub input : Option (Dict Argument)
  pub caller : Caller
  pub now : ℕ
  pub tool_call_id : ℕ

pub data Answer : Type 0 where
  allowed : Decision → Answer
  refused : Denial → Answer
  interrupted : Answer

-- `stop`
unfoldable pub stopped : ℕ → HookState → HookState
unfolding request_stop
stopped now s = record s {
  stop = slot_after s.stop (request_stop infrastructure_failure (aware now) s.stop);
}

abbrev pub interrupt : ℕ → HookState → Answer × HookState
interrupt now s = (interrupted, stopped now s)

abbrev pub add_entry : HookState → Entry → HookState
add_entry s entry = record s { log = entry ∷ s.log }

-- `set.add`
abbrev pub add : ℕ → List ℕ → List ℕ
add x xs = if elem x xs then xs else x ∷ xs

-- `set.discard`
abbrev pub discard : ℕ → List ℕ → List ℕ
discard x xs = keep_if (λ y. not (y == x)) xs

module _ (records : List Entry → Entry → Bool) (deps : HookDeps) where
  -- A recording, which may raise.
  abbrev pub write : Entry → HookState → Option HookState
  write entry s = if records s.log entry then some (add_entry s entry) else none

  -- A recording whose failure is suppressed.
  abbrev pub try_write : Entry → HookState → HookState
  try_write entry s = if records s.log entry then add_entry s entry else s

  abbrev pub is_proxied : Resolved → Bool
  is_proxied r = not (is_builtin r.name) && proxies deps deps.proxy_dispatch r.server

  -- A direct server is sent the substituted input itself.
  abbrev pub direct_from : Bool → Option (Dict Argument) → Decision → Decision
  direct_from true upstream d = d
  direct_from false none d = d
  direct_from false (some sent) d = record d { effective = sent; upstream = none }

  abbrev pub differs : ℕ → Option ℕ → Bool
  differs use_id none = false
  differs use_id (some sdk_use_id) = not (sdk_use_id == use_id)

  unfoldable pub checked : HookState → ℕ → ToolUse → Resolved → Check Decision
  unfolding decide
  checked s use_id u r = do
    deny_if (differs use_id u.sdk_use_id) use_id_mismatch
    input ← or_deny u.input input_not_object
    d ← decide deps s r input u.caller none
    passed (direct_from (is_proxied r) d.upstream d)

  abbrev pub call_of : ToolUse → Resolved → Decision → Hooks.Call
  call_of u r d = record {
    tool_call_id = u.tool_call_id;
    server = r.server;
    tool = r.tool;
    tier = d.tier;
    effective_input = d.effective;
  }

  -- The call is under way.
  unfoldable pub let_through : ℕ → ToolUse → Resolved → Decision → HookState → Answer × HookState
  let_through use_id u r d s =
      let s' = record s { calls = assign s.calls use_id (call_of u r d) } in
      (
        allowed d,
        if is_delegation d.tier
            then record s' { spawned = suc s.spawned; active = add use_id s.active }
            else s',
      )

  -- An admitted order-work call counts as working at once.
  abbrev pub reserve_work :
      ℕ
      → ToolUse
      → Resolved
      → Decision
      → HookState
      → Option OrderWorkView
      → ParsedRequest
      → Answer × HookState
  reserve_work use_id u r d s none parsed = interrupt u.now s
  reserve_work use_id u r d s (some view) (issue reason) = interrupt u.now s
  reserve_work use_id u r d s (some view) (request work) =
      let_through use_id u r d (add_entry s (reserved u.tool_call_id))

  unfoldable pub after_register : ℕ → ToolUse → Resolved → Decision → HookState → Answer × HookState
  unfolding let_through
  after_register use_id u r d s =
      if is_call r order_work_server work_tool
      then reserve_work use_id u r d s deps.order_work (deps.parse_work_request d.effective)
      else let_through use_id u r d s

  abbrev pub register_result :
      ℕ → ToolUse → Resolved → Decision → HookState → Option HookState → Answer × HookState
  register_result use_id u r d s none = interrupt u.now (try_write (failure_of u.tool_call_id) s)
  register_result use_id u r d s (some s') = after_register use_id u r d s'

  unfoldable pub after_dispatch :
      ℕ → ToolUse → Resolved → Decision → HookState → Option HookState → Answer × HookState
  unfolding after_register
  after_dispatch use_id u r d s none = interrupt u.now s
  after_dispatch use_id u r d s (some s') =
      if is_proxied r
      then register_result use_id u r d s' (write (registered u.tool_call_id) s')
      else after_register use_id u r d s'

  abbrev pub after_denial : ToolUse → Denial → HookState → Option HookState → Answer × HookState
  after_denial u reason s none = interrupt u.now s
  after_denial u reason s (some s') = (refused reason, s')

  unfoldable pub answer : ℕ → ToolUse → Resolved → HookState → Check Decision → Answer × HookState
  unfolding after_dispatch
  answer use_id u r s (denied reason) = after_denial u reason s (write (denial_of u.tool_call_id) s)
  answer use_id u r s failed = interrupt u.now (try_write (denial_of u.tool_call_id) s)
  answer use_id u r s (passed d) =
      after_dispatch use_id u r d s (write (dispatched u.tool_call_id) s)

  abbrev pub after_request : ℕ → ToolUse → HookState → Option HookState → Answer × HookState
  after_request use_id u s none = interrupt u.now s
  after_request use_id u s (some s') =
      let r = resolve u.name deps.registries in answer use_id u r s' (checked s' use_id u r)

  abbrev pub identified : ToolUse → HookState → Option ℕ → Answer × HookState
  identified u s none = interrupt u.now s
  identified u s (some use_id) = after_request use_id u s (write (requested u.tool_call_id) s)

  unfoldable pub pre_tool_use : ToolUse → HookState → Answer × HookState
  unfolding checked answer resolve
  pre_tool_use u s = identified u s u.use_id

-- What ends the bookkeeping of a call, and the URLs that are not extracted again when it failed.
module _ (deps : HookDeps) where
  abbrev pub without : Dict Hooks.Call → ℕ → Dict Hooks.Call
  without calls use_id = keep_if (λ e. not (e.key == use_id)) calls

  abbrev pub ended : ℕ → Hooks.Call → HookState → HookState
  ended use_id call s = record s {
    calls = without s.calls use_id;
    active = if is_delegation call.tier then discard use_id s.active else s.active;
  }

  abbrev pub unextracted : Hooks.Call → List ℕ
  unextracted call =
      if call.server == tavily && call.tool == extract_tool
      then map deps.url_key (deps.urls_of call.effective_input)
      else []

  abbrev pub take_call : ℕ → HookState → ℕ → Option Hooks.Call → HookState
  take_call now s use_id none = stopped now s
  take_call now s use_id (some call) = ended use_id call s

  -- `post_tool_use`, as far as the pending calls go.
  unfoldable pub call_returned : ℕ → Option ℕ → HookState → HookState
  unfolding stopped
  call_returned now none s = stopped now s
  call_returned now (some use_id) s = take_call now s use_id (find s.calls use_id)

  abbrev pub take_failed : ℕ → HookState → ℕ → Option Hooks.Call → HookState
  take_failed now s use_id none = stopped now s
  take_failed now s use_id (some call) =
      let s' = ended use_id call s in
      record s' { refused_urls = unextracted call ++ s.refused_urls }

  -- `post_tool_use_failure`, as far as the pending calls and the URLs go.
  unfoldable pub call_failed : ℕ → Option ℕ → HookState → HookState
  unfolding stopped
  call_failed now none s = stopped now s
  call_failed now (some use_id) s = take_failed now s use_id (find s.calls use_id)

  -- `subagent_start`: only a Mignon may start.
  unfoldable pub subagent_start : ℕ → Option Argument → HookState → HookState
  unfolding stopped
  subagent_start now agent_type s =
      if is_some (deps.role_of agent_type) && is_some deps.mignon_limits then s else stopped now s
