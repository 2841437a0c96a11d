-- ===== src/Hooks/Admission.antt =====
-- agent/hooks.py, `guarded_admit`: a call of the order executor passes the same checks and recording. Its caller is
-- given the recorder's ID of the call.
pub mod Recorded
use wheelta_robinhood_agent.Common.{
  ℕ, Bool, true, false, not, Option, none, some, List, if◌then◌else◌, Dict,
}
use wheelta_robinhood_agent.AccountScope.{Argument}
use wheelta_robinhood_agent.Hooks.{
  robinhood, mcp_tool, Denial, Check, denied, failed, passed, ◌>>=◌, ◌>>◌, deny_if, HookDeps, Entry,
  requested, dispatched, registered, denial_of, HookState, executor_needs_proxy,
}
use wheelta_robinhood_agent.Hooks.Resolve.{Resolved, resolve, Caller, ExecutorCall, Decision}
use wheelta_robinhood_agent.Hooks.Decide.{decide}
use wheelta_robinhood_agent.Hooks.Calls.{stopped, write, try_write, is_proxied}

-- `Refused` keeps why where the checks denied.
pub data Admitted : Type 0 where
  admitted : Decision → Admitted
  refused : Denial → Admitted
  broken : Admitted

pub record ExecutorUse : Type 0 where
  pub tool : ℕ
  pub input : Dict Argument
  pub call : ExecutorCall
  pub now : ℕ
  pub tool_call_id : ℕ

abbrev pub no_caller : Caller
no_caller = record { agent_id = none; agent_type = none }

module _ (records : List Entry → Entry → Bool) (deps : HookDeps) where
  -- A refusal with the latch set.
  abbrev pub break : ℕ → HookState → Admitted × HookState
  break now s = (broken, stopped now s)

  abbrev pub after_registration :
      ExecutorUse → Decision → HookState → Option HookState → Admitted × HookState
  after_registration u d s none = break u.now s
  after_registration u d s (some s') = (admitted d, s')

  abbrev pub after_dispatch :
      ExecutorUse → Decision → HookState → Option HookState → Admitted × HookState
  after_dispatch u d s none = break u.now s
  after_dispatch u d s (some s') =
      after_registration u d s' (write records deps (registered u.tool_call_id) s')

  abbrev pub after_denial :
      ExecutorUse → Denial → HookState → Option HookState → Admitted × HookState
  after_denial u reason s none = break u.now s
  after_denial u reason s (some s') = (refused reason, s')

  unfoldable pub admission : ExecutorUse → HookState → Check Decision → Admitted × HookState
  unfolding stopped
  admission u s (denied reason) =
      after_denial u reason s (write records deps (denial_of u.tool_call_id) s)
  admission u s failed =
      (broken, try_write records deps (denial_of u.tool_call_id) (stopped u.now s))
  admission u s (passed d) = after_dispatch u d s (write records deps (dispatched u.tool_call_id) s)

  unfoldable pub check_executor : HookState → ExecutorUse → Resolved → Check Decision
  unfolding decide
  check_executor s u r = do
    deny_if (not (is_proxied records deps r)) executor_needs_proxy
    decide deps s r u.input no_caller (some u.call)

  abbrev pub after_request : ExecutorUse → HookState → Option HookState → Admitted × HookState
  after_request u s none = break u.now s
  after_request u s (some s') =
      admission u s' (check_executor s' u (resolve (mcp_tool robinhood u.tool) deps.registries))

  unfoldable pub admit : ExecutorUse → HookState → Admitted × HookState
  unfolding admission check_executor resolve
  admit u s = after_request u s (write records deps (requested u.tool_call_id) s)
