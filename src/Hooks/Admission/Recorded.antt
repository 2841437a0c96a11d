-- ===== src/Hooks/Admission/Recorded.antt =====
-- agent/hooks.py: what `guarded_admit` leaves recorded, however the recorder, the checks and the proxy behave.
use wheelta_robinhood_agent.Common.{
  ◌≡◌, refl, Bool, true, false, not, none, some, List, ◌∷◌, if◌then◌else◌,
}
use wheelta_robinhood_agent.Hooks.{
  robinhood, mcp_tool, Denial, Check, denied, failed, passed, deny_if, HookDeps, Entry, requested,
  dispatched, registered, denial_of, HookState, executor_needs_proxy,
}
use wheelta_robinhood_agent.Hooks.Resolve.{Resolved, resolve, Decision}
use wheelta_robinhood_agent.Hooks.Decided.{IsPermitted, decide-IsPermitted}
use wheelta_robinhood_agent.Hooks.Passing.{then-passed, deny_not-passed}
use wheelta_robinhood_agent.Hooks.Calls.{stopped, add_entry, is_proxied}
use wheelta_robinhood_agent.Hooks.Calls.Recorded.{IsHalted, stopped-IsHalted}
use wheelta_robinhood_agent.Hooks.Admission.{
  Admitted, admitted, refused, broken, ExecutorUse, no_caller, after_registration, after_dispatch,
  after_denial, admission, check_executor, after_request, admit,
}

module _ (records : List Entry → Entry → Bool) (deps : HookDeps) (s : HookState)
    (u : ExecutorUse) where
  abbrev asked : HookState
  asked = add_entry s (requested u.tool_call_id)

  abbrev tool : Resolved
  tool = resolve (mcp_tool robinhood u.tool) deps.registries

  -- The call goes through the proxy, the checks passed it, and its request, its dispatch and its
  -- registration, in this order, are all that changed.
  pub record IsAdmitted (d : Decision) (s' : HookState) : Type 0 where
    pub proxied : is_proxied records deps tool ≡ true
    pub permitted : IsPermitted deps asked tool u.input no_caller (some u.call) d
    pub logged :
        s' ≡ add_entry (add_entry asked (dispatched u.tool_call_id)) (registered u.tool_call_id)

  abbrev pub IsSettled : Admitted × HookState → Type 0
  IsSettled (admitted d, s') = IsAdmitted d s'
  IsSettled (refused reason, s') = s' ≡ add_entry asked (denial_of u.tool_call_id)
  IsSettled (broken, s') = IsHalted s s'

  registration-IsSettled :
      (d : Decision) (b : Bool)
      → is_proxied records deps tool ≡ true
      → IsPermitted deps asked tool u.input no_caller (some u.call) d
      → IsSettled (
          after_registration records deps u d (add_entry asked (dispatched u.tool_call_id)) (
            if b
            then some (
                add_entry (add_entry asked (dispatched u.tool_call_id)) (registered u.tool_call_id))
            else none))
  registration-IsSettled d true proxied permitted = record {
    proxied = proxied;
    permitted = permitted;
    logged = refl;
  }
  registration-IsSettled d false proxied permitted =
      stopped-IsHalted u.now s (dispatched u.tool_call_id ∷ asked.log)

  dispatch-IsSettled :
      (d : Decision) (b : Bool)
      → is_proxied records deps tool ≡ true
      → IsPermitted deps asked tool u.input no_caller (some u.call) d
      → IsSettled (
          after_dispatch records deps u d asked
            (if b then some (add_entry asked (dispatched u.tool_call_id)) else none))
  dispatch-IsSettled d true proxied permitted =
      registration-IsSettled d
        (records (dispatched u.tool_call_id ∷ asked.log) (registered u.tool_call_id)) proxied
        permitted
  dispatch-IsSettled d false proxied permitted = stopped-IsHalted u.now s asked.log

  denial-IsSettled :
      (reason : Denial) (b : Bool)
      → IsSettled (
          after_denial records deps u reason asked
            (if b then some (add_entry asked (denial_of u.tool_call_id)) else none))
  denial-IsSettled reason true = refl
  denial-IsSettled reason false = stopped-IsHalted u.now s asked.log

  -- A stop that is requested first, and a denial that may be recorded after it.
  failed-IsSettled :
      (b : Bool)
      → IsHalted s (
          if b
          then add_entry (stopped u.now asked) (denial_of u.tool_call_id)
          else stopped u.now asked)
  failed-IsSettled true =
      let h = stopped-IsHalted u.now s asked.log in
      record {
        stopping = h.stopping;
        calls_kept = h.calls_kept;
        spawned_kept = h.spawned_kept;
        active_kept = h.active_kept;
      }
  failed-IsSettled false = stopped-IsHalted u.now s asked.log

  admission-IsSettled :
      (c : Check Decision)
      → check_executor records deps asked u tool ≡ c
      → IsSettled (admission records deps u asked c)
  unfolding admission check_executor
  admission-IsSettled (denied reason) h =
      denial-IsSettled reason (records asked.log (denial_of u.tool_call_id))
  admission-IsSettled failed h =
      failed-IsSettled (records (stopped u.now asked).log (denial_of u.tool_call_id))
  admission-IsSettled (passed d) h =
      let unproxied = deny_if (not (is_proxied records deps tool)) executor_needs_proxy in
      let (proxied, decided) = then-passed unproxied _ h in
      dispatch-IsSettled d (records asked.log (dispatched u.tool_call_id))
        (deny_not-passed (is_proxied records deps tool) executor_needs_proxy proxied)
        (decide-IsPermitted deps asked tool u.input no_caller (some u.call) d decided)

  request-IsSettled :
      (b : Bool) → IsSettled (after_request records deps u s (if b then some asked else none))
  request-IsSettled true = admission-IsSettled (check_executor records deps asked u tool) refl
  request-IsSettled false = stopped-IsHalted u.now s s.log

  -- However the recorder, the checks and the proxy behave, a call of the order executor is settled in one of
  -- three ways. It is admitted to one of the executor's tools through the proxy, when the hook's checks permit
  -- it, and nothing changed but that its request, its dispatch and its registration were recorded in this
  -- order; or it is refused and only the request and the denial were recorded; or it is refused with the
  -- stop latch set.
  pub admit-IsSettled : IsSettled (admit records deps u s)
  unfolding admit
  admit-IsSettled = request-IsSettled (records s.log (requested u.tool_call_id))
