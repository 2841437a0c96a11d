-- ===== src/Hooks/Calls/Stopping.antt =====
-- agent/hooks.py after the stop latch is set: no call that acts is let through any more.
use wheelta_robinhood_agent.Common.{
  ℕ, ◌≡◌, refl, ap, ◌∙◌, inl, inr, Bool, true, false, ◌&&◌, Bool-cases, Option, none, some, is_some,
  List, [], ◌∷◌, find, ◌==◌, ==_iff,
}
use wheelta_robinhood_agent.RunControl.{RunControl, request_stop, stop_requested}
use wheelta_robinhood_agent.Hooks
use wheelta_robinhood_agent.Hooks.{
  HookDeps, Entry, requested, HookState, ToolSpec, mcp_tool, robinhood, cancel_tool,
}
use wheelta_robinhood_agent.Hooks.Resolve.{resolve, of_spec, registered_spec, Decision, acts}
use wheelta_robinhood_agent.Hooks.Decided.{decide-IsPermitted}
use wheelta_robinhood_agent.Hooks.Admission.{Admitted, admitted, broken, ExecutorUse, admit}
use wheelta_robinhood_agent.Hooks.Admission.Recorded.{IsSettled, admit-IsSettled}
use wheelta_robinhood_agent.Hooks.Calls.{
  ToolUse, Answer, allowed, refused, interrupted, stopped, add_entry, is_proxied, pre_tool_use,
  take_call, take_failed, call_returned, call_failed, subagent_start,
}
use wheelta_robinhood_agent.Hooks.Calls.Recorded.{IsAnswered, pre_tool_use-IsAnswered}
use wheelta_robinhood_agent.Hooks.Calls.Spawns.{
  Event, asks, admits, returns, fails, starts, after_event, after_events, direct_tier,
}

abbrev IsStopping : HookState → Type 0
IsStopping s = stop_requested s.stop ≡ true

slot_stays :
    (now : ℕ) (s : HookState) (slot : RunControl)
    → s.stop ≡ slot
    → stop_requested slot ≡ true
    → IsStopping (stopped now s)
unfolding stopped request_stop
slot_stays now s none h k = absurd cc
slot_stays now s (some first) h k = rw h refl

stopped_stays : (now : ℕ) (s : HookState) → IsStopping s → IsStopping (stopped now s)
stopped_stays now s h = slot_stays now s s.stop refl h

answered_stays :
    (records : List Entry → Entry → Bool) (deps : HookDeps) (s : HookState) (u : ToolUse)
    (answer : Answer) (s' : HookState)
    → IsAnswered records deps s u (answer, s')
    → IsStopping s
    → IsStopping s'
answered_stays records deps s u (allowed d) s' (decided, sent) h = rw sent.stop_kept h
answered_stays records deps s u (refused reason) s' e h = rw e h
answered_stays records deps s u interrupted s' halted h = halted.stopping

settled_stays :
    (records : List Entry → Entry → Bool) (deps : HookDeps) (s : HookState) (u : ExecutorUse)
    (answer : Admitted) (s' : HookState)
    → IsSettled records deps s u (answer, s')
    → IsStopping s
    → IsStopping s'
settled_stays records deps s u (admitted d) s' a h = rw a.logged h
settled_stays records deps s u (Admitted.refused reason) s' e h = rw e h
settled_stays records deps s u broken s' halted h = halted.stopping

taken_stays :
    (deps : HookDeps) (now use_id : ℕ) (s : HookState) (o : Option Hooks.Call)
    → IsStopping s
    → IsStopping (take_call deps now s use_id o) × IsStopping (take_failed deps now s use_id o)
taken_stays deps now use_id s none h = (stopped_stays now s h, stopped_stays now s h)
taken_stays deps now use_id s (some call) h = (h, h)

event_stays :
    (records : List Entry → Entry → Bool) (e : Event) (s : HookState)
    → IsStopping s
    → IsStopping (after_event records e s)
unfolding call_returned call_failed subagent_start
event_stays records (asks deps u) s h =
    let outcome = pre_tool_use records deps u s in
    answered_stays records deps s u outcome.0 outcome.1 (pre_tool_use-IsAnswered records deps s u) h
event_stays records (admits deps u) s h =
    let outcome = admit records deps u s in
    settled_stays records deps s u outcome.0 outcome.1 (admit-IsSettled records deps s u) h
event_stays records (returns deps now none) s h = stopped_stays now s h
event_stays records (returns deps now (some use_id)) s h =
    (taken_stays deps now use_id s (find s.calls use_id) h).0
event_stays records (fails deps now none) s h = stopped_stays now s h
event_stays records (fails deps now (some use_id)) s h =
    (taken_stays deps now use_id s (find s.calls use_id) h).1
event_stays records (starts deps now agent_type) s h =
    elim (Bool-cases (is_some (deps.role_of agent_type) && is_some deps.mignon_limits)) [
      | inl mignon ↦ rw mignon h
      | inr other ↦ rw other (stopped_stays now s h)
    ]

events_stay :
    (records : List Entry → Entry → Bool) (es : List Event) (s : HookState)
    → IsStopping s
    → IsStopping (after_events records es s)
events_stay records [] s h = h
events_stay records (e ∷ es) s h =
    events_stay records es (after_event records e s) (event_stays records e s h)

not_acting : (b : Bool) → (b ≡ true → false ≡ true) → b ≡ false
not_acting true h = absurd (let e = h refl in cc)
not_acting false h = refl

stopped_reads :
    (records : List Entry → Entry → Bool) (deps : HookDeps) (s : HookState) (u : ToolUse)
    (d : Decision) (answer : Answer) (s' : HookState)
    → IsAnswered records deps s u (answer, s')
    → IsStopping s
    → answer ≡ allowed d
    → acts d.tier ≡ false
stopped_reads records deps s u d (refused reason) s' a h e = absurd cc
stopped_reads records deps s u d interrupted s' a h e = absurd cc
stopped_reads records deps s u d (allowed d') s' (decided, sent) h e =
    let r = resolve u.name deps.registries in
    let permitted =
      decide-IsPermitted deps (add_entry s (requested u.tool_call_id)) r decided.input u.caller none
        decided.decision decided.decided in
    let same : d ≡ d' = cc in
    let tiers : d'.tier ≡ decided.decision.tier =
      ap (λ x. x.tier) decided.direct
      ∙ direct_tier records deps (is_proxied records deps r) decided.decision.upstream
          decided.decision in
    rw (same, tiers)
      (not_acting (acts decided.decision.tier)
        (λ t. (permitted.accessible.running t).not_stopped h))

-- Once a stop is requested, whatever reaches the hooks afterwards, a call of an agent that is let through
-- only reads: it places or cancels no order, writes no workspace object and spawns no Mignon.
pub events_reads :
    (records : List Entry → Entry → Bool) (es : List Event) (deps : HookDeps) (s : HookState)
    (u : ToolUse) (d : Decision)
    → stop_requested s.stop ≡ true
    → (pre_tool_use records deps u (after_events records es s)).0 ≡ allowed d
    → acts d.tier ≡ false
events_reads records es deps s u d h e =
    let s1 = after_events records es s in
    let outcome = pre_tool_use records deps u s1 in
    stopped_reads records deps s1 u d outcome.0 outcome.1
      (pre_tool_use-IsAnswered records deps s1 u) (events_stay records es s h) e

-- The tool that a call of the executor names is the one that is resolved.
resolved_tool : (server tool : ℕ) (o : Option ToolSpec) → (of_spec server tool o).tool ≡ tool
resolved_tool server tool none = refl
resolved_tool server tool (some spec) = refl

stopped_cancels :
    (records : List Entry → Entry → Bool) (deps : HookDeps) (s : HookState) (u : ExecutorUse)
    (d : Decision) (answer : Admitted) (s' : HookState)
    → IsSettled records deps s u (answer, s')
    → IsStopping s
    → answer ≡ admitted d
    → acts d.tier ≡ true
    → (u.tool ≡ cancel_tool) × (u.call.after_stop_cancel ≡ true)
unfolding resolve
stopped_cancels records deps s u d (Admitted.refused reason) s' a h e t = absurd cc
stopped_cancels records deps s u d broken s' a h e t = absurd cc
stopped_cancels records deps s u d (admitted d') s' a h e t =
    let same : d ≡ d' = cc in
    let acting : acts d'.tier ≡ true = rw⁻¹ same t in
    let last = (a.permitted.accessible.running acting).not_stopped h in
    let r = resolve (mcp_tool robinhood u.tool) deps.registries in
    let (asked, cancels) = both u.call.after_stop_cancel (r.tool == cancel_tool) last in
    let named = resolved_tool robinhood u.tool (registered_spec deps.registries robinhood u.tool) in
    (rw⁻¹ named ((==_iff r.tool cancel_tool).0 cancels), asked)
  where
    both : (x y : Bool) → (x && y) ≡ true → (x ≡ true) × (y ≡ true)
    both true true p = (refl, refl)
    both true false p = absurd cc
    both false y p = absurd cc

-- Once a stop is requested, whatever reaches the hooks afterwards, the order executor is admitted to no call
-- that acts but the one cancel that it asks for as the cancel after a stop.
pub events_cancels :
    (records : List Entry → Entry → Bool) (es : List Event) (deps : HookDeps) (s : HookState)
    (u : ExecutorUse) (d : Decision)
    → stop_requested s.stop ≡ true
    → (admit records deps u (after_events records es s)).0 ≡ admitted d
    → acts d.tier ≡ true
    → (u.tool ≡ cancel_tool) × (u.call.after_stop_cancel ≡ true)
events_cancels records es deps s u d h e t =
    let s1 = after_events records es s in
    let outcome = admit records deps u s1 in
    stopped_cancels records deps s1 u d outcome.0 outcome.1 (admit-IsSettled records deps s1 u)
      (events_stay records es s h) e t
