-- ===== src/Hooks/Calls/Spawns.antt =====
-- agent/hooks.py: the Mignons of a session over all that its hooks are told, in whatever order.
use wheelta_robinhood_agent.Common.{
  ℕ, suc, ◌≤◌, ◌≡◌, refl, ap, ◌∙◌, inl, inr, arith, Bool, true, false, not, ◌&&◌, Bool-cases,
  Option, none, some, is_some, List, [], ◌∷◌, All, length, keep_if, ◌==◌, Dict, find,
}
use wheelta_robinhood_agent.AccountScope.{Argument}
use wheelta_robinhood_agent.Hooks
use wheelta_robinhood_agent.Hooks.{
  MignonLimits, robinhood, mcp_tool, Check, denied, failed, passed, HookDeps, Entry, requested,
  dispatched, registered, denial_of, HookState,
}
use wheelta_robinhood_agent.Hooks.Resolve.{resolve, Decision, is_delegation}
use wheelta_robinhood_agent.Hooks.Permitted.{HasRoom}
use wheelta_robinhood_agent.Hooks.Decided.{decide-IsPermitted}
use wheelta_robinhood_agent.Hooks.Admission.{Admitted, admitted, broken, ExecutorUse, admit}
use wheelta_robinhood_agent.Hooks.Admission.Recorded.{IsSettled, admit-IsSettled}
use wheelta_robinhood_agent.Hooks.Calls.{
  ToolUse, Answer, allowed, refused, interrupted, stopped, add_entry, add, direct_from, is_proxied,
  pre_tool_use, ended, take_call, take_failed, call_returned, call_failed, subagent_start,
}
use wheelta_robinhood_agent.Hooks.Calls.Recorded.{
  IsDecided, IsSent, IsAnswered, pre_tool_use-IsAnswered,
}

-- What reaches the hooks, each with what is injected at that time.
pub data Event : Type 0 where
  asks : HookDeps → ToolUse → Event
  admits : HookDeps → ExecutorUse → Event
  returns fails : HookDeps → (now : ℕ) → Option ℕ → Event
  starts : HookDeps → (now : ℕ) → Option Argument → Event

module _ (records : List Entry → Entry → Bool) where
  abbrev pub after_event : Event → HookState → HookState
  after_event (asks deps u) s = (pre_tool_use records deps u s).1
  after_event (admits deps u) s = (admit records deps u s).1
  after_event (returns deps now use_id) s = call_returned deps now use_id s
  after_event (fails deps now use_id) s = call_failed deps now use_id s
  after_event (starts deps now agent_type) s = subagent_start deps now agent_type s

  abbrev pub after_events : List Event → HookState → HookState
  after_events [] s = s
  after_events (e ∷ es) s = after_events es (after_event e s)

-- The arguments that are sent do not change the tier.
pub direct_tier :
    (records : List Entry → Entry → Bool) (deps : HookDeps) (b : Bool) (o : Option (Dict Argument))
    (d : Decision)
    → (direct_from records deps b o d).tier ≡ d.tier
direct_tier records deps true o d = refl
direct_tier records deps false none d = refl
direct_tier records deps false (some sent) d = refl

abbrev pub deps_of : Event → HookDeps
deps_of (asks deps u) = deps
deps_of (admits deps u) = deps
deps_of (returns deps now use_id) = deps
deps_of (fails deps now use_id) = deps
deps_of (starts deps now agent_type) = deps

module _ (limits : MignonLimits) where
  abbrev pub HasLimits : Event → Type 0
  HasLimits e = (deps_of e).mignon_limits ≡ some limits

  -- No more spawns than a run may have, and no more at a time.
  pub record IsWithin (s : HookState) : Type 0 where
    pub spawned_le : s.spawned ≤ limits.max_per_run
    pub active_le : length s.active ≤ limits.max_concurrent

  kept-IsWithin :
      (s s' : HookState) → s'.spawned ≡ s.spawned → s'.active ≡ s.active → IsWithin s → IsWithin s'
  kept-IsWithin s s' e f h = record { spawned_le = rw e h.spawned_le; active_le = rw f h.active_le }

  length-add : (x : ℕ) (xs : List ℕ) → length (add x xs) ≤ suc (length xs)
  length-add x xs = ground arith

  length-keep_if : (p : ℕ → Bool) (xs : List ℕ) → length (keep_if p xs) ≤ length xs
  length-keep_if p [] = omega arith
  length-keep_if p (x ∷ xs) = ground (arith, length-keep_if p xs)

  module _ (records : List Entry → Entry → Bool) (deps : HookDeps)
      (limited : deps.mignon_limits ≡ some limits) where
    room-IsWithin :
        (s s' : HookState) (use_id : ℕ)
        → HasRoom deps s
        → s'.spawned ≡ suc s.spawned
        → s'.active ≡ add use_id s.active
        → IsWithin s'
    room-IsWithin s s' use_id room e f =
        let same : room.limits ≡ limits = let h = room.limited in cc in
        record {
          spawned_le = rw e (let lt = rw same at room.spawned_lt in omega (arith, lt));
          active_le =
              rw f (
                let lt = rw same at room.active_lt in
                omega (arith, lt, length-add use_id s.active));
        }

    sent-IsWithin :
        (s : HookState) (u : ToolUse) (d : Decision) (s' : HookState)
        → IsDecided records deps (add_entry s (requested u.tool_call_id)) u d
        → IsSent records deps s u d s'
        → IsWithin s
        → IsWithin s'
    sent-IsWithin s u d s' decided sent h = elim (Bool-cases (is_delegation d.tier)) [
      | inl spawns ↦
          let asked = add_entry s (requested u.tool_call_id) in
          let r = resolve u.name deps.registries in
          let permitted =
            decide-IsPermitted deps asked r decided.input u.caller none decided.decision
              decided.decided in
          let tiers : d.tier ≡ decided.decision.tier =
            ap (λ x. x.tier) decided.direct
            ∙ direct_tier records deps (is_proxied records deps r) decided.decision.upstream
                decided.decision in
          let spawns' : is_delegation decided.decision.tier ≡ true = rw⁻¹ tiers spawns in
          let room = permitted.accessible.spawns spawns' in
          let (one_more, added) = sent.counted spawns in
          room-IsWithin s s' sent.use_id
            (record {
              limits = room.limits;
              limited = room.limited;
              spawned_lt = room.spawned_lt;
              active_lt = room.active_lt;
            })
            one_more added
      | inr other ↦
          let (spawned, active) = sent.uncounted other in kept-IsWithin s s' spawned active h
    ]

    answered-IsWithin :
        (s : HookState) (u : ToolUse) (answer : Answer) (s' : HookState)
        → IsAnswered records deps s u (answer, s')
        → IsWithin s
        → IsWithin s'
    answered-IsWithin s u (allowed d) s' (decided, sent) h = sent-IsWithin s u d s' decided sent h
    answered-IsWithin s u (refused reason) s' e h = rw e (kept-IsWithin s _ refl refl h)
    answered-IsWithin s u interrupted s' halted h =
        kept-IsWithin s s' halted.spawned_kept halted.active_kept h

  settled-IsWithin :
      (records : List Entry → Entry → Bool) (deps : HookDeps) (s : HookState) (u : ExecutorUse)
      (answer : Admitted) (s' : HookState)
      → IsSettled records deps s u (answer, s')
      → IsWithin s
      → IsWithin s'
  settled-IsWithin records deps s u (admitted d) s' a h =
      rw a.logged (kept-IsWithin s _ refl refl h)
  settled-IsWithin records deps s u (Admitted.refused reason) s' e h =
      rw e (kept-IsWithin s _ refl refl h)
  settled-IsWithin records deps s u broken s' halted h =
      kept-IsWithin s s' halted.spawned_kept halted.active_kept h

  ended-IsWithin :
      (deps : HookDeps) (use_id : ℕ) (call : Hooks.Call) (s : HookState)
      → IsWithin s
      → IsWithin (ended deps use_id call s)
  ended-IsWithin deps use_id call s h = elim (Bool-cases (is_delegation call.tier)) [
    | inl spawned ↦ record {
      spawned_le = h.spawned_le;
      active_le =
          rw spawned (omega (arith, h.active_le, length-keep_if (λ y. not (y == use_id)) s.active));
    }
    | inr other ↦ record { spawned_le = h.spawned_le; active_le = rw other h.active_le }
  ]

  stopped-IsWithin : (now : ℕ) (s : HookState) → IsWithin s → IsWithin (stopped now s)
  unfolding stopped
  stopped-IsWithin now s h = kept-IsWithin s (stopped now s) refl refl h

  taken-IsWithin :
      (deps : HookDeps) (now use_id : ℕ) (s : HookState) (o : Option Hooks.Call)
      → IsWithin s
      → IsWithin (take_call deps now s use_id o)
  taken-IsWithin deps now use_id s none h = stopped-IsWithin now s h
  taken-IsWithin deps now use_id s (some call) h = ended-IsWithin deps use_id call s h

  taken_failed-IsWithin :
      (deps : HookDeps) (now use_id : ℕ) (s : HookState) (o : Option Hooks.Call)
      → IsWithin s
      → IsWithin (take_failed deps now s use_id o)
  taken_failed-IsWithin deps now use_id s none h = stopped-IsWithin now s h
  taken_failed-IsWithin deps now use_id s (some call) h =
      let h' = ended-IsWithin deps use_id call s h in
      record { spawned_le = h'.spawned_le; active_le = h'.active_le }

  returned-IsWithin :
      (deps : HookDeps) (now : ℕ) (o : Option ℕ) (s : HookState)
      → IsWithin s
      → IsWithin (call_returned deps now o s)
  unfolding call_returned
  returned-IsWithin deps now none s h = stopped-IsWithin now s h
  returned-IsWithin deps now (some use_id) s h =
      taken-IsWithin deps now use_id s (find s.calls use_id) h

  failed-IsWithin :
      (deps : HookDeps) (now : ℕ) (o : Option ℕ) (s : HookState)
      → IsWithin s
      → IsWithin (call_failed deps now o s)
  unfolding call_failed
  failed-IsWithin deps now none s h = stopped-IsWithin now s h
  failed-IsWithin deps now (some use_id) s h =
      taken_failed-IsWithin deps now use_id s (find s.calls use_id) h

  started-IsWithin :
      (deps : HookDeps) (now : ℕ) (agent_type : Option Argument) (s : HookState)
      → IsWithin s
      → IsWithin (subagent_start deps now agent_type s)
  unfolding subagent_start
  started-IsWithin deps now agent_type s h =
      elim (Bool-cases (is_some (deps.role_of agent_type) && is_some deps.mignon_limits)) [
        | inl mignon ↦ rw mignon h
        | inr other ↦ rw other (stopped-IsWithin now s h)
      ]

  event-IsWithin :
      (records : List Entry → Entry → Bool) (e : Event) (s : HookState)
      → HasLimits e
      → IsWithin s
      → IsWithin (after_event records e s)
  event-IsWithin records (asks deps u) s limited h =
      let outcome = pre_tool_use records deps u s in
      answered-IsWithin records deps limited s u outcome.0 outcome.1
        (pre_tool_use-IsAnswered records deps s u) h
  event-IsWithin records (admits deps u) s limited h =
      let outcome = admit records deps u s in
      settled-IsWithin records deps s u outcome.0 outcome.1 (admit-IsSettled records deps s u) h
  event-IsWithin records (returns deps now o) s limited h = returned-IsWithin deps now o s h
  event-IsWithin records (fails deps now o) s limited h = failed-IsWithin deps now o s h
  event-IsWithin records (starts deps now agent_type) s limited h =
      started-IsWithin deps now agent_type s h

  -- Whatever calls are asked for or admitted, return, fail or start a sub-agent, in whatever order, and however the
  -- recorder behaves, a session whose Mignons are within the run's limits stays within them.
  pub events-IsWithin :
      (records : List Entry → Entry → Bool) (es : List Event) (s : HookState)
      → All HasLimits es
      → IsWithin s
      → IsWithin (after_events records es s)
  events-IsWithin records [] s limited h = h
  events-IsWithin records (e ∷ es) s limited h =
      events-IsWithin records es (after_event records e s) limited.1
        (event-IsWithin records e s limited.0 h)
