-- ===== src/Hooks/Calls/Recorded.antt =====
-- agent/hooks.py: what `pre_tool_use` leaves recorded, however the recorder and the checks behave.
use wheelta_robinhood_agent.Common.{
  ℕ, suc, ◌≡◌, refl, ◌∙◌, inl, inr, Bool, true, false, Bool-cases, Option, none, some, List, [],
  ◌∷◌, ◌++◌, ◌==◌, if◌then◌else◌, Dict, find, assign, find-assign, arith,
}
use wheelta_robinhood_agent.RunControl.{RunControl, request_stop, stop_requested}
use wheelta_robinhood_agent.AccountScope.{Argument}
use wheelta_robinhood_agent.Hooks
use wheelta_robinhood_agent.Hooks.{
  order_work_server, work_tool, ParsedRequest, issue, request, OrderWorkView, Denial, Check, denied,
  failed, passed, ◌>>=◌, ◌>>◌, deny_if, or_deny, HookDeps, Entry, requested, dispatched, registered,
  reserved, denial_of, failure_of, HookState, use_id_mismatch, input_not_object,
}
use wheelta_robinhood_agent.Hooks.Resolve.{Resolved, resolve, Decision, is_delegation}
use wheelta_robinhood_agent.Hooks.Decide.{decide, is_call}
use wheelta_robinhood_agent.Hooks.Passing.{>>=-passed, then-passed, or_deny-passed}
use wheelta_robinhood_agent.Hooks.Calls.{
  ToolUse, Answer, allowed, refused, interrupted, stopped, interrupt, add_entry, add, is_proxied,
  direct_from, differs, checked, call_of, let_through, reserve_work, after_register,
  register_result, after_dispatch, after_denial, answer, after_request, identified, pre_tool_use,
}

-- The run is stopping, and the pending calls and the Mignons are as they were.
pub record IsHalted (s s' : HookState) : Type 0 where
  pub stopping : stop_requested s'.stop ≡ true
  pub calls_kept : s'.calls ≡ s.calls
  pub spawned_kept : s'.spawned ≡ s.spawned
  pub active_kept : s'.active ≡ s.active

slot-stopping :
    (now : ℕ) (s : HookState) (slot : RunControl)
    → s.stop ≡ slot
    → stop_requested (stopped now s).stop ≡ true
unfolding stopped request_stop
slot-stopping now s none h = rw h refl
slot-stopping now s (some r) h = rw h refl

-- Whatever was logged before.
pub stopped-IsHalted :
    (now : ℕ) (s : HookState) (log : List Entry) → IsHalted s (stopped now (record s { log = log }))
unfolding stopped
stopped-IsHalted now s log = record {
  stopping = slot-stopping now (record s { log = log }) s.stop refl;
  calls_kept = refl;
  spawned_kept = refl;
  active_kept = refl;
}

module _ (records : List Entry → Entry → Bool) (deps : HookDeps) where
  -- What `decide` returned for a call, over the state in which its request is recorded.
  pub record IsDecided (s : HookState) (u : ToolUse) (d : Decision) : Type 0 where
    pub input : Dict Argument
    pub given : u.input ≡ some input
    pub decision : Decision
    pub decided :
        decide deps s (resolve u.name deps.registries) input u.caller none ≡ passed decision
    pub direct :
        d
        ≡ direct_from records deps
            (is_proxied records deps (resolve u.name deps.registries))
            decision.upstream
            decision

  -- The request and then the dispatch were recorded, the stop latch is as it was, the call waits for its
  -- result under its ID, and a spawn is counted.
  pub record IsSent (s : HookState) (u : ToolUse) (d : Decision) (s' : HookState) : Type 0 where
    pub use_id : ℕ
    pub identified_by : u.use_id ≡ some use_id
    pub after : List Entry
    pub logged : s'.log ≡ after ++ (dispatched u.tool_call_id ∷ requested u.tool_call_id ∷ s.log)
    pub stop_kept : s'.stop ≡ s.stop
    pub waiting :
        find s'.calls use_id ≡ some (call_of records deps u (resolve u.name deps.registries) d)
    pub counted :
        is_delegation d.tier ≡ true
        → (s'.spawned ≡ suc s.spawned) × (s'.active ≡ add use_id s.active)
    pub uncounted : is_delegation d.tier ≡ false → (s'.spawned ≡ s.spawned) × (s'.active ≡ s.active)

  abbrev pub IsAnswered : HookState → ToolUse → Answer × HookState → Type 0
  IsAnswered s u (allowed d, s') =
      IsDecided (add_entry s (requested u.tool_call_id)) u d × IsSent s u d s'
  IsAnswered s u (refused reason, s') =
      s' ≡ add_entry (add_entry s (requested u.tool_call_id)) (denial_of u.tool_call_id)
  IsAnswered s u (interrupted, s') = IsHalted s s'

  module _ (s : HookState) (u : ToolUse) (use_id : ℕ) (identified_by : u.use_id ≡ some use_id)
      (d : Decision) (is_decided : IsDecided (add_entry s (requested u.tool_call_id)) u d) where
    abbrev tool : Resolved
    tool = resolve u.name deps.registries

    abbrev base : HookState
    base = add_entry (add_entry s (requested u.tool_call_id)) (dispatched u.tool_call_id)

    found_self :
        (calls : Dict Hooks.Call) (call : Hooks.Call)
        → find (assign calls use_id call) use_id ≡ some call
    found_self calls call =
        let same : (use_id == use_id) ≡ true = ground arith in
        find-assign calls use_id call use_id ∙ rw same refl

    through-IsSent :
        (after : List Entry)
        → (x : Bool) → is_delegation d.tier ≡ x
        → IsAnswered s u
            (let_through records deps use_id u tool d (record base { log = after ++ base.log }))
    unfolding let_through
    through-IsSent after true h = rw h (
      is_decided,
      record {
        use_id = use_id;
        identified_by = identified_by;
        after = after;
        logged = refl;
        stop_kept = refl;
        waiting = found_self s.calls (call_of records deps u tool d);
        counted = λ e. (refl, refl);
        uncounted = λ e. absurd cc;
      },
    )
    through-IsSent after false h = rw h (
      is_decided,
      record {
        use_id = use_id;
        identified_by = identified_by;
        after = after;
        logged = refl;
        stop_kept = refl;
        waiting = found_self s.calls (call_of records deps u tool d);
        counted = λ e. absurd cc;
        uncounted = λ e. (refl, refl);
      },
    )

    abbrev over : List Entry → HookState
    over after = record base { log = after ++ base.log }

    halted_over : (after : List Entry) → IsAnswered s u (interrupt u.now (over after))
    halted_over after = stopped-IsHalted u.now s (after ++ base.log)

    reserve-IsAnswered :
        (after : List Entry) (view : Option OrderWorkView) (parsed : ParsedRequest)
        → IsAnswered s u (reserve_work records deps use_id u tool d (over after) view parsed)
    reserve-IsAnswered after none parsed = halted_over after
    reserve-IsAnswered after (some view) (issue reason) = halted_over after
    reserve-IsAnswered after (some view) (request work) =
        through-IsSent (reserved u.tool_call_id ∷ after) (is_delegation d.tier) refl

    register-IsAnswered :
        (after : List Entry)
        → IsAnswered s u (after_register records deps use_id u tool d (over after))
    unfolding after_register
    register-IsAnswered after = elim (Bool-cases (is_call tool order_work_server work_tool)) [
      | inl work ↦
          rw work (reserve-IsAnswered after deps.order_work (deps.parse_work_request d.effective))
      | inr other ↦ rw other (through-IsSent after (is_delegation d.tier) refl)
    ]

    registered-IsAnswered :
        (b : Bool)
        → IsAnswered s u (
            register_result records deps use_id u tool d base
              (if b then some (add_entry base (registered u.tool_call_id)) else none))
    registered-IsAnswered true = register-IsAnswered (registered u.tool_call_id ∷ [])
    registered-IsAnswered false = elim (Bool-cases (records base.log (failure_of u.tool_call_id))) [
      | inl wrote ↦ rw wrote (halted_over (failure_of u.tool_call_id ∷ []))
      | inr lost ↦ rw lost (halted_over [])
    ]

    dispatch-IsAnswered :
        (before : HookState) (b : Bool)
        → before ≡ add_entry s (requested u.tool_call_id)
        → IsAnswered s u
            (after_dispatch records deps use_id u tool d before (if b then some base else none))
    unfolding after_dispatch
    dispatch-IsAnswered before true e = elim (Bool-cases (is_proxied records deps tool)) [
      | inl proxied ↦
          rw proxied (registered-IsAnswered (records base.log (registered u.tool_call_id)))
      | inr direct ↦ rw direct (register-IsAnswered [])
    ]
    dispatch-IsAnswered before false e =
        rw e (stopped-IsHalted u.now s (requested u.tool_call_id ∷ s.log))

  module _ (s : HookState) (u : ToolUse) (use_id : ℕ) (identified_by : u.use_id ≡ some use_id) where
    abbrev asked : HookState
    asked = add_entry s (requested u.tool_call_id)

    checked-IsDecided :
        (d : Decision)
        → checked records deps asked use_id u (resolve u.name deps.registries) ≡ passed d
        → IsDecided asked u d
    unfolding checked
    checked-IsDecided d h =
        let r = resolve u.name deps.registries in
        let mismatch = deny_if (differs records deps use_id u.sdk_use_id) use_id_mismatch in
        let (same_id, h1) = then-passed mismatch _ h in
        let (input, given, h2) = >>=-passed (or_deny u.input input_not_object) _ h1 in
        let (decision, decided, h3) = >>=-passed (decide deps asked r input u.caller none) _ h2 in
        record {
          input = input;
          given = or_deny-passed u.input input_not_object given;
          decision = decision;
          decided = decided;
          direct = cc;
        }

    denial-IsAnswered :
        (reason : Denial) (b : Bool)
        → IsAnswered s u (
            after_denial records deps u reason asked
              (if b then some (add_entry asked (denial_of u.tool_call_id)) else none))
    denial-IsAnswered reason true = refl
    denial-IsAnswered reason false = stopped-IsHalted u.now s asked.log

    answer-IsAnswered :
        (c : Check Decision)
        → checked records deps asked use_id u (resolve u.name deps.registries) ≡ c
        → IsAnswered s u (answer records deps use_id u (resolve u.name deps.registries) asked c)
    unfolding answer
    answer-IsAnswered (denied reason) h =
        denial-IsAnswered reason (records asked.log (denial_of u.tool_call_id))
    answer-IsAnswered failed h = elim (Bool-cases (records asked.log (denial_of u.tool_call_id))) [
      | inl wrote ↦ rw wrote (stopped-IsHalted u.now s (denial_of u.tool_call_id ∷ asked.log))
      | inr lost ↦ rw lost (stopped-IsHalted u.now s asked.log)
    ]
    answer-IsAnswered (passed d) h =
        dispatch-IsAnswered s u use_id identified_by d (checked-IsDecided d h) asked
          (records asked.log (dispatched u.tool_call_id)) refl

    request-IsAnswered :
        (b : Bool)
        → IsAnswered s u (after_request records deps use_id u s (if b then some asked else none))
    request-IsAnswered true =
        answer-IsAnswered (checked records deps asked use_id u (resolve u.name deps.registries))
          refl
    request-IsAnswered false = stopped-IsHalted u.now s s.log

  identified-IsAnswered :
      (s : HookState) (u : ToolUse) (o : Option ℕ)
      → u.use_id ≡ o
      → IsAnswered s u (identified records deps u s o)
  identified-IsAnswered s u none h = stopped-IsHalted u.now s s.log
  identified-IsAnswered s u (some use_id) h =
      request-IsAnswered s u use_id h (records s.log (requested u.tool_call_id))

  -- However the recorder, the checks and the proxy behave, a tool call has one of three answers. It is let
  -- through after its request and then its dispatch were recorded and `decide` passed it, with the stop latch
  -- as it was, the call pending under its ID, and a spawn, but no other call, counted; or it is refused, and nothing changed but that the request
  -- and the denial were recorded; or the session is interrupted with the stop latch set, and no call is
  -- pending and no Mignon running that was not before.
  pub pre_tool_use-IsAnswered :
      (s : HookState) (u : ToolUse) → IsAnswered s u (pre_tool_use records deps u s)
  unfolding pre_tool_use
  pre_tool_use-IsAnswered s u = identified-IsAnswered s u u.use_id refl
