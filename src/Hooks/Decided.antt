-- ===== src/Hooks/Decided.antt =====
-- agent/hooks.py: what `decide` returns for a call, and what it asked before.
use wheelta_robinhood_agent.Common.{
  ℕ, ◌≡◌, ap, ◌∙◌, sym, Bool, true, false, not, ◌&&◌, Bool-cases, inl, inr, Option, none, some,
  is_some, ◌==◌, Dict, find, get_or,
}
use wheelta_robinhood_agent.AccountScope.{Argument, check_account_scope, resolve_account_argument}
use wheelta_robinhood_agent.AccountScope.Confined.{IsConfined, check-IsConfined}
use wheelta_robinhood_agent.Hooks.{
  ToolTier, robinhood, tavily, wheelta, place_order_tool, cancel_tool, board_query_tool, ToolName,
  OutputRepairGate, Attempt, returned, passed, deny_if, attempt, deny_for, or_deny, Placement,
  given, OrderWorkView, HookDeps, HookState, gate_closed, placement_over, filters_failed,
  no_pretrade_gate, pretrade_denial, out_of_scope, job_held, job_placing,
}
use wheelta_robinhood_agent.Hooks.Gate.{denial}
use wheelta_robinhood_agent.Hooks.Workspace.{check_workspace}
use wheelta_robinhood_agent.Hooks.Resolve.{
  Resolved, is_builtin, Caller, ExecutorCall, Decision, is_orders, is_writes,
}
use wheelta_robinhood_agent.Hooks.Checks.{
  scope_of, check_account, check_pretrade, check_placement, job_of, placement_over_in, order_id,
  check_cancel, check_cancel_in, held_by, check_web,
}
use wheelta_robinhood_agent.Hooks.Decide.{
  when, is_call, check_gate, check_access, check_action, decision, unregistered, decide,
}
use wheelta_robinhood_agent.Hooks.Passing.{
  >>=-passed, then-passed, deny_if-passed, when-passed, or_deny-passed, deny_for-passed,
  attempt-passed,
}
use wheelta_robinhood_agent.Hooks.Owned.{IsWritable, workspace-IsWritable}
use wheelta_robinhood_agent.Hooks.Permitted.{IsAccessible, access-IsAccessible}

module _ (deps : HookDeps) where
  -- The pre-trade gate was asked about this placement and has nothing against it.
  pub record IsCleared (input : Dict Argument) (executor : Option ExecutorCall) : Type 0 where
    pub placing : placement_over_in deps deps.order_work ≡ false
    pub gate : Placement → Option ℕ → Bool → Attempt (Option ℕ)
    pub gated : deps.pretrade_gate ≡ some gate
    pub clear : gate (given input) (job_of deps executor) (not (is_some executor)) ≡ returned none

  placement-IsCleared :
      (executor : Option ExecutorCall) (input : Dict Argument)
      → check_placement deps executor input ≡ passed tt
      → IsCleared input executor
  unfolding check_placement check_pretrade
  placement-IsCleared executor input h =
      let over = placement_over_in deps deps.order_work in
      let (placing, h1) = then-passed (deny_if over placement_over) _ h in
      let (gate, gated, h2) = >>=-passed (or_deny deps.pretrade_gate no_pretrade_gate) _ h1 in
      let asked = gate (given input) (job_of deps executor) (not (is_some executor)) in
      let (reason, answered, h3) = >>=-passed (attempt asked) _ h2 in
      let nothing : reason ≡ none = deny_for-passed pretrade_denial reason h3 in
      record {
        placing = deny_if-passed over placement_over placing;
        gate = gate;
        gated = or_deny-passed deps.pretrade_gate no_pretrade_gate gated;
        clear = let e = attempt-passed asked answered in cc;
      }

  -- No job holds the order that the agent would cancel, and none is placing one.
  abbrev pub IsLoose : Option ExecutorCall → Dict Argument → Type 0
  IsLoose (some call) input = Unit {0}
  IsLoose none input =
      (view : OrderWorkView)
      → deps.order_work ≡ some view
      → (held_by deps view (find input order_id) ≡ false) × (view.placing ≡ false)

  cancel-IsLoose :
      (executor : Option ExecutorCall) (input : Dict Argument)
      → check_cancel deps executor input ≡ passed tt
      → IsLoose executor input
  unfolding check_cancel
  cancel-IsLoose (some call) input h = tt
  cancel-IsLoose none input h = λ view found.
      let h' : check_cancel_in deps (some view) input ≡ passed tt = rw found at h in
      let held = held_by deps view (find input order_id) in
      let (loose, idle) = then-passed (deny_if held job_held) _ h' in
      (deny_if-passed held job_held loose, deny_if-passed view.placing job_placing idle)

  pub record IsActable (r : Resolved) (tier : ToolTier) (input : Dict Argument)
      (executor : Option ExecutorCall) : Type 0 where
    pub writable : is_writes tier ≡ true → IsWritable deps r.tool input
    pub cleared :
        (is_orders tier && is_call r robinhood place_order_tool) ≡ true → IsCleared input executor
    pub loose : is_call r robinhood cancel_tool ≡ true → IsLoose executor input

  action-IsActable :
      (s : HookState) (r : Resolved) (tier : ToolTier) (input : Dict Argument)
      (executor : Option ExecutorCall)
      → check_action deps s r tier input executor ≡ passed tt
      → IsActable r tier input executor
  unfolding check_action
  action-IsActable s r tier input executor h =
      let workspace = check_workspace deps r.tool input in
      let (writable, h1) = then-passed (when (is_writes tier) workspace) _ h in
      let places = is_orders tier && is_call r robinhood place_order_tool in
      let placement = check_placement deps executor input in
      let (cleared, h2) = then-passed (when places placement) _ h1 in
      let cancel = check_cancel deps executor input in
      let cancels = is_call r robinhood cancel_tool in
      let (loose, h3) = then-passed (when cancels cancel) _ h2 in
      record {
        writable = λ e.
            workspace-IsWritable deps r.tool input
              (when-passed (is_writes tier) workspace writable e);
        cleared = λ e. placement-IsCleared executor input (when-passed places placement cleared e);
        loose = λ e. cancel-IsLoose executor input (when-passed cancels cancel loose e);
      }

  abbrev Confined : Resolved → Dict Argument → Type 0
  Confined r arguments =
      IsConfined deps.is_account_key deps.account_number (scope_of deps r.server r.tool) arguments

  -- The account's check, with what is sent upstream instead.
  account-Confined :
      (r : Resolved) (input : Dict Argument) (upstream : Option (Dict Argument))
      → check_account deps false r.server r.tool input ≡ passed upstream
      → Confined r (get_or input upstream)
  unfolding check_account
  account-Confined r input upstream h =
      let spec = scope_of deps r.server r.tool in
      let reason =
        check_account_scope deps.is_account_key deps.placeholder deps.account_number spec input in
      let (scoped, h1) = then-passed (deny_for out_of_scope reason) _ h in
      let confined =
        check-IsConfined deps.is_account_key deps.placeholder deps.account_number spec input
          (deny_for-passed out_of_scope reason scoped) in
      let same : resolve_account_argument deps.is_account_key deps.placeholder deps.account_number
            spec input
          ≡ upstream =
        cc in
      rw same at confined

  -- A call to the broker goes out as the check of its account left it.
  broker_decision :
      (s : HookState) (r : Resolved) (tier : ToolTier) (input : Dict Argument) (caller : Caller)
      (upstream : Option (Dict Argument)) (d : Decision)
      → r.server ≡ robinhood
      → decision deps s r tier input caller upstream ≡ passed d
      → d ≡ record { tier = tier; effective = input; upstream = upstream }
  unfolding decision
  broker_decision s r tier input caller upstream d e h = let h' = rw e at h in cc

  -- Every decision is of the tier that was found.
  decision_tier :
      (s : HookState) (r : Resolved) (tier : ToolTier) (input : Dict Argument) (caller : Caller)
      (upstream : Option (Dict Argument)) (d : Decision)
      → decision deps s r tier input caller upstream ≡ passed d
      → d.tier ≡ tier
  unfolding decision
  decision_tier s r tier input caller upstream d h = elim (Bool-cases (r.server == tavily)) [
    | inl web ↦
        let h' = rw web at h in
        let (effective, checked, h1) =
          >>=-passed (check_web deps s r.tool input caller.agent_id) _ h' in
        cc
    | inr other ↦ elim (Bool-cases (is_call r wheelta board_query_tool)) [
      | inl board ↦
          let h' = rw (other, board) at h in
          let (updated, appended, h1) =
            >>=-passed (or_deny (deps.append_rules_filters input) filters_failed) _ h' in
          cc
      | inr neither ↦ let h' = rw (other, neither) at h in cc
    ]
  ]

  pub record IsPermitted (s : HookState) (r : Resolved) (input : Dict Argument) (caller : Caller)
      (executor : Option ExecutorCall) (d : Decision) : Type 0 where
    pub tiered : r.tier ≡ some d.tier
    pub left_open :
        (gate : OutputRepairGate)
        → executor ≡ none
        → deps.output_gate ≡ some gate
        → denial gate r.name ≡ none
    pub accessible : IsAccessible deps s r d.tier caller executor
    pub actable : IsActable r d.tier input executor
    pub confined :
        r.server ≡ robinhood
        → is_builtin r.name ≡ false
        → (d.effective ≡ input) × Confined r (get_or d.effective d.upstream)

  gate_left_open :
      (executor : Option ExecutorCall) (o : Option OutputRepairGate) (name : ToolName)
      (gate : OutputRepairGate)
      → check_gate deps executor o name ≡ passed tt
      → executor ≡ none
      → o ≡ some gate
      → denial gate name ≡ none
  gate_left_open none (some g) name gate h e f =
      let open_to = deny_for-passed gate_closed (denial g name) h in cc
  gate_left_open none none name gate h e f = absurd cc
  gate_left_open (some call) o name gate h e f = absurd cc

  broker-Confined :
      (s : HookState) (r : Resolved) (input : Dict Argument) (caller : Caller)
      (upstream : Option (Dict Argument)) (tier : ToolTier) (d : Decision)
      → check_account deps (is_builtin r.name) r.server r.tool input ≡ passed upstream
      → decision deps s r tier input caller upstream ≡ passed d
      → r.server ≡ robinhood
      → is_builtin r.name ≡ false
      → (d.effective ≡ input) × Confined r (get_or d.effective d.upstream)
  broker-Confined s r input caller upstream tier d account decided broker mcp =
      let is = broker_decision s r tier input caller upstream d broker decided in
      let account' : check_account deps false r.server r.tool input ≡ passed upstream =
        rw mcp at account in
      (ap (λ x. x.effective) is, rw is (account-Confined r input upstream account'))

  pub decide-IsPermitted :
      (s : HookState) (r : Resolved) (input : Dict Argument) (caller : Caller)
      (executor : Option ExecutorCall) (d : Decision)
      → decide deps s r input caller executor ≡ passed d
      → IsPermitted s r input caller executor d
  unfolding decide
  decide-IsPermitted s r input caller executor d h =
      let gate = check_gate deps executor deps.output_gate r.name in
      let (left, h1) = then-passed gate _ h in
      let (tier, found, h2) =
        >>=-passed (or_deny r.tier (unregistered deps (is_builtin r.name))) _ h1 in
      let (access, h3) = then-passed (check_access deps s r tier input caller executor) _ h2 in
      let (upstream, account, h4) =
        >>=-passed (check_account deps (is_builtin r.name) r.server r.tool input) _ h3 in
      let (action, decided) = then-passed (check_action deps s r tier input executor) _ h4 in
      let same : d.tier ≡ tier = decision_tier s r tier input caller upstream d decided in
      let reached = access-IsAccessible deps s r tier input caller executor access in
      let acted = action-IsActable s r tier input executor action in
      record {
        tiered =
            or_deny-passed r.tier (unregistered deps (is_builtin r.name)) found
            ∙ ap some (sym same);
        left_open = λ g e o. gate_left_open executor deps.output_gate r.name g left e o;
        accessible = rw same reached;
        actable = rw same acted;
        confined = broker-Confined s r input caller upstream tier d account decided;
      }
