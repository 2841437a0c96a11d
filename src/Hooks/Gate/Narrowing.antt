-- ===== src/Hooks/Gate/Narrowing.antt =====
-- agent/hooks.py, `OutputRepairGate`: after any calls of its methods it leaves what each of them leaves.
use wheelta_robinhood_agent.Common.{
  ℕ, ◌≡◌, ◌↔◌, refl, inl, inr, Bool, true, false, ◌&&◌, Bool-cases, Option, none, some, List, [],
  ◌∷◌, all, keep_if, kept_first, dropped_first, ◌==◌, ==_iff, ap, ap₂, ◌∙◌,
}
use wheelta_robinhood_agent.Hooks.{
  ToolName, agent_tool, mcp_tool, other_tool, same_name, OutputRepairGate,
}
use wheelta_robinhood_agent.Hooks.Gate.{
  contains, open_gate, denial_in, denial, restrict_from, restrict, close,
}

-- The gate's two methods that change it.
pub data Narrow : Type 0 where
  restricts : (reason : ℕ) (permitted : List ToolName) → Narrow
  closes : (reason : ℕ) → Narrow

abbrev pub narrowed : Narrow → OutputRepairGate → OutputRepairGate
narrowed (restricts reason permitted) gate = restrict reason permitted gate
narrowed (closes reason) gate = close reason gate

abbrev pub narrowed_by : List Narrow → OutputRepairGate → OutputRepairGate
narrowed_by [] gate = gate
narrowed_by (n ∷ ns) gate = narrowed_by ns (narrowed n gate)

-- What one method leaves.
abbrev pub leaves : ToolName → Narrow → Bool
leaves tool (restricts reason permitted) = contains permitted tool
leaves tool (closes reason) = false

-- The tools that a gate leaves: all of them until it is restricted.
abbrev open_to : Option (List ToolName) → ToolName → Bool
open_to none tool = true
open_to (some permitted) tool = contains permitted tool

same_name-eq : (a b : ToolName) → same_name a b ≡ true → a ≡ b
same_name-eq agent_tool agent_tool h = refl
same_name-eq agent_tool (mcp_tool s t) h = absurd cc
same_name-eq agent_tool (other_tool n) h = absurd cc
same_name-eq (mcp_tool s t) agent_tool h = absurd cc
same_name-eq (mcp_tool s t) (other_tool n) h = absurd cc
same_name-eq (mcp_tool s t) (mcp_tool s' t') h = elim (Bool-cases (s == s')) [
  | inl server ↦
      let tool : (t == t') ≡ true = rw server at h in
      ap₂ mcp_tool ((==_iff s s').0 server) ((==_iff t t').0 tool)
  | inr apart ↦ absurd (let h' = rw apart at h in cc)
]
same_name-eq (other_tool n) agent_tool h = absurd cc
same_name-eq (other_tool n) (mcp_tool s t) h = absurd cc
same_name-eq (other_tool n) (other_tool m) h = ap other_tool ((==_iff n m).0 h)

-- A set's intersection.
contains-keep_if :
    (permitted before : List ToolName) (tool : ToolName)
    → contains (keep_if (contains permitted) before) tool
      ≡ (contains before tool && contains permitted tool)
contains-keep_if permitted [] tool = refl
contains-keep_if permitted (b ∷ bs) tool =
    let ih = contains-keep_if permitted bs tool in
    elim (Bool-cases (same_name tool b)) [
      | inl same ↦
          let is : tool ≡ b = same_name-eq tool b same in
          elim (Bool-cases (contains permitted b)) [
            | inl kept ↦
                let kept' : contains permitted tool ≡ true = rw is kept in
                rw (kept_first (contains permitted) b bs kept, same, kept') refl
            | inr dropped ↦
                let dropped' : contains permitted tool ≡ false = rw is dropped in
                rw (dropped_first (contains permitted) b bs dropped, same, ih, dropped')
                  (and_false (contains bs tool))
          ]
      | inr apart ↦ elim (Bool-cases (contains permitted b)) [
        | inl kept ↦ rw (kept_first (contains permitted) b bs kept, apart) ih
        | inr dropped ↦ rw (dropped_first (contains permitted) b bs dropped, apart) ih
      ]
    ]
  where
    and_false : (x : Bool) → (x && false) ≡ false
    and_false true = refl
    and_false false = refl

and_assoc : (a b c : Bool) → ((a && b) && c) ≡ (a && (b && c))
and_assoc true b c = refl
and_assoc false b c = refl

and_false : (x : Bool) → (x && false) ≡ false
and_false true = refl
and_false false = refl

restrict-open_to :
    (gate : OutputRepairGate) (o : Option (List ToolName)) (reason : ℕ) (permitted : List ToolName)
    (tool : ToolName)
    → gate.permitted ≡ o
    → open_to (restrict_from gate o reason permitted).permitted tool
      ≡ (open_to o tool && contains permitted tool)
restrict-open_to gate none reason permitted tool h = refl
restrict-open_to gate (some []) reason permitted tool h = rw h refl
restrict-open_to gate (some (b ∷ bs)) reason permitted tool h =
    contains-keep_if permitted (b ∷ bs) tool

narrowed-open_to :
    (n : Narrow) (gate : OutputRepairGate) (tool : ToolName)
    → open_to (narrowed n gate).permitted tool ≡ (open_to gate.permitted tool && leaves tool n)
unfolding restrict close
narrowed-open_to (restricts reason permitted) gate tool =
    restrict-open_to gate gate.permitted reason permitted tool refl
narrowed-open_to (closes reason) gate tool = rw (and_false (open_to gate.permitted tool)) refl

-- A gate that denies gives its reason.
HasReason : OutputRepairGate → Type 0
HasReason gate = (p : List ToolName) → gate.permitted ≡ some p → (r : ℕ) × (gate.reason ≡ some r)

restrict-HasReason :
    (gate : OutputRepairGate) (o : Option (List ToolName)) (reason : ℕ) (permitted : List ToolName)
    → gate.permitted ≡ o
    → HasReason gate
    → HasReason (restrict_from gate o reason permitted)
unfolding HasReason
restrict-HasReason gate none reason permitted e h p f = (reason, refl)
restrict-HasReason gate (some []) reason permitted e h p f = h p f
restrict-HasReason gate (some (b ∷ bs)) reason permitted e h p f = (reason, refl)

narrowed-HasReason :
    (n : Narrow) (gate : OutputRepairGate) → HasReason gate → HasReason (narrowed n gate)
unfolding HasReason restrict close
narrowed-HasReason (restricts reason permitted) gate h =
    restrict-HasReason gate gate.permitted reason permitted refl h
narrowed-HasReason (closes reason) gate h = λ p e. (reason, refl)

denial_in_iff :
    (reason : Option ℕ) (o : Option (List ToolName)) (tool : ToolName)
    → ((p : List ToolName) → o ≡ some p → (r : ℕ) × (reason ≡ some r))
    → (denial_in reason o tool ≡ none) ↔ (open_to o tool ≡ true)
denial_in_iff reason none tool h = (λ e. refl, λ e. refl)
denial_in_iff reason (some p) tool h = elim (Bool-cases (contains p tool)) [
  | inl left ↦ (λ e. left, λ e. rw left refl)
  | inr gone ↦
      let (r, given) = h p refl in
      (λ e. absurd (let e' = rw (gone, given) at e in cc), λ e. absurd cc)
]

narrowed_by_iff :
    (ns : List Narrow) (gate : OutputRepairGate) (tool : ToolName)
    → HasReason gate
    → (denial (narrowed_by ns gate) tool ≡ none)
      ↔ ((open_to gate.permitted tool && all (leaves tool) ns) ≡ true)
unfolding HasReason denial
narrowed_by_iff [] gate tool h =
    let (to, from) = denial_in_iff gate.reason gate.permitted tool h in
    (
      λ e. and_true (open_to gate.permitted tool) (to e),
      λ e. from (true_and (open_to gate.permitted tool) e),
    )
  where
    and_true : (x : Bool) → x ≡ true → (x && true) ≡ true
    and_true x e = rw e refl

    true_and : (x : Bool) → (x && true) ≡ true → x ≡ true
    true_and true e = refl
    true_and false e = absurd cc
narrowed_by_iff (n ∷ ns) gate tool h =
    let (to, from) = narrowed_by_iff ns (narrowed n gate) tool (narrowed-HasReason n gate h) in
    let same =
      ap (λ x. x && all (leaves tool) ns) (narrowed-open_to n gate tool)
      ∙ and_assoc (open_to gate.permitted tool) (leaves tool n) (all (leaves tool) ns) in
    (λ e. rw⁻¹ same (to e), λ e. from (rw same e))

-- However a session's gate is narrowed, it lets through exactly the tools that every restriction permits,
-- and none once it is closed.
pub narrowed_by-leaves :
    (ns : List Narrow) (tool : ToolName)
    → (denial (narrowed_by ns open_gate) tool ≡ none) ↔ (all (leaves tool) ns ≡ true)
unfolding HasReason
narrowed_by-leaves ns tool = narrowed_by_iff ns open_gate tool (λ p e. absurd cc)
