-- ===== src/Hooks/Gate.antt =====
-- agent/hooks.py, `OutputRepairGate`: the tools that are left once the main work of a session ends.
pub mod Narrowing
use wheelta_robinhood_agent.Common.{
  ℕ, Bool, true, false, Option, none, some, List, [], any, keep_if, is_empty, if◌then◌else◌,
}
use wheelta_robinhood_agent.Hooks.{ToolName, same_name, OutputRepairGate}

abbrev pub contains : List ToolName → ToolName → Bool
contains permitted tool = any (same_name tool) permitted

-- `OutputRepairGate()`
abbrev pub open_gate : OutputRepairGate
open_gate = record { reason = none; permitted = none }

abbrev pub denial_in : Option ℕ → Option (List ToolName) → ToolName → Option ℕ
denial_in reason none tool = none
denial_in reason (some permitted) tool = if contains permitted tool then none else reason

unfoldable pub denial : OutputRepairGate → ToolName → Option ℕ
denial gate tool = denial_in gate.reason gate.permitted tool

-- `self._permitted & permitted`
abbrev pub restrict_from :
    OutputRepairGate → Option (List ToolName) → ℕ → List ToolName → OutputRepairGate
restrict_from gate none reason permitted = record {
  reason = some reason;
  permitted = some permitted;
}
restrict_from gate (some before) reason permitted =
    if is_empty before
    then gate
    else record { reason = some reason; permitted = some (keep_if (contains permitted) before) }

unfoldable pub restrict : ℕ → List ToolName → OutputRepairGate → OutputRepairGate
restrict reason permitted gate = restrict_from gate gate.permitted reason permitted

unfoldable pub close : ℕ → OutputRepairGate → OutputRepairGate
close reason gate = record { reason = some reason; permitted = some [] }
