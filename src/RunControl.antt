-- ===== src/RunControl.antt =====
-- agent/run_control.py: the stop latch of a run. The dictionary with one key is an optional record; the lock
-- makes a request one step.
pub mod Latch
use wheelta_robinhood_agent.Common.{
  ℕ, Bool, true, false, Option, none, some, is_some, List, [], ◌∷◌, Result, ok, err, ◌>>=◌,
  DateTime,
}
use wheelta_robinhood_agent.Sanity.{require_aware}

-- domain/run.py
pub data StopReason : Type 0 where
  sigterm sigint deadline infrastructure_failure : StopReason

pub record StopRecord : Type 0 where
  pub reason : StopReason
  pub requested_at : ℕ

-- The slot.
abbrev pub RunControl : Type 0
RunControl = Option StopRecord

pub record Requested : Type 0 where
  pub set : Bool
  pub slot : RunControl

-- `self._slot.setdefault(self._KEY, record) is record`, with the slot after it.
abbrev set_default : StopRecord → RunControl → Requested
set_default r none = record { set = true; slot = some r }
set_default r (some first) = record { set = false; slot = some first }

unfoldable pub request_stop : StopReason → DateTime → RunControl → Result Requested
unfolding require_aware
request_stop reason at_time slot = do
  t ← require_aware at_time
  ok (set_default (record { reason = reason; requested_at = t }) slot)

abbrev pub stop_requested : RunControl → Bool
stop_requested slot = is_some slot

pub record Request : Type 0 where
  pub reason : StopReason
  pub at_time : DateTime

-- The slot after a request, which an exception leaves as it is.
abbrev pub slot_after : RunControl → Result Requested → RunControl
slot_after slot (ok r) = r.slot
slot_after slot (err e) = slot

-- Requests one after another, from whatever threads.
unfoldable pub requests : List Request → RunControl → RunControl
unfolding request_stop
requests [] slot = slot
requests (r ∷ rs) slot = requests rs (slot_after slot (request_stop r.reason r.at_time slot))
