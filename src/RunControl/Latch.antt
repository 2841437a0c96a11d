-- ===== src/RunControl/Latch.antt =====
-- The stop latch of agent/run_control.py keeps its first record.
use wheelta_robinhood_agent.Common.{
  ◌≡◌, refl, Option, none, some, List, [], ◌∷◌, DateTime, naive, aware,
}
use wheelta_robinhood_agent.RunControl.{
  StopReason, StopRecord, RunControl, Request, slot_after, request_stop, requests,
}

-- The first request at an aware time.
abbrev pub first_aware : List Request → Option StopRecord
first_aware [] = none
first_aware (r ∷ rs) = elim r.at_time [
  | naive t ↦ first_aware rs
  | aware t ↦ some (record { reason = r.reason; requested_at = t })
]

abbrev pub or_first : RunControl → Option StopRecord → RunControl
or_first (some first) later = some first
or_first none later = later

request_set :
    (at_time : DateTime) (reason : StopReason) (first : StopRecord)
    → slot_after (some first) (request_stop reason at_time (some first)) ≡ some first
unfolding request_stop
request_set (naive t) reason first = refl
request_set (aware t) reason first = refl

requests_set : (rs : List Request) (first : StopRecord) → requests rs (some first) ≡ some first
unfolding requests
requests_set [] first = refl
requests_set (r ∷ rs) first = rw (request_set r.at_time r.reason first) (requests_set rs first)

request_fresh :
    (reason : StopReason) (at_time : DateTime) (rs : List Request)
    → requests rs none ≡ first_aware rs
    → requests rs (slot_after none (request_stop reason at_time none))
      ≡ first_aware (record { reason = reason; at_time = at_time } ∷ rs)
unfolding request_stop
request_fresh reason (naive t) rs ih = ih
request_fresh reason (aware t) rs ih =
    requests_set rs (record { reason = reason; requested_at = t })

requests_fresh : (rs : List Request) → requests rs none ≡ first_aware rs
unfolding requests
requests_fresh [] = refl
requests_fresh (r ∷ rs) = request_fresh r.reason r.at_time rs (requests_fresh rs)

-- Whatever requests are made in whatever order, the latch holds what it held, or else the first request at an aware
-- time: it never clears, the first reason wins, and a naive time changes nothing.
pub requests-or_first :
    (rs : List Request) (slot : RunControl) → requests rs slot ≡ or_first slot (first_aware rs)
requests-or_first rs none = requests_fresh rs
requests-or_first rs (some first) = requests_set rs first
