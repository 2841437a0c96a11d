-- ===== src/Schedule.antt =====
-- orchestrator/schedule.py and orchestrator/market_session.py: when the next run is due, and whether a run may
-- proceed. Instants are microseconds of UTC, days are numbers.
pub mod Sessions
pub mod Next
mod Tests
use wheelta_robinhood_agent.Common.{
  ℕ, zero, suc, ◌+◌, ◌*◌, min, Bool, true, false, not, Option, none, some, Result, ok, err,
  value_error, calendar_out_of_range, ◌>>=◌, raise_if, DateTime, naive, aware, ltb, leb, ◌==◌,
  if◌then◌else◌,
}
use wheelta_robinhood_agent.Sanity.{require_aware}

-- Open inclusive, close exclusive.
pub record SessionBounds : Type 0 where
  pub open_utc : ℕ
  pub close_utc : ℕ

-- `TradingCalendar` with the date in New York of an instant, as the time zone database and the calendar
-- library give them.
pub record TradingCalendar : Type 0 where
  pub nyse_date : ℕ → ℕ
  pub covers : ℕ → Bool
  pub session_bounds : ℕ → Option SessionBounds

pub data MarketSession : Type 0 where
  closed pre regular post : MarketSession

pub record MarketSessionResult : Type 0 where
  pub as_of : ℕ
  pub session : MarketSession
  pub may_proceed : Bool
  pub session_date : ℕ
  pub bounds : Option SessionBounds

abbrev pub session_at : ℕ → Option SessionBounds → MarketSession
session_at t none = closed
session_at t (some b) =
    if ltb t b.open_utc then pre else (if ltb t b.close_utc then regular else post)

abbrev pub is_regular : MarketSession → Bool
is_regular regular = true
is_regular _ = false

unfoldable pub evaluate_market_session : DateTime → TradingCalendar → Result MarketSessionResult
unfolding require_aware
evaluate_market_session as_of calendar = do
  as_of_utc ← require_aware as_of
  let session_date = calendar.nyse_date as_of_utc
  let bounds = calendar.session_bounds session_date
  let session = session_at as_of_utc bounds
  if not (calendar.covers session_date)
      then err calendar_out_of_range
      else ok (record {
        as_of = as_of_utc;
        session = session;
        may_proceed = is_regular session;
        session_date = session_date;
        bounds = bounds;
      })

-- `SESSION_SEARCH_DAYS`
abbrev pub session_search_days : ℕ
session_search_days = 14

pub data ScheduleSource : Type 0 where
  fallback agent unfilled_order : ScheduleSource

pub record NextRun : Type 0 where
  pub not_before : ℕ
  pub source : ScheduleSource
  pub requested_at : ℕ
  pub latest_at : ℕ

abbrev pub capped_at : NextRun → ℕ
capped_at r = min r.requested_at r.latest_at

abbrev pub capped : NextRun → Bool
capped r = ltb r.latest_at r.requested_at

abbrev pub moved_to_session_open : NextRun → Bool
moved_to_session_open r = not (r.not_before == capped_at r)

module _ (calendar : TradingCalendar) where
  -- One day of the search: the time in its session, or none where the search goes on.
  abbrev pub on_day : ℕ → Option SessionBounds → Option ℕ
  on_day t none = none
  on_day t (some b) =
      if ltb t b.open_utc then some b.open_utc else (if ltb t b.close_utc then some t else none)

  abbrev or_next : Option ℕ → Result ℕ → Result ℕ
  or_next none next = next
  or_next (some t) next = ok t

  -- The loop over the days that are left, from the given day on.
  unfoldable pub search_days : ℕ → ℕ → ℕ → Result ℕ
  search_days zero day t = err calendar_out_of_range
  search_days (suc n) day t =
      let next = search_days n (suc day) t in
      if not (calendar.covers day)
      then err calendar_out_of_range
      else or_next (on_day t (calendar.session_bounds day)) next

  unfoldable pub into_regular_session : DateTime → Result ℕ
  unfolding search_days require_aware
  into_regular_session d = do
    t ← require_aware d
    search_days (session_search_days + 1) (calendar.nyse_date t) t

  unfoldable pub next_run : DateTime → ScheduleSource → DateTime → Result NextRun
  unfolding into_regular_session require_aware
  next_run requested_at source latest_at = do
    requested ← require_aware requested_at
    latest ← require_aware latest_at
    t ← into_regular_session (aware (min requested latest))
    ok (record { not_before = t; source = source; requested_at = requested; latest_at = latest })

abbrev pub minute : ℕ
minute = 60 * 1000000

unfoldable pub fallback_requested_at : ℕ → ℕ → ℕ
fallback_requested_at gate_at fallback_minutes = gate_at + fallback_minutes * minute

unfoldable pub latest_next_run : ℕ → ℕ → ℕ
latest_next_run gate_at max_gap_hours = gate_at + max_gap_hours * (60 * minute)

-- `not_before is None or now >= not_before`
abbrev reached : Option ℕ → ℕ → Bool
reached none now = true
reached (some not_before) now = leb not_before now

unfoldable pub is_due : DateTime → Option ℕ → Result Bool
unfolding require_aware
is_due now not_before = do t ← require_aware now; ok (reached not_before t)
