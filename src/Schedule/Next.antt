-- ===== src/Schedule/Next.antt =====
-- The next run that orchestrator/schedule.py records, and the gate that it meets when it is due.
use wheelta_robinhood_agent.Common.{
  ℕ, zero, suc, ◌+◌, ◌≤◌, ◌<◌, ◌≡◌, refl, ap, min, true, inl, inr, Bool-cases, Option, none, some,
  Result, ok, >>=-eq-ok, ok-injective, aware, ltb, arith,
}
use wheelta_robinhood_agent.Sanity.{require_aware}
use wheelta_robinhood_agent.Schedule.{
  SessionBounds, TradingCalendar, MarketSession, MarketSessionResult, session_at, is_regular,
  evaluate_market_session, ScheduleSource, NextRun, on_day, or_next, search_days,
  into_regular_session, next_run, is_due, reached,
}
use wheelta_robinhood_agent.Schedule.Sessions.{HasSessions, IsFirst, search_days-IsFirst}

-- The sessions of a calendar lie on the New York date that lists them.
pub record IsDated (calendar : TradingCalendar) : Type 0 where
  pub dated :
      (day : ℕ) (b : SessionBounds) (u : ℕ)
      → calendar.session_bounds day ≡ some b
      → b.open_utc ≤ u
      → u < b.close_utc
      → calendar.nyse_date u ≡ day

-- A day of the search whose session has not closed at t.
pub record IsOpenDay (calendar : TradingCalendar) (first n t : ℕ) : Type 0 where
  pub day : ℕ
  pub from_first : first ≤ day
  pub in_search : day < first + n
  pub bounds : SessionBounds
  pub bounds_are : calendar.session_bounds day ≡ some bounds
  pub not_closed : t < bounds.close_utc

module _ (calendar : TradingCalendar) (t : ℕ) where
  or_next-ok :
      (found : Option ℕ) (next : Result ℕ)
      → ((r : ℕ) × (next ≡ ok r))
      → (r : ℕ) × (or_next calendar found next ≡ ok r)
  or_next-ok none next h = h
  or_next-ok (some u) next h = (u, refl)

  on_day-ok :
      (b : SessionBounds) (next : Result ℕ)
      → t < b.close_utc
      → (r : ℕ) × (or_next calendar (on_day calendar t (some b)) next ≡ ok r)
  on_day-ok b next open_still = elim (Bool-cases (ltb t b.open_utc)) [
    | inl before ↦ rw before (b.open_utc, refl)
    | inr opened ↦ elim (Bool-cases (ltb t b.close_utc)) [
      | inl inside ↦ rw (opened, inside) (t, refl)
      | inr over ↦ absurd (ground arith)
    ]
  ]

  search_days_total :
      (n first : ℕ)
      → ((d : ℕ) → first ≤ d → d < first + n → calendar.covers d ≡ true)
      → IsOpenDay calendar first n t
      → (r : ℕ) × (search_days calendar n first t ≡ ok r)
  unfolding search_days
  search_days_total zero first covered h = absurd (omega (arith, h.from_first, h.in_search))
  search_days_total (suc n) first covered h =
      let next = search_days calendar n (suc first) t in
      rw (covered first (omega arith) (omega arith)) (elim (Bool-cases (ltb first h.day)) [
        | inl beyond ↦ or_next-ok (on_day calendar t (calendar.session_bounds first)) next (
            search_days_total n (suc first)
              (λ d ge lt. covered d (omega (arith, ge)) (omega (arith, lt)))
              (record {
                day = h.day;
                from_first = ground arith;
                in_search = omega (arith, h.in_search);
                bounds = h.bounds;
                bounds_are = h.bounds_are;
                not_closed = h.not_closed;
              }))
        | inr same ↦
            let from_first = h.from_first in
            let d_is : h.day ≡ first = ground arith in
            rw (rw d_is at h.bounds_are) (on_day-ok h.bounds next h.not_closed)
      ])

module _ (calendar : TradingCalendar) (sessions : HasSessions calendar) where
  -- Where the calendar's sessions are not empty, the time that `into_regular_session` returns is the first
  -- one from the given time on that lies in a session of the given date or of one of the 14 days
  -- after it.
  pub into_regular_session-IsFirst :
      (t r : ℕ)
      → into_regular_session calendar (aware t) ≡ ok r
      → IsFirst calendar (calendar.nyse_date t) 15 t r
  unfolding into_regular_session require_aware
  into_regular_session-IsFirst t r h =
      search_days-IsFirst calendar sessions t 15 (calendar.nyse_date t) r h

-- A time is returned whenever the calendar covers the date and the 14 days after it and one of
-- them has a session that has not closed.
pub into_regular_session_total :
    (calendar : TradingCalendar) (t : ℕ)
    → ((d : ℕ)
        → calendar.nyse_date t ≤ d
        → d < calendar.nyse_date t + 15
        → calendar.covers d ≡ true)
    → IsOpenDay calendar (calendar.nyse_date t) 15 t
    → (r : ℕ) × (into_regular_session calendar (aware t) ≡ ok r)
unfolding into_regular_session require_aware
into_regular_session_total calendar t covered h =
    search_days_total calendar t 15 (calendar.nyse_date t) covered h

-- A run that starts the moment it is due: the tick is due, and the market gate lets it proceed.
pub record Proceeds (calendar : TradingCalendar) (t : ℕ) : Type 0 where
  pub due : is_due (aware t) (some t) ≡ ok true
  pub result : MarketSessionResult
  pub evaluated : evaluate_market_session (aware t) calendar ≡ ok result
  pub may_proceed : result.may_proceed ≡ true

module _ (calendar : TradingCalendar) (sessions : HasSessions calendar)
    (dates : IsDated calendar) where
  regular_inside :
      (t : ℕ) (b : SessionBounds)
      → b.open_utc ≤ t
      → t < b.close_utc
      → session_at t (some b) ≡ MarketSession.regular
  regular_inside t b opened inside = ground arith

  reached_self : (t : ℕ) → reached (some t) t ≡ true
  reached_self t = ground arith

  due_self : (t : ℕ) → is_due (aware t) (some t) ≡ ok true
  unfolding is_due require_aware
  due_self t = ap ok (reached_self t)

  abbrev result_at : ℕ → MarketSessionResult
  result_at t =
      let bounds = calendar.session_bounds (calendar.nyse_date t) in
      record {
        as_of = t;
        session = session_at t bounds;
        may_proceed = is_regular (session_at t bounds);
        session_date = calendar.nyse_date t;
        bounds = bounds;
      }

  evaluate_covered :
      (t : ℕ)
      → calendar.covers (calendar.nyse_date t) ≡ true
      → evaluate_market_session (aware t) calendar ≡ ok (result_at t)
  unfolding evaluate_market_session require_aware
  evaluate_covered t c = rw c refl

  first-Proceeds : (first n t r : ℕ) → IsFirst calendar first n t r → Proceeds calendar r
  first-Proceeds first n t r h =
      let date = dates.dated h.day h.bounds r h.bounds_are h.opened h.not_closed in
      record {
        due = due_self r;
        result = result_at r;
        evaluated = evaluate_covered r (rw date h.covered);
        may_proceed =
            rw (date, h.bounds_are)
              (ap is_regular (regular_inside r h.bounds h.opened h.not_closed));
      }

  -- Where the calendar's sessions are not empty and lie on their New York dates: the recorded run is not
  -- before the earlier of the time asked for and the cap, it is the first time in a session from
  -- there on, and a tick at that time is due and may proceed.
  pub next_run-Proceeds :
      (requested latest : ℕ) (source : ScheduleSource) (r : NextRun)
      → next_run calendar (aware requested) source (aware latest) ≡ ok r
      → IsFirst calendar
          (calendar.nyse_date (min requested latest))
          15
          (min requested latest)
          r.not_before
        × Proceeds calendar r.not_before
  unfolding next_run require_aware
  next_run-Proceeds requested latest source r h =
      let (t, found, made) =
        >>=-eq-ok (into_regular_session calendar (aware (min requested latest))) _ h in
      let first = into_regular_session-IsFirst calendar sessions (min requested latest) t found in
      let t_is : t ≡ r.not_before = ap (λ n. n.not_before) (ok-injective made) in
      rw (← t_is) (first, first-Proceeds _ 15 _ t first)
