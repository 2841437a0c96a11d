-- ===== src/Schedule/Tests.antt =====
-- A calendar with days of a hundred units and a session from 30 to 60 on the first five days of a week.
use wheelta_robinhood_agent.Common.{
  ℕ, ◌+◌, ◌*◌, ◌/◌, ◌%◌, ◌≤◌, ◌<◌, ◌≡◌, refl, Bool, true, false, Option, none, some, ok, aware, ltb,
  arith,
}
use wheelta_robinhood_agent.Schedule.{
  SessionBounds, TradingCalendar, agent, NextRun, into_regular_session, next_run,
}
use wheelta_robinhood_agent.Schedule.Sessions.{HasSessions, IsFirst}
use wheelta_robinhood_agent.Schedule.Next.{
  IsDated, IsOpenDay, Proceeds, into_regular_session-IsFirst, into_regular_session_total,
  next_run-Proceeds,
}

abbrev bounds_on : ℕ → SessionBounds
bounds_on day = record { open_utc = day * 100 + 30; close_utc = day * 100 + 60 }

abbrev listed : Bool → ℕ → Option SessionBounds
listed true day = some (bounds_on day)
listed false day = none

abbrev week : TradingCalendar
week = record {
  nyse_date = λ t. t / 100;
  covers = λ day. ltb day 100;
  session_bounds = λ day. listed (ltb (day % 7) 5) day;
}

listed-bounds :
    (is_listed : Bool) (day : ℕ) (b : SessionBounds)
    → listed is_listed day ≡ some b
    → bounds_on day ≡ b
listed-bounds true day b h = cc
listed-bounds false day b h = absurd cc

week-HasSessions : HasSessions week
week-HasSessions = record {
  lasts = λ day b h. rw (← listed-bounds (ltb (day % 7) 5) day b h) (omega arith);
}

date_of : (day u : ℕ) → day * 100 + 30 ≤ u → u < day * 100 + 60 → u / 100 ≡ day
date_of day u opened inside = omega (arith, opened, inside)

week-IsDated : IsDated week
week-IsDated = record {
  dated = λ day b u h. rw (← listed-bounds (ltb (day % 7) 5) day b h) (date_of day u);
}

-- A Friday evening: the next session is on Monday.
monday : into_regular_session week (aware 470) ≡ ok 730
unfolding into_regular_session
monday = refl

abbrev capped_run : NextRun
capped_run = record { not_before = 730; source = agent; requested_at = 900; latest_at = 470 }

capped_to_monday : next_run week (aware 900) agent (aware 470) ≡ ok capped_run
unfolding next_run
capped_to_monday = refl

into_regular_session-IsFirst_example : IsFirst week (week.nyse_date 470) 15 470 730
into_regular_session-IsFirst_example =
    into_regular_session-IsFirst week week-HasSessions 470 730 monday

week_covered : (d : ℕ) → 4 ≤ d → d < 4 + 15 → ltb d 100 ≡ true
week_covered d ge lt = ground arith

open_day : IsOpenDay week (week.nyse_date 470) 15 470
open_day = record {
  day = 7;
  from_first = omega arith;
  in_search = omega arith;
  bounds = bounds_on 7;
  bounds_are = refl;
  not_closed = omega arith;
}

into_regular_session_total_example : (r : ℕ) × (into_regular_session week (aware 470) ≡ ok r)
into_regular_session_total_example = into_regular_session_total week 470 week_covered open_day

next_run-Proceeds_example : IsFirst week (week.nyse_date 470) 15 470 730 × Proceeds week 730
next_run-Proceeds_example =
    next_run-Proceeds week week-HasSessions week-IsDated 900 470 agent capped_run capped_to_monday
