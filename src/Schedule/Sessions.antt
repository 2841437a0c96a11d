-- ===== src/Schedule/Sessions.antt =====
-- Where the next run falls (orchestrator/schedule.py) and that it may then proceed
-- (orchestrator/market_session.py).
use wheelta_robinhood_agent.Common.{
  ℕ, zero, suc, ◌+◌, ◌≤◌, ◌<◌, ◌≡◌, refl, true, inl, inr, Bool-cases, Option, none, some, Result,
  ok, ok-injective, ltb, arith,
}
use wheelta_robinhood_agent.Schedule.{SessionBounds, TradingCalendar, on_day, or_next, search_days}

-- A session that the calendar lists is not empty.
pub record HasSessions (calendar : TradingCalendar) : Type 0 where
  pub lasts :
      (day : ℕ) (b : SessionBounds)
      → calendar.session_bounds day ≡ some b
      → b.open_utc < b.close_utc

-- The first time from t on in a session of one of the n days from the given day: it is in the session of
-- `day`, and no earlier time from t on is in a session of the days up to that one.
pub record IsFirst (calendar : TradingCalendar) (first n t r : ℕ) : Type 0 where
  pub day : ℕ
  pub from_first : first ≤ day
  pub in_search : day < first + n
  pub covered : calendar.covers day ≡ true
  pub bounds : SessionBounds
  pub bounds_are : calendar.session_bounds day ≡ some bounds
  pub opened : bounds.open_utc ≤ r
  pub not_closed : r < bounds.close_utc
  pub not_earlier : t ≤ r
  pub earliest :
      (d : ℕ) (b : SessionBounds) (u : ℕ)
      → first ≤ d
      → d ≤ day
      → calendar.session_bounds d ≡ some b
      → t ≤ u
      → b.open_utc ≤ u
      → u < b.close_utc
      → r ≤ u

same_bounds : (x : Option SessionBounds) (a b : SessionBounds) → x ≡ some a → x ≡ some b → a ≡ b
same_bounds x a b h k = cc

module _ (calendar : TradingCalendar) (sessions : HasSessions calendar) (t : ℕ) where
  -- A session on the first day, not closed at t.
  here :
      (first n r : ℕ) (b : SessionBounds)
      → calendar.covers first ≡ true
      → calendar.session_bounds first ≡ some b
      → t ≤ r
      → b.open_utc ≤ r
      → r < b.close_utc
      → ((u : ℕ) → t ≤ u → b.open_utc ≤ u → r ≤ u)
      → IsFirst calendar first (suc n) t r
  here first n r b c e after opened still first_time = record {
    day = first;
    from_first = omega arith;
    in_search = omega arith;
    covered = c;
    bounds = b;
    bounds_are = e;
    opened = opened;
    not_closed = still;
    not_earlier = after;
    earliest = λ d b' u ge le e' late o x.
        let d_is : d ≡ first = omega (arith, ge, le) in
        let b_is : b ≡ b' = same_bounds (calendar.session_bounds first) b b' e (rw d_is at e') in
        first_time u late (rw b_is o);
  }

  -- Nothing on the first day: the search goes on.
  later :
      (first n r : ℕ)
      → ((b : SessionBounds) → calendar.session_bounds first ≡ some b → b.close_utc ≤ t)
      → IsFirst calendar (suc first) n t r
      → IsFirst calendar first (suc n) t r
  later first n r closed h = record {
    day = h.day;
    from_first = omega (arith, h.from_first);
    in_search = omega (arith, h.in_search);
    covered = h.covered;
    bounds = h.bounds;
    bounds_are = h.bounds_are;
    opened = h.opened;
    not_closed = h.not_closed;
    not_earlier = h.not_earlier;
    earliest = λ d b u ge le e late o x. elim (Bool-cases (ltb first d)) [
      | inl beyond ↦ h.earliest d b u (ground arith) le e late o x
      | inr same ↦
          let d_is : d ≡ first = ground arith in
          let past = closed b (rw d_is at e) in absurd (omega (arith, past, late, x))
    ];
  }

  on_day-IsFirst :
      (first n r : ℕ) (next : Result ℕ)
      → calendar.covers first ≡ true
      → (next ≡ ok r → IsFirst calendar (suc first) n t r)
      → (found : Option SessionBounds) → calendar.session_bounds first ≡ found
      → or_next calendar (on_day calendar t found) next ≡ ok r
      → IsFirst calendar first (suc n) t r
  on_day-IsFirst first n r next c ih none e h = later first n r (λ b e'. absurd cc) (ih h)
  on_day-IsFirst first n r next c ih (some b) e h = elim (Bool-cases (ltb t b.open_utc)) [
    | inl before ↦
        let r_is : b.open_utc ≡ r = ok-injective (rw before at h) in
        let still = sessions.lasts first b e in
        here first n r b c e (rw (← r_is) (ground arith)) (rw r_is (omega arith))
          (rw (← r_is) still) (λ u late o. rw (← r_is) o)
    | inr opened ↦ elim (Bool-cases (ltb t b.close_utc)) [
      | inl still ↦
          let r_is : t ≡ r = ok-injective (rw (opened, still) at h) in
          here first n r b c e (omega (arith, r_is)) (rw (← r_is) (ground arith))
            (rw (← r_is) (ground arith)) (λ u late o. rw (← r_is) late)
      | inr over ↦
          later first n r
            (λ b' e'.
              let b_is : b ≡ b' = same_bounds (calendar.session_bounds first) b b' e e' in
              rw (← b_is) (ground arith))
            (ih (rw (opened, over) at h))
    ]
  ]

  pub search_days-IsFirst :
      (n first r : ℕ) → search_days calendar n first t ≡ ok r → IsFirst calendar first n t r
  unfolding search_days
  search_days-IsFirst zero first r h = absurd cc
  search_days-IsFirst (suc n) first r h = elim (Bool-cases (calendar.covers first)) [
    | inl c ↦
        on_day-IsFirst first n r (search_days calendar n (suc first) t) c
          (search_days-IsFirst n (suc first) r) (calendar.session_bounds first) refl (rw c at h)
    | inr c ↦ absurd (let h' = rw c at h in cc)
  ]
