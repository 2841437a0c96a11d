-- ===== src/Sanity.antt =====
-- domain/sanity.py: the range and freshness checks that the pure checks share. A `Decimal` of the wrong
-- type or value has no counterpart here: the types rule it out.
use wheelta_robinhood_agent.Common.{
  ℕ, ◌-◌, ◌*◌, ◌%◌, Bool, false, ◌&&◌, Option, none, some, Result, ok, err, value_error, ◌>>=◌,
  ◌>>◌, raise_if, DateTime, naive, aware, ltb, leb, ◌==◌,
}

-- `require_aware`: the instant of an aware time.
unfoldable pub require_aware : DateTime → Result ℕ
require_aware (naive t) = err value_error
require_aware (aware t) = ok t

unfoldable pub is_valid_bid_ask : ℕ → ℕ → Bool
is_valid_bid_ask bid ask = leb bid ask && ltb 0 ask

unfoldable pub is_mark_within_bid_ask : ℕ → ℕ → ℕ → Bool
unfolding is_valid_bid_ask
is_mark_within_bid_ask mark bid ask = is_valid_bid_ask bid ask && (leb bid mark && leb mark ask)

unfoldable pub is_iv_in_band : ℕ → ℕ → ℕ → Result Bool
is_iv_in_band iv low high = do raise_if (ltb high low) value_error; ok (leb low iv && leb iv high)

unfoldable pub is_on_tick : ℕ → ℕ → Result Bool
is_on_tick price tick = do raise_if (tick == 0) value_error; ok (price % tick == 0)

-- The test `0 <= now - as_of <= max_age_seconds`, in microseconds.
unfoldable pub in_age : ℕ → ℕ → ℕ → Bool
in_age as_of now max_age = leb as_of now && leb (now - as_of) (max_age * 1000000)

unfoldable pub is_fresh : Option DateTime → DateTime → ℕ → Result Bool
unfolding require_aware in_age
is_fresh none now max_age = do current ← require_aware now; ok false
is_fresh (some as_of) now max_age = do
  current ← require_aware now
  seen ← require_aware as_of
  ok (in_age seen current max_age)
