-- ===== src/Concurrency/Tests.antt =====
-- A close beside a working close on another contract, with prices and cash in cents.
use wheelta_robinhood_agent.Common.{
  ℕ, ◌≡◌, refl, ◌↔◌, ◌⊎◌, true, Option, none, some, List, [], ◌∷◌, ok, pos, aware,
}
use wheelta_robinhood_agent.Sanity.{is_fresh}
use wheelta_robinhood_agent.Concurrency.{
  count, NewPlacement, WorkingPlacement, AccountSnapshot, over_cash, check_concurrency,
}
use wheelta_robinhood_agent.Concurrency.Allowed.{IsAffordable, check_concurrency-IsAffordable}

abbrev hundred : ℕ → Option ℕ
hundred option_id = some 100

abbrev new_close : NewPlacement
new_close = record {
  legs = record { option_id = 2; closing = true } ∷ [];
  quantity = some 1;
  limit_price = some 50;
}

abbrev working : List WorkingPlacement
working =
    record {
      label = 9;
      option_id = some 1;
      closing = true;
      remaining_quantity = some (pos 2);
      limit_price = some 30;
    }
    ∷ []

abbrev snapshot_with : ℕ → AccountSnapshot
snapshot_with cash = record {
  as_of = aware 1000000;
  agentic_verified = true;
  available_settled_cash_usd = some cash;
}

affordable :
    check_concurrency hundred
      (some (snapshot_with 11000))
      (count 60)
      (aware 2000000)
      new_close
      working
      0
    ≡ ok none
unfolding check_concurrency is_fresh
affordable = refl

too_dear :
    check_concurrency hundred
      (some (snapshot_with 10999))
      (count 60)
      (aware 2000000)
      new_close
      working
      0
    ≡ ok (some (over_cash 11000 10999))
unfolding check_concurrency is_fresh
too_dear = refl

check_concurrency-IsAffordable_example :
    (check_concurrency hundred
        (some (snapshot_with 11000))
        (count 60)
        (aware 2000000)
        new_close
        working
        0
      ≡ ok none)
    ↔ (◌≡◌ {A = ℕ} 0 0
        × ((working ≡ [])
            ⊎ IsAffordable hundred
                (some (snapshot_with 11000))
                (count 60)
                (aware 2000000)
                new_close
                working))
check_concurrency-IsAffordable_example =
    check_concurrency-IsAffordable hundred (some (snapshot_with 11000)) (count 60) (aware 2000000)
      new_close working 0 2000000 refl
