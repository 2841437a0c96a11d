-- ===== src/RoleGate/Tests.antt =====
-- A run of the Buy-to-Close agent that closes three calls and rolls two of them.
use wheelta_robinhood_agent.Common.{◌≡◌, refl, true, false, none, some, List, [], ◌∷◌, pos}
use wheelta_robinhood_agent.OrderWalk.{buy_to_close, sell_to_open}
use wheelta_robinhood_agent.RoleGate.{
  close, OccSymbol, call, RoleLeg, RunFill, not_a_replacement, check_role,
}

abbrev symbol : OccSymbol
symbol = record { root = 4; right = call }

abbrev replacement : RoleLeg
replacement = record { option_id = 8; closing = false; opening = true; occ_symbol = some symbol }

abbrev closed_run : List RunFill
closed_run = record { side = buy_to_close; occ_symbol = some symbol; quantity = 3 } ∷ []

abbrev rolled_run : List RunFill
rolled_run = record { side = sell_to_open; occ_symbol = some symbol; quantity = 2 } ∷ closed_run

denied : check_role close (replacement ∷ []) (some (pos 2)) rolled_run ≡ some not_a_replacement
unfolding check_role
denied = refl

-- Two legs of three contracts each, after three were closed: each leg is compared with the whole capacity.
two_legs : check_role close (replacement ∷ replacement ∷ []) (some (pos 3)) closed_run ≡ none
unfolding check_role
two_legs = refl
