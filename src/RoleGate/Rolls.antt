-- ===== src/RoleGate/Rolls.antt =====
-- The rolls of a run of the Buy-to-Close agent (domain/role_gate.py): what it opened stays within what it closed.
use wheelta_robinhood_agent.Common.{ℕ, ◌≡◌, true, none, some, List, [], ◌∷◌, pos}
use wheelta_robinhood_agent.OrderWalk.{sell_to_open, buy_to_close}
use wheelta_robinhood_agent.RoleGate.{close, OccSymbol, RoleLeg, RunFill, check_role}

-- A run of orders of one leg each, newest first: a close fills, or a replacement is placed that the check let
-- through. Of several legs the check compares each with the whole capacity.
pub data Rolled : List RunFill → Type 0 where
  start : Rolled []
  closed :
      (run : List RunFill) (symbol : OccSymbol) (n : ℕ)
      → Rolled run
      → Rolled (record { side = buy_to_close; occ_symbol = some symbol; quantity = n } ∷ run)
  replaced :
      (run : List RunFill) (leg : RoleLeg) (symbol : OccSymbol) (n : ℕ)
      → Rolled run
      → leg.opening ≡ true
      → leg.occ_symbol ≡ some symbol
      → check_role close (leg ∷ []) (some (pos n)) run ≡ none
      → Rolled (record { side = sell_to_open; occ_symbol = some symbol; quantity = n } ∷ run)
