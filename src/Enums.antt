-- ===== src/Enums.antt =====
-- domain/enums.py: the rights of an option, and how they are compared.
use wheelta_robinhood_agent.Common.{Bool, true, false}

pub data OptionRight : Type 0 where
  put call : OptionRight

abbrev pub same_right : OptionRight → OptionRight → Bool
same_right put put = true
same_right call call = true
same_right _ _ = false
