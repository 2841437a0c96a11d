-- ===== src/AccountScope/Tests.antt =====
-- A read of one account's positions, key 1 being the account's.
use wheelta_robinhood_agent.Common.{ℕ, ◌≡◌, refl, Bool, none, [], ◌∷◌, ◌==◌, Dict}
use wheelta_robinhood_agent.AccountScope.{
  Argument, text, not_text, verified, unverified, robinhood, account_scope_for, check_account_scope,
  sent,
}
use wheelta_robinhood_agent.AccountScope.Confined.{IsConfined, check-IsConfined}

abbrev is_account : ℕ → Bool
is_account key = key == 1

abbrev by_placeholder : Dict Argument
by_placeholder = record { key = 2; value = not_text 5 } ∷ record { key = 1; value = text 100 } ∷ []

unlisted : account_scope_for (λ tool. none) robinhood 3 ≡ unverified
unfolding account_scope_for
unlisted = refl

passes : check_account_scope is_account 100 777 (verified 1) by_placeholder ≡ none
unfolding check_account_scope
passes = refl

check-IsConfined_example :
    IsConfined is_account 777 (verified 1) (sent is_account 100 777 (verified 1) by_placeholder)
check-IsConfined_example = check-IsConfined is_account 100 777 (verified 1) by_placeholder passes
