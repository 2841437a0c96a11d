-- ===== src/AccountScope.antt =====
-- agent/account_scope.py: whether a call is confined to the one account, and the arguments that leave. The keys and
-- texts are numbers; which keys name an account (`is_account_key` of observability/redaction.py) is a parameter,
-- and nothing is assumed of it. The scrypt digest of the account is a library's.
pub mod Confined
mod Tests
use wheelta_robinhood_agent.Common.{
  ℕ, Bool, true, false, not, ◌&&◌, Option, none, some, List, [], ◌∷◌, any, ◌==◌, if◌then◌else◌,
  Dict, Item, find, assign, get_or,
}

-- `AccountScopeSpec`: the account's argument is there exactly when the scope is verified.
pub data AccountScopeSpec : Type 0 where
  not_account_scoped login_scoped unverified : AccountScopeSpec
  verified : ℕ → AccountScopeSpec

-- A value of an argument: a text, the empty text, or no text.
pub data Argument : Type 0 where
  text : ℕ → Argument
  empty_text : Argument
  not_text : ℕ → Argument

pub data Server : Type 0 where
  robinhood known_unscoped unknown_server : Server

-- `account_scope_for`
unfoldable pub account_scope_for : (ℕ → Option AccountScopeSpec) → Server → ℕ → AccountScopeSpec
account_scope_for table robinhood tool = get_or unverified (table tool)
account_scope_for table known_unscoped tool = not_account_scoped
account_scope_for table unknown_server tool = unverified

pub data ScopeDenial : Type 0 where
  scope_unverified unexpected_argument second_argument argument_missing other_account : ScopeDenial

module _ (is_account_key : ℕ → Bool) (placeholder account_number : ℕ) where
  abbrev pub names_account : Dict Argument → Bool
  names_account input = any (λ e. is_account_key e.key) input

  abbrev pub names_second : ℕ → Dict Argument → Bool
  names_second arg input = any (λ e. is_account_key e.key && not (e.key == arg)) input

  abbrev pub check_value : Option Argument → Option ScopeDenial
  check_value (some (text value)) =
      if value == placeholder
      then none
      else if not (value == account_number)
      then some other_account
      else none
  check_value (some empty_text) = some argument_missing
  check_value (some (not_text value)) = some argument_missing
  check_value none = some argument_missing

  abbrev pub unscoped_check : Dict Argument → Option ScopeDenial
  unscoped_check input = if names_account input then some unexpected_argument else none

  unfoldable pub check_account_scope : AccountScopeSpec → Dict Argument → Option ScopeDenial
  check_account_scope unverified input = some scope_unverified
  check_account_scope not_account_scoped input = unscoped_check input
  check_account_scope login_scoped input = unscoped_check input
  check_account_scope (verified arg) input =
      if names_second arg input then some second_argument else check_value (find input arg)

  abbrev pub is_placeholder : Option Argument → Bool
  is_placeholder (some (text value)) = value == placeholder
  is_placeholder (some empty_text) = false
  is_placeholder (some (not_text value)) = false
  is_placeholder none = false

  -- None when nothing is replaced.
  unfoldable pub resolve_account_argument :
      AccountScopeSpec → Dict Argument → Option (Dict Argument)
  resolve_account_argument (verified arg) input =
      if not (is_placeholder (find input arg))
      then none
      else some (assign input arg (text account_number))
  resolve_account_argument not_account_scoped input = none
  resolve_account_argument login_scoped input = none
  resolve_account_argument unverified input = none

  -- What leaves: the resolved arguments, or those that were given.
  abbrev pub sent : AccountScopeSpec → Dict Argument → Dict Argument
  sent spec input = get_or input (resolve_account_argument spec input)
