-- ===== src/Hooks/Workspace.antt =====
-- agent/hooks.py: which workspace objects a call may write (`check_workspace`), and the caps on their number.
use wheelta_robinhood_agent.Common.{
  ℕ, Bool, true, false, not, ◌&&◌, Option, none, some, List, [], ◌∷◌, length, is_some, ltb, leb,
  ◌==◌, if◌then◌else◌, Dict, find,
}
use wheelta_robinhood_agent.AccountScope.{Argument, text, empty_text, not_text}
use wheelta_robinhood_agent.Hooks.{
  IntRule, number, no_limit, unenforceable, WorkspaceKind, watchlist, scan, alert, WorkspaceAction,
  create, mutate, add_item, WorkspaceTargetSpec, HookDeps, Check, denied, passed, ◌>>=◌, ◌>>◌,
  deny_if, attempt, or_deny, target_unverified, cap_unenforceable, count_unavailable, cap_reached,
  argument_missing, outside_prefix, name_taken, not_owned,
}

-- `_cap`; None is no limit.
abbrev pub cap : IntRule → Check (Option ℕ)
cap (number value) = passed (some value)
cap no_limit = passed none
cap unenforceable = denied cap_unenforceable

abbrev pub below_limit : ℕ → Option ℕ → Check (Unit {0})
below_limit limit none = denied count_unavailable
below_limit limit (some count) = deny_if (leb limit count) cap_reached

abbrev pub below_cap : Option ℕ → Option ℕ → Check (Unit {0})
below_cap none count = passed tt
below_cap (some limit) count = below_limit limit count

-- `_check_count`
unfoldable pub check_count : IntRule → Option ℕ → Check (Unit {0})
check_count rule count = do limit ← cap rule; below_cap limit count

abbrev pub text_in : Option Argument → Check ℕ
text_in (some (text value)) = passed value
text_in (some empty_text) = denied argument_missing
text_in (some (not_text value)) = denied argument_missing
text_in none = denied argument_missing

-- `_required_str`, of the argument that a target's spec names.
unfoldable pub required_str : Dict Argument → Option ℕ → Check ℕ
required_str input none = denied argument_missing
required_str input (some arg) = text_in (find input arg)

abbrev pub starts_with : List ℕ → List ℕ → Bool
starts_with [] chars = true
starts_with (p ∷ ps) [] = false
starts_with (p ∷ ps) (c ∷ cs) = if p == c then starts_with ps cs else false

-- `tool_input.get(arg) is not None`; the value `null` is `not_text 0`.
abbrev pub is_given : Option Argument → Bool
is_given none = false
is_given (some (text value)) = true
is_given (some empty_text) = true
is_given (some (not_text value)) = not (value == 0)

module _ (deps : HookDeps) where
  unfoldable pub in_namespace : ℕ → Bool
  in_namespace name =
      starts_with deps.workspace_prefix (deps.text_of name)
      && ltb (length deps.workspace_prefix) (length (deps.text_of name))

  abbrev pub owned_cap : WorkspaceKind → IntRule
  owned_cap watchlist = deps.rules.max_owned_watchlists
  owned_cap scan = deps.rules.max_owned_scans
  owned_cap alert = deps.rules.max_owned_alerts

  abbrev pub has_argument : Option ℕ → Dict Argument → Bool
  has_argument none input = false
  has_argument (some arg) input = is_given (find input arg)

  abbrev pub is_creating : WorkspaceAction → Option ℕ → Dict Argument → Bool
  is_creating create id_arg input = not (has_argument id_arg input)
  is_creating mutate id_arg input = false
  is_creating add_item id_arg input = false

  unfoldable pub check_create : WorkspaceTargetSpec → Dict Argument → Check (Unit {0})
  unfolding check_count required_str in_namespace
  check_create target input = do
    name ← required_str input target.name_arg
    deny_if (not (in_namespace name)) outside_prefix
    taken ← attempt (deps.by_name target.kind name)
    deny_if (is_some taken) name_taken
    count ← attempt (deps.owned_count target.kind)
    check_count (owned_cap target.kind) count

  -- A new name, where the call gives one.
  abbrev pub new_name_check : Option Argument → Check (Unit {0})
  new_name_check none = passed tt
  new_name_check (some (text name)) = deny_if (not (in_namespace name)) outside_prefix
  new_name_check (some empty_text) = denied outside_prefix
  new_name_check (some (not_text value)) = denied outside_prefix

  abbrev pub check_rename : Option ℕ → Dict Argument → Check (Unit {0})
  check_rename none input = passed tt
  check_rename (some arg) input = new_name_check (find input arg)

  abbrev pub check_items : WorkspaceAction → ℕ → Check (Unit {0})
  check_items add_item object_id = do
    count ← attempt (deps.items_in object_id)
    check_count deps.rules.max_items_per_owned_watchlist count
  check_items create object_id = passed tt
  check_items mutate object_id = passed tt

  unfoldable pub check_change : WorkspaceTargetSpec → Dict Argument → Check (Unit {0})
  unfolding check_count required_str in_namespace
  check_change target input = do
    object_id ← required_str input target.id_arg
    found ← attempt (deps.by_id target.kind object_id)
    owned ← or_deny found not_owned
    deny_if (not (in_namespace owned.name)) outside_prefix
    check_rename target.name_arg input
    check_items target.action object_id

  unfoldable pub verified_target : Option WorkspaceTargetSpec → Check WorkspaceTargetSpec
  verified_target none = denied target_unverified
  verified_target (some target) =
      if target.is_verified then passed target else denied target_unverified

  unfoldable pub check_workspace : ℕ → Dict Argument → Check (Unit {0})
  unfolding verified_target check_count check_create check_change
  check_workspace tool input = do
    target ← verified_target (deps.workspace_targets tool)
    count ← attempt deps.mutations_this_run
    check_count deps.rules.max_mutations_per_run count
    if is_creating target.action target.id_arg input
        then check_create target input
        else check_change target input
