-- ===== src/Concurrency.antt =====
-- domain/order_concurrency.py: whether a placement may join orders that are already working. A money amount is a
-- natural number of a fixed unit, a contract, a label and an account are numbers; the denial's text is
-- kept as its kind with the labels or gaps that it lists.
pub mod Funds
pub mod Allowed
mod Tests
use wheelta_robinhood_agent.Common.{
  ℕ, ◌+◌, ◌*◌, Bool, true, false, not, ◌&&◌, ◌||◌, Option, none, some, List, [], ◌∷◌, ◌++◌, map,
  ◌⊎◌, inl, inr, ℤ, pos, negsuc, Result, ok, err, ◌>>=◌, DateTime, any, all, keep_if, is_empty, ltb,
  ◌==◌, if◌then◌else◌,
}
use wheelta_robinhood_agent.FactsRules.{
  CountSetting, marker, count, unset, no_limit, agent_discretion,
}
use wheelta_robinhood_agent.Sanity.{require_aware, is_fresh}

pub record PlacementLeg : Type 0 where
  pub option_id : ℕ
  pub closing : Bool

pub record NewPlacement : Type 0 where
  pub legs : List PlacementLeg
  pub quantity : Option ℕ
  pub limit_price : Option ℕ

pub record WorkingPlacement : Type 0 where
  pub label : ℕ
  pub option_id : Option ℕ
  pub closing : Bool
  pub remaining_quantity : Option ℤ
  pub limit_price : Option ℕ

-- domain/account.py: what is read of a snapshot.
pub record AccountSnapshot : Type 0 where
  pub as_of : DateTime
  pub agentic_verified : Bool
  pub available_settled_cash_usd : Option ℕ

-- What a debit is of: a working order by its label, or the new order.
pub data Subject : Type 0 where
  working_order : ℕ → Subject
  this_order : Subject

pub data Gap : Type 0 where
  price_unknown multiplier_unknown quantity_unknown : Subject → Gap
  no_snapshot not_verified age_unset snapshot_old cash_not_reported : Gap

pub data Denial : Type 0 where
  in_flight : Denial
  same_contract not_all_closing : List ℕ → Denial
  funds_unverified : List Gap → Denial
  over_cash : ℕ → ℕ → Denial

-- `_debit`
unfoldable pub debit : Option ℕ → Option ℕ → Option ℤ → Subject → ℕ ⊎ Gap
debit none multiplier quantity what = inr (price_unknown what)
debit (some price) none quantity what = inr (multiplier_unknown what)
debit (some price) (some multiplier) none what = inr (quantity_unknown what)
debit (some price) (some multiplier) (some (negsuc n)) what = inr (quantity_unknown what)
debit (some price) (some multiplier) (some (pos n)) what = inl (price * multiplier * n)

-- `_cash`, once the snapshot is there and verified: its age, then its cash.
abbrev reported : Option ℕ → ℕ ⊎ Gap
reported none = inr cash_not_reported
reported (some cash) = inl cash

aged : CountSetting → AccountSnapshot → DateTime → Result (ℕ ⊎ Gap)
aged (marker no_limit) snapshot now = ok (reported snapshot.available_settled_cash_usd)
aged (marker unset) snapshot now = ok (inr age_unset)
aged (marker agent_discretion) snapshot now = ok (inr age_unset)
aged (count max_age) snapshot now = do
  fresh ← is_fresh (some snapshot.as_of) now max_age
  ok (if fresh then reported snapshot.available_settled_cash_usd else inr snapshot_old)

-- `_cash`
unfoldable pub cash_of : Option AccountSnapshot → DateTime → CountSetting → Result (ℕ ⊎ Gap)
unfolding aged
cash_of none now max_age = ok (inr no_snapshot)
cash_of (some snapshot) now max_age =
    let checked = aged max_age snapshot now in
    if snapshot.agentic_verified then checked else ok (inr not_verified)

-- The loop's `gaps` and `total`.
pub record Tally : Type 0 where
  pub gaps : List Gap
  pub total : ℕ

abbrev pub add_debit : ℕ ⊎ Gap → Tally → Tally
add_debit (inl d) t = record t { total = t.total + d }
add_debit (inr gap) t = record t { gaps = t.gaps ++ (gap ∷ []) }

pub tally_all : {A : Type 0} → (A → ℕ ⊎ Gap) → List A → Tally → Tally
tally_all f [] t = t
tally_all f (x ∷ xs) t = tally_all f xs (add_debit (f x) t)

abbrev multiplier_of : (ℕ → Option ℕ) → Option ℕ → Option ℕ
multiplier_of multipliers none = none
multiplier_of multipliers (some option_id) = multipliers option_id

abbrev on_contract : List PlacementLeg → Option ℕ → Bool
on_contract legs none = false
on_contract legs (some option_id) = any (λ leg. leg.option_id == option_id) legs

abbrev whole_quantity : Option ℕ → Option ℤ
whole_quantity none = none
whole_quantity (some n) = some (pos n)

module _ (multipliers : ℕ → Option ℕ) where
  unfoldable pub working_debit : WorkingPlacement → ℕ ⊎ Gap
  unfolding debit
  working_debit w =
      debit w.limit_price (multiplier_of multipliers w.option_id) w.remaining_quantity
        (working_order w.label)

  unfoldable pub leg_debit : NewPlacement → PlacementLeg → ℕ ⊎ Gap
  unfolding debit
  leg_debit new leg =
      debit new.limit_price (multipliers leg.option_id) (whole_quantity new.quantity) this_order

  unfoldable pub tally : NewPlacement → List WorkingPlacement → Tally
  unfolding tally_all working_debit leg_debit
  tally new working =
      tally_all (leg_debit new) new.legs
        (tally_all working_debit working (record { gaps = []; total = 0 }))

-- The test of the tally against the cash.
abbrev verdict : Tally → ℕ ⊎ Gap → Option Denial
verdict t (inr gap) = some (funds_unverified (t.gaps ++ (gap ∷ [])))
verdict t (inl cash) =
    if not (is_empty t.gaps)
    then some (funds_unverified t.gaps)
    else if ltb cash t.total
    then some (over_cash t.total cash)
    else none

module _ (multipliers : ℕ → Option ℕ) (account : Option AccountSnapshot) (max_age : CountSetting)
    (as_of : DateTime) where
  -- `check_concurrency` once something is working.
  unfoldable pub check_working : NewPlacement → List WorkingPlacement → Result (Option Denial)
  unfolding tally cash_of
  check_working new working =
      let same = keep_if (λ w. on_contract new.legs w.option_id) working in
      let funds = cash_of account as_of max_age in
      if not (is_empty same)
      then ok (some (same_contract (map (λ w. w.label) same)))
      else if not (all (λ leg. leg.closing) new.legs) || not (all (λ w. w.closing) working)
      then ok (some (not_all_closing (map (λ w. w.label) working)))
      else do cash ← funds; ok (verdict (tally multipliers new working) cash)

  unfoldable pub check_concurrency :
      NewPlacement → List WorkingPlacement → ℕ → Result (Option Denial)
  unfolding check_working require_aware
  check_concurrency new working other_placements_in_flight = do
    now ← require_aware as_of
    if ltb 0 other_placements_in_flight
        then ok (some in_flight)
        else if is_empty working
        then ok none
        else check_working new working
