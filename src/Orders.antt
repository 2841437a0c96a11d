-- ===== src/Orders.antt =====
-- domain/orders.py: the fills of a broker order, and the latest status that was observed of it. What is read of a
-- fill record is kept; a status is a number.
pub mod Totals
pub mod Repeats
mod Tests
use wheelta_robinhood_agent.Common.{
  ℕ, ◌+◌, Bool, true, false, not, ◌&&◌, ◌||◌, Option, none, some, List, [], ◌∷◌, ◌++◌, map, any,
  is_empty, ltb, leb, ◌==◌, if◌then◌else◌, get_last?, Dict, Item, find, assign, Result, ok, err,
  value_error, raise_if, ◌>>◌, ◌>>=◌,
}

pub data FillObservationKind : Type 0 where
  execution cumulative : FillObservationKind

pub record FillRecord : Type 0 where
  pub order_id : ℕ
  pub kind : FillObservationKind
  pub broker_execution_id : Option ℕ
  pub quantity : ℕ
  pub observed_at : ℕ

abbrev check_execution : Option ℕ → ℕ → Result (Unit {0})
check_execution none quantity = err value_error
check_execution (some id) quantity = raise_if (quantity == 0) value_error

abbrev check_cumulative : Option ℕ → Result (Unit {0})
check_cumulative none = ok tt
check_cumulative (some id) = err value_error

abbrev check_kind : FillObservationKind → Option ℕ → ℕ → Result (Unit {0})
check_kind execution id quantity = check_execution id quantity
check_kind cumulative id quantity = check_cumulative id

-- `_check_fill`
unfoldable pub check_fill : FillRecord → Result (Unit {0})
check_fill f = check_kind f.kind f.broker_execution_id f.quantity

-- The executions by their ID, and the totals in the order given.
pub record Observed : Type 0 where
  pub executions : Dict ℕ
  pub totals : List FillRecord

-- `prior is not None and prior != fill.quantity`
abbrev pub conflicts : Option ℕ → ℕ → Bool
conflicts none quantity = false
conflicts (some prior) quantity = not (prior == quantity)

abbrev pub add_execution : Observed → FillRecord → Option ℕ → Option Observed
add_execution seen f none = none
add_execution seen f (some id) =
    if conflicts (find seen.executions id) f.quantity
    then none
    else some (record seen { executions = assign seen.executions id f.quantity })

abbrev pub add_fill : Observed → FillRecord → FillObservationKind → Option Observed
add_fill seen f execution = add_execution seen f f.broker_execution_id
add_fill seen f cumulative = some (record seen { totals = seen.totals ++ (f ∷ []) })

-- The loop over the fills.
abbrev pub collect : List FillRecord → Option Observed → Option Observed
collect [] seen = seen
collect (f ∷ fs) none = none
collect (f ∷ fs) (some seen) = collect fs (add_fill seen f f.kind)

-- `cumulative.sort(key=lambda f: f.observed_at)`, which keeps the order of equal times.
abbrev pub insert : FillRecord → List FillRecord → List FillRecord
insert f [] = f ∷ []
insert f (g ∷ gs) = if leb f.observed_at g.observed_at then f ∷ g ∷ gs else g ∷ insert f gs

abbrev pub sort : List FillRecord → List FillRecord
sort [] = []
sort (f ∷ fs) = insert f (sort fs)

abbrev pub decreases_from : ℕ → List FillRecord → Bool
decreases_from earlier [] = false
decreases_from earlier (f ∷ fs) = ltb f.quantity earlier || decreases_from f.quantity fs

-- `any(later < earlier for ...)`
abbrev pub decreases : List FillRecord → Bool
decreases [] = false
decreases (f ∷ fs) = decreases_from f.quantity fs

abbrev pub sum_values : Dict ℕ → ℕ
sum_values [] = 0
sum_values (e ∷ es) = e.value + sum_values es

abbrev pub execution_total : Dict ℕ → Option ℕ
execution_total [] = none
execution_total (e ∷ es) = some (sum_values (e ∷ es))

abbrev pub last_from : ℕ → List FillRecord → ℕ
last_from q [] = q
last_from q (f ∷ fs) = last_from f.quantity fs

abbrev pub cumulative_total : List FillRecord → Option ℕ
cumulative_total [] = none
cumulative_total (f ∷ fs) = some (last_from f.quantity fs)

abbrev pub agreed : Option ℕ → Option ℕ → Option ℕ
agreed (some executed) (some total) = if executed == total then some executed else none
agreed (some executed) none = some executed
agreed none total = total

abbrev pub settled : Dict ℕ → List FillRecord → Option ℕ
settled executions sorted =
    if decreases sorted then none else agreed (execution_total executions) (cumulative_total sorted)

abbrev pub settle_observed : Option Observed → Option ℕ
settle_observed none = none
settle_observed (some seen) = settled seen.executions (sort seen.totals)

abbrev pub nothing_observed : Observed
nothing_observed = record { executions = []; totals = [] }

abbrev pub of_one_order : FillRecord → List FillRecord → Bool
of_one_order f fs = not (any (λ g. not (g.order_id == f.order_id)) fs)

-- `filled_quantity`
unfoldable pub filled_quantity : List FillRecord → Option ℕ
filled_quantity [] = some 0
filled_quantity (f ∷ fs) =
    if not (of_one_order f fs)
    then none
    else settle_observed (collect (f ∷ fs) (some nothing_observed))
