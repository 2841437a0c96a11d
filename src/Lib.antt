-- ===== src/Lib.antt =====
-- The order path of an option-selling agent: how one trade is planned as a walk of limit prices, and how
-- an executor works it at the broker, step by step; how many contracts a decision may be of; the checks that
-- stand before a placement and a run; and the broker of a dry run.
--
-- Paths are from the repository's root; the package is src/wheelta_robinhood_agent.
--
--   Common       Python's Booleans, lists, exceptions and integers, as the other modules use them
--   OrderWalk    domain/order_walk.py: ticks, rounding, the planned prices, timing. `tick_at`, `is_valid`,
--                `round_to_tick`, `step_prices`, `within_bounds`, `remaining_quantity` and `can_start` are the
--                functions of these names, `fits` the validator of `WalkTiming`. OrderWalk/Rounding,
--                OrderWalk/Steps and OrderWalk/Total hold the proofs.
--   Executor     agent/order_walk.py: the task of one job of `OrderWorkRunner`. Executor/Types has its data,
--                Executor/Session its surroundings and the monad of the task, Executor/Reads the reads
--                (`_quote`, `_read_order`, `_wait_for_fill`, `_confirm`, `_nap`), Executor/Orders the order actions
--                (`_place`, `_cancel`, `_settle`), Executor/Walk the walk and the ways out of it (`_walk`,
--                `_run`, `_end`, `_salvage`). The names are the methods' names without the underscore, with
--                `finish` for `_end`, `close` for the exception clauses of `_run`, `place_order` for `_place`
--                and `cancel_order` for `_cancel`. Executor/Triples, Quiet, Rules and Changes are a program
--                logic for the task, with children of the modules above for its use.
--                Executor/Runner has the table of a session's jobs and admitted calls (`reserve_call`, `release_call` and
--                `start` for `reserve`, `release` and `start`), and how a job is planned and made.
--   Sanity       domain/sanity.py: `require_aware`, `is_fresh` and the range checks
--   Concurrency  domain/order_concurrency.py: `check_concurrency` with `_debit` as `debit`, `_cash` as `cash_of`, its
--                loops over the orders as `tally` and its end as `verdict`. Concurrency/Funds and
--                Concurrency/Allowed hold the proofs.
--   RoleGate     domain/role_gate.py: `check_role`, and `roll_capacity` as the two sums `closed_on` and `opened_on`.
--                RoleGate/Permitted describes what passes, RoleGate/Rolls the runs of the Buy-to-Close agent as a
--                step relation.
--   Schedule     orchestrator/schedule.py and orchestrator/market_session.py: `into_regular_session`, `next_run`,
--                `is_due` and `evaluate_market_session`. The calendar and the time zone, which
--                libraries outside the repository provide, are a parameter. Schedule/Sessions and Schedule/Next
--                hold the proofs.
--   StartConditions  domain/start_conditions.py: `evaluate_close_start`, `evaluate_sell_start` and `coverable_symbols`, with the
--                dictionary `reserved` as a list of entries.
--   Gating       domain/gating.py: the effective mode and the order venue.
--   RunControl   agent/run_control.py: the stop latch, each request one step.
--   Hooks        agent/hooks.py: what a tool call passes before it is sent. `build_hooks_with_gate`'s state is `HookState`,
--                what it is given `HookDeps`, and an exception of a check a `Check`. Hooks/Gate is
--                `OutputRepairGate`, Hooks/Workspace `check_workspace`, Hooks/Resolve `_resolve`, `caller_role` and
--                `_order_tool_denial` (as `check_order_tool`), Hooks/Checks the other checks, Hooks/Decide `decide`,
--                Hooks/Calls `pre_tool_use`, `subagent_start` and the bookkeeping after a call, and Hooks/Admission
--                the executor's `guarded_admit`. Whether the recorder and the proxy accept a record
--                is a parameter, so that every failure is covered. Hooks/Access is agent/tool_access.py. It uses
--                Gating, RunControl and AccountScope; Hooks/Decided has what `decide` asked, Hooks/Placed a
--                placement's way through it with PretradeGate's gate injected, Hooks/Calls/Recorded,
--                Hooks/Calls/Spawns and Hooks/Calls/Stopping what holds over any calls.
--   SimulatedBroker  agent/simulated_broker.py: the broker of a dry run. `_request`, `_review`, `_place` and `_cancel` are
--                `request_of`, `review`, `place` and `cancel`; SimulatedBroker/Reads has the overlays of its reads,
--                SimulatedBroker/Calls `call_tool` and the runs of calls, SimulatedBroker/Orders the sums over the kept orders,
--                SimulatedBroker/Books what every write keeps, SimulatedBroker/Views, SimulatedBroker/Repeats,
--                SimulatedBroker/Cancels and SimulatedBroker/Listing what a run sees.
--   Facts        domain/facts_compute.py: the quantities of a decision. Facts/Reads has the validated inputs and `_cover`, Facts/Capacity
--                the caps of `csp_capacity` and `cc_capacity`, Facts/Decision the capacities and `compute_decision_facts`;
--                Facts/Counted and Facts/Funded say what the sums and the funding stand for, and Facts/Within,
--                Facts/Sizing, Facts/Bounds and Facts/Held hold the proofs.
--   Pretrade     domain/pretrade.py: `validate_opening_leg` and `pretrade_feedback`, with `_compare` as `compare_bounds`, and the two
--                formulas of domain/facts_compute.py that they use. Pretrade/Bounds, Pretrade/Recent
--                and Pretrade/Eligible hold the proofs.
--   PretradeGate  agent/pretrade_gate.py: `PretradeGate.__call__` as `gate`, with `_role`, `_concurrency` and `_working` as
--                `role_denial`, `concurrency_denial` and `working_of`. PretradeGate/Input has what it reads,
--                PretradeGate/Reading, PretradeGate/Working and PretradeGate/Roles say what of it the gate has to see, and
--                PretradeGate/Permission and PretradeGate/Passes hold the proofs. Of a recorded side no letter outside
--                ASCII has one of its letters as its lower case.
--   Orders       domain/orders.py: `filled_quantity` with its loop as `collect`. Orders/Totals and Orders/Repeats hold the proofs.
--   AccountScope  agent/account_scope.py: `account_scope_for`, `check_account_scope` and `resolve_account_argument`
--   Enums, FactsRules  domain/enums.py and domain/facts_rules.py: the option rights and the settings of a rule
--   Texts        the texts that the code looks into, as lists of character codes.
--   ExitCodes    orchestrator/exit_codes.py: `exit_code_for` and `combined_exit_code`.
--
-- The executor stands on the plan's `remaining_quantity` and `within_bounds` and on a job's
-- planned prices. Its surroundings (the hooks' gate, the proxy and the broker behind it, the
-- clock, the stop latch, the other tasks) are one parameter, the record `Session`: a state and
-- operations on it that may answer anything and change that state in any way. Nothing is assumed
-- of them, so the theorems on the executor hold whatever the broker reports, whenever the clock
-- jumps and wherever a task is cancelled. A call that raises, or a cancellation of the task, is a
-- value of `Reply`; `_JobEnded` and other exceptions are values of `Outcome`. Executor/Tests has a
-- small broker as an instance.
--
-- Every call of an agent or of the executor passes `decide` of Hooks, which asks AccountScope, Gating and the stop latch.
-- The three checks of a placement, RoleGate, Concurrency and Pretrade, are asked in turn by PretradeGate, before an
-- order reaches the executor's broker; the schedule decides when a run starts at all.
--
-- Loops. `step_prices` recurs on the steps that are left, the search for a session on its 15 days,
-- and `_wait_for_fill` and `_confirm` on the number of reads that the source counts down. Only
-- `_nap` recurs on fuel, one round for each whole second of the sleep and one more; each round
-- takes a whole second off what is left, or all of it. Times are microseconds.
--
-- Numbers. Prices and money are whole multiples of a fixed unit, the finest tick, so they are
-- natural numbers; the interpolated price of a step is a fraction, and the rounding of `Decimal`
-- to 28 digits is not modelled. The ratios of a rule are decimals, and a quotient is compared exactly. Identifiers are numbers, since they are only compared.
--
-- Not modelled: the texts of the denials and reasons beyond their kind, the metrics and gaps that are recorded beside
-- a decision's quantities, the rendering of records, what the hooks do with the result of a call or a Mignon's report,
-- the parsing of a brief or a work request and the roles' lists of tools (parameters of Hooks),
-- the database, the network, the language model's session, and the components that the package has
-- beside these.
pub mod Common
pub mod OrderWalk
pub mod Executor
pub mod AccountScope
pub mod Concurrency
pub mod Enums
pub mod ExitCodes
pub mod Facts
pub mod FactsRules
pub mod Gating
pub mod Hooks
pub mod Orders
pub mod Pretrade
pub mod PretradeGate
pub mod RoleGate
pub mod RunControl
pub mod Sanity
pub mod Schedule
pub mod SimulatedBroker
pub mod StartConditions
pub mod Texts
