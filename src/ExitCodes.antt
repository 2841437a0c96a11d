-- ===== src/ExitCodes.antt =====
-- orchestrator/exit_codes.py: the process exit codes of final run statuses.
pub mod Severest
use wheelta_robinhood_agent.Common.{
  ℕ, Bool, true, false, Option, none, some, List, [], ◌∷◌, Result, ok, err, value_error, ◌>>=◌, ltb,
  ◌==◌, if◌then◌else◌,
}

-- domain/enums.py
pub data RunStatus : Type 0 where
  running completed skipped_concurrent skipped_killed skipped_market_closed : RunStatus
  skipped_dry_run_not_local skipped_not_due skipped_dry_run_not_requested : RunStatus
  skipped_no_open_shorts skipped_insufficient_balance stopped timed_out failed : RunStatus

-- `_EXIT_CODES` and `exit_code_for`: `ExitCodeUndefined` is a `ValueError`.
unfoldable pub exit_code_for : RunStatus → Result ℕ
exit_code_for running = err value_error
exit_code_for failed = ok 1
exit_code_for timed_out = ok 2
exit_code_for stopped = ok 3
exit_code_for _ = ok 0

-- `_SEVERITY.index`
unfoldable pub severity : ℕ → Result ℕ
severity code =
    if code == 0
    then ok 0
    else if code == 3
    then ok 1
    else if code == 2
    then ok 2
    else if code == 1
    then ok 3
    else err value_error

-- `max` with a key, from the best code so far, which stays on a tie.
unfoldable pub severest : List ℕ → ℕ → ℕ → Result ℕ
severest [] best rank = ok best
severest (code ∷ codes) best rank = do
  r ← severity code
  if ltb rank r then severest codes code r else severest codes best rank

unfoldable pub combined_exit_code : List ℕ → Result ℕ
unfolding severest
combined_exit_code [] = ok 0
combined_exit_code (code ∷ codes) = do rank ← severity code; severest codes code rank
