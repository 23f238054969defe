-- ===== src/Indexer/Runner.antt =====
-- internal/indexer/runner.go: the loop that runs the indexer again and again. It runs on fuel, one unit
-- for each round, since the Go loop ends only when its context does.
use block_explorer_backend.Prelude.{
  ℕ, zero, suc, Bool, true, false, ◌||◌, List, [], ◌∷◌, if◌then◌else◌,
}
use block_explorer_backend.Errors.{GoError, errors_is, request_canceled, rpc_timeout, db_timeout}
use block_explorer_backend.Effect.{Result, ok, err, Io}
use block_explorer_backend.Dto.{IndexerOnceResult}

-- `begin_run` and `end_run` are `context.WithTimeout` and its `cancel`; `wait` is the `select` on the
-- context and the timer, which answers whether the context was done.
pub record Runner (W : Type 0) : Type 0 where
  pub run_indexer_once : Io W IndexerOnceResult
  pub interval : ℕ
  pub run_timeout : ℕ
  pub ctx_done : W → Bool
  pub begin_run : ℕ → W → W
  pub end_run : W → W
  pub wait : ℕ → W → Bool × W

-- What a round logs.
pub data RunLog : Type 0 where
  canceled timed_out failed : GoError → RunLog
  ran : IndexerOnceResult → RunLog

unfoldable pub log_of : Result IndexerOnceResult → RunLog
log_of (ok result) = ran result
log_of (err e) =
    if errors_is e request_canceled
    then canceled e
    else if errors_is e rpc_timeout || errors_is e db_timeout
    then timed_out e
    else failed e

-- The logs of the rounds, and the world that they leave.
pub record Rounds (W : Type 0) : Type 0 where
  pub logs : List RunLog
  pub world : W

module _ {W : Type 0} (r : Runner W) where
  abbrev pub after_round : RunLog → Bool → W → Rounds W → Rounds W
  after_round log true w next = record { logs = log ∷ []; world = w }
  after_round log false w next = record { logs = log ∷ next.logs; world = next.world }

  -- One round: the run with its timeout, and the world in which the loop waits.
  abbrev pub run_round : Io W IndexerOnceResult
  run_round w =
      let (result, w') = r.run_indexer_once (r.begin_run r.run_timeout w) in (result, r.end_run w')

  unfoldable pub start : ℕ → W → Rounds W
  unfolding log_of
  start zero w = record { logs = []; world = w }
  start (suc fuel) w =
      if r.ctx_done w
      then record { logs = []; world = w }
      else let (result, w') = run_round w in
        let (stopped, w'') = r.wait r.interval w' in
        let rest = start fuel w'' in after_round (log_of result) stopped w'' rest
