-- ===== src/BlockService/Range.antt =====
-- `SyncBlockRangeToDB` of internal/service/block_service.go: the manual synchronisation of a range.
-- The `for` loop runs on fuel; `none` means that the fuel ran out before the loop had ended.
use block_explorer_backend.Prelude.{
  ℕ, zero, suc, ◌+◌, ◌-◌, ◌%◌, Bool, true, false, ◌||◌, Option, none, some, [], ◌∷◌, ◌++◌, ltb,
  if◌then◌else◌,
}
use block_explorer_backend.Prelude.Int.{two_64}
use block_explorer_backend.Errors.{
  GoError, sentinel, wrapf, errors_is, invalid_block_range, block_range_too_large, request_canceled,
  reorg_detected, chain_discontinuity, chain_data_conflict,
}
use block_explorer_backend.Effect.{Result, ok, err, Io}
use block_explorer_backend.Dto.{BlockRangeSyncResult}
use block_explorer_backend.Text.{Unicode}
use block_explorer_backend.Ethereum.{Geth}
use block_explorer_backend.BlockService.Interfaces.{BlockService}
use block_explorer_backend.BlockService.Defs.{sync_block_to_db}
pub mod Loop
pub mod Overflow

-- `x++` on a uint64
abbrev pub inc64 : ℕ → ℕ
inc64 n = (n + 1) % two_64

abbrev pub max_block_range : ℕ
max_block_range = 100

-- The errors that end the loop.
unfoldable pub is_fatal : GoError → Bool
is_fatal e =
    errors_is e reorg_detected || errors_is e chain_discontinuity || errors_is e chain_data_conflict

-- What the Go function returns: a result pointer and an error, both of which may be nil.
abbrev pub RangeReturn : Type 0
RangeReturn = Option BlockRangeSyncResult × Option GoError

abbrev pub count_success : BlockRangeSyncResult → BlockRangeSyncResult
count_success r = record r { succeeded = inc64 r.succeeded }

abbrev pub count_failure : ℕ → BlockRangeSyncResult → BlockRangeSyncResult
count_failure number r = record r {
  failed = inc64 r.failed;
  failed_blocks = r.failed_blocks ++ number ∷ [];
}

-- The rest of the loop's body after a call of `SyncBlockToDB`; `next` goes on with the loop.
module _ {W : Type 0} (number : ℕ) (r : BlockRangeSyncResult) (w : W) where
  abbrev pub after_failure :
      Bool → GoError → (BlockRangeSyncResult → Option (RangeReturn × W)) → Option (RangeReturn × W)
  after_failure true e next =
      some ((some (count_failure number r), some (wrapf "sync block: " e)), w)
  after_failure false e next = next (count_failure number r)

  abbrev pub after_sync :
      Result (Unit {0})
      → (BlockRangeSyncResult → Option (RangeReturn × W))
      → Option (RangeReturn × W)
  after_sync (ok _) next = next (count_success r)
  after_sync (err e) next = after_failure (is_fatal e) e next

abbrev pub start_result : ℕ → ℕ → BlockRangeSyncResult
start_result start end = record {
  start = start;
  end = end;
  requested = inc64 (end - start);
  succeeded = 0;
  failed = 0;
  failed_blocks = [];
}

-- `ctx_done` is the poll of `ctx.Done()`, and `sync` is `SyncBlockToDB`.
module _ {W : Type 0} (ctx_done : W → Bool) (sync : ℕ → Io W (Unit {0})) where
  unfoldable pub sync_loop : ℕ → ℕ → ℕ → BlockRangeSyncResult → W → Option (RangeReturn × W)
  sync_loop zero end number r w = none
  sync_loop (suc fuel) end number r w =
      if ltb end number
      then some ((some r, none), w)
      else if ctx_done w
      then some ((some r, some (sentinel request_canceled)), w)
      else let (outcome, w') = sync number w in
        after_sync number r w' outcome (λ r'. sync_loop fuel end (inc64 number) r' w')

  unfoldable pub sync_range : ℕ → ℕ → ℕ → W → Option (RangeReturn × W)
  sync_range fuel start end w =
      if ltb end start
      then some ((none, some (sentinel invalid_block_range)), w)
      else if ltb max_block_range (inc64 (end - start))
      then some ((none, some (sentinel block_range_too_large)), w)
      else sync_loop fuel end start (start_result start end) w

unfoldable pub sync_block_range_to_db :
    {W : Type 0}
    → Unicode
    → Geth
    → (W → Bool)
    → BlockService W
    → ℕ
    → ℕ
    → ℕ
    → W
    → Option (RangeReturn × W)
unfolding sync_range
sync_block_range_to_db u g ctx_done s = sync_range ctx_done (sync_block_to_db u g s)
