-- ===== src/Indexer.antt =====
-- internal/indexer/block_indexer.go: which block is next, and one run of the indexer.
use block_explorer_backend.Prelude.{
  ℕ, ◌+◌, ◌%◌, Bool, true, false, not, Option, none, some, leb, if◌then◌else◌,
}
use block_explorer_backend.Prelude.Int.{ℤ, two_64}
use block_explorer_backend.Text.{Text}
use block_explorer_backend.Effect.{Io, pure, ◌>>=◌, ◌>>◌, context}
use block_explorer_backend.Dto.{IndexerStatus, IndexerOnceResult}
pub mod Runner
pub mod Status

pub record SyncTargetReader (W : Type 0) : Type 0 where
  pub get_block_number_by_tag : Text → Io W ℕ

-- No fully synced block is `none`: the Go method returns 0 and `false`.
pub record BlockSyncProgressReader (W : Type 0) : Type 0 where
  pub get_latest_fully_synced_block_number : ℤ → Io W (Option ℕ)

pub record BlockSynchronizer (W : Type 0) : Type 0 where
  pub sync_block_to_db : ℕ → Io W (Unit {0})

pub record BlockIndexer (W : Type 0) : Type 0 where
  pub chain_id : ℤ
  pub sync_target_reader : SyncTargetReader W
  pub block_sync_progress_reader : BlockSyncProgressReader W
  pub block_synchronizer : BlockSynchronizer W
  pub sync_target : Text
  pub start_block : ℕ

module _ {W : Type 0} (s : BlockIndexer W) where
  open s use {
    chain_id, sync_target_reader, block_sync_progress_reader, block_synchronizer, sync_target,
    start_block,
  }

  -- `dbLatest + 1` on a uint64, or the start block.
  abbrev pub next_after : Option ℕ → ℕ
  next_after none = start_block
  next_after (some latest) = (latest + 1) % two_64

  abbrev pub status_of : Option ℕ → ℕ → IndexerStatus
  status_of latest rpc_target = record {
    chain_id = chain_id;
    db_latest = latest;
    sync_target = sync_target;
    rpc_target = rpc_target;
    next = next_after latest;
    should_sync = leb (next_after latest) rpc_target;
  }

  unfoldable pub get_next_block_to_sync : Io W IndexerStatus
  get_next_block_to_sync = do
    latest ←
        context "db latest block: "
          (block_sync_progress_reader.get_latest_fully_synced_block_number chain_id)
    rpc_target ←
        context "rpc target block by tag: " (sync_target_reader.get_block_number_by_tag sync_target)
    pure (status_of latest rpc_target)

  abbrev pub result_of : IndexerStatus → Bool → Option ℕ → IndexerOnceResult
  result_of status synced synced_block = record {
    chain_id = chain_id;
    db_latest = status.db_latest;
    sync_target = status.sync_target;
    rpc_target = status.rpc_target;
    next_to_sync = status.next;
    synced = synced;
    synced_block = synced_block;
  }

  -- What follows the status.
  abbrev pub run_from : IndexerStatus → Io W IndexerOnceResult
  run_from status = if not status.should_sync then pure (result_of status false none) else do
    context "run indexer once: sync block: " (block_synchronizer.sync_block_to_db status.next)
    pure (result_of status true (some status.next))

  unfoldable pub run_indexer_once : Io W IndexerOnceResult
  unfolding get_next_block_to_sync
  run_indexer_once = do
    status ← context "run indexer once: get sync status: " get_next_block_to_sync
    run_from status
