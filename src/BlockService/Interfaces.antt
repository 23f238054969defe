-- ===== src/BlockService/Interfaces.antt =====
-- The interfaces of block_service.go, and the service's record.
use block_explorer_backend.Prelude.{ℕ, String, Option, List}
use block_explorer_backend.Prelude.Int.{ℤ}
use block_explorer_backend.Text.{Text}
use block_explorer_backend.Effect.{Io}
use block_explorer_backend.Ethereum.{EthBlock}
use block_explorer_backend.Models.{Block, Transaction}

pub record ChainBlockReader (W : Type 0) : Type 0 where
  pub get_block_by_number : ℕ → Io W EthBlock

-- A missing block is `none`: the Go method returns a nil block and `false`.
pub record BlockSyncStore (W : Type 0) : Type 0 where
  pub get_block_by_number : ℤ → ℕ → Io W (Option Block)
  pub insert_block_with_transactions : Block → List Transaction → Io W (Unit {0})
  pub mark_block_receipts_synced : ℤ → ℕ → Io W (Unit {0})
  pub mark_block_receipts_sync_failed : ℤ → ℕ → String → Io W (Unit {0})

pub record BlockReceiptSyncer (W : Type 0) : Type 0 where
  pub sync_block_transaction_receipts : ℕ → Io W (Unit {0})

-- The returned map, from hash to row, is a function.
pub record TransactionConflictReader (W : Type 0) : Type 0 where
  pub get_transactions_by_hashes : ℤ → List Text → Io W (Text → Option Transaction)

pub record BlockService (W : Type 0) : Type 0 where
  pub chain_id : ℤ
  pub chain_block_reader : ChainBlockReader W
  pub block_sync_store : BlockSyncStore W
  pub block_receipt_syncer : BlockReceiptSyncer W
  pub transaction_conflict_reader : TransactionConflictReader W
  pub start_block : ℕ
