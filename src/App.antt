-- ===== src/App.antt =====
-- internal/app/app.go: which service fills which interface of another one.
use block_explorer_backend.Text.{Unicode}
use block_explorer_backend.Ethereum.{Geth}
use block_explorer_backend.BlockService.{sync_block_to_db}
use block_explorer_backend.BlockService.Interfaces.{BlockService, BlockReceiptSyncer}
use block_explorer_backend.TxService.{TxService, sync_block_transaction_receipts}
use block_explorer_backend.Indexer.{BlockSynchronizer}
pub mod Unreceipted
pub mod Wiring
pub mod Router
pub mod ReadOnly
pub mod Routes
pub mod System
pub mod Startup
pub mod Next
pub mod Addresses
pub mod Round
pub mod Once
pub mod Advance
pub mod Keeps
pub mod Contracts

module _ {W : Type 0} (u : Unicode) (g : Geth) where
  -- `txService` as the receipt syncer of the block service.
  abbrev pub receipt_syncer : TxService W → BlockReceiptSyncer W
  receipt_syncer t = record {
    sync_block_transaction_receipts = sync_block_transaction_receipts u g t;
  }

  abbrev pub with_receipts : BlockService W → TxService W → BlockService W
  with_receipts s t = record s { block_receipt_syncer = receipt_syncer t }

  -- `blockService` as the synchroniser of the indexer.
  abbrev pub block_synchronizer : BlockService W → BlockSynchronizer W
  block_synchronizer s = record { sync_block_to_db = sync_block_to_db u g s }
