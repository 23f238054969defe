-- ===== src/Examples/Wired.antt =====
-- The services wired together, over a node that has no receipts.
use block_explorer_backend.Prelude.{◌≡◌, refl, none, [], ◌∷◌}
use block_explorer_backend.Prelude.Int.{pos}
use block_explorer_backend.Errors.{sentinel, tx_receipt_not_found}
use block_explorer_backend.Effect.{pure, throw, context}
use block_explorer_backend.BlockService.{sync_receipts}
use block_explorer_backend.BlockService.Contract.{BlockTable}
use block_explorer_backend.TxService.{TxService}
use block_explorer_backend.App.{with_receipts}
use block_explorer_backend.App.Unreceipted.{sync_receipts-Unreceipted}
use block_explorer_backend.Examples.Common.{plain, geth, row}
use block_explorer_backend.Examples.Blocks.{service, stored}

abbrev transactions : TxService BlockTable
transactions = record {
  chain_id = pos 1;
  chain_transaction_reader = record {
    get_transaction_by_hash = λ h. pure none;
    get_transaction_receipt = λ h. throw (sentinel tx_receipt_not_found);
  };
  indexed_transaction_reader = record { get_transaction_by_hash = λ c h. pure none };
  transaction_receipt_store = record {
    update_transaction_receipt_by_hash = λ c h status gas_used. pure tt;
    list_transactions_missing_receipt_by_block_number = λ c n. pure (row 201 ∷ []);
  };
}

sync_receipts-Unreceipted_example :
    sync_receipts plain geth (with_receipts plain geth service transactions) 0 stored
    ≡ context "mark block receipts synced: "
        (service.block_sync_store.mark_block_receipts_synced (pos 1) 0)
        stored
sync_receipts-Unreceipted_example =
    sync_receipts-Unreceipted plain geth service transactions 0 (row 201 ∷ []) stored stored refl
      ((λ w. refl), tt)
