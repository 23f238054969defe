-- ===== src/App/Unreceipted.antt =====
-- A block whose receipts the node does not have yet.
use block_explorer_backend.Prelude.{ℕ, ◌≡◌, refl, List, [], ◌∷◌, All}
use block_explorer_backend.Text.{Unicode}
use block_explorer_backend.Errors.{sentinel, tx_receipt_not_found, errors_is}
use block_explorer_backend.Effect.{ok, err, context}
use block_explorer_backend.Ethereum.{Geth}
use block_explorer_backend.Models.{Transaction}
use block_explorer_backend.BlockService.{sync_receipts}
use block_explorer_backend.BlockService.Interfaces.{BlockService}
use block_explorer_backend.TxService.{
  TxService, sync_receipt, sync_each, sync_block_transaction_receipts,
}
use block_explorer_backend.TxService.Receipts.{listing}
use block_explorer_backend.App.{with_receipts}

module _ {W : Type 0} (u : Unicode) (g : Geth) (t : TxService W) where
  -- The node answers that it has no receipt for the transaction, in any world.
  abbrev pub Unreceipted : Transaction → Type 0
  Unreceipted tx =
      (w : W)
      → t.chain_transaction_reader.get_transaction_receipt tx.hash w
        ≡ (err (sentinel tx_receipt_not_found), w)

  sync_each-Unreceipted :
      (txs : List Transaction) (w : W) → All Unreceipted txs → sync_each u g t txs w ≡ (ok tt, w)
  unfolding sync_each sync_receipt errors_is
  sync_each-Unreceipted [] w none_has = refl
  sync_each-Unreceipted (tx ∷ txs) w (missing, rest) =
      rw (missing w) (sync_each-Unreceipted txs w rest)

-- In the program as it is wired, if the node has no receipt for any transaction of a block, the step
-- after its insertion marks the block's receipts as synchronised, and no transaction is updated: the
-- world that the mark is made in is the one that the listing left.
pub sync_receipts-Unreceipted :
    {W : Type 0} (u : Unicode) (g : Geth) (s : BlockService W) (t : TxService W) (number : ℕ)
    (txs : List Transaction) (w w' : W)
    → listing t number w ≡ (ok txs, w')
    → All (Unreceipted u g t) txs
    → sync_receipts u g (with_receipts u g s t) number w
      ≡ context "mark block receipts synced: "
          (s.block_sync_store.mark_block_receipts_synced s.chain_id number)
          w'
unfolding sync_receipts sync_block_transaction_receipts
sync_receipts-Unreceipted u g s t number txs w w' listed none_has =
    rw (listed, sync_each-Unreceipted u g t txs w' none_has) refl
