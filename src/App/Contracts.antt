-- ===== src/App/Contracts.antt =====
-- The wired services keep what the proofs on each service suppose of its interfaces: the contracts of
-- the block service and of the transaction service, from those of the database and of the node.
use block_explorer_backend.Prelude.{ℕ, ◌≡◌, refl, ap}
use block_explorer_backend.Prelude.Int.{ℤ}
use block_explorer_backend.Text.{Text, Unicode}
use block_explorer_backend.Ethereum.{Geth}
use block_explorer_backend.Config.{Config}
use block_explorer_backend.Gorm.{Database}
use block_explorer_backend.Gorm.Contract.{DatabaseContract}
use block_explorer_backend.Rpc.{EthClient}
use block_explorer_backend.Repo.Blocks.Table.{table_of}
use block_explorer_backend.Repo.Blocks.Store.{
  get_block_by_number-finds, get_block_by_number-Keeps, insert_block_with_transactions-Writes,
  mark_block_receipts_synced-Writes, mark_block_receipts_sync_failed-Writes,
}
use block_explorer_backend.Repo.Transactions.Store.{
  hash_table, update_transaction_receipt_by_hash-Writes,
}
use block_explorer_backend.BlockService.Contract.{StoreContract}
use block_explorer_backend.TxService.Receipts.{ReceiptContract}
use block_explorer_backend.App.Wiring.{tx_service, block_service}
use block_explorer_backend.App.Keeps.{
  NodeContract, block_by_number-Keeps, transaction_receipt-Keeps,
  list_transactions_missing_receipt-Keeps, sync_block_transaction_receipts-Keeps,
  get_transactions_by_hashes-Keeps,
}

module _ {W : Type 0} (u : Unicode) (g : Geth) (db : Database W) (client : EthClient W)
    (cfg : Config) (c : DatabaseContract db) (node : NodeContract client db c) where
  open c use {blocks, transactions, transaction_table}

  abbrev pub store_contract : StoreContract (block_service u g db client cfg)
  store_contract = record {
    table = λ w. table_of (blocks w);
    node_keeps = λ n w.
        ap (λ rows. table_of rows.0) ((block_by_number-Keeps u g db client cfg c node n).at w);
    read_keeps = λ chain n w. ap table_of (get_block_by_number-Keeps db c chain n w).0;
    read_finds = get_block_by_number-finds db c;
    conflicts_keep = λ chain hashes w.
        ap (λ rows. table_of rows.0) ((get_transactions_by_hashes-Keeps db c chain hashes).at w);
    receipts_keep = λ n w.
        ap table_of ((sync_block_transaction_receipts-Keeps u g db client cfg c node n).at w);
    insert_writes = insert_block_with_transactions-Writes db c;
    synced_writes = mark_block_receipts_synced-Writes db c;
    failed_writes = mark_block_receipts_sync_failed-Writes db c;
  }

  abbrev pub receipt_contract : ReceiptContract (tx_service u g db client cfg)
  receipt_contract = record {
    table = λ w. hash_table cfg.rpc.chain_id (transactions w);
    node_keeps = λ hash w.
        ap (λ rows. hash_table cfg.rpc.chain_id rows.1)
          ((transaction_receipt-Keeps u g db client cfg c node hash).at w);
    list_keeps = λ chain n w.
        ap (λ rows. hash_table cfg.rpc.chain_id rows.1)
          ((list_transactions_missing_receipt-Keeps db c chain n).at w);
    update_writes = update_transaction_receipt_by_hash-Writes db c cfg.rpc.chain_id;
  }

-- The wired block service has what its proofs rely on: over a database and a node that keep their
-- contracts, its repositories and its receipt syncer implement the table of blocks, which is the stored
-- rows by chain and number.
pub block_service-StoreContract :
    {W : Type 0} (u : Unicode) (g : Geth) (db : Database W) (client : EthClient W) (cfg : Config)
    (c : DatabaseContract db) (node : NodeContract client db c)
    → (s : StoreContract (block_service u g db client cfg)) × ((w : W) (chain : ℤ) (n : ℕ)
        → s.table w chain n ≡ table_of (c.blocks w) chain n)
block_service-StoreContract u g db client cfg c node =
    (store_contract u g db client cfg c node, λ w chain n. refl)

-- The wired transaction service has what its proofs rely on: over a database and a node that keep their
-- contracts, its repository implements the table of the chain's transactions, which is the stored rows
-- by hash.
pub tx_service-ReceiptContract :
    {W : Type 0} (u : Unicode) (g : Geth) (db : Database W) (client : EthClient W) (cfg : Config)
    (c : DatabaseContract db) (node : NodeContract client db c)
    → (s : ReceiptContract (tx_service u g db client cfg)) × ((w : W) (h : Text)
        → s.table w h ≡ hash_table cfg.rpc.chain_id (c.transactions w) h)
tx_service-ReceiptContract u g db client cfg c node =
    (receipt_contract u g db client cfg c node, λ w h. refl)
