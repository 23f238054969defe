-- ===== src/App/Keeps.antt =====
-- The calls of the wired services that leave the rows of the database alone: internal/rpc, the
-- receipts of internal/service/tx_service.go as to the blocks, and the queries of internal/db/repo.
use block_explorer_backend.Prelude.{
  ℕ, refl, ap, ◌∙◌, Bool, Option, none, some, List, [], ◌∷◌, is_empty,
}
use block_explorer_backend.Prelude.Int.{ℤ}
use block_explorer_backend.Text.{Text, Unicode}
use block_explorer_backend.Errors.{GoError, errors_is, tx_receipt_not_found}
use block_explorer_backend.Effect.{Result, ok, err}
use block_explorer_backend.Effect.Keeps.{
  Keeps, Keeps-pure, Keeps-throw, Keeps-lift, Keeps-if, Keeps-map_err, Keeps-bind, Keeps-part,
}
use block_explorer_backend.Ethereum.{Receipt, Geth}
use block_explorer_backend.Models.{Block, Transaction}
use block_explorer_backend.Config.{Config}
use block_explorer_backend.Gorm.{Query, Database}
use block_explorer_backend.Gorm.Contract.{DatabaseContract}
use block_explorer_backend.Rpc.{EthClient, block_by_number, transaction_receipt}
use block_explorer_backend.Repo.Transactions.{
  update_transaction_receipt_by_hash, get_transactions_by_hashes,
  list_transactions_missing_receipt_by_block_number,
}
use block_explorer_backend.TxService.{
  validate_receipt_matches_transaction, store_checked, handle_receipt, sync_receipt, sync_each,
  sync_block_transaction_receipts,
}
use block_explorer_backend.App.Wiring.{tx_service}

-- The rows of both tables.
abbrev pub rows_of :
    {W : Type 0} {db : Database W} → DatabaseContract db → W → List Block × List Transaction
rows_of c w = (c.blocks w, c.transactions w)

-- The calls of the node leave the database alone.
pub record NodeContract {W : Type 0} (client : EthClient W) (db : Database W)
    (c : DatabaseContract db) : Type 0 where
  pub block_keeps : (n : ℕ) → Keeps (rows_of c) (client.block_by_number n)
  pub chain_keeps : Keeps (rows_of c) client.chain_id
  pub header_keeps : (tag : Text) → Keeps (rows_of c) (client.header_by_tag tag)
  pub transaction_keeps : (h : ℕ) → Keeps (rows_of c) (client.transaction_by_hash h)
  pub receipt_keeps : (h : ℕ) → Keeps (rows_of c) (client.transaction_receipt h)
  pub balance_keeps : (a : ℕ) → Keeps (rows_of c) (client.balance_at a)
  pub nonce_keeps : (a : ℕ) → Keeps (rows_of c) (client.nonce_at a)
  pub code_keeps : (a : ℕ) → Keeps (rows_of c) (client.code_at a)

module _ {W : Type 0} (db : Database W) (c : DatabaseContract db) where
  open c use {block_table, transaction_table}

  pub find_blocks-Keeps : (q : Query Block) → Keeps (rows_of c) (db.blocks.find q)
  find_blocks-Keeps q = record {
    at = λ w. let (b, t) = block_table.find_keeps q w in rw (b, t) refl;
  }

  pub take_block-Keeps : (q : Query Block) → Keeps (rows_of c) (db.blocks.take q)
  take_block-Keeps q = record {
    at = λ w. let (b, t) = block_table.take_keeps q w in rw (b, t) refl;
  }

  pub first_block-Keeps : (q : Query Block) → Keeps (rows_of c) (db.blocks.first q)
  first_block-Keeps q = record {
    at = λ w. let (b, t) = block_table.first_keeps q w in rw (b, t) refl;
  }

  pub max_block-Keeps :
      (p : Block → Bool) (key : Block → ℕ) → Keeps (rows_of c) (db.blocks.max p key)
  max_block-Keeps p key = record {
    at = λ w. let (b, t) = block_table.max_keeps p key w in rw (b, t) refl;
  }

  pub find_transactions-Keeps : (q : Query Transaction) → Keeps (rows_of c) (db.transactions.find q)
  find_transactions-Keeps q = record {
    at = λ w. let (t, b) = transaction_table.find_keeps q w in rw (b, t) refl;
  }

  pub take_transaction-Keeps : (q : Query Transaction) → Keeps (rows_of c) (db.transactions.take q)
  take_transaction-Keeps q = record {
    at = λ w. let (t, b) = transaction_table.take_keeps q w in rw (b, t) refl;
  }

  pub get_transactions_by_hashes-Keeps :
      (chain : ℤ) (hashes : List Text)
      → Keeps (rows_of c) (get_transactions_by_hashes db chain hashes)
  unfolding get_transactions_by_hashes
  get_transactions_by_hashes-Keeps chain hashes =
      Keeps-if (is_empty hashes) (Keeps-pure _)
        (Keeps-bind (Keeps-map_err _ (find_transactions-Keeps _)) (λ txs. Keeps-pure _))

  pub list_transactions_missing_receipt-Keeps :
      (chain : ℤ) (n : ℕ)
      → Keeps (rows_of c) (list_transactions_missing_receipt_by_block_number db chain n)
  unfolding list_transactions_missing_receipt_by_block_number
  list_transactions_missing_receipt-Keeps chain n = Keeps-map_err _ (find_transactions-Keeps _)

  update_transactions-Keeps :
      (p : Transaction → Bool) (f : Transaction → Transaction)
      → Keeps c.blocks (db.transactions.updates p f)
  update_transactions-Keeps p f = record { at = λ w. (transaction_table.updates_writes p f w).1 }

  -- An update of a receipt is one of a transaction's row.
  pub update_transaction_receipt_by_hash-Keeps :
      (chain : ℤ) (hash : Text) (status gas_used : Option ℕ)
      → Keeps c.blocks (update_transaction_receipt_by_hash db chain hash status gas_used)
  unfolding update_transaction_receipt_by_hash
  update_transaction_receipt_by_hash-Keeps chain hash status gas_used =
      Keeps-bind (Keeps-map_err _ (update_transactions-Keeps _ _)) (λ n. Keeps-lift _)

module _ {W : Type 0} (u : Unicode) (g : Geth) (db : Database W) (client : EthClient W)
    (cfg : Config) (c : DatabaseContract db) (node : NodeContract client db c) where
  pub block_by_number-Keeps : (n : ℕ) → Keeps (rows_of c) (block_by_number g client n)
  unfolding block_by_number
  block_by_number-Keeps n = Keeps-map_err _ (node.block_keeps n)

  pub transaction_receipt-Keeps :
      (hash : Text) → Keeps (rows_of c) (transaction_receipt g client hash)
  unfolding transaction_receipt
  transaction_receipt-Keeps hash =
      Keeps-bind (Keeps-map_err _ (node.receipt_keeps _)) (λ r. Keeps-pure _)

  store_checked-Keeps :
      (checked : Option GoError) (tx : Transaction) (r : Option Receipt)
      → Keeps c.blocks (store_checked u g (tx_service u g db client cfg) checked tx r)
  store_checked-Keeps (some e) tx r = Keeps-throw _
  store_checked-Keeps none tx r =
      Keeps-map_err _ (update_transaction_receipt_by_hash-Keeps db c _ _ _ _)

  handle_receipt-Keeps :
      (tx : Transaction) (r : Result (Option Receipt))
      → Keeps c.blocks (handle_receipt u g (tx_service u g db client cfg) tx r)
  handle_receipt-Keeps tx (ok r) =
      store_checked-Keeps (validate_receipt_matches_transaction g tx r) tx r
  handle_receipt-Keeps tx (err e) =
      Keeps-if (errors_is e tx_receipt_not_found) (Keeps-pure _) (Keeps-throw _)

  sync_receipt-Keeps :
      (tx : Transaction) → Keeps c.blocks (sync_receipt u g (tx_service u g db client cfg) tx)
  unfolding sync_receipt
  sync_receipt-Keeps tx = record {
    at = λ w.
        let (r, w') = transaction_receipt g client tx.hash w in
        (handle_receipt-Keeps tx r).at w'
        ∙ ap (λ rows. rows.0) ((transaction_receipt-Keeps tx.hash).at w);
  }

  sync_each-Keeps :
      (txs : List Transaction) → Keeps c.blocks (sync_each u g (tx_service u g db client cfg) txs)
  unfolding sync_each
  sync_each-Keeps [] = Keeps-pure _
  sync_each-Keeps (tx ∷ txs) = Keeps-bind (sync_receipt-Keeps tx) (λ _. sync_each-Keeps txs)

  pub sync_block_transaction_receipts-Keeps :
      (n : ℕ)
      → Keeps c.blocks (sync_block_transaction_receipts u g (tx_service u g db client cfg) n)
  unfolding sync_block_transaction_receipts
  sync_block_transaction_receipts-Keeps n =
      Keeps-bind
        (Keeps-map_err _
          (Keeps-part (λ rows. rows.0) (list_transactions_missing_receipt-Keeps db c _ n)))
        (λ txs. sync_each-Keeps txs)
