-- ===== src/Repo/Transactions.antt =====
-- internal/db/repo/tx_repo.go
use block_explorer_backend.Prelude.{
  ℕ, String, Bool, true, false, ◌&&◌, ◌||◌, Option, none, some, List, [], ◌∷◌, ltb, ◌==◌, is_empty,
  if◌then◌else◌,
}
use block_explorer_backend.Prelude.Int.{ℤ, eqb_ℤ}
use block_explorer_backend.Text.{Text, text_eq}
use block_explorer_backend.Errors.{GoError, sentinel, errorf, wrapf, tx_not_found}
use block_explorer_backend.Errors.Upstream.{map_db_error}
use block_explorer_backend.Effect.{Result, ok, err, Io, pure, throw, lift, ◌>>=◌, map_err, context}
use block_explorer_backend.Models.{Transaction}
use block_explorer_backend.TxService.Receipts.{stamp}
use block_explorer_backend.Gorm.{Query, where_rows, Database}
use block_explorer_backend.Gorm.Contract.{any}
use block_explorer_backend.Repo.{mapped, row_or_missing}
use block_explorer_backend.Repo.Blocks.{is_null}
pub mod Store

-- `chain_id = ? AND hash = ?`
abbrev pub at_hash : ℤ → Text → Transaction → Bool
at_hash chain_id hash tx = eqb_ℤ tx.chain_id chain_id && text_eq tx.hash hash

-- `chain_id = ? AND hash IN ?`
abbrev pub in_hashes : ℤ → List Text → Transaction → Bool
in_hashes chain_id hashes tx = eqb_ℤ tx.chain_id chain_id && any (text_eq tx.hash) hashes

-- The loop that fills the returned map: a later row replaces an earlier one.
abbrev pub by_hash : List Transaction → (Text → Option Transaction) → Text → Option Transaction
by_hash [] m h = m h
by_hash (tx ∷ txs) m h = by_hash txs (λ k. if text_eq tx.hash k then some tx else m k) h

-- `ORDER BY block_number DESC, tx_index DESC LIMIT ? OFFSET ?`
abbrev pub address_query : ℤ → Text → ℤ → ℤ → Query Transaction
address_query chain_id address limit offset = record {
  matches = λ tx.
      eqb_ℤ tx.chain_id chain_id
      && (text_eq tx.from_address_lower address || text_eq tx.to_address_lower address);
  before = λ a b.
      ltb b.block_number a.block_number
      || a.block_number == b.block_number && ltb b.tx_index a.tx_index;
  limit = some limit;
  offset = some offset;
}

-- The transactions of a block that miss a receipt column, by their index.
abbrev pub missing_query : ℤ → ℕ → Query Transaction
missing_query chain_id block_number = record {
  matches = λ tx.
      eqb_ℤ tx.chain_id chain_id
      && tx.block_number == block_number
      && (is_null tx.receipt_status || is_null tx.receipt_gas_used);
  before = λ a b. ltb a.tx_index b.tx_index;
  limit = none;
  offset = none;
}

-- `block_number IN ?`, by block and index.
abbrev pub wallet_rows_query : ℤ → List ℕ → Query Transaction
wallet_rows_query chain_id block_numbers = record {
  matches = λ tx. eqb_ℤ tx.chain_id chain_id && any (λ n. tx.block_number == n) block_numbers;
  before = λ a b.
      ltb a.block_number b.block_number
      || a.block_number == b.block_number && ltb a.tx_index b.tx_index;
  limit = none;
  offset = none;
}

-- A mapped error keeps the context here.
abbrev pub wallet_rows_failure : GoError → GoError
wallet_rows_failure e = elim (map_db_error e) [
  | some mapped_error ↦ wrapf "list wallet completed transaction rows: " mapped_error
  | none ↦ wrapf "list wallet completed transaction rows: " e
]

-- `RowsAffected == 0`
abbrev pub updated : ℕ → Result (Unit {0})
updated n = if n == 0 then err (sentinel tx_not_found) else ok tt

module _ {W : Type 0} (db : Database W) where
  -- A nil transaction is `none`.
  unfoldable pub insert_transaction : Option Transaction → Io W (Unit {0})
  insert_transaction none = throw (errorf "transaction is nil")
  insert_transaction (some tx) = mapped "insert transaction: " (db.transactions.create (tx ∷ []))

  unfoldable pub insert_transactions : List Transaction → Io W (Unit {0})
  insert_transactions txs =
      if is_empty txs then pure tt else mapped "insert transactions: " (db.transactions.create txs)

  unfoldable pub get_transaction_by_hash : ℤ → Text → Io W (Option Transaction)
  get_transaction_by_hash chain_id hash =
      row_or_missing "query transaction by hash: "
        (db.transactions.take (where_rows (at_hash chain_id hash)))

  unfoldable pub get_transactions_by_hashes : ℤ → List Text → Io W (Text → Option Transaction)
  get_transactions_by_hashes chain_id hashes = if is_empty hashes then pure (λ h. none) else (do
    txs ←
        mapped "query transactions by hashes: "
          (db.transactions.find (where_rows (in_hashes chain_id hashes)))
    pure (by_hash txs (λ h. none)))

  unfoldable pub list_transactions_by_address : ℤ → Text → ℤ → ℤ → Io W (List Transaction)
  list_transactions_by_address chain_id address limit offset =
      mapped "list transactions by address: "
        (db.transactions.find (address_query chain_id address limit offset))

  unfoldable pub update_transaction_receipt_by_hash :
      ℤ → Text → Option ℕ → Option ℕ → Io W (Unit {0})
  update_transaction_receipt_by_hash chain_id hash status gas_used = do
    n ←
        mapped "update transaction receipt by hash: "
          (db.transactions.updates (at_hash chain_id hash) (stamp status gas_used))
    lift (updated n)

  -- The errors of this call are not mapped: a timeout keeps the database's own error.
  unfoldable pub list_transactions_missing_receipt_by_block_number : ℤ → ℕ → Io W (List Transaction)
  list_transactions_missing_receipt_by_block_number chain_id block_number =
      context "list transactions missing receipt by block number: "
        (db.transactions.find (missing_query chain_id block_number))

  unfoldable pub list_wallet_completed_transaction_rows : ℤ → List ℕ → Io W (List Transaction)
  list_wallet_completed_transaction_rows chain_id block_numbers =
      if is_empty block_numbers
      then pure []
      else map_err wallet_rows_failure
          (db.transactions.find (wallet_rows_query chain_id block_numbers))
