-- ===== src/TxService.antt =====
-- internal/service/tx_service.go: transaction queries, and the synchronisation of receipts.
use block_explorer_backend.Prelude.{
  ℕ, ◌%◌, String, Bool, true, false, not, Option, none, some, List, [], ◌∷◌, ◌==◌, if◌then◌else◌,
}
use block_explorer_backend.Prelude.Int.{ℤ, two_64}
use block_explorer_backend.Text.{Text, Unicode, trim_space, to_lower}
use block_explorer_backend.Errors.{
  GoError, sentinel, errorf, wrapf, errors_is, invalid_tx_hash, tx_not_found, tx_receipt_not_found,
}
use block_explorer_backend.Effect.{
  Result, ok, err, Io, pure, throw, lift, ◌>>=◌, ◌>>◌, context, unless_error,
}
use block_explorer_backend.Ethereum.{Receipt, Geth}
use block_explorer_backend.Models.{Transaction}
use block_explorer_backend.Dto.{TxRaw, TxDetailDto, IndexedTransactionDto}
use block_explorer_backend.Mapper.{to_tx_detail_dto, to_indexed_transaction_dto}
use block_explorer_backend.Hex.{validate_tx_hash}
pub mod Matches
pub mod Receipts
pub mod Settled

-- The Go methods return pointers; a nil receipt or a nil `TxRaw` is `none`.
pub record ChainTransactionReader (W : Type 0) : Type 0 where
  pub get_transaction_by_hash : Text → Io W (Option TxRaw)
  pub get_transaction_receipt : Text → Io W (Option Receipt)

pub record IndexedTransactionReader (W : Type 0) : Type 0 where
  pub get_transaction_by_hash : ℤ → Text → Io W (Option Transaction)

pub record TransactionReceiptStore (W : Type 0) : Type 0 where
  pub update_transaction_receipt_by_hash : ℤ → Text → Option ℕ → Option ℕ → Io W (Unit {0})
  pub list_transactions_missing_receipt_by_block_number : ℤ → ℕ → Io W (List Transaction)

pub record TxService (W : Type 0) : Type 0 where
  pub chain_id : ℤ
  pub chain_transaction_reader : ChainTransactionReader W
  pub indexed_transaction_reader : IndexedTransactionReader W
  pub transaction_receipt_store : TransactionReceiptStore W

-- `receipt.Status` and `receipt.GasUsed`; the check before has refused a nil receipt.
abbrev pub status_of : Option Receipt → Option ℕ
status_of none = none
status_of (some r) = some r.status

abbrev pub gas_used_of : Option Receipt → Option ℕ
gas_used_of none = none
gas_used_of (some r) = some r.gas_used

-- `hash = strings.TrimSpace(hash); hash = strings.ToLower(hash)`
abbrev pub normalize_hash : Unicode → Text → Text
normalize_hash u hash = to_lower u (trim_space hash)

-- `validateReceiptMatchesTransaction`; `none` is a nil error.
unfoldable pub validate_receipt_matches_transaction :
    Geth → Transaction → Option Receipt → Option GoError
validate_receipt_matches_transaction g tx none = some (errorf "receipt is nil")
validate_receipt_matches_transaction g tx (some receipt) =
    if not (receipt.tx_hash == g.hex_to_hash tx.hash)
    then some (errorf "receipt tx hash mismatch")
    else elim receipt.block_number [
      | none ↦ some (errorf "receipt block number is nil")
      | some number ↦
          if not (number % two_64 == tx.block_number)
          then some (errorf "receipt block number mismatch")
          else if not (receipt.block_hash == g.hex_to_hash tx.block_hash)
          then some (errorf "receipt block hash mismatch")
          else none
    ]

module _ {W : Type 0} (u : Unicode) (g : Geth) (s : TxService W) where
  open s use {
    chain_id, chain_transaction_reader, indexed_transaction_reader, transaction_receipt_store,
  }

  -- The result is a pointer, which is nil if the reader gave no transaction.
  unfoldable pub get_tx_detail_by_hash_from_rpc : Text → Io W (Option TxDetailDto)
  get_tx_detail_by_hash_from_rpc hash =
      let normal = normalize_hash u hash in
      unless_error (validate_tx_hash normal) (sentinel invalid_tx_hash) (do
        raw ←
            context "get transaction by hash: "
              (chain_transaction_reader.get_transaction_by_hash normal)
        pure (to_tx_detail_dto g chain_id raw))

  -- A missing row is an error of its own.
  abbrev pub found_or_missing : Option Transaction → Result IndexedTransactionDto
  found_or_missing none = err (sentinel tx_not_found)
  found_or_missing (some tx) = ok (to_indexed_transaction_dto tx)

  unfoldable pub get_indexed_transaction_by_hash : Text → Io W IndexedTransactionDto
  get_indexed_transaction_by_hash hash =
      let normal = normalize_hash u hash in
      unless_error (validate_tx_hash normal) (sentinel invalid_tx_hash) (do
        found ←
            context "get indexed transaction by hash from db: "
              (indexed_transaction_reader.get_transaction_by_hash chain_id normal)
        lift (found_or_missing found))

  -- A receipt that has passed its check is stored.
  abbrev pub store_checked : Option GoError → Transaction → Option Receipt → Io W (Unit {0})
  store_checked (some e) tx receipt =
      throw (wrapf "service: validate transaction receipt for tx: " e)
  store_checked none tx receipt = context "service: update transaction receipt for tx: " (
      transaction_receipt_store.update_transaction_receipt_by_hash chain_id tx.hash
        (status_of receipt) (gas_used_of receipt))

  -- The answer of the node about one transaction; a receipt that it does not have is passed over.
  abbrev pub handle_receipt : Transaction → Result (Option Receipt) → Io W (Unit {0})
  handle_receipt tx (ok receipt) =
      store_checked (validate_receipt_matches_transaction g tx receipt) tx receipt
  handle_receipt tx (err e) =
      if errors_is e tx_receipt_not_found
      then pure tt
      else throw (wrapf "service: get transaction receipt for tx: " e)

  unfoldable pub sync_receipt : Transaction → Io W (Unit {0})
  sync_receipt tx w =
      let (r, w') = chain_transaction_reader.get_transaction_receipt tx.hash w in
      handle_receipt tx r w'

  -- The loop over the transactions.
  unfoldable pub sync_each : List Transaction → Io W (Unit {0})
  sync_each [] = pure tt
  sync_each (tx ∷ txs) = do sync_receipt tx; sync_each txs

  unfoldable pub sync_block_transaction_receipts : ℕ → Io W (Unit {0})
  sync_block_transaction_receipts block_number = do
    txs ← context "service: list missing receipt transactions for block: " (
        transaction_receipt_store.list_transactions_missing_receipt_by_block_number chain_id
          block_number)
    sync_each txs
