-- ===== src/Examples/Receipts.antt =====
-- A table of transactions in memory for `TxService`: the node has the receipt of the first of two
-- transactions, and not that of the second.
use block_explorer_backend.Prelude.Int.{pos}
use block_explorer_backend.Prelude.{
  ℕ, ◌≡◌, ◌↔◌, arith, refl, inl, inr, Option, none, some, [], ◌∷◌, if◌then◌else◌,
}
use block_explorer_backend.Text.{Text, text_eq}
use block_explorer_backend.Errors.{sentinel, errorf, tx_receipt_not_found, errors_is}
use block_explorer_backend.Effect.{ok, err, Io, pure, throw}
use block_explorer_backend.Ethereum.{Receipt}
use block_explorer_backend.Models.{Transaction}
use block_explorer_backend.TxService.{
  TxService, sync_block_transaction_receipts, sync_each, sync_receipt,
  validate_receipt_matches_transaction,
}
use block_explorer_backend.TxService.Receipts.{
  TxTable, stamp, Stamped, Writes, ReceiptContract, Touched, asked,
  sync_block_transaction_receipts-Touched,
}
use block_explorer_backend.TxService.Settled.{IsSettled, sync_block_transaction_receipts-IsSettled}
use block_explorer_backend.TxService.Matches.{IsReceiptOf, validate_receipt_matches_transaction_iff}
use block_explorer_backend.Examples.Common.{plain, geth, row, receipt_of}

abbrev node_receipt : Text → Io TxTable (Option Receipt)
node_receipt h =
    if text_eq h (201 ∷ [])
    then pure (some (receipt_of 201))
    else throw (sentinel tx_receipt_not_found)

abbrev update_at : Text → Option ℕ → Option ℕ → Option Transaction → Io TxTable (Unit {0})
update_at hash status gas_used none t = (err (errorf "no row"), t)
update_at hash status gas_used (some old) t =
    (ok tt, λ h. if text_eq h hash then some (stamp status gas_used old) else t h)

abbrev service : TxService TxTable
service = record {
  chain_id = pos 1;
  chain_transaction_reader = record {
    get_transaction_by_hash = λ h. pure none;
    get_transaction_receipt = node_receipt;
  };
  indexed_transaction_reader = record { get_transaction_by_hash = λ c h t. (ok (t h), t) };
  transaction_receipt_store = record {
    update_transaction_receipt_by_hash =
        λ c h status gas_used t. update_at h status gas_used (t h) t;
    list_transactions_missing_receipt_by_block_number = λ c n. pure (row 201 ∷ row 202 ∷ []);
  };
}

abbrev stored : TxTable
stored h =
    if text_eq h (201 ∷ [])
    then some (row 201)
    else if text_eq h (202 ∷ [])
    then some (row 202)
    else none

update_at-Writes :
    (hash : Text) (status gas_used : Option ℕ) (found : Option Transaction) (t : TxTable)
    → t hash ≡ found
    → let (r, t') = update_at hash status gas_used found t in
      Writes r t t' (Stamped hash status gas_used t t')
update_at-Writes hash status gas_used none t e = refl
update_at-Writes hash status gas_used (some old) t e = (old, e, λ h. refl)

node_receipt-Keeps : (h : Text) (t : TxTable) → (node_receipt h t).1 ≡ t
node_receipt-Keeps h t = ground arith

abbrev contract : ReceiptContract service
contract = record {
  table = λ t. t;
  node_keeps = node_receipt-Keeps;
  list_keeps = λ c n t. refl;
  update_writes = λ hash status gas_used t. update_at-Writes hash status gas_used (t hash) t refl;
}

settles : (sync_block_transaction_receipts plain geth service 1 stored).0 ≡ ok tt
unfolding sync_block_transaction_receipts sync_each sync_receipt
    validate_receipt_matches_transaction text_eq errors_is
settles = refl

-- The second transaction is left without its receipt, and the call succeeds.
sync_block_transaction_receipts-IsSettled_example :
    IsSettled plain geth service contract
      (row 202)
      (sync_block_transaction_receipts plain geth service 1 stored).1
sync_block_transaction_receipts-IsSettled_example =
    sync_block_transaction_receipts-IsSettled plain geth service contract 1 (row 201 ∷ row 202 ∷ [])
      stored (row 202) refl settles (inr (inl refl))

sync_block_transaction_receipts-Touched_example :
    Touched geth service
      (asked plain geth service (row 201 ∷ row 202 ∷ []) stored)
      (201 ∷ [])
      (stored (201 ∷ []))
      ((sync_block_transaction_receipts plain geth service 1 stored).1 (201 ∷ []))
sync_block_transaction_receipts-Touched_example =
    sync_block_transaction_receipts-Touched plain geth service contract 1 (row 201 ∷ row 202 ∷ [])
      stored refl (201 ∷ [])

validate_receipt_matches_transaction_iff_example :
    (validate_receipt_matches_transaction geth (row 201) (some (receipt_of 201)) ≡ none)
    ↔ IsReceiptOf geth (row 201) (some (receipt_of 201))
validate_receipt_matches_transaction_iff_example =
    validate_receipt_matches_transaction_iff geth (row 201) (some (receipt_of 201))
