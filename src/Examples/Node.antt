-- ===== src/Examples/Node.antt =====
-- A node that fails every call: with `ethereum.NotFound` for receipts, and with a deadline else.
use block_explorer_backend.Prelude.{◌≡◌, ◌↔◌, refl, true, false}
use block_explorer_backend.Text.{codes}
use block_explorer_backend.Errors.{
  GoError, foreign, errors_is, block_not_found, tx_receipt_not_found,
}
use block_explorer_backend.Errors.Http.{map_error, answer_of}
use block_explorer_backend.Effect.{err, throw}
use block_explorer_backend.Rpc.{EthClient, is_not_found, block_by_number, transaction_receipt}
use block_explorer_backend.Rpc.Failures.{
  failure_root, block_by_number-answer, transaction_receipt-missing,
}
use block_explorer_backend.Examples.Common.{geth}

abbrev deadline : GoError
deadline = foreign (record {
  is_deadline = true;
  is_canceled = false;
  is_record_not_found = false;
  is_not_found = false;
  text = "context deadline exceeded";
})

abbrev not_found : GoError
not_found = foreign (record {
  is_deadline = false;
  is_canceled = false;
  is_record_not_found = false;
  is_not_found = true;
  text = "not found";
})

abbrev client : EthClient (Unit {0})
client = record {
  block_by_number = λ n. throw deadline;
  block_number = throw deadline;
  chain_id = throw deadline;
  header_by_tag = λ tag. throw deadline;
  transaction_by_hash = λ h. throw deadline;
  transaction_receipt = λ h. throw not_found;
  balance_at = λ a. throw deadline;
  nonce_at = λ a. throw deadline;
  code_at = λ a. throw deadline;
}

block_by_number-answer_example :
    (e : GoError) × (block_by_number geth client 5 tt ≡ (err e, tt))
    × (map_error e ≡ answer_of (failure_root block_not_found deadline))
block_by_number-answer_example = block_by_number-answer geth client 5 tt tt deadline refl refl

transaction_receipt-missing_example :
    (e : GoError) × (transaction_receipt geth client (codes "0x01") tt ≡ (err e, tt))
    × ((errors_is e tx_receipt_not_found ≡ true) ↔ (is_not_found not_found ≡ true))
transaction_receipt-missing_example =
    transaction_receipt-missing geth client (codes "0x01") tt tt not_found refl refl
