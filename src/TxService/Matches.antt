-- ===== src/TxService/Matches.antt =====
-- What `validateReceiptMatchesTransaction` accepts.
use block_explorer_backend.Prelude.{
  ℕ, ◌%◌, ◌≡◌, ◌↔◌, refl, Option, none, some, arith, Option-cases, inl, inr,
}
use block_explorer_backend.Prelude.Int.{two_64}
use block_explorer_backend.Ethereum.{Receipt, Geth}
use block_explorer_backend.Models.{Transaction}
use block_explorer_backend.TxService.{validate_receipt_matches_transaction}

-- The receipt is there, and names the transaction, its block's number and its block's hash.
pub record IsReceiptOf (g : Geth) (tx : Transaction) (r : Option Receipt) : Type 0 where
  pub receipt : Receipt
  pub number : ℕ
  pub present : r ≡ some receipt
  pub same_tx : receipt.tx_hash ≡ g.hex_to_hash tx.hash
  pub has_number : receipt.block_number ≡ some number
  pub same_number : number % two_64 ≡ tx.block_number
  pub same_block : receipt.block_hash ≡ g.hex_to_hash tx.block_hash

-- A receipt passes the check exactly when it is the transaction's receipt.
pub validate_receipt_matches_transaction_iff :
    (g : Geth) (tx : Transaction) (r : Option Receipt)
    → (validate_receipt_matches_transaction g tx r ≡ none) ↔ IsReceiptOf g tx r
unfolding validate_receipt_matches_transaction
validate_receipt_matches_transaction_iff g tx none = (λ h. cc, λ h. cc h.present)
validate_receipt_matches_transaction_iff g tx (some r) = (
  λ h. elim (Option-cases r.block_number) [
    | inl missing ↦ ground arith
    | inr (n, e) ↦ record {
      receipt = r;
      number = n;
      present = refl;
      same_tx = ground arith;
      has_number = e;
      same_number = ground arith;
      same_block = ground arith;
    }
  ],
  λ h. ground arith,
)
