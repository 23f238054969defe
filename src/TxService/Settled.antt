-- ===== src/TxService/Settled.antt =====
-- What a successful `SyncBlockTransactionReceipts` has settled.
use block_explorer_backend.Prelude.{
  Among, ℕ, ◌≡◌, refl, ap, ◌∙◌, ◌⊎◌, inl, inr, true, Option, none, some, List, [], ◌∷◌, Bool-cases,
}
use block_explorer_backend.Text.{Text, Unicode}
use block_explorer_backend.Text.Laws.{text_eq_refl}
use block_explorer_backend.Errors.{GoError, errors_is, tx_receipt_not_found}
use block_explorer_backend.Effect.{Result, ok, err, continue, on_error}
use block_explorer_backend.Ethereum.{Receipt, Geth}
use block_explorer_backend.Models.{Transaction}
use block_explorer_backend.TxService.{
  TxService, validate_receipt_matches_transaction, store_checked, handle_receipt, sync_receipt,
  sync_each, sync_block_transaction_receipts, status_of, gas_used_of,
}
use block_explorer_backend.TxService.Matches.{validate_receipt_matches_transaction_iff}
use block_explorer_backend.TxService.Receipts.{
  Stamped, Writes, ReceiptContract, Touched, same, stamped, asked, listing, sync_each-Rows,
}

-- The row is there and has both receipt columns.
pub record HasReceipt (row : Option Transaction) : Type 0 where
  pub tx : Transaction
  pub status : ℕ
  pub gas_used : ℕ
  pub stored : row ≡ some tx
  pub has_status : tx.receipt_status ≡ some status
  pub has_gas_used : tx.receipt_gas_used ≡ some gas_used

Touched-HasReceipt :
    {W : Type 0} (g : Geth) (s : TxService W) (calls : List (Transaction × W)) (h : Text)
    (a b : Option Transaction)
    → Touched g s calls h a b
    → HasReceipt a
    → HasReceipt b
Touched-HasReceipt g s calls h a b (same e) p = rw e p
Touched-HasReceipt g s calls h a b (stamped tx old w r i m n v p q) k = record {
  tx = record old { receipt_status = some r.status; receipt_gas_used = some r.gas_used };
  status = r.status;
  gas_used = r.gas_used;
  stored = q;
  has_status = refl;
  has_gas_used = refl;
}

module _ {W : Type 0} (u : Unicode) (g : Geth) (s : TxService W) (c : ReceiptContract s) where
  open c use {table}

  -- The node has answered that it has no receipt for the transaction.
  abbrev pub WasNotFound : Transaction → Type 0
  WasNotFound tx =
      (w : W) × (e : GoError) × ((s.chain_transaction_reader.get_transaction_receipt tx.hash w).0
        ≡ err e)
      × (errors_is e tx_receipt_not_found ≡ true)

  abbrev pub IsSettled : Transaction → W → Type 0
  IsSettled tx w = HasReceipt (table w tx.hash) ⊎ WasNotFound tx

  written-HasReceipt :
      (tx : Transaction) (r : Option Receipt) (res : Result (Unit {0})) (w w' : W)
      → validate_receipt_matches_transaction g tx r ≡ none
      → Writes res
          (table w)
          (table w')
          (Stamped tx.hash (status_of r) (gas_used_of r) (table w) (table w'))
      → res ≡ ok tt
      → HasReceipt (table w' tx.hash)
  written-HasReceipt tx r (err e) w w' v k p = cc
  written-HasReceipt tx r (ok _) w w' v (old, found, rows) p =
      let checked = (validate_receipt_matches_transaction_iff g tx r).0 v in
      record {
        tx = record old { receipt_status = status_of r; receipt_gas_used = gas_used_of r };
        status = checked.receipt.status;
        gas_used = checked.receipt.gas_used;
        stored = rows tx.hash ∙ rw text_eq_refl;
        has_status = ap status_of checked.present;
        has_gas_used = ap gas_used_of checked.present;
      }

  on_error-ok : (f : GoError → GoError) (r : Result (Unit {0})) → on_error f r ≡ ok tt → r ≡ ok tt
  on_error-ok f (ok _) h = refl
  on_error-ok f (err e) h = cc

  checked-HasReceipt :
      (checked : Option GoError) (tx : Transaction) (r : Option Receipt) (w : W)
      → validate_receipt_matches_transaction g tx r ≡ checked
      → (store_checked u g s checked tx r w).0 ≡ ok tt
      → HasReceipt (table (store_checked u g s checked tx r w).1 tx.hash)
  checked-HasReceipt (some e) tx r w v h = cc
  checked-HasReceipt none tx r w v h =
      let (res, w') =
        s.transaction_receipt_store.update_transaction_receipt_by_hash s.chain_id tx.hash
          (status_of r) (gas_used_of r) w in
      written-HasReceipt tx r res w w' v (c.update_writes tx.hash (status_of r) (gas_used_of r) w)
        (on_error-ok _ res h)

  handle_receipt-IsSettled :
      (tx : Transaction) (r : Result (Option Receipt)) (w₀ w : W)
      → (s.chain_transaction_reader.get_transaction_receipt tx.hash w₀).0 ≡ r
      → (handle_receipt u g s tx r w).0 ≡ ok tt
      → IsSettled tx (handle_receipt u g s tx r w).1
  handle_receipt-IsSettled tx (ok r) w₀ w asked h =
      inl (checked-HasReceipt (validate_receipt_matches_transaction g tx r) tx r w refl h)
  handle_receipt-IsSettled tx (err e) w₀ w asked h =
      elim (Bool-cases (errors_is e tx_receipt_not_found)) [
        | inl missing ↦ inr (w₀, e, asked, missing)
        | inr failed ↦ cc
      ]

  sync_receipt-IsSettled :
      (tx : Transaction) (w : W)
      → (sync_receipt u g s tx w).0 ≡ ok tt
      → IsSettled tx (sync_receipt u g s tx w).1
  unfolding sync_receipt
  sync_receipt-IsSettled tx w h =
      let (r, w') = s.chain_transaction_reader.get_transaction_receipt tx.hash w in
      handle_receipt-IsSettled tx r w w' refl h

  -- What is settled stays so while the other transactions are handled.
  IsSettled-kept :
      (tx : Transaction) (calls : List (Transaction × W)) (w w' : W)
      → ((h : Text) → Touched g s calls h (table w h) (table w' h))
      → IsSettled tx w
      → IsSettled tx w'
  IsSettled-kept tx calls w w' rows (inl has) =
      inl (
        Touched-HasReceipt g s calls tx.hash (table w tx.hash) (table w' tx.hash) (rows tx.hash)
          has)
  IsSettled-kept tx calls w w' rows (inr gone) = inr gone

  step-IsSettled :
      (r : Result (Unit {0})) (x tx : Transaction) (txs : List Transaction) (w : W)
      → (r ≡ ok tt → IsSettled x w)
      → ((sync_each u g s txs w).0 ≡ ok tt → Among tx txs → IsSettled tx (sync_each u g s txs w).1)
      → (continue r (λ _. sync_each u g s txs) w).0 ≡ ok tt
      → Among tx (x ∷ txs)
      → IsSettled tx (continue r (λ _. sync_each u g s txs) w).1
  step-IsSettled (err e) x tx txs w first rest h i = cc
  step-IsSettled (ok _) x tx txs w first rest h (inl e) = rw e (
      IsSettled-kept x (asked u g s txs w) w (sync_each u g s txs w).1
        (sync_each-Rows u g s c txs w) (first refl))
  step-IsSettled (ok _) x tx txs w first rest h (inr j) = rest h j

  pub sync_each-IsSettled :
      (txs : List Transaction) (w : W) (tx : Transaction)
      → (sync_each u g s txs w).0 ≡ ok tt
      → Among tx txs
      → IsSettled tx (sync_each u g s txs w).1
  unfolding sync_each
  sync_each-IsSettled [] w tx h i = absurd i
  sync_each-IsSettled (x ∷ txs) w tx h i =
      let (r, w') = sync_receipt u g s x w in
      step-IsSettled r x tx txs w' (sync_receipt-IsSettled x w) (sync_each-IsSettled txs w' tx) h i

-- After a success every listed transaction has both receipt columns stored, or the node has answered
-- that it has no receipt for it.
pub sync_block_transaction_receipts-IsSettled :
    {W : Type 0} (u : Unicode) (g : Geth) (s : TxService W) (c : ReceiptContract s)
    (block_number : ℕ) (txs : List Transaction) (w : W) (tx : Transaction)
    → (listing s block_number w).0 ≡ ok txs
    → (sync_block_transaction_receipts u g s block_number w).0 ≡ ok tt
    → Among tx txs
    → IsSettled u g s c tx (sync_block_transaction_receipts u g s block_number w).1
unfolding sync_block_transaction_receipts
sync_block_transaction_receipts-IsSettled u g s c n txs w tx listed h i =
    let h' : (sync_each u g s txs (listing s n w).1).0 ≡ ok tt = rw listed at h in
    rw listed (sync_each-IsSettled u g s c txs (listing s n w).1 tx h' i)
