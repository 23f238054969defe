-- ===== src/TxService/Receipts.antt =====
-- What `SyncBlockTransactionReceipts` does to the stored rows, and what a success means.
use block_explorer_backend.Prelude.{
  Among, ℕ, ◌≡◌, refl, sym, ap, ◌∙◌, inl, inr, Option, none, some, List, [], ◌∷◌, Bool-cases,
  if◌then◌else◌,
}
use block_explorer_backend.Prelude.Int.{ℤ}
use block_explorer_backend.Text.{Text, Unicode, text_eq, text_eq_iff}
use block_explorer_backend.Errors.{GoError, errors_is, tx_receipt_not_found}
use block_explorer_backend.Effect.{Result, ok, err, Io, continue}
use block_explorer_backend.Ethereum.{Receipt, Geth}
use block_explorer_backend.Models.{Transaction}
use block_explorer_backend.TxService.{
  TxService, validate_receipt_matches_transaction, store_checked, handle_receipt, sync_receipt,
  sync_each, sync_block_transaction_receipts,
}
use block_explorer_backend.TxService.Matches.{validate_receipt_matches_transaction_iff}

-- The transactions of the chain, by hash.
abbrev pub TxTable : Type 0
TxTable = Text → Option Transaction

abbrev pub stamp : Option ℕ → Option ℕ → Transaction → Transaction
stamp status gas_used tx = record tx { receipt_status = status; receipt_gas_used = gas_used }

-- An update by hash that reports success has found its row and written the receipt's columns.
abbrev pub Stamped : Text → Option ℕ → Option ℕ → TxTable → TxTable → Type 0
Stamped hash status gas_used t t' =
    (old : Transaction) × (t hash ≡ some old)
    × ((h : Text) → t' h ≡ (if text_eq h hash then some (stamp status gas_used old) else t h))

abbrev pub Writes : Result (Unit {0}) → TxTable → TxTable → Type 0 → Type 0
Writes (ok _) t t' Change = Change
Writes (err e) t t' Change = t' ≡ t

-- What the service relies on: a view of the world as the table of the chain's transactions.
pub record ReceiptContract {W : Type 0} (s : TxService W) : Type 0 where
  pub table : W → TxTable
  pub node_keeps :
      (hash : Text) (w : W)
      → table (s.chain_transaction_reader.get_transaction_receipt hash w).1 ≡ table w
  pub list_keeps :
      (c : ℤ) (n : ℕ) (w : W)
      → table
          (s.transaction_receipt_store.list_transactions_missing_receipt_by_block_number c n w).1
        ≡ table w
  pub update_writes :
      (hash : Text) (status gas_used : Option ℕ) (w : W)
      → let (r, w') =
          s.transaction_receipt_store.update_transaction_receipt_by_hash s.chain_id hash status
            gas_used w in
        Writes r (table w) (table w') (Stamped hash status gas_used (table w) (table w'))

-- The transactions that the loop has asked the node about, each with the world that it asked in.
module _ {W : Type 0} (u : Unicode) (g : Geth) (s : TxService W) where
  abbrev go_on : Result (Unit {0}) → List (Transaction × W) → List (Transaction × W)
  go_on (ok _) rest = rest
  go_on (err e) rest = []

  abbrev pub asked : List Transaction → W → List (Transaction × W)
  asked [] w = []
  asked (tx ∷ txs) w =
      let (r, w') = sync_receipt u g s tx w in let rest = asked txs w' in (tx, w) ∷ go_on r rest

-- A row is as it was, or it belongs to a transaction that the node was asked about, and has got the
-- status and the gas of the receipt that the node gave, which passed the check for it.
pub data Touched {W : Type 0} (g : Geth) (s : TxService W) (calls : List (Transaction × W))
    (h : Text) (before after : Option Transaction) : Type 0 where
  same : after ≡ before → Touched g s calls h before after
  stamped :
      (tx old : Transaction) (w : W) (r : Receipt)
      → Among (tx, w) calls
      → tx.hash ≡ h
      → (s.chain_transaction_reader.get_transaction_receipt tx.hash w).0 ≡ ok (some r)
      → validate_receipt_matches_transaction g tx (some r) ≡ none
      → before ≡ some old
      → after
        ≡ some (record old { receipt_status = some r.status; receipt_gas_used = some r.gas_used })
      → Touched g s calls h before after

module _ {W : Type 0} (g : Geth) (s : TxService W) where
  Touched-weaken :
      (call : Transaction × W) (calls : List (Transaction × W)) (h : Text)
      (a b : Option Transaction)
      → Touched g s calls h a b
      → Touched g s (call ∷ calls) h a b
  Touched-weaken call calls h a b (same e) = same e
  Touched-weaken call calls h a b (stamped x old w r i e n v p q) =
      stamped x old w r (inr i) e n v p q

  -- A later stamp replaces an earlier one.
  Touched-trans :
      (calls : List (Transaction × W)) (h : Text) (a b c : Option Transaction)
      → Touched g s calls h a b
      → Touched g s calls h b c
      → Touched g s calls h a c
  Touched-trans calls h a b c (same e) (same k) = same (k ∙ e)
  Touched-trans calls h a b c (same e) (stamped x old w r i m n v p q) =
      stamped x old w r i m n v (sym e ∙ p) q
  Touched-trans calls h a b c (stamped x old w r i m n v p q) (same k) =
      stamped x old w r i m n v p (k ∙ q)
  Touched-trans calls h a b c (stamped x old w r i m n v p q)
        (stamped y old' w' r' j m' n' v' p' q') =
      let twice : old' ≡ stamp (some r.status) (some r.gas_used) old = cc in
      stamped y old w' r' j m' n' v' p
        (q' ∙ ap (λ o. some (stamp (some r'.status) (some r'.gas_used) o)) twice)

module _ {W : Type 0} (u : Unicode) (g : Geth) (s : TxService W) (c : ReceiptContract s) where
  open c use {table}

  abbrev Rows : List (Transaction × W) → W → W → Type 0
  Rows calls w w' = (h : Text) → Touched g s calls h (table w h) (table w' h)

  written-Rows :
      (tx : Transaction) (calls : List (Transaction × W)) (r : Receipt) (res : Result (Unit {0}))
      (w₀ w w' : W)
      → Among (tx, w₀) calls
      → (s.chain_transaction_reader.get_transaction_receipt tx.hash w₀).0 ≡ ok (some r)
      → validate_receipt_matches_transaction g tx (some r) ≡ none
      → Writes res
          (table w)
          (table w')
          (Stamped tx.hash (some r.status) (some r.gas_used) (table w) (table w'))
      → Rows calls w w'
  written-Rows tx calls r (err e) w₀ w w' i n v k h = same (rw k)
  written-Rows tx calls r (ok _) w₀ w w' i n v (old, found, rows) h =
      elim (Bool-cases (text_eq h tx.hash)) [
        | inl own ↦
            let here : h ≡ tx.hash = (text_eq_iff h tx.hash).0 own in
            stamped tx old w₀ r i (sym here) n v (rw here found) (rows h ∙ rw own)
        | inr other ↦ same (rows h ∙ rw other)
      ]

  module _ (tx : Transaction) (calls : List (Transaction × W)) (w₀ : W)
      (i : Among (tx, w₀) calls) where
    store_checked-Rows :
        (checked : Option GoError) (r : Option Receipt) (w : W)
        → (s.chain_transaction_reader.get_transaction_receipt tx.hash w₀).0 ≡ ok r
        → validate_receipt_matches_transaction g tx r ≡ checked
        → table w ≡ table w₀
        → Rows calls w₀ (store_checked u g s checked tx r w).1
    store_checked-Rows (some e) r w n v k = λ h. same (rw k)
    store_checked-Rows none none w n v k =
        let present = ((validate_receipt_matches_transaction_iff g tx none).0 v).present in
        absurd (cc)
    store_checked-Rows none (some r) w n v k =
        let (res, w') =
          s.transaction_receipt_store.update_transaction_receipt_by_hash s.chain_id tx.hash
            (some r.status) (some r.gas_used) w in
        λ h. rw (← k) (
          written-Rows tx calls r res w₀ w w' i n v
            (c.update_writes tx.hash (some r.status) (some r.gas_used) w) h)

    handle_receipt-Rows :
        (r : Result (Option Receipt)) (w : W)
        → (s.chain_transaction_reader.get_transaction_receipt tx.hash w₀).0 ≡ r
        → table w ≡ table w₀
        → Rows calls w₀ (handle_receipt u g s tx r w).1
    handle_receipt-Rows (ok r) w n k =
        store_checked-Rows (validate_receipt_matches_transaction g tx r) r w n refl k
    handle_receipt-Rows (err e) w n k = λ h. elim (Bool-cases (errors_is e tx_receipt_not_found)) [
      | inl missing ↦ rw missing (same (rw k))
      | inr failed ↦ rw failed (same (rw k))
    ]

    sync_receipt-Rows : Rows calls w₀ (sync_receipt u g s tx w₀).1
    unfolding sync_receipt
    sync_receipt-Rows =
        let (r, w') = s.chain_transaction_reader.get_transaction_receipt tx.hash w₀ in
        handle_receipt-Rows r w' refl (c.node_keeps tx.hash w₀)

  continue-Rows :
      (tx : Transaction) (txs : List Transaction) (r : Result (Unit {0})) (w w' : W)
      → ((calls : List (Transaction × W)) → Among (tx, w) calls → Rows calls w w')
      → Rows (asked u g s txs w') w' (sync_each u g s txs w').1
      → Rows
          ((tx, w) ∷ go_on u g s r (asked u g s txs w'))
          w
          (continue r (λ _. sync_each u g s txs) w').1
  continue-Rows tx txs (err e) w w' first rest h = first _ (inl refl) h
  continue-Rows tx txs (ok _) w w' first rest h =
      Touched-trans g s ((tx, w) ∷ asked u g s txs w') h _ _ _ (first _ (inl refl) h)
        (Touched-weaken g s (tx, w) (asked u g s txs w') h _ _ (rest h))

  pub sync_each-Rows :
      (txs : List Transaction) (w : W) → Rows (asked u g s txs w) w (sync_each u g s txs w).1
  unfolding sync_each
  sync_each-Rows [] w = λ h. same refl
  sync_each-Rows (tx ∷ txs) w =
      let (r, w') = sync_receipt u g s tx w in
      continue-Rows tx txs r w w' (λ calls i. sync_receipt-Rows tx calls w i)
        (sync_each-Rows txs w')

-- The rows that the call was given: those of the block that miss a receipt.
abbrev pub listing : {W : Type 0} → TxService W → ℕ → Io W (List Transaction)
listing s n =
    s.transaction_receipt_store.list_transactions_missing_receipt_by_block_number s.chain_id n

-- However the call ends once the rows are listed, a stored row is as it was before, or it is the row
-- of a listed transaction that the loop has asked the node about, and differs in its two receipt columns
-- only, which are the status and the gas used of the receipt that the node gave to that call, and which
-- was checked against that transaction.
pub sync_block_transaction_receipts-Touched :
    {W : Type 0} (u : Unicode) (g : Geth) (s : TxService W) (c : ReceiptContract s)
    (block_number : ℕ) (txs : List Transaction) (w : W)
    → (listing s block_number w).0 ≡ ok txs
    → (h : Text)
    → Touched g s
        (asked u g s txs (listing s block_number w).1)
        h
        (c.table w h)
        (c.table (sync_block_transaction_receipts u g s block_number w).1 h)
unfolding sync_block_transaction_receipts
sync_block_transaction_receipts-Touched u g s c n txs w listed h =
    rw (listed, ← c.list_keeps s.chain_id n w) (sync_each-Rows u g s c txs (listing s n w).1 h)
