-- ===== src/Repo/Transactions/Store.antt =====
-- The transaction repository against the transactions of a chain by hash: an update of a receipt is
-- what the transaction service relies on.
use block_explorer_backend.Prelude.{
  ℕ, zero, suc, ◌≡◌, ◌↔◌, refl, sym, ap, ◌∙◌, inl, inr, true, false, Bool-cases, Option, some, List,
  length, keep, find_first, arith, ◌==◌, if◌then◌else◌,
}
use block_explorer_backend.Prelude.Int.{ℤ, eqb_ℤ_iff}
use block_explorer_backend.Text.{Text, text_eq, text_eq_iff}
use block_explorer_backend.Errors.{GoError}
use block_explorer_backend.Effect.{Result, ok, err, on_error, continue}
use block_explorer_backend.Models.{Transaction}
use block_explorer_backend.TxService.Receipts
use block_explorer_backend.TxService.Receipts.{TxTable, stamp, Stamped}
use block_explorer_backend.Gorm.{Database}
use block_explorer_backend.Gorm.Contract.{Writes, DatabaseContract, update_rows}
use block_explorer_backend.Gorm.Rows.{
  find_first-cases, find_first-update_self, find_first-update_other, update_rows-none,
}
use block_explorer_backend.Repo.Transactions.{at_hash, updated, update_transaction_receipt_by_hash}

abbrev pub hash_table : ℤ → List Transaction → TxTable
hash_table chain rows h = find_first (at_hash chain h) rows

at_hash_iff :
    (chain : ℤ) (h : Text) (tx : Transaction)
    → (at_hash chain h tx ≡ true) ↔ ((tx.chain_id ≡ chain) × (tx.hash ≡ h))
at_hash_iff chain h tx = ground (arith, eqb_ℤ_iff tx.chain_id chain, text_eq_iff tx.hash h)

-- The rows of a hash are updated, and no others.
update-place :
    (rows : List Transaction) (chain : ℤ) (hash : Text) (status gas_used : Option ℕ)
    (old : Transaction)
    → hash_table chain rows hash ≡ some old
    → (h : Text)
    → hash_table chain (update_rows (at_hash chain hash) (stamp status gas_used) rows) h
      ≡ (if text_eq h hash then some (stamp status gas_used old) else hash_table chain rows h)
update-place rows chain hash status gas_used old e h = elim (Bool-cases (text_eq h hash)) [
  | inl own ↦
      let here : h ≡ hash = (text_eq_iff h hash).0 own in
      rw own (
        rw here (
          find_first-update_self (at_hash chain hash) (at_hash chain hash) (stamp status gas_used)
            rows old (λ tx. refl) e))
  | inr other ↦ rw other (
      find_first-update_other (at_hash chain hash) (at_hash chain h) (stamp status gas_used) rows
        (λ tx. refl)
        (λ tx k. ground (
          arith,
          at_hash_iff chain hash tx,
          at_hash_iff chain h tx,
          text_eq_iff h hash,
          text_eq_iff tx.hash h,
        )))
]

update_rows-Stamped :
    (rows : List Transaction) (chain : ℤ) (hash : Text) (status gas_used : Option ℕ) (k : ℕ)
    → suc k ≡ length (keep (at_hash chain hash) rows)
    → Stamped hash status gas_used
        (hash_table chain rows)
        (hash_table chain (update_rows (at_hash chain hash) (stamp status gas_used) rows))
update_rows-Stamped rows chain hash status gas_used k count =
    elim (find_first-cases (at_hash chain hash) rows) [
      | inl (e, empty) ↦ let none_there : suc k ≡ 0 = rw empty at count in absurd (omega arith)
      | inr (old, e, i, m) ↦ (old, e, update-place rows chain hash status gas_used old e)
    ]

module _ {W : Type 0} (db : Database W) (c : DatabaseContract db) (chain : ℤ) where
  open c use {transactions, transaction_table}

  abbrev pub transaction_view : W → TxTable
  transaction_view w = hash_table chain (transactions w)

  updated-Writes :
      (hash : Text) (status gas_used : Option ℕ) (w w' : W) (r : Result ℕ) (g : GoError → GoError)
      → Writes r (transactions w) (transactions w') (λ k.
        (transactions w'
          ≡ update_rows (at_hash chain hash) (stamp status gas_used) (transactions w))
        × (k ≡ length (keep (at_hash chain hash) (transactions w))))
      → Receipts.Writes
          (continue (on_error g r) (λ k w. (updated k, w)) w').0
          (transaction_view w)
          (transaction_view (continue (on_error g r) (λ k w. (updated k, w)) w').1)
          (Stamped hash status gas_used
            (transaction_view w)
            (transaction_view (continue (on_error g r) (λ k w. (updated k, w)) w').1))
  updated-Writes hash status gas_used w w' (err e) g h = ap (hash_table chain) h
  updated-Writes hash status gas_used w w' (ok zero) g (rows, count) = ap (hash_table chain) (
      rows
      ∙ update_rows-none (at_hash chain hash) (stamp status gas_used) (transactions w) (sym count))
  updated-Writes hash status gas_used w w' (ok (suc k)) g (rows, count) =
      let some_rows : (suc k == 0) ≡ false = ground arith in
      rw (some_rows, rows) (update_rows-Stamped (transactions w) chain hash status gas_used k count)

  pub update_transaction_receipt_by_hash-Writes :
      (hash : Text) (status gas_used : Option ℕ) (w : W)
      → let (r, w') = update_transaction_receipt_by_hash db chain hash status gas_used w in
        Receipts.Writes r
          (transaction_view w)
          (transaction_view w')
          (Stamped hash status gas_used (transaction_view w) (transaction_view w'))
  unfolding update_transaction_receipt_by_hash
  update_transaction_receipt_by_hash-Writes hash status gas_used w =
      updated-Writes hash status gas_used w _ _ _
        (transaction_table.updates_writes (at_hash chain hash) (stamp status gas_used) w).0
