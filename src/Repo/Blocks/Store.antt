-- ===== src/Repo/Blocks/Store.antt =====
-- The block repository against the table of blocks: each call answers by it, and changes it as the
-- block service relies on.
use block_explorer_backend.Prelude.{
  ℕ, zero, suc, ◌≡◌, refl, sym, ap, ◌∙◌, inl, inr, String, false, Bool-cases, Option, none, some,
  List, [], ◌∷◌, length, keep, arith, ◌==◌,
}
use block_explorer_backend.Prelude.Int.{ℤ}
use block_explorer_backend.Errors.{GoError}
use block_explorer_backend.Errors.Upstream.{is_record_not_found}
use block_explorer_backend.Effect.{Result, ok, err, on_error, continue}
use block_explorer_backend.Models.{Block, Transaction}
use block_explorer_backend.BlockService.Contract
use block_explorer_backend.BlockService.Contract.{
  BlockTable, Inserted, Updated, marked_synced, marked_failed,
}
use block_explorer_backend.Gorm.{where_rows, Database}
use block_explorer_backend.Gorm.Contract.{
  Writes, DatabaseContract, insert_rows, update_rows, block_conflict,
}
use block_explorer_backend.Gorm.Rows.{update_rows-none}
use block_explorer_backend.Repo.{found_row}
use block_explorer_backend.Repo.Blocks.{
  at_number, affected, get_block_by_number, insert_both, insert_txs, insert_block_with_transactions,
  mark_block_receipts_synced, mark_block_receipts_sync_failed,
}
use block_explorer_backend.Repo.Blocks.Table.{
  table_of, table_of-matching, table_of-none, insert_rows-Inserted, update_rows-Updated,
}

module _ {W : Type 0} (db : Database W) (c : DatabaseContract db) where
  open c use {blocks, transactions, block_table, transaction_table}

  -- The table of blocks in a world.
  abbrev pub block_view : W → BlockTable
  block_view w = table_of (blocks w)

  found-view :
      (chain : ℤ) (n : ℕ) (w : W) (r : Result Block) (found : Option Block)
      → (db.blocks.take (where_rows (at_number chain n)) w).0 ≡ r
      → found_row "query block by number: " r ≡ ok found
      → block_view w chain n ≡ found
  found-view chain n w (ok r) found e h =
      let same : some r ≡ found = cc in
      table_of-matching (blocks w) chain n r (block_table.unique w) (block_table.take_finds _ w r e)
      ∙ same
  found-view chain n w (err x) found e h = elim (Bool-cases (is_record_not_found x)) [
    | inl missing ↦
        let h' : ◌≡◌ {A = Result (Option Block)} (ok none) (ok found) = rw missing at h in
        let same : none ≡ found = cc in
        table_of-none (blocks w) chain n (block_table.take_misses _ w x e missing) ∙ same
    | inr failed ↦ let h' = rw failed at h in absurd (cc)
  ]

  pub get_block_by_number-finds :
      (chain : ℤ) (n : ℕ) (w : W) (found : Option Block)
      → (get_block_by_number db chain n w).0 ≡ ok found
      → block_view w chain n ≡ found
  unfolding get_block_by_number
  get_block_by_number-finds chain n w found h =
      found-view chain n w (db.blocks.take (where_rows (at_number chain n)) w).0 found refl h

  pub get_block_by_number-Keeps :
      (chain : ℤ) (n : ℕ) (w : W)
      → (blocks (get_block_by_number db chain n w).1 ≡ blocks w)
        × (transactions (get_block_by_number db chain n w).1 ≡ transactions w)
  unfolding get_block_by_number
  get_block_by_number-Keeps chain n w = block_table.take_keeps (where_rows (at_number chain n)) w

  -- What the transaction's function leaves, by the outcome of the first statement.
  insert_txs-Keeps : (txs : List Transaction) (w : W) → blocks (insert_txs db txs w).1 ≡ blocks w
  insert_txs-Keeps [] w = refl
  insert_txs-Keeps (tx ∷ txs) w = (transaction_table.create_writes (tx ∷ txs) w).1

  inserted_both :
      (f : GoError → GoError) (r : Result (Unit {0})) (b : Block) (txs : List Transaction)
      (w w' : W)
      → Writes r
          (blocks w)
          (blocks w')
          (λ _. blocks w' ≡ insert_rows block_conflict (b ∷ []) (blocks w))
      → (continue (on_error f r) (λ _. insert_txs db txs) w').0 ≡ ok tt
      → blocks (continue (on_error f r) (λ _. insert_txs db txs) w').1
        ≡ insert_rows block_conflict (b ∷ []) (blocks w)
  inserted_both f (ok _) b txs w w' h k = insert_txs-Keeps txs w' ∙ h
  inserted_both f (err e) b txs w w' h k = absurd (cc)

  transaction-Writes :
      (b : Block) (txs : List Transaction) (w : W) (r : Result (Unit {0}))
      → (db.transaction (insert_both db b txs) w).0 ≡ r
      → let w' = (db.transaction (insert_both db b txs) w).1 in
        Contract.Writes r (block_view w) (block_view w') (Inserted b (block_view w) (block_view w'))
  transaction-Writes b txs w (err e) h = ap table_of (c.rolls_back (insert_both db b txs) w e h).0
  transaction-Writes b txs w (ok _) h =
      let (w₁, same, _, done, after, _) = c.commits (insert_both db b txs) w h in
      let rows =
        inserted_both _ (db.blocks.create (b ∷ []) w₁).0 b txs w₁ _
          (block_table.create_writes (b ∷ []) w₁).0 done in
      rw (after, rows, same) (insert_rows-Inserted (blocks w) b (block_table.unique w))

  -- The transaction is one insertion into the table, or nothing.
  pub insert_block_with_transactions-Writes :
      (b : Block) (txs : List Transaction) (w : W)
      → let (r, w') = insert_block_with_transactions db b txs w in
        Contract.Writes r (block_view w) (block_view w') (Inserted b (block_view w) (block_view w'))
  unfolding insert_block_with_transactions
  insert_block_with_transactions-Writes b txs w =
      transaction-Writes b txs w (db.transaction (insert_both db b txs) w).0 refl

  mark-Writes :
      (message : String) (f : Block → Block) (chain : ℤ) (n : ℕ) (w w' : W) (r : Result ℕ)
      → ((b : Block) → (f b).chain_id ≡ b.chain_id)
      → ((b : Block) → (f b).number ≡ b.number)
      → Writes r (blocks w) (blocks w') (λ k.
        (blocks w' ≡ update_rows (at_number chain n) f (blocks w))
        × (k ≡ length (keep (at_number chain n) (blocks w))))
      → (g : GoError → GoError)
      → Contract.Writes
          (continue (on_error g r) (λ k w. (affected message k, w)) w').0
          (block_view w)
          (block_view (continue (on_error g r) (λ k w. (affected message k, w)) w').1)
          (Updated f chain n
            (block_view w)
            (block_view (continue (on_error g r) (λ k w. (affected message k, w)) w').1))
  mark-Writes message f chain n w w' (err e) keeps_chain keeps_number h g = ap table_of h
  mark-Writes message f chain n w w' (ok zero) keeps_chain keeps_number (rows, count) g =
      ap table_of (rows ∙ update_rows-none (at_number chain n) f (blocks w) (sym count))
  mark-Writes message f chain n w w' (ok (suc k)) keeps_chain keeps_number (rows, count) g =
      let some_rows : (suc k == 0) ≡ false = ground arith in
      rw (some_rows, rows)
        (update_rows-Updated (blocks w) chain n f keeps_chain keeps_number
          (λ empty. let none_there : suc k ≡ 0 = rw empty at count in absurd (omega arith)))

  pub mark_block_receipts_synced-Writes :
      (chain : ℤ) (n : ℕ) (w : W)
      → let (r, w') = mark_block_receipts_synced db chain n w in
        Contract.Writes r
          (block_view w)
          (block_view w')
          (Updated marked_synced chain n (block_view w) (block_view w'))
  unfolding mark_block_receipts_synced
  mark_block_receipts_synced-Writes chain n w =
      mark-Writes _ marked_synced chain n w _ _ (λ b. refl) (λ b. refl)
        (block_table.updates_writes (at_number chain n) marked_synced w).0 _

  pub mark_block_receipts_sync_failed-Writes :
      (chain : ℤ) (n : ℕ) (reason : String) (w : W)
      → let (r, w') = mark_block_receipts_sync_failed db chain n reason w in
        Contract.Writes r
          (block_view w)
          (block_view w')
          (Updated (marked_failed reason) chain n (block_view w) (block_view w'))
  unfolding mark_block_receipts_sync_failed
  mark_block_receipts_sync_failed-Writes chain n reason w =
      mark-Writes _ (marked_failed reason) chain n w _ _ (λ b. refl) (λ b. refl)
        (block_table.updates_writes (at_number chain n) (marked_failed reason) w).0 _
