-- ===== src/BlockService/Contract.antt =====
-- What `BlockService` relies on: a view of the world as the table of blocks, by chain and number, and
-- what each call of its interfaces does to that view.
use block_explorer_backend.Prelude.{
  ℕ, ◌≡◌, ◌⊎◌, String, ◌&&◌, Option, none, some, List, ◌==◌, true, false, if◌then◌else◌,
}
use block_explorer_backend.Prelude.Int.{ℤ, eqb_ℤ}
use block_explorer_backend.Text.{Text}
use block_explorer_backend.Effect.{Result, ok, err}
use block_explorer_backend.Models.{Block, Transaction, receipts_failed, completed}
use block_explorer_backend.BlockService.Interfaces.{BlockService}

abbrev pub BlockTable : Type 0
BlockTable = ℤ → ℕ → Option Block

abbrev pub write_at : ℤ → ℕ → Block → BlockTable → BlockTable
write_at c n b t d m = if eqb_ℤ c d && n == m then some b else t d m

-- The columns that `MarkBlockReceiptsSynced` writes.
abbrev pub marked_synced : Block → Block
marked_synced b = record b {
  receipts_synced = true;
  sync_status = completed;
  last_sync_error = none;
}

-- The columns that `MarkBlockReceiptsSyncFailed` writes.
abbrev pub marked_failed : String → Block → Block
marked_failed reason b = record b {
  receipts_synced = false;
  sync_status = receipts_failed;
  last_sync_error = some reason;
}

-- One of the two unique indexes is taken: by number, or by hash.
abbrev pub Conflicts : Block → BlockTable → Type 0
Conflicts b t =
    ((old : Block) × (t b.chain_id b.number ≡ some old))
    ⊎ ((m : ℕ) × (old : Block) × (t b.chain_id m ≡ some old) × (old.hash ≡ b.hash))

-- `ON CONFLICT DO NOTHING`: the row is written if no unique index is taken, and else nothing happens.
abbrev pub Inserted : Block → BlockTable → BlockTable → Type 0
Inserted b t t' =
    (Conflicts b t × (t' ≡ t))
    ⊎ ((t b.chain_id b.number ≡ none) × (t' ≡ write_at b.chain_id b.number b t))

-- An update by number that reports success has found its row.
abbrev pub Updated : (Block → Block) → ℤ → ℕ → BlockTable → BlockTable → Type 0
Updated f c n t t' = (old : Block) × (t c n ≡ some old) × (t' ≡ write_at c n (f old) t)

-- A call that leaves the table alone if it fails, and else changes it as `Change` says.
abbrev pub Writes : Result (Unit {0}) → BlockTable → BlockTable → Type 0 → Type 0
Writes (ok _) t t' Change = Change
Writes (err e) t t' Change = t' ≡ t

pub record StoreContract {W : Type 0} (s : BlockService W) : Type 0 where
  pub table : W → BlockTable
  pub node_keeps :
      (n : ℕ) (w : W) → table (s.chain_block_reader.get_block_by_number n w).1 ≡ table w
  pub read_keeps :
      (c : ℤ) (n : ℕ) (w : W) → table (s.block_sync_store.get_block_by_number c n w).1 ≡ table w
  pub read_finds :
      (c : ℤ) (n : ℕ) (w : W) (found : Option Block)
      → (s.block_sync_store.get_block_by_number c n w).0 ≡ ok found
      → table w c n ≡ found
  pub conflicts_keep :
      (c : ℤ) (hashes : List Text) (w : W)
      → table (s.transaction_conflict_reader.get_transactions_by_hashes c hashes w).1 ≡ table w
  pub receipts_keep :
      (n : ℕ) (w : W)
      → table (s.block_receipt_syncer.sync_block_transaction_receipts n w).1 ≡ table w
  pub insert_writes :
      (b : Block) (txs : List Transaction) (w : W)
      → let (r, w') = s.block_sync_store.insert_block_with_transactions b txs w in
        Writes r (table w) (table w') (Inserted b (table w) (table w'))
  pub synced_writes :
      (c : ℤ) (n : ℕ) (w : W)
      → let (r, w') = s.block_sync_store.mark_block_receipts_synced c n w in
        Writes r (table w) (table w') (Updated marked_synced c n (table w) (table w'))
  pub failed_writes :
      (c : ℤ) (n : ℕ) (reason : String) (w : W)
      → let (r, w') = s.block_sync_store.mark_block_receipts_sync_failed c n reason w in
        Writes r (table w) (table w') (Updated (marked_failed reason) c n (table w) (table w'))
