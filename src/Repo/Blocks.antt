-- ===== src/Repo/Blocks.antt =====
-- internal/db/repo/block_repo.go
use block_explorer_backend.Prelude.{
  ℕ, String, Bool, true, false, not, ◌&&◌, Option, none, some, List, [], ◌∷◌, ltb, leb, ◌==◌,
  is_empty, if◌then◌else◌,
}
use block_explorer_backend.Prelude.Int.{ℤ, pos, eqb_ℤ, leb_ℤ, ltb_ℤ, to_uint64}
use block_explorer_backend.Errors.{sentinel, errorf, wrapf, block_not_found}
use block_explorer_backend.Effect.{Result, ok, err, Io, pure, throw, lift, ◌>>=◌, ◌>>◌}
use block_explorer_backend.Models.{
  SyncStatus, unset, pending, transactions_synced, receipts_failed, completed, Block, Transaction,
}
use block_explorer_backend.BlockService.Contract.{marked_synced, marked_failed}
use block_explorer_backend.Gorm.{Query, where_rows, Database}
use block_explorer_backend.Repo.{mapped, row_or_missing}
pub mod Table
pub mod Store
pub mod Atomic

-- `sync_status = 'completed'`
abbrev pub status_completed : SyncStatus → Bool
status_completed unset = false
status_completed pending = false
status_completed transactions_synced = false
status_completed receipts_failed = false
status_completed completed = true

-- `last_sync_error IS NULL`
abbrev pub is_null : {A : Type 0} → Option A → Bool
is_null none = true
is_null (some a) = false

-- `chain_id = ? AND number = ?`
abbrev pub at_number : ℤ → ℕ → Block → Bool
at_number chain_id number b = eqb_ℤ b.chain_id chain_id && b.number == number

-- The conditions for a fully synced block of a chain.
abbrev pub fully_synced : ℤ → Block → Bool
fully_synced chain_id b =
    eqb_ℤ b.chain_id chain_id
    && status_completed b.sync_status
    && b.transactions_synced
    && b.receipts_synced
    && is_null b.last_sync_error

-- `ORDER BY number ASC LIMIT ?`
abbrev pub wallet_query : ℤ → ℕ → ℤ → Query Block
wallet_query chain_id from limit = record {
  matches = λ b. fully_synced chain_id b && leb from b.number;
  before = λ a b. ltb a.number b.number;
  limit = some limit;
  offset = none;
}

-- `ORDER BY number DESC`, and then the primary key.
abbrev pub latest_query : ℤ → Query Block
latest_query chain_id = record {
  matches = fully_synced chain_id;
  before = λ a b. ltb b.number a.number;
  limit = none;
  offset = none;
}

-- A NULL maximum is no number.
abbrev pub max_of : Option ℤ → Option ℕ
max_of none = none
max_of (some n) = some (to_uint64 n)

-- `RowsAffected == 0`
abbrev pub affected : String → ℕ → Result (Unit {0})
affected message n = if n == 0 then err (wrapf message (sentinel block_not_found)) else ok tt

module _ {W : Type 0} (db : Database W) where
  unfoldable pub insert_block : Block → Io W (Unit {0})
  insert_block block = mapped "insert block: " (db.blocks.create (block ∷ []))

  unfoldable pub get_latest_fully_synced_block_number : ℤ → Io W (Option ℕ)
  get_latest_fully_synced_block_number chain_id =
      if leb_ℤ chain_id (pos 0) then throw (errorf "chain_id must be positive") else (do
        latest ←
            mapped "query latest fully synced block number: "
              (db.blocks.max (fully_synced chain_id) (λ b. b.number))
        pure (max_of latest))

  unfoldable pub get_block_by_number : ℤ → ℕ → Io W (Option Block)
  get_block_by_number chain_id number =
      row_or_missing "query block by number: "
        (db.blocks.take (where_rows (at_number chain_id number)))

  abbrev pub insert_txs : List Transaction → Io W (Unit {0})
  insert_txs [] = pure tt
  insert_txs (tx ∷ txs) =
      mapped "insert transactions for block: " (db.transactions.create (tx ∷ txs))

  -- The function that runs in the transaction.
  abbrev pub insert_both : Block → List Transaction → Io W (Unit {0})
  insert_both block txs = do mapped "insert block: " (db.blocks.create (block ∷ [])); insert_txs txs

  unfoldable pub insert_block_with_transactions : Block → List Transaction → Io W (Unit {0})
  insert_block_with_transactions block txs = db.transaction (insert_both block txs)

  unfoldable pub mark_block_receipts_synced : ℤ → ℕ → Io W (Unit {0})
  mark_block_receipts_synced chain_id block_number = do
    n ←
        mapped "mark block receipts synced: "
          (db.blocks.updates (at_number chain_id block_number) marked_synced)
    lift (affected "mark block receipts synced: " n)

  unfoldable pub mark_block_receipts_sync_failed : ℤ → ℕ → String → Io W (Unit {0})
  mark_block_receipts_sync_failed chain_id block_number reason = do
    n ←
        mapped "mark block receipts sync failed: "
          (db.blocks.updates (at_number chain_id block_number) (marked_failed reason))
    lift (affected "mark block receipts sync failed: " n)

  unfoldable pub list_wallet_completed_block_rows : ℤ → ℤ → ℤ → Io W (List Block)
  list_wallet_completed_block_rows chain_id from_block limit =
      if ltb_ℤ from_block (pos 0)
      then throw (errorf "from_block must be non-negative")
      else if leb_ℤ limit (pos 0)
      then throw (errorf "limit must be positive")
      else mapped "list wallet completed block rows: "
          (db.blocks.find (wallet_query chain_id (to_uint64 from_block) limit))

  unfoldable pub get_latest_completed_block : ℤ → Io W (Option Block)
  get_latest_completed_block chain_id =
      row_or_missing "get latest completed block: " (db.blocks.first (latest_query chain_id))
