-- ===== src/Models.antt =====
-- internal/db/models/*.go and internal/service/model/block_query.go: the rows of the two tables, and
-- what a block query answers. The columns that only the database fills (ID, CreatedAt, UpdatedAt) are
-- left out: the program never reads them.
use block_explorer_backend.Prelude.{ℕ, String, Bool, Option}
use block_explorer_backend.Prelude.Int.{ℤ}
use block_explorer_backend.Text.{Text}

-- The values of `sync_status`; `unset` is Go's empty string, before a status is given.
pub data SyncStatus : Type 0 where
  unset pending transactions_synced receipts_failed completed : SyncStatus

pub record Block : Type 0 where
  pub chain_id : ℤ
  pub number : ℕ
  pub hash : Text
  pub parent_hash : Text
  pub timestamp : ℕ
  pub miner : Text
  pub tx_count : ℕ
  pub gas_used : ℕ
  pub gas_limit : ℕ
  pub transactions_synced : Bool
  pub receipts_synced : Bool
  pub sync_status : SyncStatus
  pub last_sync_error : Option String

pub record Transaction : Type 0 where
  pub chain_id : ℤ
  pub hash : Text
  pub block_number : ℕ
  pub block_hash : Text
  pub tx_index : ℕ
  pub from_address : Text
  pub from_address_lower : Text
  pub to_address : Text
  pub to_address_lower : Text
  pub receipt_status : Option ℕ
  pub receipt_gas_used : Option ℕ
  pub nonce : ℕ
  pub value_wei : Text
  pub gas_limit : ℕ
  pub gas_price_wei : Text
  pub input_data : Text

pub record BlockDetail : Type 0 where
  pub chain_id : ℤ
  pub number : ℕ
  pub hash : Text
  pub parent_hash : Text
  pub timestamp : ℕ
  pub miner : Text
  pub gas_limit : ℕ
  pub gas_used : ℕ
  pub tx_count : ℕ

pub data DataSource : Type 0 where
  from_db from_rpc : DataSource

pub record BlockQueryResult : Type 0 where
  pub block : BlockDetail
  pub source : DataSource
