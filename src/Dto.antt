-- ===== src/Dto.antt =====
-- internal/types/*_dto.go, block_sync.go and tx_raw.go: what the services return.
use block_explorer_backend.Prelude.{ℕ, Bool, Option, List}
use block_explorer_backend.Prelude.Int.{ℤ}
use block_explorer_backend.Text.{Text}
use block_explorer_backend.Ethereum.{EthTransaction, Receipt}

pub record BlockDetailDto : Type 0 where
  pub chain_id : ℤ
  pub number : ℕ
  pub hash : Text
  pub parent_hash : Text
  pub timestamp : ℕ
  pub tx_count : ℕ
  pub miner : Text
  pub gas_used : ℕ
  pub gas_limit : ℕ

pub record BlockRangeSyncResult : Type 0 where
  pub start : ℕ
  pub end : ℕ
  pub requested : ℕ
  pub succeeded : ℕ
  pub failed : ℕ
  pub failed_blocks : List ℕ

pub record TxRaw : Type 0 where
  pub tx : Option EthTransaction
  pub from : Text
  pub is_pending : Bool
  pub receipt : Option Receipt

pub record TxDetailDto : Type 0 where
  pub chain_id : ℤ
  pub hash : Text
  pub from_address : Text
  pub to_address : Text
  pub value_wei : Text
  pub nonce : ℕ
  pub gas_limit : ℕ
  pub gas_price_wei : Text
  pub payload : Text
  pub is_pending : Bool
  pub block_number : Option ℕ
  pub status : Option ℕ
  pub gas_used : Option ℕ

pub record IndexedTransactionDto : Type 0 where
  pub chain_id : ℤ
  pub hash : Text
  pub block_number : ℕ
  pub block_hash : Text
  pub tx_index : ℕ
  pub from_address : Text
  pub to_address : Text
  pub status : Option ℕ
  pub gas_used : Option ℕ
  pub nonce : ℕ
  pub value_wei : Text
  pub gas_limit : ℕ
  pub gas_price_wei : Text
  pub input_data : Text

-- The strings "self", "out", "in" and "unknown".
pub data Direction : Type 0 where
  to_self outgoing incoming unknown : Direction

pub record AddressTransactionDto : Type 0 where
  pub chain_id : ℤ
  pub hash : Text
  pub block_number : ℕ
  pub block_hash : Text
  pub tx_index : ℕ
  pub from_address : Text
  pub to_address : Text
  pub status : Option ℕ
  pub gas_used : Option ℕ
  pub direction : Direction
  pub counterparty_address : Text
  pub nonce : ℕ
  pub value_wei : Text
  pub gas_limit : ℕ
  pub gas_price_wei : Text
  pub input_data : Text

pub record AddressInfo : Type 0 where
  pub chain_id : ℤ
  pub address : Text
  pub balance : Text
  pub nonce : ℕ
  pub is_contract : Bool

pub record AddressTransactionListDto : Type 0 where
  pub chain_id : ℤ
  pub items : List AddressTransactionDto
  pub page : ℤ
  pub page_size : ℤ

pub record IndexerStatus : Type 0 where
  pub chain_id : ℤ
  pub db_latest : Option ℕ
  pub sync_target : Text
  pub rpc_target : ℕ
  pub next : ℕ
  pub should_sync : Bool

pub record IndexerOnceResult : Type 0 where
  pub chain_id : ℤ
  pub db_latest : Option ℕ
  pub sync_target : Text
  pub rpc_target : ℕ
  pub next_to_sync : ℕ
  pub synced : Bool
  pub synced_block : Option ℕ

pub record WalletCompletedTransaction : Type 0 where
  pub tx_hash : Text
  pub from_address : Text
  pub to_address : Text
  pub amount_wei : Text
  pub receipt_status : ℕ

pub record WalletCompletedBlock : Type 0 where
  pub number : ℤ
  pub hash : Text
  pub parent_hash : Text
  pub transactions : List WalletCompletedTransaction

pub record WalletCompletedBlocksResponse : Type 0 where
  pub chain_id : ℤ
  pub blocks : List WalletCompletedBlock

pub record CompletedBlockSummary : Type 0 where
  pub number : ℤ
  pub hash : Text

pub record GetSyncStatusResponse : Type 0 where
  pub chain_id : ℤ
  pub sync_target : Text
  pub latest_completed_block : CompletedBlockSummary
