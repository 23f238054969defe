-- ===== src/Errors.antt =====
-- internal/types/errors.go, and Go's error values as the services build them: the sentinels, the
-- errors that foreign code returns, and the contexts that `fmt.Errorf` puts around them. Of a format
-- string its fixed words are kept; the values that it prints are left out.
use block_explorer_backend.Prelude.{ℕ, String, Bool, false, ◌==◌}
pub mod Http
pub mod Upstream
use Prim.Native.String.{◌++◌ as str_append}

pub data Sentinel : Type 0 where
  invalid_tx_hash : Sentinel
  invalid_block_number : Sentinel
  invalid_address : Sentinel
  invalid_block_range : Sentinel
  invalid_pagination : Sentinel
  block_not_found : Sentinel
  tx_not_found : Sentinel
  tx_receipt_not_found : Sentinel
  reorg_detected : Sentinel
  chain_discontinuity : Sentinel
  block_range_too_large : Sentinel
  rpc_timeout : Sentinel
  db_timeout : Sentinel
  request_canceled : Sentinel
  chain_data_conflict : Sentinel
  latest_completed_block_not_found : Sentinel

-- Each `errors.New` is a value of its own; the tag tells them apart.
unfoldable pub tag : Sentinel → ℕ
tag invalid_tx_hash = 0
tag invalid_block_number = 1
tag invalid_address = 2
tag invalid_block_range = 3
tag invalid_pagination = 4
tag block_not_found = 5
tag tx_not_found = 6
tag tx_receipt_not_found = 7
tag reorg_detected = 8
tag chain_discontinuity = 9
tag block_range_too_large = 10
tag rpc_timeout = 11
tag db_timeout = 12
tag request_canceled = 13
tag chain_data_conflict = 14
tag latest_completed_block_not_found = 15

-- An error of foreign code: what `errors.Is` answers for the four foreign targets that the program
-- asks for, and its text.
pub record Foreign : Type 0 where
  pub is_deadline : Bool
  pub is_canceled : Bool
  pub is_record_not_found : Bool
  pub is_not_found : Bool
  pub text : String

pub data GoError : Type 0 where
  sentinel : Sentinel → GoError
  foreign : Foreign → GoError
  errorf : String → GoError
  wrapf : String → GoError → GoError

-- `errors.Is(err, target)` for a sentinel of errors.go: follow the `%w` chain.
unfoldable pub errors_is : GoError → Sentinel → Bool
unfolding tag
errors_is (sentinel t) s = tag t == tag s
errors_is (foreign f) s = false
errors_is (errorf m) s = false
errors_is (wrapf m e) s = errors_is e s

sentinel_text : Sentinel → String
sentinel_text invalid_tx_hash = "invalid transaction hash"
sentinel_text invalid_block_number = "invalid block number"
sentinel_text invalid_address = "invalid address"
sentinel_text invalid_block_range = "invalid block range"
sentinel_text invalid_pagination = "invalid pagination"
sentinel_text block_not_found = "block not found"
sentinel_text tx_not_found = "transaction not found"
sentinel_text tx_receipt_not_found = "transaction receipt not found"
sentinel_text reorg_detected = "reorg detected"
sentinel_text chain_discontinuity = "chain discontinuity detected"
sentinel_text block_range_too_large = "block range too large"
sentinel_text rpc_timeout = "rpc timeout"
sentinel_text db_timeout = "db timeout"
sentinel_text request_canceled = "request canceled"
sentinel_text chain_data_conflict = "chain data conflict"
sentinel_text latest_completed_block_not_found = "latest completed block not found"

-- `err.Error()`, without the printed values.
unfoldable pub error_text : GoError → String
unfolding sentinel_text
error_text (sentinel t) = sentinel_text t
error_text (foreign f) = f.text
error_text (errorf m) = m
error_text (wrapf m e) = str_append m (error_text e)
