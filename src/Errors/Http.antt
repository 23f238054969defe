-- ===== src/Errors/Http.antt =====
-- internal/types/error_mapping.go and response.go: the HTTP answer to an error.
use block_explorer_backend.Prelude.{
  ℕ, String, ◌≡◌, refl, ◌||◌, Option, none, some, arith, if◌then◌else◌,
}
use block_explorer_backend.Errors.{
  Sentinel, GoError, sentinel, foreign, errorf, wrapf, errors_is, invalid_tx_hash, tx_not_found,
  invalid_block_number, block_not_found, invalid_address, invalid_block_range,
  block_range_too_large, rpc_timeout, db_timeout, request_canceled, reorg_detected,
  chain_discontinuity, invalid_pagination, chain_data_conflict, latest_completed_block_not_found,
  tx_receipt_not_found,
}

pub record ErrorResponse : Type 0 where
  pub code : ℕ
  pub message : String

pub record SuccessResponse (T : Type 0) : Type 0 where
  pub code : ℕ
  pub message : String
  pub payload : T

-- What a handler has written to `gin.Context`: the status and the body.
pub data Response (T : Type 0) : Type 0 where
  success : ℕ → SuccessResponse T → Response T
  failure : ℕ → ErrorResponse → Response T

abbrev answer : ℕ → String → ℕ × ErrorResponse
answer status message = (status, record { code = status; message = message })

-- `MapError`, its cases in the order of the switch.
unfoldable pub map_error : GoError → ℕ × ErrorResponse
map_error err =
    if errors_is err invalid_tx_hash
    then answer 400 "invalid transaction hash"
    else if errors_is err tx_not_found
    then answer 404 "transaction not found"
    else if errors_is err invalid_block_number
    then answer 400 "invalid block number"
    else if errors_is err block_not_found
    then answer 404 "block not found"
    else if errors_is err invalid_address
    then answer 400 "invalid address"
    else if errors_is err invalid_block_range
    then answer 400 "invalid block range"
    else if errors_is err block_range_too_large
    then answer 400 "block range too large"
    else if errors_is err rpc_timeout || errors_is err db_timeout
    then answer 504 "upstream timeout"
    else if errors_is err request_canceled
    then answer 408 "request canceled"
    else if errors_is err reorg_detected
    then answer 409 "reorg detected"
    else if errors_is err chain_discontinuity
    then answer 409 "chain discontinuity detected"
    else if errors_is err invalid_pagination
    then answer 400 "invalid pagination"
    else if errors_is err chain_data_conflict
    then answer 409 "chain data conflict detected"
    else if errors_is err latest_completed_block_not_found
    then answer 404 "latest completed block not found"
    else answer 500 "internal server error"

unfoldable pub write_error : {T : Type 0} → GoError → Response T
unfolding map_error
write_error err = let (status, resp) = map_error err in failure status resp

unfoldable pub write_success : {T : Type 0} → T → Response T
write_success t = success 200 (record { code = 0; message = "success"; payload = t })

unfoldable pub write_bad_request : {T : Type 0} → String → Response T
write_bad_request message = failure 400 (record { code = 400; message = message })

-- The root of a `%w` chain, if it is one of the program's sentinels.
abbrev pub root : GoError → Option Sentinel
root (sentinel s) = some s
root (foreign f) = none
root (errorf m) = none
root (wrapf m e) = root e

-- The answers, one for each sentinel.
abbrev pub answer_of_sentinel : Sentinel → ℕ × ErrorResponse
answer_of_sentinel invalid_tx_hash = answer 400 "invalid transaction hash"
answer_of_sentinel tx_not_found = answer 404 "transaction not found"
answer_of_sentinel invalid_block_number = answer 400 "invalid block number"
answer_of_sentinel block_not_found = answer 404 "block not found"
answer_of_sentinel invalid_address = answer 400 "invalid address"
answer_of_sentinel invalid_block_range = answer 400 "invalid block range"
answer_of_sentinel block_range_too_large = answer 400 "block range too large"
answer_of_sentinel rpc_timeout = answer 504 "upstream timeout"
answer_of_sentinel db_timeout = answer 504 "upstream timeout"
answer_of_sentinel request_canceled = answer 408 "request canceled"
answer_of_sentinel reorg_detected = answer 409 "reorg detected"
answer_of_sentinel chain_discontinuity = answer 409 "chain discontinuity detected"
answer_of_sentinel invalid_pagination = answer 400 "invalid pagination"
answer_of_sentinel chain_data_conflict = answer 409 "chain data conflict detected"
answer_of_sentinel latest_completed_block_not_found = answer 404 "latest completed block not found"
answer_of_sentinel tx_receipt_not_found = answer 500 "internal server error"

-- The documented table of answers, by the root of the chain.
abbrev pub answer_of : Option Sentinel → ℕ × ErrorResponse
answer_of none = answer 500 "internal server error"
answer_of (some s) = answer_of_sentinel s

map_error-sentinel : (s : Sentinel) → map_error (sentinel s) ≡ answer_of_sentinel s
unfolding map_error errors_is
map_error-sentinel invalid_tx_hash = refl
map_error-sentinel tx_not_found = refl
map_error-sentinel invalid_block_number = refl
map_error-sentinel block_not_found = refl
map_error-sentinel invalid_address = refl
map_error-sentinel invalid_block_range = refl
map_error-sentinel block_range_too_large = refl
map_error-sentinel rpc_timeout = refl
map_error-sentinel db_timeout = refl
map_error-sentinel request_canceled = refl
map_error-sentinel reorg_detected = refl
map_error-sentinel chain_discontinuity = refl
map_error-sentinel invalid_pagination = refl
map_error-sentinel chain_data_conflict = refl
map_error-sentinel latest_completed_block_not_found = refl
map_error-sentinel tx_receipt_not_found = refl

-- For every error value, however deep its context, the answer is that of the table at its root.
pub map_error-root : (err : GoError) → map_error err ≡ answer_of (root err)
unfolding map_error errors_is
map_error-root (sentinel s) = map_error-sentinel s
map_error-root (foreign f) = refl
map_error-root (errorf m) = refl
map_error-root (wrapf m e) = map_error-root e

-- The code in the body is the status of the response.
pub code-map_error : (err : GoError) → (map_error err).1.code ≡ (map_error err).0
unfolding map_error
code-map_error err = ground arith
