-- ===== src/Examples/Queries.antt =====
-- The theorems on queries, answers and texts at concrete values.
use block_explorer_backend.Prelude.{◌+◌, ◌≡◌, ◌↔◌, refl, false, none, some, [], ◌∷◌, ◌++◌, arith}
use block_explorer_backend.Prelude.Int.{pos}
use block_explorer_backend.Text.{Text, codes, trim_space, to_lower, has_prefix, byte_len}
use block_explorer_backend.Text.Numbers.{decimal, hex_bytes}
use block_explorer_backend.Errors.{sentinel, wrapf, invalid_address, rpc_timeout}
use block_explorer_backend.Errors.Http.{map_error, answer_of, root, map_error-root}
use block_explorer_backend.Effect.{err, pure}
use block_explorer_backend.Effect.Ensures.{Ends}
use block_explorer_backend.Hex.{validate_address, validate_tx_hash, is_hex_char, all_hex}
use block_explorer_backend.Hex.Accepts.{IsHexText, validate_address_iff, validate_tx_hash_iff}
use block_explorer_backend.Mapper.{
  map_block_entity_to_query_result, map_rpc_block_to_query_result, map_block_query_result_to_dto,
  to_block_model, to_transaction_model, to_tx_detail_dto, to_indexed_transaction_dto,
  to_address_transaction_dto,
}
use block_explorer_backend.Mapper.Agreement.{
  SameTransaction, with_receipt, block_answers_agree, transaction_answers_agree,
}
use block_explorer_backend.Mapper.Directions.{IsDirected, to_address_transaction_dto-IsDirected}
use block_explorer_backend.AddressService.{
  AddressService, list_page, get_address, get_indexed_transactions_by_address,
}
use block_explorer_backend.AddressService.Pages.{items_of, wrap_pages, list_page-wraps}
use block_explorer_backend.AddressService.Guards.{IsInfo, bad_address-refused, get_address-IsInfo}
use block_explorer_backend.Dto.{TxDetailDto}
use block_explorer_backend.Examples.Common.{
  plain, geth, eth_block, eth_transaction, receipt_of, row,
}

map_error-root_example :
    map_error (wrapf "sync block: " (sentinel rpc_timeout))
    ≡ answer_of (root (wrapf "sync block: " (sentinel rpc_timeout)))
map_error-root_example = map_error-root (wrapf "sync block: " (sentinel rpc_timeout))

abbrev zero_address : Text
zero_address = codes "0x0000000000000000000000000000000000000000"

validate_tx_hash_iff_example :
    (validate_tx_hash (codes "0x12") ≡ none) ↔ IsHexText 64 (codes "0x12")
validate_tx_hash_iff_example = validate_tx_hash_iff (codes "0x12")

to_address_transaction_dto-IsDirected_example :
    IsDirected
      (row 201)
      (8 ∷ [])
      (to_address_transaction_dto (row 201) (8 ∷ [])).direction
      (to_address_transaction_dto (row 201) (8 ∷ [])).counterparty_address
to_address_transaction_dto-IsDirected_example =
    to_address_transaction_dto-IsDirected (row 201) (8 ∷ [])

block_answers_agree_example :
    map_block_query_result_to_dto
      (map_block_entity_to_query_result (to_block_model geth (pos 1) (eth_block 3)))
    ≡ map_block_query_result_to_dto (map_rpc_block_to_query_result geth (pos 1) (eth_block 3))
block_answers_agree_example = block_answers_agree geth (pos 1) (eth_block 3)

abbrev service : AddressService (Unit {0})
service = record {
  chain_id = pos 1;
  address_state_reader = record {
    get_balance = λ a. pure (codes "5");
    get_nonce = λ a. pure 0;
    get_code = λ a. pure (codes "0x");
  };
  address_transaction_reader = record {
    list_transactions_by_address = λ c a limit offset. pure (row 201 ∷ []);
  };
}

list_page-wraps_example :
    items_of (list_page plain service zero_address (pos (1 + wrap_pages)) (pos 64) tt).0
    ≡ items_of (list_page plain service zero_address (pos 1) (pos 64) tt).0
list_page-wraps_example =
    list_page-wraps plain service zero_address 1 tt (omega arith) (omega arith)

zero_address-IsHexText : IsHexText 40 (to_lower plain (trim_space zero_address))
unfolding validate_address is_hex_char all_hex has_prefix byte_len to_lower trim_space
zero_address-IsHexText = (validate_address_iff (to_lower plain (trim_space zero_address))).0 refl

get_address-IsInfo_example :
    Ends
      (λ info w. IsInfo service (trim_space zero_address) info)
      (λ w. Unit {0})
      (get_address plain service zero_address tt).0
      (get_address plain service zero_address tt).1
get_address-IsInfo_example = get_address-IsInfo plain service zero_address tt zero_address-IsHexText

word-refused :
    validate_address (to_lower plain (trim_space (codes "hello"))) ≡ some (sentinel invalid_address)
unfolding validate_address has_prefix to_lower trim_space
word-refused = refl

word-IsHexText : ¬ IsHexText 40 (to_lower plain (trim_space (codes "hello")))
word-IsHexText h =
    let accepted = (validate_address_iff (to_lower plain (trim_space (codes "hello")))).1 h in
    let refused = word-refused in cc

bad_address-refused_example :
    (get_address plain service (codes "hello") tt ≡ (err (sentinel invalid_address), tt))
    × (get_indexed_transactions_by_address plain service (codes "hello") (pos 1) (pos 10) tt
        ≡ (err (sentinel invalid_address), tt))
bad_address-refused_example =
    bad_address-refused plain service (codes "hello") (pos 1) (pos 10) tt word-IsHexText

abbrev detail : TxDetailDto
detail = record {
  chain_id = pos 1;
  hash = 201 ∷ [];
  from_address = 7 ∷ [];
  to_address = 8 ∷ [];
  value_wei = decimal 5;
  nonce = 0;
  gas_limit = 21000;
  gas_price_wei = decimal 3;
  payload = codes "0x" ++ hex_bytes (255 ∷ []);
  is_pending = false;
  block_number = some 1;
  status = some 1;
  gas_used = some 21000;
}

detail-answered :
    to_tx_detail_dto geth (pos 1) (
      some (record {
        tx = some (eth_transaction 201);
        from = 7 ∷ [];
        is_pending = false;
        receipt = some (receipt_of 201);
      }))
    ≡ some detail
unfolding to_tx_detail_dto
detail-answered = refl

transaction_answers_agree_example :
    SameTransaction
      (to_indexed_transaction_dto (
        with_receipt
          (to_transaction_model plain geth (pos 1) (eth_block 1) (eth_transaction 201) 0 7)
          (receipt_of 201)))
      detail
transaction_answers_agree_example =
    transaction_answers_agree plain geth (pos 1) (eth_block 1) (eth_transaction 201) 0 7 3
      (receipt_of 201) detail (λ bs. refl) refl refl (omega arith) detail-answered
