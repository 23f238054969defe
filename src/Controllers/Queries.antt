-- ===== src/Controllers/Queries.antt =====
-- internal/controller/tx_controller.go and address_controller.go.
use block_explorer_backend.Prelude.{Option, none, some, is_empty, if◌then◌else◌}
use block_explorer_backend.Prelude.Int.{ℤ, pos}
use block_explorer_backend.Text.{Text}
use block_explorer_backend.Text.Numbers.{parse_int}
use block_explorer_backend.Errors.{sentinel, invalid_pagination}
use block_explorer_backend.Errors.Http.{write_error, write_bad_request}
use block_explorer_backend.Effect.{Io}
use block_explorer_backend.Dto.{
  TxDetailDto, IndexedTransactionDto, AddressInfo, AddressTransactionListDto,
}
use block_explorer_backend.Controllers.{Request, Handler, answer_with}

pub record TxController (W : Type 0) : Type 0 where
  pub get_tx_detail_by_hash_from_rpc : Text → Io W (Option TxDetailDto)
  pub get_indexed_transaction_by_hash : Text → Io W IndexedTransactionDto

module _ {W : Type 0} (ctl : TxController W) where
  unfoldable pub get_tx_detail : Request → Handler W (Option TxDetailDto)
  get_tx_detail c =
      let hash = c.param "hash" in
      if is_empty hash
      then (λ w. (write_bad_request "transaction hash is required", w))
      else answer_with (λ tx. tx) (ctl.get_tx_detail_by_hash_from_rpc hash)

  unfoldable pub get_indexed_transaction : Request → Handler W IndexedTransactionDto
  get_indexed_transaction c =
      let hash = c.param "hash" in
      if is_empty hash
      then (λ w. (write_bad_request "transaction hash is required", w))
      else answer_with (λ tx. tx) (ctl.get_indexed_transaction_by_hash hash)

pub record AddressController (W : Type 0) : Type 0 where
  pub get_address : Text → Io W AddressInfo
  pub get_indexed_transactions_by_address : Text → ℤ → ℤ → Io W AddressTransactionListDto

-- A page parameter, or its default where it is missing; `none` is a text that is no number.
unfoldable pub page_param : ℤ → Text → Option ℤ
page_param default v = if is_empty v then some default else parse_int v

module _ {W : Type 0} (ctl : AddressController W) where
  unfoldable pub address_info : Request → Handler W AddressInfo
  address_info c =
      let address = c.param "address" in
      if is_empty address
      then (λ w. (write_bad_request "address is required", w))
      else answer_with (λ info. info) (ctl.get_address address)

  -- What follows the two page parameters.
  abbrev pub list_for : Text → Option ℤ → Option ℤ → Handler W AddressTransactionListDto
  list_for address none page_size w = (write_error (sentinel invalid_pagination), w)
  list_for address (some page) none w = (write_error (sentinel invalid_pagination), w)
  list_for address (some page) (some page_size) w =
      answer_with (λ list. list) (ctl.get_indexed_transactions_by_address address page page_size) w

  unfoldable pub address_transactions : Request → Handler W AddressTransactionListDto
  unfolding page_param
  address_transactions c =
      let address = c.param "address" in
      if is_empty address
      then (λ w. (write_bad_request "address is required", w))
      else list_for address (page_param (pos 1) (c.query "page"))
          (page_param (pos 20) (c.query "page_size"))
