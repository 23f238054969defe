-- ===== src/AddressService.antt =====
-- internal/service/address_service.go: the state of an address, and its indexed transactions.
use block_explorer_backend.Prelude.{
  ℕ, Bool, true, false, not, ◌||◌, Option, none, some, List, map, if◌then◌else◌,
}
use block_explorer_backend.Prelude.Int.{ℤ, pos, ◌-ℤ◌, ◌*ℤ◌, ltb_ℤ, leb_ℤ, wrap_int64}
use block_explorer_backend.Text.{Text, Unicode, codes, text_eq, trim_space, to_lower}
use block_explorer_backend.Errors.{sentinel, invalid_address, invalid_pagination}
use block_explorer_backend.Effect.{Io, pure, throw, ◌>>=◌, context, unless_error}
use block_explorer_backend.Models.{Transaction}
use block_explorer_backend.Dto.{AddressInfo, AddressTransactionListDto}
use block_explorer_backend.Mapper.{to_address_transaction_dto}
use block_explorer_backend.Hex.{validate_address}
pub mod Pages
pub mod Guards

pub record AddressStateReader (W : Type 0) : Type 0 where
  pub get_balance : Text → Io W Text
  pub get_nonce : Text → Io W ℕ
  pub get_code : Text → Io W Text

pub record AddressTransactionReader (W : Type 0) : Type 0 where
  pub list_transactions_by_address : ℤ → Text → ℤ → ℤ → Io W (List Transaction)

pub record AddressService (W : Type 0) : Type 0 where
  pub chain_id : ℤ
  pub address_state_reader : AddressStateReader W
  pub address_transaction_reader : AddressTransactionReader W

-- The literal leaves `ChainID` out, so it is 0.
abbrev pub info_of : Text → Text → ℕ → Text → AddressInfo
info_of address balance nonce contract_code = record {
  chain_id = pos 0;
  address = address;
  balance = balance;
  nonce = nonce;
  is_contract = not (text_eq contract_code (codes "0x"));
}

-- `(page - 1) * pageSize` on a 64-bit int
unfoldable pub page_offset : ℤ → ℤ → ℤ
page_offset page page_size = wrap_int64 (wrap_int64 (page -ℤ pos 1) *ℤ page_size)

abbrev pub bad_pagination : ℤ → ℤ → Bool
bad_pagination page page_size =
    leb_ℤ page (pos 0) || leb_ℤ page_size (pos 0) || ltb_ℤ (pos 100) page_size

module _ {W : Type 0} (u : Unicode) (s : AddressService W) where
  open s use {chain_id, address_state_reader, address_transaction_reader}

  unfoldable pub get_address : Text → Io W AddressInfo
  get_address raw =
      let address = trim_space raw in
      unless_error (validate_address (to_lower u address)) (sentinel invalid_address) (do
        balance ← context "get balance of address: " (address_state_reader.get_balance address)
        nonce ← context "get nonce of address: " (address_state_reader.get_nonce address)
        contract_code ← context "get code of address: " (address_state_reader.get_code address)
        pure (info_of address balance nonce contract_code))

  -- The literal leaves `ChainID` out here too.
  abbrev pub list_of : Text → ℤ → ℤ → List Transaction → AddressTransactionListDto
  list_of address page page_size txs = record {
    chain_id = pos 0;
    items = map (λ tx. to_address_transaction_dto tx address) txs;
    page = page;
    page_size = page_size;
  }

  -- What follows the check of the address.
  unfoldable pub list_page : Text → ℤ → ℤ → Io W AddressTransactionListDto
  unfolding page_offset
  list_page address page page_size =
      if bad_pagination page page_size then throw (sentinel invalid_pagination) else do
        txs ← context "list indexed transactions by address: " (
            address_transaction_reader.list_transactions_by_address chain_id address page_size
              (page_offset page page_size))
        pure (list_of address page page_size txs)

  unfoldable pub get_indexed_transactions_by_address : Text → ℤ → ℤ → Io W AddressTransactionListDto
  get_indexed_transactions_by_address raw page page_size =
      let address = to_lower u (trim_space raw) in
      unless_error (validate_address address) (sentinel invalid_address)
        (list_page address page page_size)
