-- ===== src/Mapper.antt =====
-- internal/mapper/*.go: from chain values and rows to rows and answers.
use block_explorer_backend.Prelude.{
  ℕ, ◌%◌, false, ◌&&◌, Option, none, some, ◌++◌, length, if◌then◌else◌,
}
use block_explorer_backend.Prelude.Int.{ℤ, two_64}
use block_explorer_backend.Text.{Text, Unicode, codes, text_eq, to_lower}
use block_explorer_backend.Text.Numbers.{decimal, hex_bytes}
use block_explorer_backend.Ethereum.{EthTransaction, EthBlock, Geth}
use block_explorer_backend.Models.{Block, unset, Transaction, BlockQueryResult, from_db, from_rpc}
use block_explorer_backend.Dto.{
  BlockDetailDto, TxRaw, TxDetailDto, IndexedTransactionDto, Direction, to_self, outgoing, incoming,
  unknown, AddressTransactionDto,
}
pub mod Agreement
pub mod Directions

unfoldable pub map_block_entity_to_query_result : Block → BlockQueryResult
map_block_entity_to_query_result b = record {
  block = record {
    chain_id = b.chain_id;
    number = b.number;
    hash = b.hash;
    parent_hash = b.parent_hash;
    timestamp = b.timestamp;
    miner = b.miner;
    gas_limit = b.gas_limit;
    gas_used = b.gas_used;
    tx_count = b.tx_count;
  };
  source = from_db;
}

unfoldable pub map_rpc_block_to_query_result : Geth → ℤ → EthBlock → BlockQueryResult
map_rpc_block_to_query_result g chain_id b = record {
  block = record {
    chain_id = chain_id;
    number = b.number;
    hash = g.hash_hex b.hash;
    parent_hash = g.hash_hex b.parent_hash;
    timestamp = b.time;
    miner = g.address_hex b.coinbase;
    gas_limit = b.gas_limit;
    gas_used = b.gas_used;
    tx_count = length b.transactions;
  };
  source = from_rpc;
}

unfoldable pub map_block_query_result_to_dto : BlockQueryResult → BlockDetailDto
map_block_query_result_to_dto r = record {
  chain_id = r.block.chain_id;
  number = r.block.number;
  hash = r.block.hash;
  parent_hash = r.block.parent_hash;
  timestamp = r.block.timestamp;
  gas_limit = r.block.gas_limit;
  gas_used = r.block.gas_used;
  tx_count = r.block.tx_count;
  miner = r.block.miner;
}

-- The fields that the literal leaves out have Go's zero values.
unfoldable pub to_block_model : Geth → ℤ → EthBlock → Block
to_block_model g chain_id block = record {
  chain_id = chain_id;
  number = block.number;
  hash = g.hash_hex block.hash;
  parent_hash = g.hash_hex block.parent_hash;
  timestamp = block.time;
  miner = g.address_hex block.coinbase;
  tx_count = length block.transactions;
  gas_used = block.gas_used;
  gas_limit = block.gas_limit;
  transactions_synced = false;
  receipts_synced = false;
  sync_status = unset;
  last_sync_error = none;
}

-- `(*big.Int).String()`, of nil too.
abbrev pub big_text : Option ℕ → Text
big_text none = codes "<nil>"
big_text (some n) = decimal n

-- The address of `tx.To()`, or the empty text.
abbrev pub to_text : Geth → Option ℕ → Text
to_text g none = codes ""
to_text g (some a) = g.address_hex a

unfoldable pub to_transaction_model :
    Unicode → Geth → ℤ → EthBlock → EthTransaction → ℕ → ℕ → Transaction
to_transaction_model u g chain_id block tx tx_index from =
    let from_address = g.address_hex from in
    let to_address = to_text g tx.to in
    record {
      chain_id = chain_id;
      hash = g.hash_hex tx.hash;
      block_number = block.number;
      block_hash = g.hash_hex block.hash;
      tx_index = tx_index;
      from_address = from_address;
      from_address_lower = to_lower u from_address;
      to_address = to_address;
      to_address_lower = to_lower u to_address;
      receipt_status = none;
      receipt_gas_used = none;
      nonce = tx.nonce;
      value_wei = decimal tx.value;
      gas_limit = tx.gas;
      gas_price_wei = big_text tx.gas_price;
      input_data = codes "0x" ++ g.bytes_to_hex tx.payload;
    }

-- `ToTxDetailDTO`; a nil `raw` or a nil transaction gives nil.
abbrev detail_of : Geth → ℤ → TxRaw → EthTransaction → TxDetailDto
detail_of g chain_id raw tx = record {
  chain_id = chain_id;
  hash = g.hash_hex tx.hash;
  from_address = raw.from;
  to_address = to_text g tx.to;
  value_wei = decimal tx.value;
  nonce = tx.nonce;
  gas_limit = tx.gas;
  gas_price_wei = decimal (elim tx.gas_price [ none ↦ 0 | some n ↦ n ]);
  payload = codes "0x" ++ hex_bytes tx.payload;
  is_pending = raw.is_pending;
  block_number = elim raw.receipt [
    | none ↦ none
    | some r ↦ elim r.block_number [ none ↦ none | some n ↦ some (n % two_64) ]
  ];
  status = elim raw.receipt [ none ↦ none | some r ↦ some r.status ];
  gas_used = elim raw.receipt [ none ↦ none | some r ↦ some r.gas_used ];
}

unfoldable pub to_tx_detail_dto : Geth → ℤ → Option TxRaw → Option TxDetailDto
to_tx_detail_dto g chain_id none = none
to_tx_detail_dto g chain_id (some raw) = elim raw.tx [
  | none ↦ none
  | some tx ↦ some (detail_of g chain_id raw tx)
]

unfoldable pub to_indexed_transaction_dto : Transaction → IndexedTransactionDto
to_indexed_transaction_dto tx = record {
  chain_id = tx.chain_id;
  hash = tx.hash;
  block_number = tx.block_number;
  block_hash = tx.block_hash;
  tx_index = tx.tx_index;
  from_address = tx.from_address;
  to_address = tx.to_address;
  status = tx.receipt_status;
  gas_used = tx.receipt_gas_used;
  nonce = tx.nonce;
  value_wei = tx.value_wei;
  gas_limit = tx.gas_limit;
  gas_price_wei = tx.gas_price_wei;
  input_data = tx.input_data;
}

-- The switch of `ToAddressTransactionDTO`: the direction and the counterparty.
unfoldable pub direction_of : Transaction → Text → Direction × Text
direction_of tx query_address =
    if text_eq tx.from_address_lower query_address && text_eq tx.to_address_lower query_address
    then (to_self, tx.to_address)
    else if text_eq tx.from_address_lower query_address
    then (outgoing, tx.to_address)
    else if text_eq tx.to_address_lower query_address
    then (incoming, tx.from_address)
    else (unknown, codes "")

unfoldable pub to_address_transaction_dto : Transaction → Text → AddressTransactionDto
unfolding direction_of
to_address_transaction_dto tx query_address =
    let (direction, counterparty) = direction_of tx query_address in
    record {
      chain_id = tx.chain_id;
      hash = tx.hash;
      block_number = tx.block_number;
      block_hash = tx.block_hash;
      tx_index = tx.tx_index;
      from_address = tx.from_address;
      to_address = tx.to_address;
      status = tx.receipt_status;
      gas_used = tx.receipt_gas_used;
      direction = direction;
      counterparty_address = counterparty;
      nonce = tx.nonce;
      value_wei = tx.value_wei;
      gas_limit = tx.gas_limit;
      gas_price_wei = tx.gas_price_wei;
      input_data = tx.input_data;
    }
