-- ===== src/Mapper/Agreement.antt =====
-- The two ways to the same answer, by the chain and by the stored row, agree.
use block_explorer_backend.Prelude.{ℕ, ◌<◌, ◌≡◌, refl, some, List, false, arith}
use block_explorer_backend.Prelude.Int.{ℤ, two_64}
use block_explorer_backend.Text.{Unicode}
use block_explorer_backend.Text.Numbers.{hex_bytes}
use block_explorer_backend.Ethereum.{EthTransaction, EthBlock, Receipt, Geth}
use block_explorer_backend.Models.{Transaction}
use block_explorer_backend.Dto.{IndexedTransactionDto, TxDetailDto}
use block_explorer_backend.Mapper.{
  map_block_entity_to_query_result, map_rpc_block_to_query_result, map_block_query_result_to_dto,
  to_block_model, to_transaction_model, to_tx_detail_dto, to_indexed_transaction_dto,
}

-- The answer about a block is the same from its stored row as from the node's block.
pub block_answers_agree :
    (g : Geth) (chain_id : ℤ) (b : EthBlock)
    → map_block_query_result_to_dto (map_block_entity_to_query_result (to_block_model g chain_id b))
      ≡ map_block_query_result_to_dto (map_rpc_block_to_query_result g chain_id b)
unfolding map_block_entity_to_query_result map_rpc_block_to_query_result
    map_block_query_result_to_dto to_block_model
block_answers_agree g chain_id b = refl

-- The fields that the indexed answer and the node's answer about a transaction share.
pub record SameTransaction (a : IndexedTransactionDto) (d : TxDetailDto) : Type 0 where
  pub chain_id : a.chain_id ≡ d.chain_id
  pub hash : a.hash ≡ d.hash
  pub block_number : some a.block_number ≡ d.block_number
  pub from_address : a.from_address ≡ d.from_address
  pub to_address : a.to_address ≡ d.to_address
  pub value_wei : a.value_wei ≡ d.value_wei
  pub nonce : a.nonce ≡ d.nonce
  pub gas_limit : a.gas_limit ≡ d.gas_limit
  pub gas_price_wei : a.gas_price_wei ≡ d.gas_price_wei
  pub input_data : a.input_data ≡ d.payload
  pub status : a.status ≡ d.status
  pub gas_used : a.gas_used ≡ d.gas_used

-- The row of a transaction once its receipt has been stored.
abbrev pub with_receipt : Transaction → Receipt → Transaction
with_receipt tx r = record tx { receipt_status = some r.status; receipt_gas_used = some r.gas_used }

-- For a mined transaction with a gas price, whose sender and receipt the node reports as stored, and
-- whose receipt names the block, of a uint64 number, the indexed answer has the fields of the node's
-- answer, if `Bytes2Hex` prints bytes as `%x` does.
pub transaction_answers_agree :
    (u : Unicode) (g : Geth) (chain_id : ℤ) (b : EthBlock) (tx : EthTransaction) (i from price : ℕ)
    (r : Receipt) (detail : TxDetailDto)
    → ((bs : List ℕ) → g.bytes_to_hex bs ≡ hex_bytes bs)
    → tx.gas_price ≡ some price
    → r.block_number ≡ some b.number
    → b.number < two_64
    → to_tx_detail_dto g chain_id (
        some (record {
          tx = some tx;
          from = g.address_hex from;
          is_pending = false;
          receipt = some r;
        }))
      ≡ some detail
    → SameTransaction
        (to_indexed_transaction_dto
          (with_receipt (to_transaction_model u g chain_id b tx i from) r))
        detail
unfolding to_tx_detail_dto to_indexed_transaction_dto to_transaction_model
transaction_answers_agree u g chain_id b tx i from price r detail hex priced placed small e =
    ground (arith, hex tx.payload)
