-- ===== src/Ethereum.antt =====
-- What the program reads of go-ethereum's values, and go-ethereum's functions as a parameter: the
-- model knows their types only. Hashes and addresses are the numbers that their bytes spell.
use block_explorer_backend.Prelude.{ℕ, Option, none, some, List}
use block_explorer_backend.Prelude.Int.{ℤ}
use block_explorer_backend.Text.{Text}
use block_explorer_backend.Errors.{errorf}
use block_explorer_backend.Effect.{Result, err}

-- `types.Transaction`; `to` is nil for a contract creation.
pub record EthTransaction : Type 0 where
  pub hash : ℕ
  pub to : Option ℕ
  pub nonce : ℕ
  pub value : ℕ
  pub gas : ℕ
  pub gas_price : Option ℕ
  pub payload : List ℕ

-- `types.Block`
pub record EthBlock : Type 0 where
  pub number : ℕ
  pub hash : ℕ
  pub parent_hash : ℕ
  pub time : ℕ
  pub coinbase : ℕ
  pub gas_limit : ℕ
  pub gas_used : ℕ
  pub transactions : List EthTransaction

-- `types.Receipt`; the block number is a pointer to a big integer.
pub record Receipt : Type 0 where
  pub tx_hash : ℕ
  pub block_number : Option ℕ
  pub block_hash : ℕ
  pub status : ℕ
  pub gas_used : ℕ

-- `Hash.Hex`, `Address.Hex`, `HexToHash`, `HexToAddress`, `Bytes2Hex`, `hexutil.Encode`, and
-- `Sender` at `LatestSignerForChainID`.
pub record Geth : Type 0 where
  pub hash_hex : ℕ → Text
  pub address_hex : ℕ → Text
  pub hex_to_hash : Text → ℕ
  pub hex_to_address : Text → ℕ
  pub bytes_to_hex : List ℕ → Text
  pub encode : List ℕ → Text
  pub sender : ℤ → EthTransaction → Result ℕ

-- internal/utils/ethutils/signer.go
unfoldable pub recover_sender : Geth → ℤ → Option EthTransaction → Result ℕ
recover_sender g chain_id none = err (errorf "nil transaction")
recover_sender g chain_id (some tx) = g.sender chain_id tx
