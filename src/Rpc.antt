-- ===== src/Rpc.antt =====
-- internal/rpc: the calls of the node, with their errors made the program's own. The clients of
-- go-ethereum are parameters, and so is the timeout, which their calls are taken to keep.
use block_explorer_backend.Prelude.{
  ℕ, String, Bool, true, false, not, ◌&&◌, Option, none, some, List, is_empty, if◌then◌else◌,
}
use block_explorer_backend.Prelude.Int.{ℤ}
use block_explorer_backend.Text.{Text, codes, text_eq, has_prefix, drop_two}
use block_explorer_backend.Text.Numbers.{parse_uint, decimal}
use block_explorer_backend.Errors.{
  GoError, sentinel, foreign, errorf, wrapf, block_not_found, tx_not_found, tx_receipt_not_found,
  Sentinel,
}
use block_explorer_backend.Errors.Upstream.{rpc_failure}
use block_explorer_backend.Effect.{Result, ok, err, Io, pure, throw, lift, ◌>>=◌, map_err, continue}
use block_explorer_backend.Ethereum.{EthTransaction, EthBlock, Receipt, Geth, recover_sender}
use block_explorer_backend.Dto.{TxRaw}
pub mod Failures

-- `ethclient.Client`, and `CallContext` of `eth_getBlockByNumber` with a tag: the `number` of the
-- result, or a nil result.
pub record EthClient (W : Type 0) : Type 0 where
  pub block_by_number : ℕ → Io W EthBlock
  pub block_number : Io W ℕ
  pub chain_id : Io W ℤ
  pub header_by_tag : Text → Io W (Option Text)
  pub transaction_by_hash : ℕ → Io W (EthTransaction × Bool)
  pub transaction_receipt : ℕ → Io W Receipt
  pub balance_at : ℕ → Io W ℕ
  pub nonce_at : ℕ → Io W ℕ
  pub code_at : ℕ → Io W (List ℕ)

-- `errors.Is(err, ethereum.NotFound)`
unfoldable pub is_not_found : GoError → Bool
is_not_found (sentinel s) = false
is_not_found (foreign f) = f.is_not_found
is_not_found (errorf m) = false
is_not_found (wrapf m e) = is_not_found e

-- The error of a call that has a sentinel for what the node does not know.
unfoldable pub lookup_failure : Sentinel → String → GoError → GoError
unfolding rpc_failure is_not_found
lookup_failure missing message e =
    if is_not_found e then sentinel missing else rpc_failure message e

-- The text of a header's number.
abbrev pub number_of_header : Option Text → Result ℕ
number_of_header none = err (sentinel block_not_found)
number_of_header (some number) =
    if is_empty number
    then err (errorf "empty block number for tag")
    else if not (has_prefix (codes "0x") number)
    then err (errorf "invalid block number format for tag")
    else elim (parse_uint 16 (drop_two number)) [
      | none ↦ err (wrapf "parse block number by tag: " (errorf "invalid syntax"))
      | some n ↦ ok n
    ]

abbrev pub unknown_tag : Text → Bool
unknown_tag tag =
    not (text_eq tag (codes "latest"))
    && not (text_eq tag (codes "safe"))
    && not (text_eq tag (codes "finalized"))

module _ {W : Type 0} (g : Geth) (client : EthClient W) where
  unfoldable pub block_by_number : ℕ → Io W EthBlock
  unfolding lookup_failure
  block_by_number number =
      map_err (lookup_failure block_not_found "get block by number: ")
        (client.block_by_number number)

  unfoldable pub get_latest_block_number : Io W ℕ
  unfolding rpc_failure
  get_latest_block_number = map_err (rpc_failure "get latest block number: ") client.block_number

  unfoldable pub get_block_number_by_tag : Text → Io W ℕ
  unfolding rpc_failure
  get_block_number_by_tag tag = if unknown_tag tag then throw (errorf "invalid block tag") else (do
    header ← map_err (rpc_failure "get block number by tag: ") (client.header_by_tag tag)
    lift (number_of_header header))

  unfoldable pub get_chain_id : Io W ℤ
  get_chain_id = map_err (wrapf "get chain id: ") client.chain_id

  -- A receipt that the node does not have is nil here.
  abbrev pub receipt_or_nil : Result Receipt → Result (Option Receipt)
  receipt_or_nil (ok r) = ok (some r)
  receipt_or_nil (err e) =
      if is_not_found e then ok none else err (rpc_failure "rpc: get receipt for tx: " e)

  abbrev pub receipt_unless : Bool → ℕ → Io W (Option Receipt)
  receipt_unless true tx_hash w = (ok none, w)
  receipt_unless false tx_hash w =
      let (r, w') = client.transaction_receipt tx_hash w in (receipt_or_nil r, w')

  unfoldable pub transaction_by_hash : Text → Io W (Option TxRaw)
  unfolding lookup_failure rpc_failure is_not_found recover_sender
  transaction_by_hash hash = do
    let tx_hash = g.hex_to_hash hash
    found ←
        map_err (lookup_failure tx_not_found "rpc: get transaction by hash: ")
          (client.transaction_by_hash tx_hash)
    chain ← map_err (rpc_failure "rpc: get chain id: ") client.chain_id
    from ←
        map_err (wrapf "rpc: derive sender from tx: ")
          (lift (recover_sender g chain (some found.0)))
    receipt ← receipt_unless found.1 tx_hash
    pure (
        some (record {
          tx = some found.0;
          from = g.address_hex from;
          is_pending = found.1;
          receipt = receipt;
        }))

  unfoldable pub transaction_receipt : Text → Io W (Option Receipt)
  unfolding lookup_failure
  transaction_receipt hash = do
    receipt ←
        map_err (lookup_failure tx_receipt_not_found "rpc: get transaction receipt: ")
          (client.transaction_receipt (g.hex_to_hash hash))
    pure (some receipt)

  unfoldable pub get_balance : Text → Io W Text
  unfolding rpc_failure
  get_balance address = do
    balance ←
        map_err (rpc_failure "rpc: get balance: ") (client.balance_at (g.hex_to_address address))
    pure (decimal balance)

  unfoldable pub get_nonce : Text → Io W ℕ
  unfolding rpc_failure
  get_nonce address =
      map_err (rpc_failure "rpc: get nonce: ") (client.nonce_at (g.hex_to_address address))

  unfoldable pub get_code : Text → Io W Text
  unfolding rpc_failure
  get_code address = do
    bytes ← map_err (rpc_failure "rpc: get code: ") (client.code_at (g.hex_to_address address))
    pure (g.encode bytes)
