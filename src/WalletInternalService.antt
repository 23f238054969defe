-- ===== src/WalletInternalService.antt =====
-- internal/service/wallet_internal_service.go: completed blocks with their transactions, and the
-- progress, for the wallet.
use block_explorer_backend.Prelude.{
  ℕ, Bool, true, false, not, Option, none, some, List, [], ◌∷◌, ◌++◌, map, ltb, ◌==◌, is_empty,
  if◌then◌else◌,
}
use block_explorer_backend.Prelude.Int.{ℤ, pos, eqb_ℤ, ltb_ℤ, leb_ℤ, int64_of_uint64}
use block_explorer_backend.Text.{Text}
use block_explorer_backend.Errors.{
  GoError, sentinel, errorf, wrapf, latest_completed_block_not_found,
}
use block_explorer_backend.Effect.{Result, ok, err, Io, pure, throw, lift, ◌>>=◌, context}
use block_explorer_backend.Models.{Block, Transaction}
use block_explorer_backend.Dto.{
  WalletCompletedTransaction, WalletCompletedBlock, WalletCompletedBlocksResponse,
  CompletedBlockSummary, GetSyncStatusResponse,
}
pub mod Grouping

pub record WalletCompletedBlockReader (W : Type 0) : Type 0 where
  pub list_wallet_completed_block_rows : ℤ → ℤ → ℤ → Io W (List Block)

pub record WalletCompletedTransactionReader (W : Type 0) : Type 0 where
  pub list_wallet_completed_transaction_rows : ℤ → List ℕ → Io W (List Transaction)

-- A missing block is `none`: the Go method returns a nil block and `false`.
pub record WalletSyncStatusReader (W : Type 0) : Type 0 where
  pub get_latest_completed_block : ℤ → Io W (Option Block)

pub record WalletInternalService (W : Type 0) : Type 0 where
  pub chain_id : ℤ
  pub sync_target : Text
  pub wallet_completed_block_reader : WalletCompletedBlockReader W
  pub wallet_completed_transaction_reader : WalletCompletedTransactionReader W
  pub wallet_sync_status_reader : WalletSyncStatusReader W

-- The hash stands only in the text of the errors. A status of 0 or 1 is itself as an int16.
unfoldable pub map_receipt_status : Text → Option ℕ → Result ℕ
map_receipt_status tx_hash none = err (errorf "receipt_status is nil")
map_receipt_status tx_hash (some status) =
    if ltb 1 status then err (errorf "invalid receipt_status") else ok status

-- The map `txsByBlockNumber`: a key that it lacks has the nil slice, which is empty.
abbrev pub Groups : Type 0
Groups = ℕ → List WalletCompletedTransaction

abbrev pub append_at : ℕ → WalletCompletedTransaction → Groups → Groups
append_at n x m k = if k == n then m k ++ x ∷ [] else m k

abbrev pub wallet_transaction : Transaction → ℕ → WalletCompletedTransaction
wallet_transaction tx receipt_status = record {
  tx_hash = tx.hash;
  from_address = tx.from_address;
  to_address = tx.to_address;
  amount_wei = tx.value_wei;
  receipt_status = receipt_status;
}

-- The body of the loop over the rows, by the status; `next` goes on with the loop.
abbrev pub add_row : Result ℕ → Transaction → Groups → (Groups → Result Groups) → Result Groups
add_row (err e) tx m next = err (wrapf "map wallet transaction receipt status: " e)
add_row (ok status) tx m next = next (append_at tx.block_number (wallet_transaction tx status) m)

unfoldable pub group_rows : List Transaction → Groups → Result Groups
group_rows [] m = ok m
group_rows (tx ∷ txs) m =
    add_row (map_receipt_status tx.hash tx.receipt_status) tx m (λ m'. group_rows txs m')

abbrev pub wallet_block : Groups → Block → WalletCompletedBlock
wallet_block m b = record {
  number = int64_of_uint64 b.number;
  hash = b.hash;
  parent_hash = b.parent_hash;
  transactions = m b.number;
}

module _ {W : Type 0} (s : WalletInternalService W) where
  open s use {
    chain_id, sync_target, wallet_completed_block_reader, wallet_completed_transaction_reader,
    wallet_sync_status_reader,
  }

  abbrev pub response_of : List WalletCompletedBlock → WalletCompletedBlocksResponse
  response_of blocks = record { chain_id = chain_id; blocks = blocks }

  -- What follows the rows of the transactions.
  abbrev pub respond : List Block → Result Groups → Io W WalletCompletedBlocksResponse
  respond blocks (err e) = throw e
  respond blocks (ok m) = pure (response_of (map (wallet_block m) blocks))

  -- What follows the rows of the blocks.
  abbrev pub list_blocks : List Block → Io W WalletCompletedBlocksResponse
  list_blocks blocks = if is_empty blocks then pure (response_of []) else (do
    txs ← context "list wallet completed transaction rows: " (
        wallet_completed_transaction_reader.list_wallet_completed_transaction_rows chain_id
          (map (λ b. b.number) blocks))
    respond blocks (group_rows txs (λ n. [])))

  unfoldable pub list_completed_blocks : ℤ → ℤ → ℤ → Io W WalletCompletedBlocksResponse
  list_completed_blocks asked_chain from_block limit =
      if not (eqb_ℤ asked_chain chain_id)
      then throw (errorf "unexpected chain_id")
      else if ltb_ℤ from_block (pos 0)
      then throw (errorf "from_block must be non-negative")
      else if leb_ℤ limit (pos 0)
      then throw (errorf "limit must be positive")
      else (do
        blocks ← context "list wallet completed block rows: " (
            wallet_completed_block_reader.list_wallet_completed_block_rows chain_id from_block
              limit)
        list_blocks blocks)

  abbrev pub sync_status_of : Option Block → Result GetSyncStatusResponse
  sync_status_of none = err (sentinel latest_completed_block_not_found)
  sync_status_of (some block) = ok (record {
    chain_id = chain_id;
    sync_target = sync_target;
    latest_completed_block = record { number = int64_of_uint64 block.number; hash = block.hash };
  })

  unfoldable pub get_sync_status : ℤ → Io W GetSyncStatusResponse
  get_sync_status asked_chain =
      if not (eqb_ℤ asked_chain chain_id) then throw (errorf "unexpected chain_id") else (do
        found ←
            context "get latest completed block: "
              (wallet_sync_status_reader.get_latest_completed_block chain_id)
        lift (sync_status_of found))
