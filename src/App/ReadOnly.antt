-- ===== src/App/ReadOnly.antt =====
-- The routes that only read: which they are, and that the services behind them leave the database
-- alone.
use block_explorer_backend.Prelude.{ℕ, Bool, true, false, not, List, is_empty}
use block_explorer_backend.Prelude.Int.{ℤ, pos, eqb_ℤ, leb_ℤ, ltb_ℤ}
use block_explorer_backend.Text.{Text, Unicode}
use block_explorer_backend.Effect.{Result, ok, err, Io}
use block_explorer_backend.Effect.Keeps.{
  Keeps, Keeps-pure, Keeps-throw, Keeps-lift, Keeps-if, Keeps-unless_error, Keeps-elim,
  Keeps-map_err, Keeps-bind,
}
use block_explorer_backend.Ethereum.{Geth}
use block_explorer_backend.Models.{Block}
use block_explorer_backend.Config.{Config}
use block_explorer_backend.Gorm.{Database}
use block_explorer_backend.Gorm.Contract.{DatabaseContract}
use block_explorer_backend.Rpc.{
  EthClient, block_by_number, transaction_by_hash, receipt_unless, get_balance, get_nonce, get_code,
  get_block_number_by_tag, unknown_tag,
}
use block_explorer_backend.Repo.{row_or_missing}
use block_explorer_backend.Repo.Blocks
use block_explorer_backend.Repo.Transactions
use block_explorer_backend.BlockService.{get_raw_block_by_number, get_block_by_number}
use block_explorer_backend.TxService.{
  get_tx_detail_by_hash_from_rpc, get_indexed_transaction_by_hash,
}
use block_explorer_backend.AddressService.{
  get_address, list_page, get_indexed_transactions_by_address,
}
use block_explorer_backend.WalletInternalService.{
  Groups, respond, list_blocks, list_completed_blocks, get_sync_status,
}
use block_explorer_backend.Indexer.{get_next_block_to_sync}
use block_explorer_backend.App.Wiring.{
  tx_service, block_service, address_service, wallet_service, block_indexer,
}
use block_explorer_backend.App.Keeps.{
  rows_of, NodeContract, find_blocks-Keeps, take_block-Keeps, first_block-Keeps, max_block-Keeps,
  find_transactions-Keeps, take_transaction-Keeps,
}

module _ {W V A : Type 0} {view : W → V} where
  row_or_missing-Keeps :
      {m : Io W A} (message : _) → Keeps view m → Keeps view (row_or_missing message m)
  row_or_missing-Keeps message h = record { at = h.at }

module _ {W : Type 0} (u : Unicode) (g : Geth) (db : Database W) (client : EthClient W)
    (cfg : Config) (c : DatabaseContract db) (node : NodeContract client db c) where
  pub get_block_by_number-Keeps :
      (n : ℕ) → Keeps (rows_of c) (get_block_by_number u g (block_service u g db client cfg) n)
  unfolding get_block_by_number get_raw_block_by_number Blocks.get_block_by_number block_by_number
  get_block_by_number-Keeps n =
      Keeps-bind (Keeps-map_err _ (row_or_missing-Keeps _ (take_block-Keeps db c _))) (λ found.
        Keeps-elim found (λ b. Keeps-pure _)
          (Keeps-bind (Keeps-map_err _ (Keeps-map_err _ (node.block_keeps n))) (λ b. Keeps-pure _)))

  receipt_unless-Keeps :
      (pending : Bool) (h : ℕ) → Keeps (rows_of c) (receipt_unless g client pending h)
  receipt_unless-Keeps true h = Keeps-pure _
  receipt_unless-Keeps false h = record { at = (node.receipt_keeps h).at }

  transaction_by_hash-Keeps : (hash : Text) → Keeps (rows_of c) (transaction_by_hash g client hash)
  unfolding transaction_by_hash
  transaction_by_hash-Keeps hash = Keeps-bind (Keeps-map_err _ (node.transaction_keeps _)) (λ found.
      Keeps-bind (Keeps-map_err _ node.chain_keeps) (λ chain.
        Keeps-bind (Keeps-map_err _ (Keeps-lift _))
          (λ from. Keeps-bind (receipt_unless-Keeps found.1 _) (λ receipt. Keeps-pure _))))

  pub get_tx_detail_by_hash_from_rpc-Keeps :
      (hash : Text)
      → Keeps (rows_of c) (get_tx_detail_by_hash_from_rpc u g (tx_service u g db client cfg) hash)
  unfolding get_tx_detail_by_hash_from_rpc
  get_tx_detail_by_hash_from_rpc-Keeps hash =
      Keeps-unless_error _ _
        (Keeps-bind (Keeps-map_err _ (transaction_by_hash-Keeps _)) (λ raw. Keeps-pure _))

  pub get_indexed_transaction_by_hash-Keeps :
      (hash : Text)
      → Keeps (rows_of c) (get_indexed_transaction_by_hash u g (tx_service u g db client cfg) hash)
  unfolding get_indexed_transaction_by_hash Transactions.get_transaction_by_hash
  get_indexed_transaction_by_hash-Keeps hash = Keeps-unless_error _ _ (
      Keeps-bind (Keeps-map_err _ (row_or_missing-Keeps _ (take_transaction-Keeps db c _)))
        (λ found. Keeps-lift _))

  pub get_address-Keeps :
      (raw : Text) → Keeps (rows_of c) (get_address u (address_service u g db client cfg) raw)
  unfolding get_address get_balance get_nonce get_code
  get_address-Keeps raw = Keeps-unless_error _ _ (
      Keeps-bind
        (Keeps-map_err _ (Keeps-bind (Keeps-map_err _ (node.balance_keeps _)) (λ b. Keeps-pure _)))
        (λ balance. Keeps-bind (Keeps-map_err _ (Keeps-map_err _ (node.nonce_keeps _))) (λ nonce.
          Keeps-bind
            (Keeps-map_err _ (Keeps-bind (Keeps-map_err _ (node.code_keeps _)) (λ b. Keeps-pure _)))
            (λ code. Keeps-pure _))))

  list_page-Keeps :
      (address : Text) (page page_size : ℤ)
      → Keeps (rows_of c) (list_page u (address_service u g db client cfg) address page page_size)
  unfolding list_page Transactions.list_transactions_by_address
  list_page-Keeps address page page_size = Keeps-if _ (Keeps-throw _) (
      Keeps-bind (Keeps-map_err _ (Keeps-map_err _ (find_transactions-Keeps db c _)))
        (λ txs. Keeps-pure _))

  pub get_indexed_transactions_by_address-Keeps :
      (raw : Text) (page page_size : ℤ)
      → Keeps (rows_of c) (
          get_indexed_transactions_by_address u
            (address_service u g db client cfg)
            raw
            page
            page_size)
  unfolding get_indexed_transactions_by_address
  get_indexed_transactions_by_address-Keeps raw page page_size =
      Keeps-unless_error _ _ (list_page-Keeps _ page page_size)

  respond-Keeps :
      (blocks : List Block) (m : Result Groups)
      → Keeps (rows_of c) (respond (wallet_service u g db client cfg) blocks m)
  respond-Keeps blocks (ok m) = Keeps-pure _
  respond-Keeps blocks (err e) = Keeps-throw _

  list_rows-Keeps :
      (numbers : List ℕ)
      → Keeps
          (rows_of c)
          (Transactions.list_wallet_completed_transaction_rows db cfg.rpc.chain_id numbers)
  unfolding Transactions.list_wallet_completed_transaction_rows
  list_rows-Keeps numbers =
      Keeps-if (is_empty numbers) (Keeps-pure _) (Keeps-map_err _ (find_transactions-Keeps db c _))

  list_blocks-Keeps :
      (blocks : List Block)
      → Keeps (rows_of c) (list_blocks (wallet_service u g db client cfg) blocks)
  list_blocks-Keeps blocks =
      Keeps-if (is_empty blocks) (Keeps-pure _)
        (Keeps-bind (Keeps-map_err _ (list_rows-Keeps _)) (λ txs. respond-Keeps blocks _))

  pub list_completed_blocks-Keeps :
      (chain from limit : ℤ)
      → Keeps
          (rows_of c)
          (list_completed_blocks (wallet_service u g db client cfg) chain from limit)
  unfolding list_completed_blocks Blocks.list_wallet_completed_block_rows
  list_completed_blocks-Keeps chain from limit =
      Keeps-if (not (eqb_ℤ chain cfg.rpc.chain_id)) (Keeps-throw _) (
        Keeps-if (ltb_ℤ from (pos 0)) (Keeps-throw _) (
          Keeps-if (leb_ℤ limit (pos 0)) (Keeps-throw _) (
            Keeps-bind
              (Keeps-map_err _ (
                Keeps-if (ltb_ℤ from (pos 0)) (Keeps-throw _) (
                  Keeps-if (leb_ℤ limit (pos 0)) (Keeps-throw _)
                    (Keeps-map_err _ (find_blocks-Keeps db c _)))))
              (λ blocks. list_blocks-Keeps blocks))))

  pub get_sync_status-Keeps :
      (chain : ℤ) → Keeps (rows_of c) (get_sync_status (wallet_service u g db client cfg) chain)
  unfolding get_sync_status Blocks.get_latest_completed_block
  get_sync_status-Keeps chain = Keeps-if (not (eqb_ℤ chain cfg.rpc.chain_id)) (Keeps-throw _) (
      Keeps-bind (Keeps-map_err _ (row_or_missing-Keeps _ (first_block-Keeps db c _)))
        (λ found. Keeps-lift _))

  tag-Keeps : (tag : Text) → Keeps (rows_of c) (get_block_number_by_tag g client tag)
  unfolding get_block_number_by_tag
  tag-Keeps tag =
      Keeps-if (unknown_tag tag) (Keeps-throw _)
        (Keeps-bind (Keeps-map_err _ (node.header_keeps tag)) (λ header. Keeps-lift _))

  pub get_next_block_to_sync-Keeps :
      Keeps (rows_of c) (get_next_block_to_sync (block_indexer u g db client cfg))
  unfolding get_next_block_to_sync Blocks.get_latest_fully_synced_block_number
  get_next_block_to_sync-Keeps =
      Keeps-bind
        (Keeps-map_err _ (
          Keeps-if (leb_ℤ cfg.rpc.chain_id (pos 0)) (Keeps-throw _)
            (Keeps-bind (Keeps-map_err _ (max_block-Keeps db c _ _)) (λ latest. Keeps-pure _))))
        (λ latest. Keeps-bind (Keeps-map_err _ (tag-Keeps _)) (λ target. Keeps-pure _))
