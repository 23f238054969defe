-- ===== src/App/Wiring.antt =====
-- `Run` of internal/app/app.go: the services over the two repositories and the three RPC readers.
use block_explorer_backend.Prelude.{ℕ}
use block_explorer_backend.Text.{Unicode}
use block_explorer_backend.Ethereum.{Geth}
use block_explorer_backend.Config.{Config}
use block_explorer_backend.Gorm.{Database}
use block_explorer_backend.Rpc.{
  EthClient, block_by_number, get_block_number_by_tag, transaction_by_hash, transaction_receipt,
  get_balance, get_nonce, get_code,
}
use block_explorer_backend.Repo.Blocks
use block_explorer_backend.Repo.Transactions
use block_explorer_backend.BlockService.{get_block_by_number, sync_block_to_db}
use block_explorer_backend.BlockService.Range.{RangeReturn}
use block_explorer_backend.BlockService.Interfaces.{
  ChainBlockReader, BlockSyncStore, TransactionConflictReader, BlockService,
}
use block_explorer_backend.TxService.{
  ChainTransactionReader, IndexedTransactionReader, TransactionReceiptStore, TxService,
  get_tx_detail_by_hash_from_rpc, get_indexed_transaction_by_hash,
}
use block_explorer_backend.AddressService.{
  AddressService, get_address, get_indexed_transactions_by_address,
}
use block_explorer_backend.WalletInternalService.{
  WalletInternalService, list_completed_blocks, get_sync_status,
}
use block_explorer_backend.Indexer.{BlockIndexer, get_next_block_to_sync, run_indexer_once}
use block_explorer_backend.Controllers.Blocks.{BlockController, IndexerController}
use block_explorer_backend.Controllers.Queries.{TxController, AddressController}
use block_explorer_backend.Controllers.Wallets.{WalletController}
use block_explorer_backend.App.{receipt_syncer, block_synchronizer}

module _ {W : Type 0} (u : Unicode) (g : Geth) (db : Database W) (client : EthClient W)
    (cfg : Config) where
  -- `txRPC` and `txRepo` as the interfaces of the transaction service.
  abbrev pub chain_transaction_reader : ChainTransactionReader W
  chain_transaction_reader = record {
    get_transaction_by_hash = transaction_by_hash g client;
    get_transaction_receipt = transaction_receipt g client;
  }

  abbrev pub indexed_transaction_reader : IndexedTransactionReader W
  indexed_transaction_reader = record {
    get_transaction_by_hash = Transactions.get_transaction_by_hash db;
  }

  abbrev pub transaction_receipt_store : TransactionReceiptStore W
  transaction_receipt_store = record {
    update_transaction_receipt_by_hash = Transactions.update_transaction_receipt_by_hash db;
    list_transactions_missing_receipt_by_block_number =
        Transactions.list_transactions_missing_receipt_by_block_number db;
  }

  abbrev pub tx_service : TxService W
  tx_service = record {
    chain_id = cfg.rpc.chain_id;
    chain_transaction_reader = chain_transaction_reader;
    indexed_transaction_reader = indexed_transaction_reader;
    transaction_receipt_store = transaction_receipt_store;
  }

  -- `blockRPC`, `blockRepo`, `txService` and `txRepo` as those of the block service.
  abbrev pub chain_block_reader : ChainBlockReader W
  chain_block_reader = record { get_block_by_number = block_by_number g client }

  abbrev pub block_sync_store : BlockSyncStore W
  block_sync_store = record {
    get_block_by_number = Blocks.get_block_by_number db;
    insert_block_with_transactions = Blocks.insert_block_with_transactions db;
    mark_block_receipts_synced = Blocks.mark_block_receipts_synced db;
    mark_block_receipts_sync_failed = Blocks.mark_block_receipts_sync_failed db;
  }

  abbrev pub transaction_conflict_reader : TransactionConflictReader W
  transaction_conflict_reader = record {
    get_transactions_by_hashes = Transactions.get_transactions_by_hashes db;
  }

  abbrev pub block_service : BlockService W
  block_service = record {
    chain_id = cfg.rpc.chain_id;
    chain_block_reader = chain_block_reader;
    block_sync_store = block_sync_store;
    block_receipt_syncer = receipt_syncer u g tx_service;
    transaction_conflict_reader = transaction_conflict_reader;
    start_block = cfg.indexer.start_block;
  }

  abbrev pub address_service : AddressService W
  address_service = record {
    chain_id = cfg.rpc.chain_id;
    address_state_reader = record {
      get_balance = get_balance g client;
      get_nonce = get_nonce g client;
      get_code = get_code g client;
    };
    address_transaction_reader = record {
      list_transactions_by_address = Transactions.list_transactions_by_address db;
    };
  }

  -- `blockRPC`, `blockRepo` and `blockService` as those of the indexer.
  abbrev pub block_indexer : BlockIndexer W
  block_indexer = record {
    chain_id = cfg.rpc.chain_id;
    sync_target_reader = record { get_block_number_by_tag = get_block_number_by_tag g client };
    block_sync_progress_reader = record {
      get_latest_fully_synced_block_number = Blocks.get_latest_fully_synced_block_number db;
    };
    block_synchronizer = block_synchronizer u g block_service;
    sync_target = cfg.indexer.sync_target;
    start_block = cfg.indexer.start_block;
  }

  abbrev pub wallet_service : WalletInternalService W
  wallet_service = record {
    chain_id = cfg.rpc.chain_id;
    sync_target = cfg.indexer.sync_target;
    wallet_completed_block_reader = record {
      list_wallet_completed_block_rows = Blocks.list_wallet_completed_block_rows db;
    };
    wallet_completed_transaction_reader = record {
      list_wallet_completed_transaction_rows =
          Transactions.list_wallet_completed_transaction_rows db;
    };
    wallet_sync_status_reader = record {
      get_latest_completed_block = Blocks.get_latest_completed_block db;
    };
  }

  -- `SyncBlockRangeToDB` is the given function, since its loop need not end.
  abbrev pub block_controller : (ℕ → ℕ → W → RangeReturn × W) → BlockController W
  block_controller range = record {
    get_block_by_number = get_block_by_number u g block_service;
    sync_block_to_db = sync_block_to_db u g block_service;
    sync_block_range_to_db = range;
  }

  abbrev pub tx_controller : TxController W
  tx_controller = record {
    get_tx_detail_by_hash_from_rpc = get_tx_detail_by_hash_from_rpc u g tx_service;
    get_indexed_transaction_by_hash = get_indexed_transaction_by_hash u g tx_service;
  }

  abbrev pub address_controller : AddressController W
  address_controller = record {
    get_address = get_address u address_service;
    get_indexed_transactions_by_address = get_indexed_transactions_by_address u address_service;
  }

  abbrev pub indexer_controller : IndexerController W
  indexer_controller = record {
    get_next_block_to_sync = get_next_block_to_sync block_indexer;
    run_indexer_once = run_indexer_once block_indexer;
  }

  abbrev pub wallet_controller : WalletController W
  wallet_controller = record {
    list_completed_blocks = list_completed_blocks wallet_service;
    get_sync_status = get_sync_status wallet_service;
  }
