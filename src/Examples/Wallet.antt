-- ===== src/Examples/Wallet.antt =====
-- The wallet's list of completed blocks: the genesis block, and the block 1 with two rows.
use block_explorer_backend.Prelude.{some, List, [], ◌∷◌}
use block_explorer_backend.Prelude.Int.{pos}
use block_explorer_backend.Text.{codes}
use block_explorer_backend.Effect.{pure}
use block_explorer_backend.Models.{Block, Transaction}
use block_explorer_backend.WalletInternalService.{WalletInternalService}
use block_explorer_backend.Examples.Common.{genesis, row}

abbrev blocks : List Block
blocks = genesis ∷ record genesis { number = 1; hash = 101 ∷ []; parent_hash = 100 ∷ [] } ∷ []

abbrev rows : List Transaction
rows =
    record (row 201) { receipt_status = some 1 } ∷ record (row 202) { receipt_status = some 0 } ∷ []

abbrev service : WalletInternalService (Unit {0})
service = record {
  chain_id = pos 1;
  sync_target = codes "safe";
  wallet_completed_block_reader = record {
    list_wallet_completed_block_rows = λ c from_block limit. pure blocks;
  };
  wallet_completed_transaction_reader = record {
    list_wallet_completed_transaction_rows = λ c numbers. pure rows;
  };
  wallet_sync_status_reader = record { get_latest_completed_block = λ c. pure (some genesis) };
}
