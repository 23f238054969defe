-- ===== src/WalletInternalService/Grouping.antt =====
-- The answer of `ListCompletedBlocks`, against its description: every block with the rows that have
-- its number, in their order.
use block_explorer_backend.Prelude.{ℕ, ◌≡◌, ◌⊎◌, Option, none, some, List, ◌++◌, map, ◌==◌, keep}
use block_explorer_backend.Prelude.Int.{pos}
use block_explorer_backend.Effect.{Result, ok, err}
use block_explorer_backend.Models.{Block, Transaction}
use block_explorer_backend.Dto.{WalletCompletedTransaction, WalletCompletedBlock}
use block_explorer_backend.WalletInternalService.{
  WalletInternalService, Groups, wallet_transaction, wallet_block,
}

-- The row has a status that the wallet knows.
abbrev pub HasStatus : Transaction → Type 0
HasStatus tx = (tx.receipt_status ≡ some 0) ⊎ (tx.receipt_status ≡ some 1)

abbrev status_value : Option ℕ → ℕ
status_value none = 0
status_value (some n) = n

abbrev pub reported : Transaction → WalletCompletedTransaction
reported tx = wallet_transaction tx (status_value tx.receipt_status)

-- The transactions of the block `n`.
abbrev pub rows_of : ℕ → List Transaction → List WalletCompletedTransaction
rows_of n txs = map reported (keep (λ tx. tx.block_number == n) txs)

abbrev pub described : List Transaction → Block → WalletCompletedBlock
described txs b = wallet_block (λ n. rows_of n txs) b

-- Rows with a known status are grouped, behind what the map has.
IsGrouped : List Transaction → Groups → Result Groups → Type 0
IsGrouped txs m (err e) = ⊥
IsGrouped txs m (ok m') = (n : ℕ) → m' n ≡ m n ++ rows_of n txs

module _ {W : Type 0} (s : WalletInternalService W) where
  -- The two calls of the database have answered.
  pub record Rows (from_block limit : ℕ) (blocks : List Block) (txs : List Transaction)
      (w w' w'' : W) : Type 0 where
    pub blocks_read :
        s.wallet_completed_block_reader.list_wallet_completed_block_rows s.chain_id
          (pos from_block)
          (pos limit)
          w
        ≡ (ok blocks, w')
    pub transactions_read :
        s.wallet_completed_transaction_reader.list_wallet_completed_transaction_rows s.chain_id
          (map (λ b. b.number) blocks)
          w'
        ≡ (ok txs, w'')
