-- ===== src/Examples/Completing.antt =====
-- The wired program copies block 1 into the database in memory.
use block_explorer_backend.Prelude.{
  ℕ, ◌≡◌, refl, inl, inr, arith, some, ◌==◌, Bool-cases, List, [], ◌∷◌,
}
use block_explorer_backend.Prelude.Int.{pos, eqb_ℤ}
use block_explorer_backend.Text.{text_eq, equal_fold}
use block_explorer_backend.Errors.Upstream.{is_record_not_found}
use block_explorer_backend.Effect.{ok}
use block_explorer_backend.Rpc.{block_by_number, transaction_receipt}
use block_explorer_backend.TxService.{
  sync_block_transaction_receipts, sync_each, sync_receipt, validate_receipt_matches_transaction,
}
use block_explorer_backend.Repo.Blocks.{
  get_block_by_number, insert_block_with_transactions, mark_block_receipts_synced,
}
use block_explorer_backend.Repo.Transactions.{
  list_transactions_missing_receipt_by_block_number, update_transaction_receipt_by_hash,
  get_transactions_by_hashes,
}
use block_explorer_backend.Models.{Block, Transaction}
use block_explorer_backend.Mapper.{to_block_model, to_transaction_model}
use block_explorer_backend.BlockService.{
  sync_block_to_db, with_sync_state, check_conflicts, build_transaction_models_from_block,
  build_transaction_models_from,
}
use block_explorer_backend.Ethereum.{recover_sender}
use block_explorer_backend.BlockService.Interfaces.{BlockService}
use block_explorer_backend.BlockService.Contract.{StoreContract}
use block_explorer_backend.BlockService.States.{IsCompleted}
use block_explorer_backend.BlockService.Progress.{sync_block_to_db-completes}
use block_explorer_backend.BlockService.Progress.Steps.{Answers, IsNew}
use block_explorer_backend.Repo.Blocks.Table.{table_of}
use block_explorer_backend.App.Wiring.{block_service}
use block_explorer_backend.App.Contracts.{store_contract}
use block_explorer_backend.Examples.Common.{plain, geth, eth_block, eth_transaction, genesis}
use block_explorer_backend.Examples.Memory.{
  World, memory, memory_database, node, node_keeps, seeded,
}
use block_explorer_backend.Examples.Repositories.{settings}

abbrev service : BlockService World
service = block_service plain geth memory node settings

abbrev contract : StoreContract service
contract = store_contract plain geth memory node settings memory_database node_keeps

abbrev model : Block
model = to_block_model geth (pos 1) (eth_block 1)

abbrev rows : List Transaction
rows = to_transaction_model plain geth (pos 1) (eth_block 1) (eth_transaction 201) 0 7 ∷ []

-- The worlds after the insertion and after the receipts.
abbrev with_block : World
with_block =
    (service.block_sync_store.insert_block_with_transactions
      (with_sync_state plain geth service model rows) rows seeded).1

abbrev with_receipts : World
with_receipts = (service.block_receipt_syncer.sync_block_transaction_receipts 1 with_block).1

-- The read of any number, by whether it is the stored one.
read_seeded :
    (n : ℕ)
    → ((service.block_sync_store.get_block_by_number (pos 1) n seeded).0
        ≡ ok (table_of seeded.blocks (pos 1) n))
      × ((service.block_sync_store.get_block_by_number (pos 1) n seeded).1 ≡ seeded)
unfolding get_block_by_number eqb_ℤ is_record_not_found
read_seeded n = elim (Bool-cases (0 == n)) [
  | inl here ↦ rw here (refl, refl)
  | inr other ↦ rw other (refl, refl)
]

all_answer :
    Answers plain geth service contract 1
      (eth_block 1)
      rows
      (table_of seeded.blocks)
      (λ w. w ≡ seeded)
      (λ w. w ≡ with_block)
      (λ w. w ≡ with_receipts)
unfolding block_by_number insert_block_with_transactions eqb_ℤ to_block_model text_eq
    to_transaction_model sync_block_transaction_receipts sync_each sync_receipt
    list_transactions_missing_receipt_by_block_number update_transaction_receipt_by_hash
    validate_receipt_matches_transaction transaction_receipt get_transactions_by_hashes
    mark_block_receipts_synced check_conflicts equal_fold
all_answer = record {
  shows = λ w h. rw h refl;
  gives = λ w h. rw h (refl, refl);
  reads = λ n w h. rw h (read_seeded n);
  agrees = λ w h. rw h (_, refl, refl, refl);
  inserts = λ w h. rw h (refl, refl);
  receipts = λ w h. rw h (refl, refl);
  marks = λ w h. rw h refl;
}

first-IsNew : IsNew plain geth service contract (table_of seeded.blocks) model
unfolding to_block_model eqb_ℤ equal_fold
first-IsNew = record {
  free = refl;
  follows = inr (inl (omega arith, (genesis, refl, refl)));
  own_hash = λ m old e same. ground arith;
}

sync_block_to_db-completes_example :
    let (r, w') = sync_block_to_db plain geth service 1 seeded in
    (r ≡ ok tt)
    × (b : Block) × (table_of w'.blocks (pos 1) 1 ≡ some b)
    × (b.hash ≡ 101 ∷ [])
    × IsCompleted b
unfolding build_transaction_models_from_block build_transaction_models_from recover_sender
sync_block_to_db-completes_example =
    sync_block_to_db-completes plain geth service contract 1 (eth_block 1) rows (λ w. w ≡ seeded)
      (λ w. w ≡ with_block) (λ w. w ≡ with_receipts) seeded all_answer refl refl first-IsNew refl
