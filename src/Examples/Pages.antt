-- ===== src/Examples/Pages.antt =====
-- A page of completed blocks, the next block of the indexer, and an insertion, with the database in
-- memory.
use block_explorer_backend.Prelude.{
  ◌+◌, ◌<◌, ◌≡◌, Among, refl, inl, inr, true, false, some, [], ◌∷◌, arith,
}
use block_explorer_backend.Prelude.Int.{two_64, pos, eqb_ℤ, to_uint64}
use block_explorer_backend.Models.{Block, receipts_failed}
use block_explorer_backend.Text.{codes, text_eq, has_prefix}
use block_explorer_backend.Text.Numbers.{parse_uint}
use block_explorer_backend.Rpc.{get_block_number_by_tag}
use block_explorer_backend.Dto.{IndexerStatus}
use block_explorer_backend.Indexer.{get_next_block_to_sync, run_indexer_once}
use block_explorer_backend.Dto.{AddressTransactionListDto}
use block_explorer_backend.AddressService.{list_of}
use block_explorer_backend.App.Round.{run_indexer_once_keeps_synced}
use block_explorer_backend.App.Wiring.{address_service, block_indexer}
use block_explorer_backend.App.Next.{IsNext, get_next_block_to_sync-IsNext}
use block_explorer_backend.Repo.Blocks.Table.{table_of}
use block_explorer_backend.Repo.Blocks.{
  get_latest_fully_synced_block_number, list_wallet_completed_block_rows,
}
use block_explorer_backend.Repo.Pages.{IsPage, list_wallet_completed_block_rows-IsPage}
use block_explorer_backend.Repo.Blocks.Atomic.{
  BothInserted, insert_block_with_transactions-IsAtomic,
}
use block_explorer_backend.Repo.Blocks.{insert_block_with_transactions}
use block_explorer_backend.Examples.Common.{plain, geth, genesis, row, eth_block-number}
use block_explorer_backend.Examples.Repositories.{settings}
use block_explorer_backend.Examples.Memory.{
  World, memory, memory_database, node, node_keeps, seeded,
}

list_wallet_completed_block_rows-IsPage_example : IsPage (pos 1) 0 9 seeded.blocks (genesis ∷ [])
unfolding list_wallet_completed_block_rows eqb_ℤ to_uint64
list_wallet_completed_block_rows-IsPage_example =
    list_wallet_completed_block_rows-IsPage memory memory_database (pos 1) 0 8 seeded (genesis ∷ [])
      (omega arith) refl

-- Block 1 has failed, block 2 is missing, and block 3 is completed.
abbrev failed : Block
failed = record genesis {
  number = 1;
  hash = 101 ∷ [];
  receipts_synced = false;
  sync_status = receipts_failed;
  last_sync_error = some "timeout";
}

abbrev gapped : World
unfolding eqb_ℤ text_eq
gapped = record {
  blocks = genesis ∷ failed ∷ record genesis { number = 3; hash = 103 ∷ [] } ∷ [];
  transactions = [];
  blocks_unique = refl;
  transactions_unique = refl;
}

abbrev past_gap : IndexerStatus
past_gap = record {
  chain_id = pos 1;
  db_latest = some 3;
  sync_target = codes "latest";
  rpc_target = 5;
  next = 4;
  should_sync = true;
}

gapped_small : (x : Block) → Among x gapped.blocks → x.number + 1 < two_64
unfolding gapped
gapped_small x (inl same) = rw same (omega arith)
gapped_small x (inr (inl same)) = rw same (omega arith)
gapped_small x (inr (inr (inl same))) = rw same (omega arith)
gapped_small x (inr (inr (inr other))) = absurd other

get_next_block_to_sync-IsNext_example : IsNext (pos 1) 0 gapped.blocks 4
unfolding get_next_block_to_sync get_latest_fully_synced_block_number eqb_ℤ to_uint64 gapped
    get_block_number_by_tag has_prefix parse_uint
get_next_block_to_sync-IsNext_example =
    get_next_block_to_sync-IsNext plain geth memory node settings memory_database gapped past_gap
      gapped_small refl

run_indexer_once_keeps_synced_example :
    table_of
      (run_indexer_once (block_indexer plain geth memory node settings) gapped).1.blocks
      (pos 1)
      0
    ≡ some genesis
unfolding gapped eqb_ℤ
run_indexer_once_keeps_synced_example =
    run_indexer_once_keeps_synced plain geth memory node settings memory_database node_keeps gapped
      genesis (λ n w b e. eth_block-number n b e) gapped_small (inl refl) refl

-- The row of transaction 201 is there already.
insert_block_with_transactions-IsAtomic_example :
    BothInserted memory memory_database failed
      (row 202 ∷ row 201 ∷ [])
      seeded
      (insert_block_with_transactions memory failed (row 202 ∷ row 201 ∷ []) seeded).1
unfolding insert_block_with_transactions eqb_ℤ text_eq
insert_block_with_transactions-IsAtomic_example =
    insert_block_with_transactions-IsAtomic memory memory_database failed (row 202 ∷ row 201 ∷ [])
      seeded

-- The first page of the address 7, which sends transaction 201.
abbrev first_page : AddressTransactionListDto
first_page =
    list_of plain (address_service plain geth memory node settings) (7 ∷ []) (pos 1) (pos 20)
      seeded.transactions
