-- ===== src/Examples/Ranges.antt =====
-- Ranges of blocks, against a database in memory and against a node that is down.
use block_explorer_backend.Prelude.{◌≡◌, refl, inl, false, none, some, arith}
use block_explorer_backend.Errors.{sentinel, rpc_timeout, errors_is}
use block_explorer_backend.Effect.{throw}
use block_explorer_backend.BlockService.Interfaces.{BlockService}
use block_explorer_backend.BlockService.{sync_block_to_db, get_raw_block_by_number}
use block_explorer_backend.BlockService.Contract.{BlockTable}
use block_explorer_backend.BlockService.Range.{RangeReturn, is_fatal, sync_block_range_to_db}
use block_explorer_backend.BlockService.Range.Loop.{IsReport, sync_block_range_to_db-IsReport}
use block_explorer_backend.BlockService.Range.Overflow.{
  last, GoesOn, sync_block_range_to_db-diverges,
}
use block_explorer_backend.Examples.Common.{plain, geth}
use block_explorer_backend.Examples.Blocks.{service, stored}

abbrev down : BlockService BlockTable
down = record service {
  chain_block_reader = record { get_block_by_number = λ n. throw (sentinel rpc_timeout) };
}

down-GoesOn : (n : _) (t : BlockTable) → GoesOn (sync_block_to_db plain geth down n t).0
unfolding sync_block_to_db get_raw_block_by_number is_fatal errors_is
down-GoesOn n t = refl

sync_block_range_to_db-IsReport_example :
    (ret : RangeReturn) × (t : BlockTable) × (sync_block_range_to_db plain geth
        (λ t. false)
        service
        4
        1
        2
        stored
      ≡ some (ret, t))
    × IsReport (sync_block_to_db plain geth service) stored 1 2 ret t
sync_block_range_to_db-IsReport_example =
    sync_block_range_to_db-IsReport plain geth (λ t. false) service 4 1 2 stored (omega arith)
      (omega arith) (omega arith) (omega arith)

sync_block_range_to_db-diverges_example :
    sync_block_range_to_db plain geth (λ t. false) down 1000 0 last stored ≡ none
sync_block_range_to_db-diverges_example =
    sync_block_range_to_db-diverges plain geth (λ t. false) down 0 (inl refl) (λ t. refl)
      down-GoesOn 1000 stored
