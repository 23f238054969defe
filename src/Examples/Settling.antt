-- ===== src/Examples/Settling.antt =====
-- The wired program copies block 1 of a chain that stays as it is into the database in memory.
use block_explorer_backend.Prelude.{
  ℕ, ◌+◌, ◌<◌, Among, ◌≡◌, refl, sym, inl, inr, some, arith, Bool-cases, ◌==◌,
}
use block_explorer_backend.Prelude.Int.{pos, eqb_ℤ, two_64}
use block_explorer_backend.Effect.Ensures.{Ends}
use block_explorer_backend.Rpc.{block_by_number}
use block_explorer_backend.Models.{Block}
use block_explorer_backend.BlockService.{sync_block_to_db}
use block_explorer_backend.BlockService.Interfaces.{BlockService}
use block_explorer_backend.BlockService.Contract.{StoreContract}
use block_explorer_backend.BlockService.Outcome.{Follows, Mirrors, Open, Completed}
use block_explorer_backend.BlockService.Outcome.Calls.{sync_block_to_db-Settles}
use block_explorer_backend.Repo.Blocks.Table.{table_of}
use block_explorer_backend.App.Wiring.{block_service, block_indexer}
use block_explorer_backend.App.Once.{IsRound, run_indexer_once-IsRound}
use block_explorer_backend.App.Advance.{Mirrored}
use block_explorer_backend.Indexer.{run_indexer_once}
use block_explorer_backend.App.Contracts.{store_contract}
use block_explorer_backend.Examples.Common.{plain, geth, eth_block, genesis, ok-injective}
use block_explorer_backend.Examples.Memory.{
  World, memory, memory_database, node, node_keeps, seeded,
}
use block_explorer_backend.Examples.Repositories.{settings}

abbrev service : BlockService World
service = block_service plain geth memory node settings

abbrev contract : StoreContract service
contract = store_contract plain geth memory node settings memory_database node_keeps

node-Follows : Follows geth service eth_block
unfolding block_by_number
node-Follows = record {
  gives = λ n w b e. sym (ok-injective (eth_block n) b e);
  numbered = λ n. refl;
  distinct = λ m n e. ground arith;
}

-- The one stored block.
only_genesis :
    (m : ℕ) (b : Block) → table_of seeded.blocks (pos 1) m ≡ some b → (m ≡ 0) × (b ≡ genesis)
unfolding eqb_ℤ
only_genesis m b e = elim (Bool-cases (0 == m)) [
  | inl here ↦ let e' = rw here at e in (ground arith, cc)
  | inr other ↦ let e' = rw other at e in absurd (cc)
]

seeded-Mirrors : Mirrors geth service eth_block (table_of seeded.blocks)
seeded-Mirrors = record {
  hashes = λ m b e. let (at_0, same) = only_genesis m b e in rw (at_0, same) refl;
  consistent =
      λ m b e. let (_, same) = only_genesis m b e in rw same (refl, inl (refl, refl, refl));
  empty_done = λ m b e none_there. absurd (cc);
}

sync_block_to_db-Settles_example :
    let (r, w') = sync_block_to_db plain geth service 1 seeded in
    Mirrors geth service eth_block (table_of w'.blocks)
    × Ends
        (λ _ w. Completed geth service eth_block 1 (table_of w.blocks))
        (λ w. Open geth service eth_block 1 (table_of w.blocks))
        r
        w'
sync_block_to_db-Settles_example =
    sync_block_to_db-Settles plain geth service contract eth_block 1 seeded node-Follows
      seeded-Mirrors (λ b e. let (at_0, _) = only_genesis 1 b e in absurd (cc))

seeded_small : (x : Block) → Among x seeded.blocks → x.number + 1 < two_64
seeded_small x (inl same) = rw same (omega arith)
seeded_small x (inr other) = absurd other

run_indexer_once-IsRound_example :
    let (r, w') = run_indexer_once (block_indexer plain geth memory node settings) seeded in
    Ends
      (λ result w'.
        IsRound plain geth memory node settings memory_database eth_block seeded w' result)
      (Mirrored plain geth memory node settings memory_database eth_block)
      r
      w'
run_indexer_once-IsRound_example =
    run_indexer_once-IsRound plain geth memory node settings memory_database node_keeps eth_block
      seeded node-Follows seeded_small seeded-Mirrors
