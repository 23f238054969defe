-- ===== src/App/System/Invariants.antt =====
-- What holds of the stored blocks in every world that the running program reaches.
use block_explorer_backend.Prelude.{ℕ, ◌≡◌, inl, inr, Bool, some, arith}
use block_explorer_backend.Prelude.Int.{ℤ, eqb_ℤ_iff}
use block_explorer_backend.Text.{Unicode}
use block_explorer_backend.Ethereum.{Geth}
use block_explorer_backend.Models.{Block}
use block_explorer_backend.Config.{Config}
use block_explorer_backend.Gorm.{Database}
use block_explorer_backend.Gorm.Contract.{DatabaseContract}
use block_explorer_backend.Rpc.{EthClient}
use block_explorer_backend.BlockService.Contract.{BlockTable}
use block_explorer_backend.BlockService.Link.{IsLinked}
use block_explorer_backend.BlockService.States.{IsConsistent}
use block_explorer_backend.BlockService.Chain.Sync.{
  Linked-Kept, AllConsistent, AllConsistent-Kept, Respects-none,
}
use block_explorer_backend.Repo.Blocks.{fully_synced}
use block_explorer_backend.Repo.Blocks.Table.{table_of, table_of-chain}
use block_explorer_backend.App.Wiring.{block_service}
use block_explorer_backend.App.Keeps.{NodeContract}
use block_explorer_backend.App.System.{Reaches}
use block_explorer_backend.App.System.Held.{Reaches-Held}

-- In every world that the running program reaches, by requests to the routes, rounds of the indexer,
-- and what leaves the rows alone, the stored chain is linked if it was at the start: every stored block
-- above genesis, but the start block, has its parent stored, with the hash that it names.
pub Reaches-IsLinked :
    {W : Type 0} (u : Unicode) (g : Geth) (db : Database W) (client : EthClient W) (cfg : Config)
    (ctx_done : W → Bool) (d : DatabaseContract db) (node : NodeContract client db d) (w w' : W)
    → IsLinked u (block_service u g db client cfg) (table_of (d.blocks w))
    → Reaches u g db client cfg ctx_done d w w'
    → IsLinked u (block_service u g db client cfg) (table_of (d.blocks w'))
Reaches-IsLinked {W} u g db client cfg ctx_done d node w w' linked r =
    let s = block_service u g db client cfg in
    let table : W → BlockTable = λ w. table_of (d.blocks w) in
    Reaches-Held u g db client cfg ctx_done d node (IsLinked u s)
      (Linked-Kept u s table (λ w. w) (Respects-none u s table)) w w' r linked

pub completed-fully_synced :
    (chain : ℤ) (b : Block)
    → b.chain_id ≡ chain
    → IsConsistent b
    → fully_synced chain b ≡ b.receipts_synced
completed-fully_synced chain b own (stored, inl (status, receipts, clean)) =
    ground (arith, eqb_ℤ_iff b.chain_id chain)
completed-fully_synced chain b own (stored, inr (inl (status, receipts, clean))) = ground arith
completed-fully_synced chain b own (stored, inr (inr (status, receipts, (reason, failed)))) =
    ground arith

-- In every world that the running program reaches from one where it was so, a stored block of the
-- chain has its transactions marked as stored, and is in one of three states: completed with its
-- receipts stored and no error, waiting for its receipts with no error, or failed with a reason. So it
-- counts as fully synced exactly if its receipts are marked as stored.
pub Reaches-IsConsistent :
    {W : Type 0} (u : Unicode) (g : Geth) (db : Database W) (client : EthClient W) (cfg : Config)
    (ctx_done : W → Bool) (d : DatabaseContract db) (node : NodeContract client db d) (w w' : W)
    (n : ℕ) (b : Block)
    → AllConsistent (block_service u g db client cfg) (table_of (d.blocks w))
    → Reaches u g db client cfg ctx_done d w w'
    → table_of (d.blocks w') cfg.rpc.chain_id n ≡ some b
    → IsConsistent b × (fully_synced cfg.rpc.chain_id b ≡ b.receipts_synced)
Reaches-IsConsistent {W} u g db client cfg ctx_done d node w w' n b all r stored =
    let s = block_service u g db client cfg in
    let table : W → BlockTable = λ w. table_of (d.blocks w) in
    let own =
      Reaches-Held u g db client cfg ctx_done d node (AllConsistent s)
        (AllConsistent-Kept u s table) w w' r all n b stored in
    (
      own,
      completed-fully_synced cfg.rpc.chain_id b
          (table_of-chain (d.blocks w') cfg.rpc.chain_id n b stored) own,
    )
