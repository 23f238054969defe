-- ===== src/Examples/Repositories.antt =====
-- The repositories and the wired services over the database in memory.
use block_explorer_backend.Prelude.{
  ℕ, ◌≡◌, refl, inl, inr, Bool, true, false, none, some, [], ◌∷◌, arith,
}
use block_explorer_backend.Prelude.Int.{ℤ, pos, eqb_ℤ, to_uint64}
use block_explorer_backend.Text.{Text, codes}
use block_explorer_backend.Config.{Config}
use block_explorer_backend.Controllers.{Request}
use block_explorer_backend.Controllers.Blocks.{get_block}
use block_explorer_backend.BlockService.Contract.{StoreContract}
use block_explorer_backend.BlockService.Link.{IsLinked}
use block_explorer_backend.BlockService.Range.{RangeReturn}
use block_explorer_backend.TxService.Receipts.{ReceiptContract}
use block_explorer_backend.Indexer.{run_indexer_once}
use block_explorer_backend.Repo.Blocks.{
  fully_synced, get_latest_fully_synced_block_number, get_latest_completed_block,
}
use block_explorer_backend.Repo.Blocks.Table.{table_of}
use block_explorer_backend.Repo.Transactions.Store.{hash_table}
use block_explorer_backend.Repo.Latest.{get_latest-agree}
use block_explorer_backend.App.Wiring.{tx_service, block_service, block_controller, block_indexer}
use block_explorer_backend.App.Router.{
  at_get, fixed, param, Endpoint, Serves, routes, internal_routes, group,
}
use block_explorer_backend.App.Routes.{routes-keep}
use block_explorer_backend.App.Contracts.{block_service-StoreContract, tx_service-ReceiptContract}
use block_explorer_backend.App.System.{Reaches, Step}
use block_explorer_backend.App.System.Invariants.{Reaches-IsLinked, Reaches-IsConsistent}
use block_explorer_backend.BlockService.States.{IsConsistent}
use block_explorer_backend.BlockService.Chain.Sync.{AllConsistent}
use block_explorer_backend.Examples.Common.{plain, geth, genesis}
use block_explorer_backend.Examples.Memory.{
  World, memory, memory_database, node, node_keeps, seeded,
}

abbrev pub settings : Config
settings = record {
  server = record { port = codes "8080" };
  rpc = record { chain_id = pos 1; rpc_url = codes "http://node"; timeout_seconds = pos 10 };
  db = record { dsn = codes "db" };
  indexer = record {
    auto_start = true;
    interval_seconds = pos 2;
    run_timeout_seconds = pos 3;
    sync_target = codes "latest";
    start_block = 0;
  };
}

block_service-StoreContract_example :
    (s : StoreContract (block_service plain geth memory node settings)) × ((w : World) (chain : ℤ)
        (n : ℕ)
      → s.table w chain n ≡ table_of w.blocks chain n)
block_service-StoreContract_example =
    block_service-StoreContract plain geth memory node settings memory_database node_keeps

tx_service-ReceiptContract_example :
    (s : ReceiptContract (tx_service plain geth memory node settings)) × ((w : World) (h : Text)
      → s.table w h ≡ hash_table (pos 1) w.transactions h)
tx_service-ReceiptContract_example =
    tx_service-ReceiptContract plain geth memory node settings memory_database node_keeps

abbrev never : World → Bool
never w = false

seeded-IsLinked :
    IsLinked plain (block_service plain geth memory node settings) (table_of seeded.blocks)
seeded-IsLinked = record { parent_of = λ n b e other. ground arith }

-- A round of the runner over the seeded database.
abbrev after_first_round : World
after_first_round = (run_indexer_once (block_indexer plain geth memory node settings) seeded).1

Reaches-IsLinked_example :
    IsLinked plain
      (block_service plain geth memory node settings)
      (table_of after_first_round.blocks)
Reaches-IsLinked_example =
    Reaches-IsLinked plain geth memory node settings never memory_database node_keeps seeded
      after_first_round seeded-IsLinked
      (Reaches.after seeded after_first_round Reaches.stay Step.round)

seeded-AllConsistent :
    AllConsistent (block_service plain geth memory node settings) (table_of seeded.blocks)
seeded-AllConsistent = λ n b e. ground arith

Reaches-IsConsistent_example : IsConsistent genesis × (fully_synced (pos 1) genesis ≡ true)
unfolding eqb_ℤ
Reaches-IsConsistent_example =
    Reaches-IsConsistent plain geth memory node settings never memory_database node_keeps seeded
      seeded 0 genesis seeded-AllConsistent
      (Reaches.after seeded seeded Reaches.stay (Step.elsewhere seeded refl)) refl

abbrev for_block : Request
for_block = record { param = λ name. codes "0"; query = λ name. [] }

abbrev no_range : ℕ → ℕ → World → RangeReturn × World
no_range start end w = ((none, none), w)

get_latest-agree_example : some 0 ≡ some genesis.number
unfolding get_latest_fully_synced_block_number get_latest_completed_block eqb_ℤ to_uint64
get_latest-agree_example =
    get_latest-agree memory memory_database (pos 1) seeded (some 0) (some genesis)
      (λ x i. elim i [ inl same ↦ rw same (omega arith) | inr other ↦ absurd other ]) refl refl

abbrev after_block : World
after_block =
    (get_block (block_controller plain geth memory node settings no_range) for_block seeded).1

routes-keep_example :
    (after_block.blocks ≡ seeded.blocks) × (after_block.transactions ≡ seeded.transactions)
unfolding routes internal_routes group
routes-keep_example =
    routes-keep plain geth memory node settings never memory_database node_keeps no_range for_block
      (at_get (fixed "block" ∷ param "number" ∷ []) Endpoint.block) seeded after_block
      (inr (inr (inl refl))) (inl refl) Serves.block
