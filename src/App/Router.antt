-- ===== src/App/Router.antt =====
-- `NewRouter` of api/router.go: the routes, and what a request to each of them does.
use block_explorer_backend.Prelude.{ℕ, ◌≡◌, String, Bool, some, List, [], ◌∷◌, ◌++◌, map}
use block_explorer_backend.Text.{Unicode}
use block_explorer_backend.Text.Numbers.{parse_uint}
use block_explorer_backend.Ethereum.{Geth}
use block_explorer_backend.Config.{Config}
use block_explorer_backend.Gorm.{Database}
use block_explorer_backend.Rpc.{EthClient}
use block_explorer_backend.BlockService.Range.{RangeReturn, sync_block_range_to_db}
use block_explorer_backend.Controllers.{Request}
use block_explorer_backend.Controllers.Blocks.{
  get_block, sync_block, sync_block_range, get_sync_status_of_indexer, run_once,
}
use block_explorer_backend.Controllers.Queries.{
  get_tx_detail, get_indexed_transaction, address_info, address_transactions,
}
use block_explorer_backend.Controllers.Wallets.{wallet_completed_blocks, wallet_sync_status}
use block_explorer_backend.App.Wiring.{
  block_service, block_controller, tx_controller, address_controller, indexer_controller,
  wallet_controller,
}

pub data Method : Type 0 where
  get post : Method

pub data Segment : Type 0 where
  fixed : String → Segment
  param : String → Segment

-- One for each handler that the router is given.
pub data Endpoint : Type 0 where
  health tx_detail block address indexed_tx indexed_transactions : Endpoint
  completed_blocks wallet_status db_stats indexer_status run_indexer sync_range sync_one : Endpoint

pub record Route : Type 0 where
  pub method : Method
  pub pattern : List Segment
  pub endpoint : Endpoint

abbrev pub at_get : List Segment → Endpoint → Route
at_get pattern endpoint = record { method = get; pattern = pattern; endpoint = endpoint }

abbrev pub at_post : List Segment → Endpoint → Route
at_post pattern endpoint = record { method = post; pattern = pattern; endpoint = endpoint }

-- `Group(prefix)`
abbrev pub under : String → Route → Route
under prefix r = record r { pattern = fixed prefix ∷ r.pattern }

unfoldable pub group : String → List Route → List Route
group prefix routes = map (under prefix) routes

unfoldable pub internal_routes : List Route
unfolding group
internal_routes =
    group "wallet" (
      at_get (fixed "completed-blocks" ∷ []) completed_blocks
      ∷ at_get (fixed "sync-status" ∷ []) wallet_status
      ∷ [])
    ++ group "debug" (at_get (fixed "db-stats" ∷ []) db_stats ∷ [])
    ++ group "indexer" (
        at_get (fixed "status" ∷ []) indexer_status
        ∷ at_post (fixed "run-once" ∷ []) run_indexer
        ∷ [])
    ++ group "blocks" (
        at_post (fixed "sync" ∷ []) sync_range
        ∷ at_post (fixed "sync" ∷ param "number" ∷ []) sync_one
        ∷ [])

unfoldable pub routes : List Route
unfolding internal_routes group
routes =
    at_get (fixed "health" ∷ []) health ∷ group "tx" (at_get (param "hash" ∷ []) tx_detail ∷ [])
    ++ group "block" (at_get (param "number" ∷ []) block ∷ [])
    ++ group "address" (at_get (param "address" ∷ []) address ∷ [])
    ++ group "indexed" (
        at_get (fixed "tx" ∷ param "hash" ∷ []) indexed_tx
        ∷ at_get (fixed "address" ∷ param "address" ∷ fixed "transactions" ∷ [])
            indexed_transactions
        ∷ [])
    ++ group "internal" internal_routes

module _ {W : Type 0} (u : Unicode) (g : Geth) (db : Database W) (client : EthClient W)
    (cfg : Config) (ctx_done : W → Bool) where
  -- A request to an endpoint, from the world before it to the one after it. The two handlers that call
  -- no service leave the world as it is. `range` is what `SyncBlockRangeToDB` returns: for the range of
  -- a request it is a run of the loop that ends.
  pub data Serves (range : ℕ → ℕ → W → RangeReturn × W) (c : Request) (w : W)
      : Endpoint → W → Type 0 where
    health : Serves range c w Endpoint.health w
    db_stats : Serves range c w Endpoint.db_stats w
    tx_detail :
        Serves range c w Endpoint.tx_detail (get_tx_detail (tx_controller u g db client cfg) c w).1
    block :
        Serves range c w Endpoint.block (get_block (block_controller u g db client cfg range) c w).1
    address :
        Serves range c w Endpoint.address
          (address_info (address_controller u g db client cfg) c w).1
    indexed_tx :
        Serves range c w Endpoint.indexed_tx
          (get_indexed_transaction (tx_controller u g db client cfg) c w).1
    indexed_transactions :
        Serves range c w Endpoint.indexed_transactions
          (address_transactions (address_controller u g db client cfg) c w).1
    completed_blocks :
        Serves range c w Endpoint.completed_blocks
          (wallet_completed_blocks (wallet_controller u g db client cfg) c w).1
    wallet_status :
        Serves range c w Endpoint.wallet_status
          (wallet_sync_status (wallet_controller u g db client cfg) c w).1
    indexer_status :
        Serves range c w Endpoint.indexer_status
          (get_sync_status_of_indexer (indexer_controller u g db client cfg) c w).1
    run_indexer :
        Serves range c w Endpoint.run_indexer
          (run_once (indexer_controller u g db client cfg) c w).1
    sync_one :
        Serves range c w Endpoint.sync_one
          (sync_block (block_controller u g db client cfg range) c w).1
    sync_range :
        ((start end : ℕ)
          → parse_uint 10 (c.query "start") ≡ some start
          → parse_uint 10 (c.query "end") ≡ some end
          → (fuel : ℕ) × (sync_block_range_to_db u g ctx_done
                (block_service u g db client cfg)
                fuel
                start
                end
                w
              ≡ some (range start end w)))
        → Serves range c w Endpoint.sync_range
            (sync_block_range (block_controller u g db client cfg range) c w).1
