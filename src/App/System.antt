-- ===== src/App/System.antt =====
-- The running program as steps of the world: requests of the router, rounds of the indexer, and what
-- goes on elsewhere.
pub mod Loops
pub mod Held
pub mod Invariants
use block_explorer_backend.Prelude.{ℕ, ◌≡◌, Bool, Among}
use block_explorer_backend.Text.{Unicode}
use block_explorer_backend.Ethereum.{Geth}
use block_explorer_backend.Config.{Config}
use block_explorer_backend.Gorm.{Database}
use block_explorer_backend.Gorm.Contract.{DatabaseContract}
use block_explorer_backend.Rpc.{EthClient}
use block_explorer_backend.Controllers.{Request}
use block_explorer_backend.BlockService.Range.{RangeReturn}
use block_explorer_backend.Indexer.{run_indexer_once}
use block_explorer_backend.App.Wiring.{block_indexer}
use block_explorer_backend.App.Router.{Route, routes, Serves}
use block_explorer_backend.App.Keeps.{rows_of}

module _ {W : Type 0} (u : Unicode) (g : Geth) (db : Database W) (client : EthClient W)
    (cfg : Config) (ctx_done : W → Bool) (d : DatabaseContract db) where
  -- One step: a request to a route, a round of the runner, or anything that leaves the rows alone, as
  -- the clock and the node do.
  pub data Step (w : W) : W → Type 0 where
    request :
        (range : ℕ → ℕ → W → RangeReturn × W) (c : Request) (r : Route) (w' : W)
        → Among r routes
        → Serves u g db client cfg ctx_done range c w r.endpoint w'
        → Step w w'
    round : Step w (run_indexer_once (block_indexer u g db client cfg) w).1
    elsewhere : (w' : W) → rows_of d w' ≡ rows_of d w → Step w w'

  pub data Reaches (w : W) : W → Type 0 where
    stay : Reaches w w
    after : (w₁ w₂ : W) → Reaches w w₁ → Step w₁ w₂ → Reaches w w₂
