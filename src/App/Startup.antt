-- ===== src/App/Startup.antt =====
-- `Run` of internal/app/app.go, from the configuration to the shutdown: what comes before the server and
-- the runner of the indexer are started, and what is checked on the way.
use block_explorer_backend.Prelude.{ℕ, Bool, List, ◌∷◌, if◌then◌else◌}
use block_explorer_backend.Prelude.Int.{ℤ, pos, eqb_ℤ}
use block_explorer_backend.Text.{Text, codes}
use block_explorer_backend.Errors.{errorf}
use block_explorer_backend.Effect.{Result, ok, Io, pure, throw, ◌>>=◌, ◌>>◌, context}
use block_explorer_backend.Config.{Config, load}
use block_explorer_backend.Db.{Driver, act, new_db}
pub mod Verified

-- What the server and the runner are started with.
pub record Serving : Type 0 where
  pub config : Config
  pub runs_indexer : Bool
  pub addr : Text

-- The machine around the program. `chain_id` is the node's call under a timeout in seconds, and
-- `int64_of` is `Int64` of a big integer. `serve` is what goes on until a signal arrives; the services
-- and the routes that it runs are those of App.Wiring and App.Router.
pub record Platform (W : Type 0) : Type 0 where
  pub read_file : Text → Io W (List ℕ)
  pub unmarshal : List ℕ → Result Config
  pub driver : Driver W
  pub auto_migrate : Io W (Unit {0})
  pub dial : Text → Io W (Unit {0})
  pub chain_id : ℤ → Io W ℤ
  pub int64_of : ℤ → ℤ
  pub serve : Serving → W → W
  pub shutdown : ℤ → Io W (Unit {0})

abbrev pub serving : Config → Serving
serving cfg = record {
  config = cfg;
  runs_indexer = cfg.indexer.auto_start;
  addr = b':' ∷ cfg.server.port;
}

module _ {W : Type 0} (p : Platform W) where
  -- `NewEthClient` of internal/rpc/client.go.
  unfoldable pub new_eth_client : Text → Io W (Unit {0})
  new_eth_client rpc_url = context "dial rpc: " (p.dial rpc_url)

  abbrev pub check_chain : Config → ℤ → Io W (Unit {0})
  check_chain cfg actual =
      if eqb_ℤ (p.int64_of actual) cfg.rpc.chain_id
      then pure tt
      else throw (errorf "rpc chain_id mismatch")

  unfoldable pub start_up : Io W Serving
  unfolding new_eth_client
  start_up = do
    cfg ← context "load config: " (load p.read_file p.unmarshal (codes "configs/config.yaml"))
    new_db p.driver cfg
    context "auto migrate database tables failed: " p.auto_migrate
    context "get db: " p.driver.sql_db
    context "new eth client: " (new_eth_client cfg.rpc.rpc_url)
    actual ← context "get rpc chain id: " (p.chain_id cfg.rpc.timeout_seconds)
    check_chain cfg actual
    pure (serving cfg)

  unfoldable pub run : Io W (Unit {0})
  run = do s ← start_up; act (p.serve s); context "shutdown http server: " (p.shutdown (pos 5))
