-- ===== src/Config.antt =====
-- internal/config/config.go: the checks and the defaults of `Load`. Reading the file and the YAML
-- decoder are parameters.
use block_explorer_backend.Prelude.{
  ℕ, Bool, true, false, not, ◌&&◌, Option, none, some, List, is_empty, if◌then◌else◌,
}
use block_explorer_backend.Prelude.Int.{ℤ, pos, leb_ℤ}
use block_explorer_backend.Text.{Text, codes, text_eq}
use block_explorer_backend.Errors.{errorf}
use block_explorer_backend.Effect.{Result, ok, err, Io, lift, ◌>>=◌, context}
pub mod Checks

pub record ServerConfig : Type 0 where
  pub port : Text

pub record RpcConfig : Type 0 where
  pub chain_id : ℤ
  pub rpc_url : Text
  pub timeout_seconds : ℤ

pub record DbConfig : Type 0 where
  pub dsn : Text

pub record IndexerConfig : Type 0 where
  pub auto_start : Bool
  pub interval_seconds : ℤ
  pub run_timeout_seconds : ℤ
  pub sync_target : Text
  pub start_block : ℕ

pub record Config : Type 0 where
  pub server : ServerConfig
  pub rpc : RpcConfig
  pub db : DbConfig
  pub indexer : IndexerConfig

-- `if s == "" { s = d }` and `if n <= 0 { n = d }`
abbrev pub text_or : Text → Text → Text
text_or d s = if is_empty s then d else s

abbrev pub positive_or : ℤ → ℤ → ℤ
positive_or d n = if leb_ℤ n (pos 0) then d else n

abbrev pub with_defaults : Config → Config
with_defaults c = record {
  server = record { port = text_or (codes "8080") c.server.port };
  rpc = record {
    chain_id = c.rpc.chain_id;
    rpc_url = c.rpc.rpc_url;
    timeout_seconds = positive_or (pos 10) c.rpc.timeout_seconds;
  };
  db = c.db;
  indexer = record {
    auto_start = c.indexer.auto_start;
    interval_seconds = positive_or (pos 2) c.indexer.interval_seconds;
    run_timeout_seconds = positive_or (pos 3) c.indexer.run_timeout_seconds;
    sync_target = text_or (codes "safe") c.indexer.sync_target;
    start_block = c.indexer.start_block;
  };
}

abbrev pub unknown_target : Text → Bool
unknown_target t =
    not (text_eq t (codes "latest"))
    && not (text_eq t (codes "safe"))
    && not (text_eq t (codes "finalized"))

-- The checks, in their order. The defaults do not touch what the first three read.
unfoldable pub check_config : Config → Result Config
check_config c =
    if leb_ℤ c.rpc.chain_id (pos 0)
    then err (errorf "rpc.chain_id must be positive")
    else if is_empty c.rpc.rpc_url
    then err (errorf "rpc.rpc_url is required")
    else if is_empty c.db.dsn
    then err (errorf "db.dsn is required")
    else if unknown_target (text_or (codes "safe") c.indexer.sync_target)
    then err (errorf "invalid indexer sync_target")
    else ok (with_defaults c)

-- `Load`, with `os.ReadFile` and `yaml.Unmarshal` as its first two arguments.
unfoldable pub load :
    {W : Type 0} → (Text → Io W (List ℕ)) → (List ℕ → Result Config) → Text → Io W Config
load read_file unmarshal path = do
  bytes ← context "read config file: " (read_file path)
  c ← context "unmarshal yaml: " (lift (unmarshal bytes))
  lift (check_config c)
