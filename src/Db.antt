-- ===== src/Db.antt =====
-- internal/db/postgres.go and monitor.go. The driver of the database is a parameter, and what is printed
-- is left out.
use block_explorer_backend.Prelude.{ℕ}
use block_explorer_backend.Prelude.Int.{ℤ}
use block_explorer_backend.Text.{Text}
use block_explorer_backend.Config.{Config}
use block_explorer_backend.Effect.{ok, Io, ◌>>◌, context}

-- `gorm.Open(postgres.Open(dsn))`, `DB()`, the limits of the pool (open connections, idle connections,
-- and their lifetime in seconds), and `Ping`.
pub record Driver (W : Type 0) : Type 0 where
  pub open_db : Text → Io W (Unit {0})
  pub sql_db : Io W (Unit {0})
  pub set_pool : ℕ → ℕ → ℕ → W → W
  pub ping : Io W (Unit {0})

-- A call that cannot fail.
abbrev pub act : {W : Type 0} → (W → W) → Io W (Unit {0})
act f w = (ok tt, f w)

unfoldable pub new_db : {W : Type 0} → Driver W → Config → Io W (Unit {0})
new_db d cfg = do
  context "connect database failed: " (d.open_db cfg.db.dsn)
  context "get sql db failed: " d.sql_db
  act (d.set_pool 20 10 3600)
  context "ping database failed: " d.ping

-- What the program reads of `sql.DBStats`.
pub record SqlStats : Type 0 where
  pub open_connections : ℤ
  pub in_use : ℤ
  pub idle : ℤ
  pub wait_count : ℤ

pub record DbStats : Type 0 where
  pub opened : ℤ
  pub in_use : ℤ
  pub idle : ℤ
  pub wait : ℤ

unfoldable pub get_stats : {W : Type 0} → (W → SqlStats) → W → DbStats
get_stats stats w = record {
  opened = (stats w).open_connections;
  in_use = (stats w).in_use;
  idle = (stats w).idle;
  wait = (stats w).wait_count;
}
