-- ===== src/Gorm.antt =====
-- What internal/db/repo uses of gorm, as a parameter: the statements that a chain of `Where`, `Order`,
-- `Limit` and `Offset` ends in, for each of the two tables, and `Transaction`.
use block_explorer_backend.Prelude.{ℕ, Bool, false, Option, none, List}
use block_explorer_backend.Prelude.Int.{ℤ}
use block_explorer_backend.Effect.{Io}
use block_explorer_backend.Models.{Block, Transaction}
pub mod Contract
pub mod Rows
pub mod Answers
pub mod Inserts

-- The conditions of a query as a test of a row; `before` says that a row stands before another one in
-- the asked order.
pub record Query (Row : Type 0) : Type 0 where
  pub matches : Row → Bool
  pub before : Row → Row → Bool
  pub limit : Option ℤ
  pub offset : Option ℤ

abbrev pub where_rows : {Row : Type 0} → (Row → Bool) → Query Row
where_rows p = record { matches = p; before = λ a b. false; limit = none; offset = none }

-- `Find`, `Take`, `First`, `Create` under `OnConflict{DoNothing: true}`, `Updates` with its
-- `RowsAffected`, and `Select("MAX(…)").Scan` into a `sql.NullInt64`.
pub record Table (W Row : Type 0) : Type 0 where
  pub find : Query Row → Io W (List Row)
  pub take : Query Row → Io W Row
  pub first : Query Row → Io W Row
  pub create : List Row → Io W (Unit {0})
  pub updates : (Row → Bool) → (Row → Row) → Io W ℕ
  pub max : (Row → Bool) → (Row → ℕ) → Io W (Option ℤ)

-- `transaction` runs a function in a database transaction.
pub record Database (W : Type 0) : Type 0 where
  pub blocks : Table W Block
  pub transactions : Table W Transaction
  pub transaction : Io W (Unit {0}) → Io W (Unit {0})
