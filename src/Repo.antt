-- ===== src/Repo.antt =====
-- internal/db/repo: the two repositories, over the statements of gorm.
use block_explorer_backend.Errors.{GoError}
use block_explorer_backend.Errors.Upstream.{db_failure, is_record_not_found}
use block_explorer_backend.Prelude.{String, Bool, true, false, Option, none, some}
use block_explorer_backend.Effect.{Result, ok, err, Io, map_err}
pub mod Blocks
pub mod Transactions
pub mod Latest
pub mod Pages

-- `if err != nil { if mapped := mapDBError(err); mapped != nil { … }; return fmt.Errorf(…) }`
abbrev pub mapped : {W A : Type 0} → String → Io W A → Io W A
mapped message m = map_err (db_failure message) m

-- A row, or `false` for `gorm.ErrRecordNotFound`.
abbrev pub missed : {A : Type 0} → Bool → String → GoError → Result (Option A)
missed true message e = ok none
missed false message e = err (db_failure message e)

abbrev pub found_row : {A : Type 0} → String → Result A → Result (Option A)
found_row message (ok r) = ok (some r)
found_row message (err e) = missed (is_record_not_found e) message e

abbrev pub row_or_missing : {W A : Type 0} → String → Io W A → Io W (Option A)
row_or_missing message m w = let (r, w') = m w in (found_row message r, w')
