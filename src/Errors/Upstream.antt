-- ===== src/Errors/Upstream.antt =====
-- internal/utils/context.go, internal/rpc/rpc_error.go and internal/db/repo/repo_error.go: the errors
-- of the node and of the database become the program's own.
use block_explorer_backend.Prelude.{Bool, String, false, Option, none, some, if◌then◌else◌}
use block_explorer_backend.Errors.{
  GoError, sentinel, foreign, errorf, wrapf, rpc_timeout, db_timeout, request_canceled,
}

-- `errors.Is(err, context.DeadlineExceeded)`
unfoldable pub is_timeout : GoError → Bool
is_timeout (sentinel s) = false
is_timeout (foreign f) = f.is_deadline
is_timeout (errorf m) = false
is_timeout (wrapf m e) = is_timeout e

-- `errors.Is(err, context.Canceled)`
unfoldable pub is_canceled : GoError → Bool
is_canceled (sentinel s) = false
is_canceled (foreign f) = f.is_canceled
is_canceled (errorf m) = false
is_canceled (wrapf m e) = is_canceled e

-- `mapRPCError`; the case of a nil error is not reached by its callers.
unfoldable pub map_rpc_error : GoError → Option GoError
map_rpc_error err =
    if is_timeout err
    then some (sentinel rpc_timeout)
    else if is_canceled err
    then some (sentinel request_canceled)
    else none

-- `mapDBError`
unfoldable pub map_db_error : GoError → Option GoError
map_db_error err =
    if is_timeout err
    then some (sentinel db_timeout)
    else if is_canceled err
    then some (sentinel request_canceled)
    else none

-- `if mapped := mapRPCError(err); mapped != nil { return mapped }; return fmt.Errorf(…, err)`
unfoldable pub rpc_failure : String → GoError → GoError
unfolding map_rpc_error
rpc_failure context err = elim (map_rpc_error err) [
  | some mapped ↦ mapped
  | none ↦ wrapf context err
]

-- `if mapped := mapDBError(err); mapped != nil { return mapped }; return fmt.Errorf(…, err)`
unfoldable pub db_failure : String → GoError → GoError
unfolding map_db_error
db_failure context err = elim (map_db_error err) [ some mapped ↦ mapped | none ↦ wrapf context err ]

-- `errors.Is(err, gorm.ErrRecordNotFound)`
unfoldable pub is_record_not_found : GoError → Bool
is_record_not_found (sentinel s) = false
is_record_not_found (foreign f) = f.is_record_not_found
is_record_not_found (errorf m) = false
is_record_not_found (wrapf m e) = is_record_not_found e
