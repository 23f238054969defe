-- ===== src/Lib.antt =====
-- block-explorer-backend: an explorer that copies blocks, transactions and receipts of an Ethereum
-- chain into a database, and answers queries about them. This library models the program's own logic;
-- paths are from the repository's root.
--
-- The parts, and the files that model them:
--   Errors, Errors.Http, Errors.Upstream: internal/types/errors.go, error_mapping.go and response.go,
--     internal/utils/context.go, internal/rpc/rpc_error.go, internal/db/repo/repo_error.go. An error is
--     a sentinel, a foreign error, a message, or a `%w` context around another one.
--   Effect, Effect.Ensures: Go's `(value, error)` calls on a world `W`, which an error changes too, and
--     the rules by which the proofs follow them.
--   Text, Text.Numbers, Hex: strings as lists of code points, strconv, and internal/utils/hex.go.
--   Ethereum: the values of go-ethereum that the program reads, its functions as the record `Geth`, and
--     internal/utils/ethutils/signer.go.
--   Models, Dto, Mapper: internal/db/models, internal/service/model, the DTOs of internal/types, and
--     internal/mapper.
--   BlockService (Defs, Range): internal/service/block_service.go. `sync_block_to_db` is SyncBlockToDB,
--     `sync_block_range_to_db` is SyncBlockRangeToDB. Its interfaces (the node, the store of blocks, the
--     receipts, the conflicts) are records of calls; BlockService.Contract says what the store does to
--     a table of blocks, and the proofs on the chain use that only. BlockService.Shared puts acts of
--     others between the calls, BlockService.States has the states of a stored block,
--     BlockService.Chain the invariants of the table, BlockService.Local the rows that a synchronisation
--     touches, BlockService.Progress the run that meets no failure, and BlockService.Outcome runs against
--     a node whose chain stays as it is.
--   TxService: internal/service/tx_service.go, with the table of transactions in TxService.Receipts.
--   AddressService: internal/service/address_service.go; page numbers are 64-bit integers that wrap.
--   WalletInternalService: internal/service/wallet_internal_service.go.
--   Indexer, Indexer.Runner: internal/indexer/block_indexer.go and runner.go. The indexer uses the
--     block service by an interface, and the runner uses the indexer.
--   Controllers: the handlers of internal/controller, over interfaces of the services; gin's context is
--     a record of the path's and the query's parameters. Controllers.Debug is debug_controller.go.
--   Config: internal/config/config.go.
--   Rpc: internal/rpc, over the clients of go-ethereum as a record of calls.
--   Db: internal/db/postgres.go and monitor.go, over the driver as a record of calls.
--   Gorm: what internal/db/repo uses of gorm, as a record of statements; Gorm.Contract says what they
--     answer and do to the rows of the two tables, whose unique indexes hold; Gorm.Answers and
--     Gorm.Inserts say what follows for an ordered and limited answer and for an insertion.
--   Repo (Blocks, Transactions): internal/db/repo/block_repo.go and tx_repo.go. Repo.Blocks.Store and
--     Repo.Transactions.Store relate their calls to the tables that the services rely on;
--     Repo.Blocks.Atomic is about both tables, Repo.Latest and Repo.Pages about the queries of the
--     indexer and of the wallet.
--   App: internal/app/app.go and api/router.go. App.Startup is Run, with internal/rpc/client.go, App.Wiring
--     has the services and controllers over the repositories and the RPC readers, App.Router the
--     routes, App.Next, App.Advance, App.Round and App.Once the wired indexer, App.Addresses the pages
--     of an address, and App.System the program's steps: requests served one after another, and rounds
--     of the indexer.
--   Examples: concrete instances of all of these, to which the theorems are applied.
--
-- Bounds and fuel: the loop over a range of blocks and the loop of the runner run on fuel. For a range
-- of n blocks below the largest uint64 a fuel of n + 1 is enough; the runner's loop never ends by itself,
-- so each unit of its fuel is one round. A uint64 is a natural number below 2 ^ 64, and every
-- addition that can pass 2 ^ 64 wraps.
--
-- Not modelled: what is logged; cmd/server, whose main function only calls Run; the levels of gorm's
-- logger; how gin finds the route of a path and prints an answer; and how a deadline or a cancellation
-- cuts a call short, but for the error that the call then returns. The steps of App.System come one
-- after another; acts of others between the calls of one synchronisation are in BlockService.Shared.
--
-- Parameters: go-ethereum (`Geth` and the client), gorm with its database, Go's Unicode tables beyond
-- ASCII (`Unicode`), and the calls of the interfaces. Error messages keep their constant prefix; the
-- numbers and hashes that are printed into them are left out, since the program only tests errors by
-- errors.Is.
pub mod Prelude
pub mod Errors
pub mod Effect
pub mod Text
pub mod Hex
pub mod Ethereum
pub mod Models
pub mod Dto
pub mod Mapper
pub mod BlockService
pub mod TxService
pub mod Indexer
pub mod Config
pub mod Db
pub mod Gorm
pub mod Repo
pub mod Rpc
pub mod AddressService
pub mod WalletInternalService
pub mod Controllers
pub mod App
mod Examples
