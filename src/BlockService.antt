-- ===== src/BlockService.antt =====
-- internal/service/block_service.go: block queries, and the synchronisation of a block to the store.
-- `W` is the world that the calls act on: the node, the database and the time that passes.
mod Defs
pub mod Interfaces
pub mod Contract
pub mod Link
pub mod States
pub mod Shared
pub mod Linked
pub mod Chain
pub mod Progress
pub mod Local
pub mod Outcome
pub mod Range
unfoldable pub use Defs.*
