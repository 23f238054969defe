-- ===== src/Examples.antt =====
-- Concrete instances of the services, and the theorems applied to them.
mod Common
mod Blocks
mod Ranges
mod Receipts
mod Queries
mod Wallet
mod Handlers
mod Node
mod Wired
mod Memory
mod Repositories
mod Startup
mod Pages
mod Completing
mod Settling
