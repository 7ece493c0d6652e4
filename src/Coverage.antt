-- ===== src/Coverage.antt =====
-- packages/api: the Coverage API's policy store.
pub mod Assoc
pub mod Store
pub mod Schema
pub mod Deployment
pub mod Bridge
pub mod Bounds
pub mod Attach
pub mod Server
pub mod Retry
pub mod Capped
pub mod Ids
pub mod Books
pub mod Settled
pub mod Accounts
pub mod Wallets
pub mod Lifecycle
pub mod Examples
pub mod BridgeExamples
pub mod ServerExamples
