-- ===== src/Subgraph.antt =====
-- packages/subgraph: the risk subgraph, which projects contract events onto entities.
pub mod Graph
pub mod Entities
pub mod Agents
pub mod Registry
pub mod Guard
pub mod Court
pub mod Pool
pub mod Events
pub mod Streak
pub mod Every
pub mod Holds
pub mod Ledger
pub mod Total
pub mod Listing
pub mod Memory
pub mod Examples
