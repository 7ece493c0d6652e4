-- ===== src/Erc8004.antt =====
-- ERC-8004: the subgraph of the standard registries, and the SDK's encodings for them.
pub mod Entities
pub mod Mapping
pub mod Linked
pub mod Signals
pub mod Encoding
pub mod Examples
