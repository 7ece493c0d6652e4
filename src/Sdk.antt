-- ===== src/Sdk.antt =====
-- packages/sdk/src/index.ts: the instruction chain, its alibi check and its store.
pub mod Noble
pub mod Hex
pub mod Digits
pub mod Chain
pub mod Sequence
pub mod Tamper
pub mod Alibi
pub mod Attribution
pub mod Store
pub mod Examples
