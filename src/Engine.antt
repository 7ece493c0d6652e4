-- ===== src/Engine.antt =====
-- packages/engine: the shared types, the hold and breach verdicts, and the pricing quote.
pub mod Policy
pub mod Sigma
pub mod Verdict
pub mod Hold
pub mod Breach
pub mod Quote
pub mod Examples
