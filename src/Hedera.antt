-- ===== src/Hedera.antt =====
-- packages/hedera: the meter of paid calls, and the resume that one of them returns.
pub mod Meter
pub mod Payloads
pub mod Examples
