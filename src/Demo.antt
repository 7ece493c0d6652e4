-- ===== src/Demo.antt =====
-- packages/demo: what a demo run publishes to its parent.
pub mod Bus
pub mod Once
pub mod Evidence
pub mod Examples
