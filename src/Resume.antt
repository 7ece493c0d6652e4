-- ===== src/Resume.antt =====
-- packages/record: the insurance resume of an agent, and its ENS text records.
pub mod Fields
pub mod Build
pub mod Records
pub mod RoundTrip
pub mod Legible
pub mod Pricing
pub mod Examples
