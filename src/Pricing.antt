-- ===== src/Pricing.antt =====
-- packages/pricing: the premium of a driving record.
pub mod Record
pub mod Streak
pub mod Claims
pub mod Sorted
pub mod Multipliers
pub mod Premium
pub mod Reset
pub mod Earliest
pub mod Order
pub mod Examples
