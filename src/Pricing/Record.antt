-- ===== src/Pricing/Record.antt =====
-- The driving record and the tariff of packages/pricing/src/index.ts. A number with a fraction is an
-- exact quotient.
use repayd.Common.{ℕ, ◌*◌, String, Option, List}

pub record Ratio : Type 0 where
  pub num : ℕ
  pub den : ℕ

pub data Kind : Type 0 where
  clean_day attempted_breach covered_claim denied_claim recovered mitigation : Kind
  watch_only kya_verified sdk_installed : Kind

pub record PricingEvent : Type 0 where
  pub kind : Kind
  pub at : ℕ
  pub amount_usd : Option ℕ

pub record PricingPolicy : Type 0 where
  pub coverage_cap_usd : Ratio
  pub base_rate_pct : Option Ratio

pub data Provenance : Type 0 where
  verified computed : Provenance

-- A text is kept as its pieces, before the numbers are printed and rounded.
pub data Piece : Type 0 where
  text : String → Piece
  count : ℕ → Piece
  amount : Ratio → Piece

pub record PricingMultiplier : Type 0 where
  pub name : String
  pub value : Ratio
  pub provenance : Provenance
  pub detail : List Piece

-- the monthly premium in millionths of a dollar
pub record Premium : Type 0 where
  pub base_rate_pct : Ratio
  pub multipliers : List PricingMultiplier
  pub monthly_premium_usd : ℕ
  pub per_block_premium_usd : Ratio
  pub formula : List Piece

abbrev pub day_ms : ℕ
day_ms = 86400000

abbrev pub attempt_window_ms : ℕ
attempt_window_ms = 30 * 86400000

abbrev pub claim_window_ms : ℕ
claim_window_ms = 180 * 86400000

abbrev pub streak_days_max : ℕ
streak_days_max = 180

abbrev pub blocks_per_month : ℕ
blocks_per_month = 1296000
