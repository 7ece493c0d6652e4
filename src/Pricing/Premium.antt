-- ===== src/Pricing/Premium.antt =====
-- computePremium of packages/pricing/src/index.ts.
use repayd.Common.{
  ℕ, ◌+◌, ◌*◌, ◌/◌, ◌^◌, Option, none, some, List, [], ◌∷◌, ◌++◌, leb, if◌then◌else◌, max,
}
use repayd.Pricing.Record.{
  Ratio, PricingEvent, PricingPolicy, PricingMultiplier, Premium, Piece, text, amount,
  blocks_per_month,
}
use repayd.Pricing.Streak.{loop}
use repayd.Pricing.Multipliers.{mul, one, multipliers_at}

-- Math.round(a * 1e6): the nearest number of millionths, halves upwards
unfoldable pub round6 : Ratio → ℕ
round6 a = (2 * a.num * 10 ^ 6 + a.den) / (2 * a.den)

-- the latest event, none for -Infinity
abbrev pub later : Option ℕ → PricingEvent → Option ℕ
later none e = some e.at
later (some m) e = some (max m e.at)

unfoldable pub evaluation_instant : List PricingEvent → Option ℕ
unfolding loop
evaluation_instant events = loop later none events

unfoldable pub product : Ratio → List PricingMultiplier → Ratio
product p [] = p
product p (m ∷ ms) = product (mul p m.value) ms

abbrev pub factor_pieces : List PricingMultiplier → List Piece
factor_pieces [] = []
factor_pieces (m ∷ []) = text m.name ∷ text "(×" ∷ amount m.value ∷ text ")" ∷ []
factor_pieces (m ∷ ms) = text m.name ∷ text "(×" ∷ amount m.value ∷ text ") " ∷ factor_pieces ms

abbrev pub factors_text : List PricingMultiplier → List Piece
factors_text [] = text "1" ∷ []
factors_text ms = factor_pieces ms

abbrev pub in_dollars : ℕ → Ratio
in_dollars millionths = record { num = millionths; den = 10 ^ 6 }

abbrev pub rate_of : PricingPolicy → Ratio
rate_of policy = elim policy.base_rate_pct [ none ↦ record { num = 2; den = 1 } | some rate ↦ rate ]

abbrev pub base_monthly_of : PricingPolicy → Ratio
base_monthly_of policy = record {
  num = policy.coverage_cap_usd.num * (rate_of policy).num;
  den = policy.coverage_cap_usd.den * (rate_of policy).den * 100;
}

unfoldable pub premium_at : PricingPolicy → List PricingEvent → ℕ → Premium
unfolding multipliers_at product round6
premium_at policy events now =
    let rate = rate_of policy in
    let multipliers = multipliers_at events now in
    let total = product one multipliers in
    let base_monthly = base_monthly_of policy in
    let monthly = round6 (mul base_monthly total) in
    record {
      base_rate_pct = rate;
      multipliers = multipliers;
      monthly_premium_usd = monthly;
      per_block_premium_usd = record { num = monthly; den = 10 ^ 6 * blocks_per_month };
      formula =
          (text "premium = "
            ∷ amount rate
            ∷ text "%/mo × $"
            ∷ amount policy.coverage_cap_usd
            ∷ text " × "
            ∷ [])
          ++ factors_text multipliers
          ++ (text " = $"
              ∷ amount base_monthly
              ∷ text " × "
              ∷ amount total
              ∷ text " = $"
              ∷ amount (in_dollars monthly)
              ∷ text "/mo"
              ∷ []);
    }

-- what computePremium returns, or the error that it throws
pub data Quoted : Type 0 where
  cap_not_positive no_events : Quoted
  premium : Premium → Quoted

unfoldable pub compute_premium : PricingPolicy → List PricingEvent → Quoted
unfolding evaluation_instant premium_at
compute_premium policy events =
    if leb policy.coverage_cap_usd.num 0
    then cap_not_positive
    else elim (evaluation_instant events) [
      | none ↦ no_events
      | some now ↦ premium (premium_at policy events now)
    ]
