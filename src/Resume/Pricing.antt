-- ===== src/Resume/Pricing.antt =====
-- packages/record/src/pricing.ts: the product of a premium's multipliers, and the formula that the
-- premium is held against.
use repayd.Common.{ℕ, ◌*◌, ◌≡◌, refl, ap, List, [], ◌∷◌, arith}
use repayd.Pricing.Record.{Ratio, PricingEvent, PricingPolicy, PricingMultiplier, Premium}
use repayd.Pricing.Multipliers.{mul, one, multipliers_at}
use repayd.Pricing.Premium.{round6, product, premium_at}

abbrev pub multiplier_from : Ratio → List PricingMultiplier → Ratio
multiplier_from acc [] = acc
multiplier_from acc (m ∷ ms) = multiplier_from (mul acc m.value) ms

unfoldable pub multiplier_of : Premium → Ratio
multiplier_of premium = multiplier_from one premium.multipliers

-- cap × rate × product / 100
unfoldable pub expected_monthly_usd : Premium → Ratio → Ratio
unfolding multiplier_of
expected_monthly_usd premium cap =
    let p = mul (mul cap premium.base_rate_pct) (multiplier_of premium) in
    record { num = p.num; den = p.den * 100 }

product-multiplier_from :
    (acc : Ratio) (ms : List PricingMultiplier) → product acc ms ≡ multiplier_from acc ms
unfolding product
product-multiplier_from acc [] = refl
product-multiplier_from acc (m ∷ ms) = product-multiplier_from (mul acc m.value) ms

-- The monthly premium of computePremium is expectedMonthlyUsd of that premium and the policy's cap,
-- rounded to millionths of a dollar.
pub premium_at-expected_monthly_usd :
    (policy : PricingPolicy) (events : List PricingEvent) (now : ℕ)
    → (premium_at policy events now).monthly_premium_usd
      ≡ round6 (expected_monthly_usd (premium_at policy events now) policy.coverage_cap_usd)
unfolding premium_at expected_monthly_usd round6
premium_at-expected_monthly_usd policy events now =
    rw (product-multiplier_from one (multipliers_at events now)) (same _ _ _ _ _ _)
  where
    same :
        (a b c x y z : ℕ)
        → round6 (record { num = a * b * c; den = x * y * 100 * z })
          ≡ round6 (record { num = a * b * c; den = x * y * z * 100 })
    same a b c x y z = ap (λ d. round6 (record { num = a * b * c; den = d })) (grind arith)
