-- ===== src/Pricing/Examples.antt =====
-- Tests of packages/pricing/src/index.ts on a small driving record.
use mathlib.Core.List.{Permᴰ}
use repayd.Common.{ℕ, ◌*◌, ◌≡◌, refl, none, some, List, [], ◌∷◌, any, keep}
use repayd.Pricing.Record.{
  PricingEvent, PricingPolicy, clean_day, attempted_breach, covered_claim, mitigation, kya_verified,
}
use repayd.Pricing.Streak.{loop, last_infraction, anchor_of, clean_streak_days}
use repayd.Pricing.Claims.{
  near_misses, anomaly_load, insert_by_at, sort_by_at, last, is_mitigated, claim_load,
}
use repayd.Pricing.Multipliers.{
  multipliers_at, multipliers_of, recent_attempts, streak_value, streak_discount, attempt_load,
  anomaly_multipliers, kya_discount, sdk_discount, watch_only_load,
}
use repayd.Pricing.Premium.{
  compute_premium, premium, evaluation_instant, premium_at, product, round6, Quoted,
}
use repayd.Pricing.Order.{compute_premium_perm}
use repayd.Pricing.Earliest.{CountsFromEarliest, clean_streak_days_lem}

abbrev breach : PricingEvent
breach = record { kind = attempted_breach; at = 2 * 86400000; amount_usd = none }

abbrev clean : PricingEvent
clean = record { kind = clean_day; at = 3 * 86400000; amount_usd = none }

abbrev early_clean : PricingEvent
early_clean = record { kind = clean_day; at = 86400000; amount_usd = none }

abbrev claim : PricingEvent
claim = record { kind = covered_claim; at = 50 * 86400000; amount_usd = some 100 }

abbrev fixed : PricingEvent
fixed = record { kind = mitigation; at = 60 * 86400000; amount_usd = none }

abbrev verified_owner : PricingEvent
verified_owner = record { kind = kya_verified; at = 93 * 86400000; amount_usd = none }

abbrev events : List PricingEvent
events = early_clean ∷ breach ∷ claim ∷ clean ∷ fixed ∷ verified_owner ∷ []

abbrev swapped : List PricingEvent
swapped = breach ∷ early_clean ∷ claim ∷ clean ∷ fixed ∷ verified_owner ∷ []

abbrev policy : PricingPolicy
policy = record { coverage_cap_usd = record { num = 1000; den = 1 }; base_rate_pct = none }

abbrev monthly : Quoted → ℕ
monthly (premium p) = p.monthly_premium_usd
monthly _ = 0

-- 90 clean days, a mitigated claim and a verified owner: 20 * 0.7 * 1.5 * 0.8 dollars
monthly_premium : monthly (compute_premium policy events) ≡ 16800000
unfolding compute_premium evaluation_instant loop premium_at multipliers_at multipliers_of
    clean_streak_days last_infraction anchor_of recent_attempts near_misses anomaly_load claim_load
    keep any sort_by_at insert_by_at last is_mitigated streak_discount streak_value attempt_load
    anomaly_multipliers kya_discount sdk_discount watch_only_load product round6
monthly_premium = refl

compute_premium_perm_example : compute_premium policy events ≡ compute_premium policy swapped
compute_premium_perm_example = compute_premium_perm policy (Permᴰ.swap refl refl)

clean_streak_days_lem_example :
    CountsFromEarliest events (93 * 86400000) (clean_streak_days events (93 * 86400000))
clean_streak_days_lem_example = clean_streak_days_lem events (93 * 86400000)
