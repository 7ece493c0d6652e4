-- ===== src/Pricing/Multipliers.antt =====
-- The multipliers that computePremium of packages/pricing/src/index.ts pushes.
use repayd.Common.{
  ℕ, ◌+◌, ◌-◌, ◌*◌, Bool, ◌&&◌, List, [], ◌∷◌, ◌++◌, ltb, if◌then◌else◌, length, any, keep, min,
}
use repayd.Pricing.Record.{
  Ratio, PricingEvent, PricingMultiplier, Piece, verified, computed, text, count, amount,
  attempt_window_ms, streak_days_max,
}
use repayd.Pricing.Streak.{
  is_attempted_breach, is_kya_verified, is_sdk_installed, is_watch_only, clean_streak_days,
}
use repayd.Pricing.Claims.{
  ClaimLoad, no_load, load_mitigated, load_value, is_within, recent_claims, anomaly_load,
  claim_load,
}

abbrev pub one : Ratio
one = record { num = 1; den = 1 }

abbrev pub mul : Ratio → Ratio → Ratio
mul a b = record { num = a.num * b.num; den = a.den * b.den }

-- 1 + a
abbrev pub plus_one : Ratio → Ratio
plus_one a = record { num = a.den + a.num; den = a.den }

abbrev pub percent : Ratio → Ratio
percent a = record { num = a.num * 100; den = a.den }

-- 1 - 0.6 * min(streak, 180) / 180
unfoldable pub streak_value : ℕ → Ratio
streak_value streak = record {
  num = 10 * streak_days_max - 6 * min streak streak_days_max;
  den = 10 * streak_days_max;
}

unfoldable pub streak_discount : ℕ → List PricingMultiplier
unfolding streak_value
streak_discount streak =
    if ltb 0 streak
    then record {
      name = "streak_discount";
      value = streak_value streak;
      provenance = computed;
      detail =
          count streak
          ∷ text " VERIFIED clean days (linear ramp to −60% at "
          ∷ count streak_days_max
          ∷ text ") → ×"
          ∷ amount (streak_value streak)
          ∷ [];
    }
      ∷ []
    else []

abbrev pub attempt_value : Ratio
attempt_value = record { num = 115; den = 100 }

unfoldable pub attempt_load : ℕ → List PricingMultiplier
attempt_load attempts =
    if ltb 0 attempts
    then record {
      name = "attempt_load";
      value = attempt_value;
      provenance = computed;
      detail =
          count attempts
          ∷ text " VERIFIED attempted breach(es) within 30 days → ×"
          ∷ amount attempt_value
          ∷ [];
    }
      ∷ []
    else []

abbrev pub claim_multiplier : ClaimLoad → ℕ → Piece → PricingMultiplier
claim_multiplier load claims note = record {
  name = "claim_load";
  value = load_value load;
  provenance = computed;
  detail = count claims ∷ note ∷ amount (load_value load) ∷ [];
}

abbrev pub claim_multipliers : ClaimLoad → ℕ → List PricingMultiplier
claim_multipliers no_load claims = []
claim_multipliers load_mitigated claims =
    claim_multiplier load_mitigated claims
      (text " VERIFIED covered claim(s) in 180d, mitigation accepted → ×")
    ∷ []
claim_multipliers load claims =
    claim_multiplier load claims (text " VERIFIED covered claim(s) in 180d → ×") ∷ []

unfoldable pub anomaly_multipliers : Ratio → List PricingMultiplier
anomaly_multipliers anomaly =
    if ltb 0 anomaly.num
    then record {
      name = "anomaly_load";
      value = plus_one anomaly;
      provenance = computed;
      detail =
          text "near-miss density over 30d (attempted+denied) → +"
          ∷ amount (percent anomaly)
          ∷ text "%"
          ∷ [];
    }
      ∷ []
    else []

unfoldable pub kya_discount : Bool → List PricingMultiplier
kya_discount b =
    if b
    then record {
      name = "kya_discount";
      value = record { num = 8; den = 10 };
      provenance = verified;
      detail = text "backing human is World-ID verified → ×0.8" ∷ [];
    }
      ∷ []
    else []

unfoldable pub sdk_discount : Bool → List PricingMultiplier
sdk_discount b =
    if b
    then record {
      name = "sdk_discount";
      value = record { num = 9; den = 10 };
      provenance = verified;
      detail = text "alibi SDK installed, instruction chain live → ×0.9" ∷ [];
    }
      ∷ []
    else []

unfoldable pub watch_only_load : Bool → List PricingMultiplier
watch_only_load b =
    if b
    then record {
      name = "watch_only_load";
      value = record { num = 2; den = 1 };
      provenance = computed;
      detail = text "watch-only coverage, no containment possible → ×2" ∷ [];
    }
      ∷ []
    else []

-- the multipliers in the order in which they are pushed
unfoldable pub multipliers_of :
    ℕ → ℕ → ClaimLoad → ℕ → Ratio → Bool → Bool → Bool → List PricingMultiplier
unfolding streak_discount attempt_load anomaly_multipliers kya_discount sdk_discount watch_only_load
multipliers_of streak attempts load claims anomaly is_verified has_sdk is_watched =
    streak_discount streak
    ++ attempt_load attempts
    ++ claim_multipliers load claims
    ++ anomaly_multipliers anomaly
    ++ kya_discount is_verified
    ++ sdk_discount has_sdk
    ++ watch_only_load is_watched

unfoldable pub recent_attempts : List PricingEvent → ℕ → ℕ
unfolding keep
recent_attempts events now =
    length (keep (λ e. is_attempted_breach e.kind && is_within attempt_window_ms now e) events)

-- what applies at an instant
unfoldable pub multipliers_at : List PricingEvent → ℕ → List PricingMultiplier
unfolding multipliers_of clean_streak_days recent_attempts claim_load anomaly_load any keep
multipliers_at events now =
    multipliers_of (clean_streak_days events now) (recent_attempts events now)
      (claim_load events now) (length (recent_claims events now)) (anomaly_load events now)
      (any (λ e. is_kya_verified e.kind) events) (any (λ e. is_sdk_installed e.kind) events)
      (any (λ e. is_watch_only e.kind) events)
