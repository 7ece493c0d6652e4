-- ===== src/Pricing/Claims.antt =====
-- claimLoad and anomalyLoad of packages/pricing/src/index.ts.
use repayd.Common.{
  ℕ, ◌+◌, ◌*◌, Bool, false, ◌&&◌, Option, none, some, List, [], ◌∷◌, ltb, leb, if◌then◌else◌,
  length, any, keep, min,
}
use repayd.Pricing.Record.{Ratio, PricingEvent, attempt_window_ms, claim_window_ms}
use repayd.Pricing.Streak.{is_infraction, is_covered_claim, is_mitigation}

-- e.at > now - window, without going below zero
abbrev pub is_within : ℕ → ℕ → PricingEvent → Bool
is_within window now e = ltb now (e.at + window)

unfoldable pub near_misses : List PricingEvent → ℕ → ℕ
unfolding keep
near_misses events now =
    length (keep (λ e. is_infraction e.kind && is_within attempt_window_ms now e) events)

-- 0.4 times the near misses of the window, six at most, in sixths
unfoldable pub anomaly_load : List PricingEvent → ℕ → Ratio
unfolding near_misses
anomaly_load events now = record { num = 4 * min 6 (near_misses events now); den = 10 * 6 }

-- claims.sort by at, which is stable
unfoldable pub insert_by_at : PricingEvent → List PricingEvent → List PricingEvent
insert_by_at e [] = e ∷ []
insert_by_at e (x ∷ xs) =
    let rest = insert_by_at e xs in if ltb e.at x.at then e ∷ x ∷ xs else x ∷ rest

unfoldable pub sort_by_at : List PricingEvent → List PricingEvent → List PricingEvent
unfolding insert_by_at
sort_by_at sorted [] = sorted
sort_by_at sorted (e ∷ es) = sort_by_at (insert_by_at e sorted) es

unfoldable pub last : List PricingEvent → Option PricingEvent
last [] = none
last (x ∷ []) = some x
last (x ∷ y ∷ ys) = last (y ∷ ys)

-- a mitigation at or after the last claim
unfoldable pub is_mitigated : List PricingEvent → Option PricingEvent → Bool
unfolding any
is_mitigated events none = false
is_mitigated events (some claim) = any (λ e. is_mitigation e.kind && leb claim.at e.at) events

abbrev pub recent_claims : List PricingEvent → ℕ → List PricingEvent
recent_claims events now =
    keep (λ e. is_covered_claim e.kind && is_within claim_window_ms now e) events

pub data ClaimLoad : Type 0 where
  no_load load_first load_repeat load_mitigated : ClaimLoad

-- the load of each case: 1, CLAIM_LOAD_FIRST, CLAIM_LOAD_REPEAT and CLAIM_LOAD_MITIGATED
abbrev pub load_value : ClaimLoad → Ratio
load_value no_load = record { num = 1; den = 1 }
load_value load_first = record { num = 3; den = 1 }
load_value load_repeat = record { num = 5; den = 1 }
load_value load_mitigated = record { num = 3; den = 2 }

unfoldable pub claim_load : List PricingEvent → ℕ → ClaimLoad
unfolding keep sort_by_at last is_mitigated
claim_load events now =
    let claims = recent_claims events now in
    if leb (length claims) 0
    then no_load
    else if is_mitigated events (last (sort_by_at [] claims))
    then load_mitigated
    else if leb 2 (length claims)
    then load_repeat
    else load_first
