-- ===== src/Engine/Quote.antt =====
-- packages/engine/src/pricing.ts: the premium quote of a driving record.
pub mod Lapse
use repayd.Common.{
  ℕ, ◌+◌, ◌-◌, ◌*◌, ◌/◌, Bool, ◌||◌, List, [], ◌∷◌, ◌++◌, ltb, leb, if◌then◌else◌, any, min,
}
use repayd.Pricing.Record.{Ratio}
use repayd.Pricing.Multipliers.{mul, one, plus_one}
use repayd.Engine.Verdict.{Reason, Provenance, verified, computed, Piece, text, number, quotient}

pub record DrivingRecord : Type 0 where
  pub clean_streak_days : ℕ
  pub anomaly_load : Ratio
  pub attempted_breaches : List ℕ
  pub recent_claims : List ℕ
  pub lifetime_claims : ℕ
  pub world_id_verified : Bool
  pub sdk_installed : Bool
  pub watch_only : Bool
  pub now : ℕ

pub record Quote : Type 0 where
  pub multiplier : Ratio
  pub monthly_premium : ℕ
  pub reasons : List Reason

abbrev pub thirty_days : ℕ
thirty_days = 30 * 86_400

abbrev pub six_months : ℕ
six_months = 182 * 86_400

-- the multiplier and the reasons so far
pub record Loaded : Type 0 where
  pub multiplier : Ratio
  pub reasons : List Reason

abbrev pub load : Ratio → Reason → Loaded → Loaded
load factor reason l = record {
  multiplier = mul l.multiplier factor;
  reasons = l.reasons ++ (reason ∷ []);
}

unfoldable pub load_streak : ℕ → Loaded → Loaded
load_streak days l =
    let capped = min days 180 in
    if ltb 0 capped
    then load (record { num = 10 * 180 - 6 * capped; den = 10 * 180 })
        (record {
          tag = "STREAK_DISCOUNT";
          provenance = computed;
          detail =
              number days ∷ text " clean days → −" ∷ quotient (60 * capped) 180 ∷ text "%" ∷ [];
        })
        l
    else l

-- 0.4 times the behavioral variance, which is 1 at most
abbrev pub anomaly_of : Ratio → Ratio
anomaly_of a = record { num = min a.num a.den * 4; den = a.den * 10 }

unfoldable pub load_anomaly : Ratio → Loaded → Loaded
load_anomaly a l =
    if ltb 0 (anomaly_of a).num
    then load (plus_one (anomaly_of a))
        (record {
          tag = "ANOMALY_LOAD";
          provenance = computed;
          detail =
              text "behavioral variance → +"
              ∷ quotient ((anomaly_of a).num * 100) (anomaly_of a).den
              ∷ text "%"
              ∷ [];
        })
        l
    else l

unfoldable pub load_attempt : Bool → Loaded → Loaded
load_attempt recent l =
    if recent
    then load (record { num = 115; den = 100 })
        (record {
          tag = "ATTEMPT_LOAD";
          provenance = computed;
          detail = text "attempted breach within 30 days → +15%" ∷ [];
        })
        l
    else l

unfoldable pub load_claim : Bool → ℕ → Loaded → Loaded
load_claim recent lifetime_claims l =
    let factor = if leb 2 lifetime_claims then 5 else 3 in
    if recent || ltb 0 lifetime_claims
    then if recent
      then load (record { num = factor; den = 1 })
          (record {
            tag = "CLAIM_LOAD";
            provenance = computed;
            detail = text "paid claim within 6 months → ×" ∷ number factor ∷ [];
          })
          l
      else l
    else l

unfoldable pub load_kya : Bool → Loaded → Loaded
load_kya is_verified l =
    if is_verified
    then load (record { num = 8; den = 10 })
        (record {
          tag = "KYA_DISCOUNT";
          provenance = verified;
          detail = text "backing human is World-ID verified → −20%" ∷ [];
        })
        l
    else l

unfoldable pub load_sdk : Bool → Loaded → Loaded
load_sdk installed l =
    if installed
    then load (record { num = 9; den = 10 })
        (record {
          tag = "SDK_DISCOUNT";
          provenance = verified;
          detail = text "alibi SDK installed → −10%" ∷ [];
        })
        l
    else l

unfoldable pub load_watch_only : Bool → Loaded → Loaded
load_watch_only watched l =
    if watched
    then load (record { num = 2; den = 1 })
        (record {
          tag = "WATCH_ONLY_LOAD";
          provenance = computed;
          detail = text "no containment (watch-only) → ×2 moral hazard load" ∷ [];
        })
        l
    else l

-- the multipliers before the claim load, and those after it
unfoldable pub loads_before : DrivingRecord → Loaded
unfolding any load_streak load_anomaly load_attempt
loads_before r = load_attempt (any (λ t. ltb r.now (t + thirty_days)) r.attempted_breaches) (
    load_anomaly r.anomaly_load
      (load_streak r.clean_streak_days (record { multiplier = one; reasons = [] })))

unfoldable pub loads_after : DrivingRecord → Loaded → Loaded
unfolding load_kya load_sdk load_watch_only
loads_after r l =
    load_watch_only r.watch_only (load_sdk r.sdk_installed (load_kya r.world_id_verified l))

abbrev pub has_recent_claim : DrivingRecord → Bool
has_recent_claim r = any (λ t. ltb r.now (t + six_months)) r.recent_claims

unfoldable pub loads : DrivingRecord → Loaded
unfolding loads_before loads_after load_claim any
loads r = loads_after r (load_claim (has_recent_claim r) r.lifetime_claims (loads_before r))

-- BigInt(Math.round(cap * 0.02 * multiplier)), halves upwards
unfoldable pub monthly_of : ℕ → Ratio → ℕ
monthly_of cap m = (2 * (cap * 2 * m.num) + 100 * m.den) / (2 * (100 * m.den))

unfoldable pub quote_of : ℕ → Loaded → Quote
unfolding monthly_of
quote_of coverage_cap l = record {
  multiplier = l.multiplier;
  monthly_premium = monthly_of coverage_cap l.multiplier;
  reasons = l.reasons;
}

unfoldable pub quote : DrivingRecord → ℕ → Quote
unfolding loads quote_of
quote r coverage_cap = quote_of coverage_cap (loads r)
