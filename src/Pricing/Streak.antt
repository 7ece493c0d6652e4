-- ===== src/Pricing/Streak.antt =====
-- cleanStreakDays of packages/pricing/src/index.ts.
use repayd.Common.{
  ℕ, ◌-◌, ◌/◌, Bool, true, false, ◌&&◌, Option, none, some, List, [], ◌∷◌, ltb, leb, if◌then◌else◌,
}
use repayd.Pricing.Record.{
  Kind, clean_day, attempted_breach, covered_claim, denied_claim, mitigation, kya_verified,
  sdk_installed, watch_only, PricingEvent, day_ms,
}

abbrev pub is_clean_day : Kind → Bool
is_clean_day clean_day = true
is_clean_day _ = false

abbrev pub is_attempted_breach : Kind → Bool
is_attempted_breach attempted_breach = true
is_attempted_breach _ = false

abbrev pub is_covered_claim : Kind → Bool
is_covered_claim covered_claim = true
is_covered_claim _ = false

abbrev pub is_mitigation : Kind → Bool
is_mitigation mitigation = true
is_mitigation _ = false

abbrev pub is_kya_verified : Kind → Bool
is_kya_verified kya_verified = true
is_kya_verified _ = false

abbrev pub is_sdk_installed : Kind → Bool
is_sdk_installed sdk_installed = true
is_sdk_installed _ = false

abbrev pub is_watch_only : Kind → Bool
is_watch_only watch_only = true
is_watch_only _ = false

-- an infraction, which resets the streak, and a near miss of the anomaly load
abbrev pub is_infraction : Kind → Bool
is_infraction attempted_breach = true
is_infraction denied_claim = true
is_infraction _ = false

-- e.at > last, where none is -Infinity
abbrev pub is_after : ℕ → Option ℕ → Bool
is_after at none = true
is_after at (some last) = ltb last at

abbrev pub is_from : ℕ → Option ℕ → Bool
is_from at none = true
is_from at (some last) = leb last at

-- e.at < anchor, where none is Infinity
abbrev pub is_before : ℕ → Option ℕ → Bool
is_before at none = true
is_before at (some anchor) = ltb at anchor

abbrev pub later_infraction : Option ℕ → PricingEvent → Option ℕ
later_infraction last e = if is_infraction e.kind && is_after e.at last then some e.at else last

abbrev pub earlier_anchor : Option ℕ → Option ℕ → PricingEvent → Option ℕ
earlier_anchor last anchor e =
    if is_clean_day e.kind && is_from e.at last && is_before e.at anchor then some e.at else anchor

module _ {ℓ κ} {A : Type ℓ} {B : Type κ} where
  -- a loop over an array that updates a variable
  unfoldable pub loop : (B → A → B) → B → List A → B
  loop step b [] = b
  loop step b (x ∷ xs) = loop step (step b x) xs

abbrev pub days_since : ℕ → Option ℕ → ℕ
days_since now none = 0
days_since now (some anchor) = (now - anchor) / day_ms

unfoldable pub last_infraction : List PricingEvent → Option ℕ
unfolding loop
last_infraction events = loop later_infraction none events

unfoldable pub anchor_of : Option ℕ → List PricingEvent → Option ℕ
unfolding loop
anchor_of last events = loop (earlier_anchor last) none events

unfoldable pub clean_streak_days : List PricingEvent → ℕ → ℕ
unfolding last_infraction anchor_of
clean_streak_days events now = days_since now (anchor_of (last_infraction events) events)
