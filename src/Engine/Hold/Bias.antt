-- ===== src/Engine/Hold/Bias.antt =====
-- The fail-safe bias of judgeHold of packages/engine/src/engine.ts: which facts freeze a transfer,
-- that more evidence never releases one, and what a clean transfer is.
use repayd.Common.{
  ℕ, ◌+◌, ◌*◌, ◌/◌, ◌%◌, ◌≤◌, ◌<◌, ◌≡◌, ◌⊎◌, refl, inl, inr, Bool, true, false, Option, none, some,
  List, [], ◌∷◌, arith, ltb, leb, ◌==◌, any, if◌then◌else◌,
}
use repayd.Engine.Policy.{Policy, effective_limit, is_allowlisted, curfew_active}
use repayd.Engine.Sigma.{sigma_deviation}
use repayd.Engine.Verdict.{HoldAction, Transaction, BehavioralFacts}
use repayd.Engine.Hold.{
  Assessment, push, check_amount, check_recipient, check_curfew, check_age, check_strikes,
  check_drainer, check_sigma, check_hour, check_owner, assess, judge_hold,
}

abbrev pub zero_score : Assessment
zero_score = record { reasons = []; score = 0 }

-- Each check adds to the score what it adds from nothing.
module _ (policy : Policy) (tx : Transaction) (a : Assessment) where
  score-check_amount :
      (check_amount policy tx a).score
      ≡ a.score + (if ltb (effective_limit policy tx.to) tx.amount then 2 else 0)
  unfolding check_amount push
  score-check_amount = ground arith

  score-check_recipient :
      (check_recipient policy tx a).score ≡ a.score + (if is_allowlisted policy tx.to then 0 else 1)
  unfolding check_recipient push
  score-check_recipient = ground arith

  score-check_curfew :
      (check_curfew policy tx a).score
      ≡ a.score + (if curfew_active policy tx.block_timestamp then 1 else 0)
  unfolding check_curfew push
  score-check_curfew = ground arith

  score-check_age :
      (seen : Option ℕ)
      → (check_age seen tx a).score ≡ a.score + (check_age seen tx zero_score).score
  unfolding check_age push
  score-check_age none = ground arith
  score-check_age (some t) = ground arith

  score-check_owner :
      (check_owner policy tx a).score ≡ a.score + (check_owner policy tx zero_score).score
  unfolding check_owner push
  score-check_owner = ground arith

module _ (a : Assessment) where
  score-check_strikes :
      (strikes : ℕ)
      → (check_strikes strikes a).score
        ≡ a.score + (if ltb 0 strikes then (if leb 3 strikes then 3 else 1) else 0)
  unfolding check_strikes push
  score-check_strikes strikes = ground arith

  score-check_drainer :
      (known : Bool) → (check_drainer known a).score ≡ a.score + (if known then 3 else 0)
  unfolding check_drainer push
  score-check_drainer known = ground arith

  score-check_sigma :
      (sigma : Option ℕ)
      → (check_sigma sigma a).score ≡ a.score + (check_sigma sigma zero_score).score
  unfolding check_sigma push
  score-check_sigma none = ground arith
  score-check_sigma (some s) = ground arith

  score-check_hour :
      (hours : List ℕ) (hour : ℕ)
      → (check_hour hours hour a).score ≡ a.score + (check_hour hours hour zero_score).score
  unfolding check_hour push
  score-check_hour [] hour = ground arith
  score-check_hour (h ∷ hs) hour = ground arith

-- the score of a transfer is a sum with a summand for each check
abbrev pub points : Policy → Transaction → BehavioralFacts → ℕ
points policy tx facts =
    0
    + (if ltb (effective_limit policy tx.to) tx.amount then 2 else 0)
    + (if is_allowlisted policy tx.to then 0 else 1)
    + (if curfew_active policy tx.block_timestamp then 1 else 0)
    + (check_age facts.recipient_first_seen tx zero_score).score
    + (if ltb 0 facts.recipient_on_blocklist_strikes
        then (if leb 3 facts.recipient_on_blocklist_strikes then 3 else 1)
        else 0)
    + (if facts.known_drainer_calldata then 3 else 0)
    + (check_sigma (sigma_deviation tx.amount facts.amount_history) zero_score).score
    + (check_hour facts.hour_of_day_history (tx.block_timestamp % 86_400 / 3600) zero_score).score
    + (check_owner policy tx zero_score).score

pub score-assess :
    (policy : Policy) (tx : Transaction) (facts : BehavioralFacts)
    → (assess policy tx facts).score ≡ points policy tx facts
unfolding assess
score-assess policy tx facts =
    rw
      (
        score-check_owner, score-check_hour, score-check_sigma, score-check_drainer,
        score-check_strikes, score-check_age, score-check_curfew, score-check_recipient,
        score-check_amount,
      )
      refl

check_sigma_within :
    (deviation : Option ℕ)
    → ((sigma : ℕ) → deviation ≡ some sigma → sigma ≤ 3000)
    → check_sigma deviation zero_score ≡ zero_score
unfolding check_sigma
check_sigma_within none h = refl
check_sigma_within (some s) h = ground (arith, h s refl)

check_hour_seen :
    (hours : List ℕ) (hour : ℕ)
    → any (λ h. h == hour) hours ≡ true
    → check_hour hours hour zero_score ≡ zero_score
unfolding check_hour
check_hour_seen [] hour h = refl
check_hour_seen (x ∷ xs) hour h = rw h

module _ (policy : Policy) (tx : Transaction) (facts : BehavioralFacts) where
  -- A known drainer call, three strikes against the recipient, or an amount above the limit for a
  -- recipient off the allowlist is enough to freeze a held transfer, whatever else is known of it.
  pub judge_hold_freezes :
      ((facts.known_drainer_calldata ≡ true)
        ⊎ ((3 ≤ facts.recipient_on_blocklist_strikes)
            ⊎ ((effective_limit policy tx.to < tx.amount) × (is_allowlisted policy tx.to ≡ false))))
      → (judge_hold policy tx facts).hold_action ≡ HoldAction.freeze
  unfolding judge_hold
  judge_hold_freezes (inl drainer) = ground (arith, score-assess policy tx facts)
  judge_hold_freezes (inr (inl strikes)) = ground (arith, score-assess policy tx facts)
  judge_hold_freezes (inr (inr both)) = ground (arith, score-assess policy tx facts)

  -- What was frozen stays frozen when strikes are added against the recipient, or when the call is
  -- found to match a drainer.
  pub judge_hold_mono :
      (strikes : ℕ) (drainer : Bool)
      → facts.recipient_on_blocklist_strikes ≤ strikes
      → (facts.known_drainer_calldata ≡ true → drainer ≡ true)
      → (judge_hold policy tx facts).hold_action ≡ HoldAction.freeze
      → let worse = record facts {
        recipient_on_blocklist_strikes = strikes;
        known_drainer_calldata = drainer;
      } in
        (judge_hold policy tx worse).hold_action ≡ HoldAction.freeze
  unfolding judge_hold
  judge_hold_mono strikes drainer more kept frozen = ground (
    arith,
    score-assess policy tx facts,
    score-assess policy tx (record facts {
      recipient_on_blocklist_strikes = strikes;
      known_drainer_calldata = drainer;
    }),
  )

  -- A transfer within the limit, to an allowlisted recipient first seen a week ago or more that has
  -- no strikes, outside the curfew, with no drainer call, at an hour seen before and with no amount
  -- above three deviations, is released with no reason given.
  pub judge_hold_clean :
      (seen : ℕ)
      → tx.amount ≤ effective_limit policy tx.to
      → is_allowlisted policy tx.to ≡ true
      → curfew_active policy tx.block_timestamp ≡ false
      → facts.recipient_first_seen ≡ some seen
      → seen + 7 * 86_400 ≤ tx.block_timestamp
      → facts.recipient_on_blocklist_strikes ≡ 0
      → facts.known_drainer_calldata ≡ false
      → any (λ h. h == tx.block_timestamp % 86_400 / 3600) facts.hour_of_day_history ≡ true
      → ((sigma : ℕ) → sigma_deviation tx.amount facts.amount_history ≡ some sigma → sigma ≤ 3000)
      → ((judge_hold policy tx facts).hold_action ≡ HoldAction.release)
        × ((judge_hold policy tx facts).reasons ≡ [])
  unfolding judge_hold assess
  judge_hold_clean seen amount listed curfew first young strikes drainer hour sigma =
      rw
        (
          amount_step, recipient_step, curfew_step, age_step, strikes_step, drainer_step,
          sigma_step, hour_step, owner_step,
        )
        (refl, refl)
    where
      amount_step : check_amount policy tx zero_score ≡ zero_score
      amount_step = unfold check_amount in ground arith

      recipient_step : check_recipient policy tx zero_score ≡ zero_score
      recipient_step = unfold check_recipient in ground arith

      curfew_step : check_curfew policy tx zero_score ≡ zero_score
      curfew_step = unfold check_curfew in ground arith

      age_step : check_age facts.recipient_first_seen tx zero_score ≡ zero_score
      age_step = unfold check_age in ground arith

      strikes_step : check_strikes facts.recipient_on_blocklist_strikes zero_score ≡ zero_score
      strikes_step = unfold check_strikes in ground arith

      drainer_step : check_drainer facts.known_drainer_calldata zero_score ≡ zero_score
      drainer_step = unfold check_drainer in ground arith

      sigma_step :
          check_sigma (sigma_deviation tx.amount facts.amount_history) zero_score ≡ zero_score
      sigma_step = check_sigma_within (sigma_deviation tx.amount facts.amount_history) sigma

      hour_step :
          check_hour facts.hour_of_day_history (tx.block_timestamp % 86_400 / 3600) zero_score
          ≡ zero_score
      hour_step = check_hour_seen facts.hour_of_day_history _ hour

      owner_step : check_owner policy tx zero_score ≡ zero_score
      owner_step = unfold check_owner in ground arith
