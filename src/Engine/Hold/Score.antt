-- ===== src/Engine/Hold/Score.antt =====
-- The reasons that judgeHold of packages/engine/src/engine.ts lists account for its decision.
use repayd.Common.{
  ℕ, ◌+◌, ◌≤◌, ◌<◌, ◌≡◌, ◌↔◌, refl, String, Bool, true, false, Option, none, some, List, [], ◌∷◌,
  ◌++◌, arith, leb, if◌then◌else◌, str_eq,
}
use repayd.Engine.Policy.{Policy}
use repayd.Engine.Verdict.{Provenance, HoldAction, Transaction, Piece, Reason, BehavioralFacts}
use repayd.Engine.Hold.{
  Assessment, push, check_amount, check_recipient, check_curfew, check_age, check_strikes,
  check_drainer, check_sigma, check_hour, check_owner, assess, judge_hold,
}

-- the points that the published tariff gives a reason
abbrev pub weight : ℕ → String → ℕ
weight strikes tag =
    if str_eq tag "AMOUNT_ABOVE_PER_TX"
    then 2
    else if str_eq tag "DRAINER_SIGNATURE"
    then 3
    else if str_eq tag "BLOCKLIST_STRIKES"
    then (if leb 3 strikes then 3 else 1)
    else 1

abbrev pub total_weight : ℕ → List Reason → ℕ
total_weight strikes [] = 0
total_weight strikes (r ∷ rs) = weight strikes r.tag + total_weight strikes rs

total_weight-append :
    (strikes : ℕ) (rs : List Reason) (r : Reason)
    → total_weight strikes (rs ++ r ∷ []) ≡ total_weight strikes rs + weight strikes r.tag
total_weight-append strikes [] r = omega arith
total_weight-append strikes (q ∷ rs) r = omega (arith, total_weight-append strikes rs r)

-- the score is the weight of the reasons
abbrev pub IsExplained : ℕ → Assessment → Type 0
IsExplained strikes a = total_weight strikes a.reasons ≡ a.score

module _ (strikes : ℕ) where
  push-IsExplained :
      (tag : String) (p : Provenance) (d : List Piece) (points : ℕ) (a : Assessment)
      → weight strikes tag ≡ points
      → IsExplained strikes a
      → IsExplained strikes (push tag p d points a)
  unfolding push
  push-IsExplained tag p d points a w h = omega (
    arith,
    total_weight-append strikes a.reasons (record { tag = tag; provenance = p; detail = d }),
  )

  if-IsExplained :
      (b : Bool) (x y : Assessment)
      → IsExplained strikes x
      → IsExplained strikes y
      → IsExplained strikes (if b then x else y)
  if-IsExplained true x y hx hy = hx
  if-IsExplained false x y hx hy = hy

  check_amount-IsExplained :
      (policy : Policy) (tx : Transaction) (a : Assessment)
      → IsExplained strikes a
      → IsExplained strikes (check_amount policy tx a)
  unfolding check_amount
  check_amount-IsExplained policy tx a h =
      if-IsExplained _ _ _ (push-IsExplained _ _ _ 2 a refl h) h

  check_recipient-IsExplained :
      (policy : Policy) (tx : Transaction) (a : Assessment)
      → IsExplained strikes a
      → IsExplained strikes (check_recipient policy tx a)
  unfolding check_recipient
  check_recipient-IsExplained policy tx a h =
      if-IsExplained _ _ _ h (push-IsExplained _ _ _ 1 a refl h)

  check_curfew-IsExplained :
      (policy : Policy) (tx : Transaction) (a : Assessment)
      → IsExplained strikes a
      → IsExplained strikes (check_curfew policy tx a)
  unfolding check_curfew
  check_curfew-IsExplained policy tx a h =
      if-IsExplained _ _ _ (push-IsExplained _ _ _ 1 a refl h) h

  check_age-IsExplained :
      (seen : Option ℕ) (tx : Transaction) (a : Assessment)
      → IsExplained strikes a
      → IsExplained strikes (check_age seen tx a)
  unfolding check_age
  check_age-IsExplained none tx a h = push-IsExplained _ _ _ 1 a refl h
  check_age-IsExplained (some t) tx a h = if-IsExplained _ _ _ (push-IsExplained _ _ _ 1 a refl h) h

  check_strikes-IsExplained :
      (a : Assessment) → IsExplained strikes a → IsExplained strikes (check_strikes strikes a)
  unfolding check_strikes
  check_strikes-IsExplained a h = if-IsExplained _ _ _ (push-IsExplained _ _ _ _ a refl h) h

  check_drainer-IsExplained :
      (known : Bool) (a : Assessment)
      → IsExplained strikes a
      → IsExplained strikes (check_drainer known a)
  unfolding check_drainer
  check_drainer-IsExplained known a h = if-IsExplained _ _ _ (push-IsExplained _ _ _ 3 a refl h) h

  check_sigma-IsExplained :
      (sigma : Option ℕ) (a : Assessment)
      → IsExplained strikes a
      → IsExplained strikes (check_sigma sigma a)
  unfolding check_sigma
  check_sigma-IsExplained none a h = h
  check_sigma-IsExplained (some s) a h = if-IsExplained _ _ _ (push-IsExplained _ _ _ 1 a refl h) h

  check_hour-IsExplained :
      (hours : List ℕ) (hour : ℕ) (a : Assessment)
      → IsExplained strikes a
      → IsExplained strikes (check_hour hours hour a)
  unfolding check_hour
  check_hour-IsExplained [] hour a h = h
  check_hour-IsExplained (x ∷ xs) hour a h =
      if-IsExplained _ _ _ h (push-IsExplained _ _ _ 1 a refl h)

  check_owner-IsExplained :
      (policy : Policy) (tx : Transaction) (a : Assessment)
      → IsExplained strikes a
      → IsExplained strikes (check_owner policy tx a)
  unfolding check_owner
  check_owner-IsExplained policy tx a h = if-IsExplained _ _ _ (push-IsExplained _ _ _ 1 a refl h) h

pub assess-IsExplained :
    (policy : Policy) (tx : Transaction) (facts : BehavioralFacts)
    → IsExplained facts.recipient_on_blocklist_strikes (assess policy tx facts)
unfolding assess
assess-IsExplained policy tx facts =
    let s = facts.recipient_on_blocklist_strikes in
    let a₁ = check_amount-IsExplained s policy tx _ refl in
    let a₃ =
      check_curfew-IsExplained s policy tx _ (check_recipient-IsExplained s policy tx _ a₁) in
    let a₄ = check_age-IsExplained s facts.recipient_first_seen tx _ a₃ in
    let a₆ =
      check_drainer-IsExplained s facts.known_drainer_calldata _
        (check_strikes-IsExplained s _ a₄) in
    check_owner-IsExplained s policy tx _
      (check_hour-IsExplained s facts.hour_of_day_history _ _ (check_sigma-IsExplained s _ _ a₆))

-- A held transaction is frozen exactly when the reasons that the verdict lists weigh three points or
-- more, and is released exactly when they weigh less.
pub judge_hold_explained :
    (policy : Policy) (tx : Transaction) (facts : BehavioralFacts)
    → let v = judge_hold policy tx facts in
      let w = total_weight facts.recipient_on_blocklist_strikes v.reasons in
      ((v.hold_action ≡ HoldAction.freeze) ↔ (3 ≤ w))
      × ((v.hold_action ≡ HoldAction.release) ↔ (w < 3))
unfolding judge_hold
judge_hold_explained policy tx facts = ground (arith, assess-IsExplained policy tx facts)
