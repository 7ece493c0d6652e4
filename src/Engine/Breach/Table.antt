-- ===== src/Engine/Breach/Table.antt =====
-- The decision table of judgeBreach of packages/engine/src/engine.ts, and its agreement with the
-- hold-window check.
use repayd.Common.{◌≤◌, ◌<◌, ◌≡◌, ◌≢◌, ◌↔◌, ◌⊎◌, refl, true, false, List, [], arith, inl, inr, Bool}
use mathlib.Core.Path.{subst}
use repayd.Engine.Policy.{Policy, effective_limit, is_allowlisted, curfew_active}
use repayd.Engine.Verdict.{Alibi, Outcome, Transaction, BehavioralFacts, alibi_of, Reason}
use repayd.Engine.Hold.{assess, judge_hold}
use repayd.Engine.Hold.Score.{total_weight, assess-IsExplained}
use repayd.Engine.Hold.Bias.{score-assess}
use repayd.Engine.Breach.{violated, judge_breach, adjudicate}

-- one of the published rules that make a loss a covered event is broken
abbrev pub BreaksRule : Policy → Transaction → BehavioralFacts → Type 0
BreaksRule policy tx facts =
    (effective_limit policy tx.to < tx.amount)
    ⊎ ((is_allowlisted policy tx.to ≡ false)
        ⊎ ((curfew_active policy tx.block_timestamp ≡ true)
            ⊎ ((facts.known_drainer_calldata ≡ true) ⊎ (3 ≤ facts.recipient_on_blocklist_strikes))))

violated_iff :
    (policy : Policy) (tx : Transaction) (facts : BehavioralFacts)
    → (violated policy tx facts ≡ true) ↔ BreaksRule policy tx facts
unfolding violated
violated_iff policy tx facts = (λ h. ground arith, λ h. ground arith)

-- the table, for a test that decides whether a rule `R` is broken
adjudicate-table :
    (policy : Policy) (tx : Transaction) (alibi : Alibi) (broken : Bool) (reasons : List Reason)
    (R : Type 0)
    → (broken ≡ true) ↔ R
    → let v = adjudicate policy tx alibi broken reasons in
      let owner = alibi ≡ Alibi.owner_signed in
      ((v.outcome ≡ Outcome.denied_owner_origin) ↔ owner)
      × ((v.outcome ≡ Outcome.covered) ↔ ((¬ owner) × R))
      × ((v.outcome ≡ Outcome.dismissed) ↔ ((¬ owner) × (¬ R)))
unfolding adjudicate
adjudicate-table policy tx Alibi.owner_signed broken reasons R h = grind arith
adjudicate-table policy tx Alibi.unknown true reasons R h = grind (arith, h.0 refl)
adjudicate-table policy tx Alibi.unknown false reasons R h = grind (arith, h.1)
adjudicate-table policy tx Alibi.external true reasons R h = grind (arith, h.0 refl)
adjudicate-table policy tx Alibi.external false reasons R h = grind (arith, h.1)

module _ (policy : Policy) (tx : Transaction) (facts : BehavioralFacts) where
  -- A loss is denied exactly when the owner signed the instruction; otherwise it is covered exactly
  -- when a published rule is broken, and dismissed exactly when none is.
  pub judge_breach_table :
      let v = judge_breach policy tx facts in
      let owner = alibi_of tx.instruction ≡ Alibi.owner_signed in
      ((v.outcome ≡ Outcome.denied_owner_origin) ↔ owner)
      × ((v.outcome ≡ Outcome.covered) ↔ ((¬ owner) × BreaksRule policy tx facts))
      × ((v.outcome ≡ Outcome.dismissed) ↔ ((¬ owner) × (¬ BreaksRule policy tx facts)))
  unfolding judge_breach
  judge_breach_table =
      adjudicate-table policy tx (alibi_of tx.instruction) _ _ _ (violated_iff policy tx facts)

  -- A loss that is covered would have had a reason listed against it in the hold window, on the same
  -- facts.
  pub covered_has_hold_reason :
      (judge_breach policy tx facts).outcome ≡ Outcome.covered
      → (judge_hold policy tx facts).reasons ≢ []
  unfolding judge_hold
  covered_has_hold_reason covered clean =
      let weightless : 0 ≡ (assess policy tx facts).score =
        subst
          (λ rs.
            total_weight facts.recipient_on_blocklist_strikes rs ≡ (assess policy tx facts).score)
          clean (assess-IsExplained policy tx facts) in
      let broken = (judge_breach_table.1.0 covered).1 in
      let sum = score-assess policy tx facts in
      elim broken [
        | inl h ↦ ground arith
        | inr (inl h) ↦ ground arith
        | inr (inr (inl h)) ↦ ground arith
        | inr (inr (inr (inl h))) ↦ ground arith
        | inr (inr (inr (inr h))) ↦ ground arith
      ]
