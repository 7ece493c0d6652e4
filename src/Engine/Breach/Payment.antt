-- ===== src/Engine/Breach/Payment.antt =====
-- What judgeBreach of packages/engine/src/engine.ts pays.
use repayd.Common.{
  ℕ, ◌-◌, ◌*◌, ◌/◌, ◌≤◌, ◌≡◌, ◌≢◌, refl, true, false, Bool, List, arith, ℤ, pos, ◌/ℤ◌, min,
}
use repayd.Engine.Policy.{Policy}
use repayd.Engine.Policy.Payout.{compute_payout_lem}
use repayd.Engine.Verdict.{Alibi, Outcome, Transaction, BehavioralFacts, Reason, alibi_of}
use repayd.Engine.Breach.{judge_breach, adjudicate}

-- Only a covered loss is paid for.
pub unpaid_unless_covered :
    (policy : Policy) (tx : Transaction) (facts : BehavioralFacts)
    → (judge_breach policy tx facts).outcome ≢ Outcome.covered
    → (judge_breach policy tx facts).payout_amount ≡ pos 0
unfolding judge_breach
unpaid_unless_covered policy tx facts = ground arith

-- what the branch of an alibi pays, at most
abbrev pub share : Alibi → ℕ
share Alibi.owner_signed = 0
share Alibi.unknown = 1
share Alibi.external = 4

-- a payout that is not negative and that does not exceed a share, in quarters, of the loss or the cap
pub record IsPayable (quarters loss cap : ℕ) (payout : ℤ) : Type 0 where
  pub amount : ℕ
  pub is_amount : payout ≡ pos amount
  pub within_loss : amount * 4 ≤ loss * quarters
  pub within_cap : amount * 4 ≤ cap * quarters

adjudicate-IsPayable :
    (policy : Policy) (tx : Transaction) (alibi : Alibi) (broken : Bool) (reasons : List Reason)
    → policy.deductible_bps ≤ 10_000
    → IsPayable
        (share alibi)
        tx.amount
        policy.coverage_cap
        (adjudicate policy tx alibi broken reasons).payout_amount
unfolding adjudicate ◌/ℤ◌
adjudicate-IsPayable policy tx Alibi.owner_signed broken reasons h = record {
  amount = 0;
  is_amount = refl;
  within_loss = omega arith;
  within_cap = omega arith;
}
adjudicate-IsPayable policy tx Alibi.unknown false reasons h = record {
  amount = 0;
  is_amount = refl;
  within_loss = omega arith;
  within_cap = omega arith;
}
adjudicate-IsPayable policy tx Alibi.external false reasons h = record {
  amount = 0;
  is_amount = refl;
  within_loss = omega arith;
  within_cap = omega arith;
}
adjudicate-IsPayable policy tx Alibi.unknown true reasons h =
    let full = compute_payout_lem tx.amount policy.deductible_bps policy.coverage_cap h in
    record {
      amount = min policy.coverage_cap (tx.amount * (10_000 - policy.deductible_bps) / 10_000) / 4;
      is_amount = rw full.0;
      within_loss = omega arith;
      within_cap = omega arith;
    }
adjudicate-IsPayable policy tx Alibi.external true reasons h =
    let full = compute_payout_lem tx.amount policy.deductible_bps policy.coverage_cap h in
    record {
      amount = min policy.coverage_cap (tx.amount * (10_000 - policy.deductible_bps) / 10_000);
      is_amount = full.0;
      within_loss = omega arith;
      within_cap = omega arith;
    }

-- With a deductible of at most 10000 basis points, no verdict pays a negative amount, more than the
-- loss or more than the coverage cap; without an instruction record it pays at most a quarter of
-- either, and for an instruction that the owner signed it pays nothing.
pub judge_breach-IsPayable :
    (policy : Policy) (tx : Transaction) (facts : BehavioralFacts)
    → policy.deductible_bps ≤ 10_000
    → IsPayable
        (share (alibi_of tx.instruction))
        tx.amount
        policy.coverage_cap
        (judge_breach policy tx facts).payout_amount
unfolding judge_breach
judge_breach-IsPayable policy tx facts =
    adjudicate-IsPayable policy tx (alibi_of tx.instruction) _ _
