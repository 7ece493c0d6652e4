-- ===== src/Engine/Breach.antt =====
-- judgeBreach of packages/engine/src/engine.ts: the adjudication after funds have left.
pub mod Table
pub mod Payment
use repayd.Common.{
  ◌+◌, String, Bool, true, false, not, ◌||◌, Option, none, some, List, [], ◌∷◌, ◌++◌, ltb, leb,
  if◌then◌else◌, ℤ, pos, ◌/ℤ◌,
}
use repayd.Engine.Policy.{Policy, effective_limit, is_allowlisted, curfew_active, compute_payout}
use repayd.Engine.Verdict.{
  Provenance, Tier, Alibi, Outcome, HoldAction, InstructionRecord, Transaction, Reason,
  BehavioralFacts, Verdict, verified, computed, text, alibi_of,
}

abbrev reason : String → Provenance → String → Reason
reason tag provenance detail = record {
  tag = tag;
  provenance = provenance;
  detail = text detail ∷ [];
}

-- the reasons of the alibi check
unfoldable pub alibi_reasons : Policy → Option InstructionRecord → List Reason
alibi_reasons policy (some i) = []
alibi_reasons policy none =
    if policy.sdk_installed
    then reason "ALIBI_DATA_MISSING" verified
        "SDK installed but no instruction record for this transaction"
      ∷ []
    else reason "WATCH_ONLY_NO_ALIBI" verified
        "no SDK installed — instruction provenance unavailable"
      ∷ []

unfoldable pub violated : Policy → Transaction → BehavioralFacts → Bool
violated policy tx facts =
    ltb (effective_limit policy tx.to) tx.amount
    || not (is_allowlisted policy tx.to)
    || curfew_active policy tx.block_timestamp
    || facts.known_drainer_calldata
    || leb 3 facts.recipient_on_blocklist_strikes

unfoldable pub policy_reason : Bool → Reason
policy_reason true =
    reason "POLICY_VIOLATION_CONFIRMED" computed "breach breaks a machine-checkable policy rule"
policy_reason false =
    reason "NO_POLICY_VIOLATION" computed "loss did not break any policy rule — not a covered event"

-- the fields that every return of the function fills alike
abbrev breach_verdict : Transaction → Alibi → Tier → Outcome → ℤ → List Reason → Verdict
breach_verdict tx alibi tier outcome payout reasons = record {
  tier = tier;
  outcome = outcome;
  alibi = alibi;
  payout_amount = payout;
  loss_amount = tx.amount;
  reasons = reasons;
  hold_action = HoldAction.none;
}

-- what follows the policy check: the returns of the function, by the alibi
unfoldable pub adjudicate : Policy → Transaction → Alibi → Bool → List Reason → Verdict
adjudicate policy tx Alibi.owner_signed broken reasons =
    breach_verdict tx Alibi.owner_signed Tier.violation Outcome.denied_owner_origin (pos 0) (
      reasons
      ++ reason "OWNER_ORIGIN" verified
          "breaching instruction was signed by the owner's session key"
        ∷ [])
adjudicate policy tx Alibi.unknown broken reasons =
    let full = compute_payout tx.amount policy.deductible_bps policy.coverage_cap in
    if not broken
    then breach_verdict tx Alibi.unknown Tier.routine Outcome.dismissed (pos 0) reasons
    else breach_verdict tx Alibi.unknown Tier.violation Outcome.covered (full /ℤ 4) (
        reasons
        ++ reason "PROVENANCE_UNVERIFIABLE" verified
            "claim lacks instruction provenance — capped payout tier"
          ∷ [])
adjudicate policy tx Alibi.external broken reasons =
    if not broken
    then breach_verdict tx Alibi.external Tier.routine Outcome.dismissed (pos 0) reasons
    else breach_verdict tx Alibi.external Tier.violation Outcome.covered
        (compute_payout tx.amount policy.deductible_bps policy.coverage_cap)
        (reasons
          ++ reason "EXTERNAL_INJECTION" verified
              "instruction originated outside the owner session — covered event"
            ∷ [])

unfoldable pub judge_breach : Policy → Transaction → BehavioralFacts → Verdict
unfolding adjudicate
judge_breach policy tx facts =
    let broken = violated policy tx facts in
    adjudicate policy tx (alibi_of tx.instruction) broken
      (alibi_reasons policy tx.instruction ++ policy_reason broken ∷ [])
