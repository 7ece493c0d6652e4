-- ===== src/Engine/Hold.antt =====
-- judgeHold of packages/engine/src/engine.ts. Each check of the function is a step that may push a
-- reason and add to the score; the steps run in the order of the code.
pub mod Score
pub mod Bias
use repayd.Common.{
  ℕ, zero, suc, ◌+◌, ◌-◌, ◌*◌, ◌/◌, ◌%◌, String, Bool, true, false, not, ◌&&◌, Option, none, some,
  List, [], ◌∷◌, ◌++◌, ltb, leb, ◌==◌, if◌then◌else◌, pos, any,
}
use repayd.Engine.Policy.{Policy, effective_limit, is_allowlisted, curfew_active}
use repayd.Engine.Sigma.{sigma_deviation}
use repayd.Engine.Verdict.{
  Provenance, Tier, Alibi, Outcome, HoldAction, InstructionRecord, Transaction, Piece, Reason,
  BehavioralFacts, Verdict, alibi_of, verified, computed, text, number, thousandths,
}

abbrev pub suspicion_threshold : ℕ
suspicion_threshold = 3

-- the locals `reasons` and `score`
pub record Assessment : Type 0 where
  pub reasons : List Reason
  pub score : ℕ

-- reasons.push({ tag, provenance, detail }); score += points;
unfoldable pub push : String → Provenance → List Piece → ℕ → Assessment → Assessment
push tag provenance detail points a = record {
  reasons = a.reasons ++ record { tag = tag; provenance = provenance; detail = detail } ∷ [];
  score = a.score + points;
}

unfoldable pub check_amount : Policy → Transaction → Assessment → Assessment
check_amount policy tx a =
    let limit = effective_limit policy tx.to in
    if ltb limit tx.amount
    then push "AMOUNT_ABOVE_PER_TX" computed
        (text "amount " ∷ number tx.amount ∷ text " exceeds per-tx cap " ∷ number limit ∷ []) 2 a
    else a

unfoldable pub check_recipient : Policy → Transaction → Assessment → Assessment
check_recipient policy tx a =
    if is_allowlisted policy tx.to
    then a
    else push "NEW_RECIPIENT" verified (text "recipient not on policy allowlist" ∷ []) 1 a

unfoldable pub check_curfew : Policy → Transaction → Assessment → Assessment
check_curfew policy tx a =
    if curfew_active policy tx.block_timestamp
    then push "CURFEW_HOUR" computed (text "transfer initiated during curfew hours" ∷ []) 1 a
    else a

-- `tx.blockTimestamp - firstSeen < 7 * 86_400`, where the difference may be negative
unfoldable pub check_age : Option ℕ → Transaction → Assessment → Assessment
check_age none tx a =
    push "RECIPIENT_BRAND_NEW" verified (text "recipient wallet has no prior history" ∷ []) 1 a
check_age (some first_seen) tx a =
    if ltb tx.block_timestamp (first_seen + 7 * 86_400)
    then push "RECIPIENT_VERY_YOUNG" verified (text "recipient wallet younger than 7 days" ∷ []) 1 a
    else a

unfoldable pub check_strikes : ℕ → Assessment → Assessment
check_strikes strikes a =
    if ltb 0 strikes
    then push "BLOCKLIST_STRIKES" verified
        (text "destination carries "
          ∷ number strikes
          ∷ text " strike(s) on the shared blocklist"
          ∷ [])
        (if leb 3 strikes then 3 else 1) a
    else a

unfoldable pub check_drainer : Bool → Assessment → Assessment
check_drainer known a =
    if known
    then push "DRAINER_SIGNATURE" verified (text "calldata matches known drainer pattern" ∷ []) 3 a
    else a

-- The deviation is in thousandths, so `amountSigma > 3` is `3000 < sigma`.
unfoldable pub check_sigma : Option ℕ → Assessment → Assessment
check_sigma none a = a
check_sigma (some sigma) a =
    if ltb 3000 sigma
    then push "AMOUNT_ANOMALY" computed
        (text "amount is " ∷ thousandths sigma ∷ text "σ above this agent's historical mean" ∷ []) 1
        a
    else a

unfoldable pub check_hour : List ℕ → ℕ → Assessment → Assessment
unfolding any
check_hour [] hour a = a
check_hour (h ∷ hs) hour a =
    if any (λ x. x == hour) (h ∷ hs)
    then a
    else push "UNUSUAL_HOUR" computed
        (text "hour " ∷ number hour ∷ text ":00 UTC is outside this agent's activity pattern" ∷ [])
        1 a

unfoldable pub signed_by_owner : Option InstructionRecord → Bool
signed_by_owner none = false
signed_by_owner (some i) = i.owner_signed

unfoldable pub check_owner : Policy → Transaction → Assessment → Assessment
unfolding signed_by_owner
check_owner policy tx a =
    if signed_by_owner tx.instruction && not (is_allowlisted policy tx.to)
    then push "OWNER_SIGNED_NOVEL_DESTINATION" verified
        (text "instruction is owner-signed but destination is novel — surface to owner" ∷ []) 1 a
    else a

-- layers 1 to 3 of the function
unfoldable pub assess : Policy → Transaction → BehavioralFacts → Assessment
assess policy tx facts =
    let a₀ : Assessment = record { reasons = []; score = 0 } in
    let a₁ = check_amount policy tx a₀ in
    let a₂ = check_recipient policy tx a₁ in
    let a₃ = check_curfew policy tx a₂ in
    let a₄ = check_age facts.recipient_first_seen tx a₃ in
    let a₅ = check_strikes facts.recipient_on_blocklist_strikes a₄ in
    let a₆ = check_drainer facts.known_drainer_calldata a₅ in
    let a₇ = check_sigma (sigma_deviation tx.amount facts.amount_history) a₆ in
    let a₈ = check_hour facts.hour_of_day_history (tx.block_timestamp % 86_400 / 3600) a₇ in
    check_owner policy tx a₈

unfoldable pub judge_hold : Policy → Transaction → BehavioralFacts → Verdict
judge_hold policy tx facts =
    let a = assess policy tx facts in
    let suspicious = leb suspicion_threshold a.score in
    record {
      tier = if suspicious then Tier.elevated else Tier.routine;
      outcome = if suspicious then Outcome.attempted_breach else Outcome.none;
      alibi = alibi_of tx.instruction;
      payout_amount = pos 0;
      loss_amount = 0;
      reasons = a.reasons;
      hold_action = if suspicious then HoldAction.freeze else HoldAction.release;
    }
