-- ===== src/Erc8004/Signals.antt =====
-- packages/sdk/src/erc8004/mapping.ts: the score, the value and the tag that each outcome is posted
-- with.
use repayd.Common.{
  ℕ, ◌≡◌, String, Option, none, some, ltb, ltb_ℤ, ℤ, pos, negsuc, refl, arith, ◌==◌, if◌then◌else◌,
}
use repayd.Erc8004.Encoding.{InRange}

pub data VerdictOutcome : Type 0 where
  covered denied_owner_origin attempted : VerdictOutcome

abbrev pub score_by_outcome : VerdictOutcome → ℕ
score_by_outcome covered = 25
score_by_outcome denied_owner_origin = 0
score_by_outcome attempted = 75

abbrev pub value_by_outcome : VerdictOutcome → ℤ
value_by_outcome covered = negsuc 2499
value_by_outcome denied_owner_origin = negsuc 9999
value_by_outcome attempted = pos 500

abbrev pub tag2_by_outcome : VerdictOutcome → String
tag2_by_outcome covered = "covered"
tag2_by_outcome denied_owner_origin = "denied-owner-origin"
tag2_by_outcome attempted = "attempted"

unfoldable pub outcome_from_byte : ℕ → Option VerdictOutcome
outcome_from_byte outcome =
    if outcome == 1
    then some covered
    else if outcome == 2
    then some denied_owner_origin
    else if outcome == 3
    then some attempted
    else none

-- Of two outcomes, the one with the lower validation score has the lower reputation value, and the
-- other way round; and each value is one that the registry's int128 can hold.
pub value_by_outcome-score_by_outcome :
    (a b : VerdictOutcome)
    → (ltb (score_by_outcome a) (score_by_outcome b)
        ≡ ltb_ℤ (value_by_outcome a) (value_by_outcome b))
      × InRange (value_by_outcome a)
value_by_outcome-score_by_outcome covered covered = (refl, ground arith)
value_by_outcome-score_by_outcome covered denied_owner_origin = (refl, ground arith)
value_by_outcome-score_by_outcome covered attempted = (refl, ground arith)
value_by_outcome-score_by_outcome denied_owner_origin covered = (refl, ground arith)
value_by_outcome-score_by_outcome denied_owner_origin denied_owner_origin = (refl, ground arith)
value_by_outcome-score_by_outcome denied_owner_origin attempted = (refl, ground arith)
value_by_outcome-score_by_outcome attempted covered = (refl, ground arith)
value_by_outcome-score_by_outcome attempted denied_owner_origin = (refl, ground arith)
value_by_outcome-score_by_outcome attempted attempted = (refl, ground arith)
