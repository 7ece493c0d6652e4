-- ===== src/Engine/Examples.antt =====
-- Tests of packages/engine/src/types.ts and engine.ts, on the policy of one agent.
use repayd.Engine.Quote.{DrivingRecord}
use repayd.Common.{
  ◌+◌, ◌*◌, ◌≤◌, ◌<◌, ◌≡◌, ◌≢◌, ◌↔◌, refl, inl, inr, true, false, some, [], ◌∷◌, arith, any, find,
  same_address, pos,
}
use repayd.Engine.Policy.{Policy, RecipientCap, compute_payout, effective_limit, is_allowlisted}
use repayd.Engine.Policy.Payout.{compute_payout_lem}
use repayd.Engine.Sigma.{sqrt_rounds, sqrt_approx, sigma_deviation}
use repayd.Engine.Sigma.Root.{IsRoot, sqrt_approx-IsRoot}
use repayd.Engine.Verdict.{
  Alibi, Outcome, HoldAction, Origin, InstructionRecord, Transaction, BehavioralFacts,
}
use repayd.Engine.Hold.{judge_hold}
use repayd.Engine.Hold.Score.{total_weight, judge_hold_explained}
use repayd.Engine.Hold.Bias.{judge_hold_freezes, judge_hold_mono}
use repayd.Engine.Breach.{judge_breach, violated}
use repayd.Engine.Breach.Table.{BreaksRule, judge_breach_table, covered_has_hold_reason}
use repayd.Engine.Breach.Payment.{IsPayable, judge_breach-IsPayable}

abbrev payroll : RecipientCap
payroll = record { recipient = "0xPa11"; cap = 400_000_000 }

abbrev atlas : Policy
atlas = record {
  version = 1;
  agent = "0xa7";
  owner = "0x0a";
  coverage_cap = 2_500_000_000;
  deductible_bps = 1000;
  per_tx_limit = 100_000_000;
  daily_limit = 1_000_000_000;
  velocity_limit = 10;
  allowlist = payroll ∷ [];
  curfew_start_minute = 1320;
  curfew_end_minute = 300;
  hold_window_sec = 120;
  sdk_installed = true;
}

abbrev injected : InstructionRecord
injected = record {
  digest = "0xd1";
  origin = Origin.web;
  owner_signed = false;
  timestamp = 1_789_150_000;
  tee_cosigned = false;
  prev = "0x0";
}

-- an external instruction to send $150 off the allowlist
abbrev theft : Transaction
theft = record {
  to = "0xbad";
  amount = 150_000_000;
  tx_hash = "0x71";
  block_timestamp = 1_789_161_217;
  calldata = "0x";
  instruction = some injected;
}

-- $200 to the payroll contract at noon
abbrev wages : Transaction
wages = record theft { to = "0xpA11"; amount = 200_000_000; block_timestamp = 43_200 + 10 * 86_400 }

abbrev quiet : BehavioralFacts
quiet = record {
  recipient_first_seen = some 0;
  recipient_on_blocklist_strikes = 0;
  known_drainer_calldata = false;
  hour_of_day_history = 12 ∷ [];
  amount_history = [];
}

abbrev struck : BehavioralFacts
struck = record quiet { recipient_on_blocklist_strikes = 3 }

compute_payout_lem_example :
    (compute_payout 150_000_000 1000 2_500_000_000 ≡ pos 135_000_000)
    × (135_000_000 ≤ 150_000_000)
    × (135_000_000 ≤ 2_500_000_000)
compute_payout_lem_example = compute_payout_lem 150_000_000 1000 2_500_000_000 (omega arith)

sqrt_approx-IsRoot_example : (sqrt_rounds 24 ≡ some (sqrt_approx 24)) × IsRoot 24 (sqrt_approx 24)
sqrt_approx-IsRoot_example = sqrt_approx-IsRoot 24

roots : (sqrt_approx 24 ≡ 4) × (sqrt_approx 1_000_000 ≡ 1000)
unfolding sqrt_approx
roots = (refl, refl)

deviation : sigma_deviation 60 (10 ∷ 20 ∷ 30 ∷ 40 ∷ []) ≡ some 3181
unfolding sigma_deviation
deviation = refl

judge_hold_explained_example :
    let v = judge_hold atlas theft struck in
    ((v.hold_action ≡ HoldAction.freeze) ↔ (3 ≤ total_weight 3 v.reasons))
    × ((v.hold_action ≡ HoldAction.release) ↔ (total_weight 3 v.reasons < 3))
judge_hold_explained_example = judge_hold_explained atlas theft struck

judge_hold_freezes_example : (judge_hold atlas wages struck).hold_action ≡ HoldAction.freeze
judge_hold_freezes_example = judge_hold_freezes atlas wages struck (inr (inl (omega arith)))

judge_hold_mono_example :
    (judge_hold atlas wages (record struck {
      recipient_on_blocklist_strikes = 5;
      known_drainer_calldata = true;
    })).hold_action
    ≡ HoldAction.freeze
judge_hold_mono_example =
    judge_hold_mono atlas wages struck 5 true (omega arith) (λ _. refl) judge_hold_freezes_example

judge_breach_table_example :
    let v = judge_breach atlas theft quiet in
    let owner = Alibi.external ≡ Alibi.owner_signed in
    ((v.outcome ≡ Outcome.denied_owner_origin) ↔ owner)
    × ((v.outcome ≡ Outcome.covered) ↔ ((¬ owner) × BreaksRule atlas theft quiet))
    × ((v.outcome ≡ Outcome.dismissed) ↔ ((¬ owner) × (¬ BreaksRule atlas theft quiet)))
judge_breach_table_example = judge_breach_table atlas theft quiet

theft_covered : (judge_breach atlas theft quiet).outcome ≡ Outcome.covered
unfolding judge_breach violated is_allowlisted any same_address effective_limit find
theft_covered = refl

covered_has_hold_reason_example : (judge_hold atlas theft quiet).reasons ≢ []
covered_has_hold_reason_example = covered_has_hold_reason atlas theft quiet theft_covered

judge_breach-IsPayable_example :
    IsPayable 4 150_000_000 2_500_000_000 (judge_breach atlas theft quiet).payout_amount
judge_breach-IsPayable_example = judge_breach-IsPayable atlas theft quiet (omega arith)

-- a claim half a year and a day old
abbrev scarred : DrivingRecord
scarred = record {
  clean_streak_days = 90;
  anomaly_load = record { num = 1; den = 4 };
  attempted_breaches = [];
  recent_claims = 1_000_000 ∷ [];
  lifetime_claims = 1;
  world_id_verified = true;
  sdk_installed = true;
  watch_only = false;
  now = 1_000_000 + 183 * 86_400;
}
