-- ===== src/Subgraph/Examples.antt =====
-- Tests of packages/subgraph/src/mapping.ts over a store in memory.
use repayd.Common.{
  ℕ, ◌+◌, ◌%◌, ◌^◌, ◌≡◌, refl, String, true, Option, none, some, List, [], ◌∷◌, sub_ℕ, pos, ◌+ℤ◌,
  ◌-ℤ◌,
}
use repayd.Subgraph.Graph.{Bytes}
use repayd.Subgraph.Memory.{memory}
use repayd.Subgraph.Entities.{Terms, Db, Meta}
use repayd.Subgraph.Registry.{PolicyView}
use repayd.Subgraph.Agents.{event_id, agent_of, load_agent, incident, note_incident}
use repayd.Subgraph.Guard
use repayd.Subgraph.Registry
use repayd.Subgraph.Court
use repayd.Subgraph.Pool
use repayd.Subgraph.Pool.{load_pool}
use repayd.Subgraph.Events.{
  Event, dispatch, replay, genesis, held, owner_decision, executed_routine, classified,
  guard_attempted_breach, deposited, payout, loss_applied, policy_updated, strike_recorded,
  verdict_accepted,
}
use repayd.Subgraph.Streak.{tally_of, no_tally, count_events}
use repayd.Subgraph.Streak.Replay.{tally-replay, reported_attempt}
use repayd.Subgraph.Every.{Every, Every-no_entities}
use mathlib.Core.Option.{map}
use repayd.Subgraph.Holds.{IsConsistent, replay-holds}
use repayd.Subgraph.Ledger.{movements}
use repayd.Subgraph.Ledger.Replay.{replay-ledger}
use repayd.Subgraph.Listing.{IsSettled, IsFlagged, IsListed, replay-IsListed}

abbrev guard : Bytes
guard = 0xa7 ∷ []

abbrev at : ℕ → Meta
at n = record { address = guard; transaction_hash = 0x77 ∷ []; log_index = n; timestamp = 1000 + n }

-- two payrolls, an attack that is held and frozen, and one that is reported
abbrev attack_log : List Event
attack_log =
    record { header = at 1; params = executed_routine (1 ∷ []) 100 }
    ∷ record { header = at 2; params = executed_routine (1 ∷ []) 100 }
    ∷ record { header = at 3; params = held 9 (2 ∷ []) 900 5000 }
    ∷ record { header = at 4; params = owner_decision 9 1 (3 ∷ []) }
    ∷ record { header = at 5; params = guard_attempted_breach }
    ∷ []

abbrev pool_log : List Event
pool_log =
    record { header = at 1; params = deposited (5 ∷ []) 1 1000 }
    ∷ record { header = at 2; params = deposited (5 ∷ []) 0 4000 }
    ∷ record { header = at 3; params = payout (6 ∷ []) (7 ∷ []) 135 }
    ∷ record { header = at 4; params = loss_applied 135 135 0 0 }
    ∷ []

run : List Event → Option (Db memory)
unfolding replay dispatch Registry.handle_policy_updated Registry.handle_policy_revoked
    Guard.handle_executed_routine Guard.handle_classified Guard.handle_held Guard.handle_released
    Guard.handle_owner_decision Guard.handle_hold_lapsed Guard.handle_violation_blocked
    Guard.handle_guard_attempted_breach Guard.handle_authority_revoked
    Guard.handle_agent_key_rotated Guard.handle_withdrawn Guard.handle_received
    Court.handle_verdict_accepted Court.handle_attempted_breach_signal
    Court.handle_hold_verdict_routed Court.handle_reopened Court.handle_arbitration_concluded
    Court.handle_strike_recorded Court.handle_reported Court.handle_cleared Pool.handle_deposited
    Pool.handle_redeemed Pool.handle_payout Pool.handle_premium_recorded Pool.handle_loss_applied
    Pool.handle_reinsurance_hooked Pool.handle_usdc_transfer Registry.rebuild_allowlist
    Guard.record_transaction Guard.note_routine Guard.status_of_decision event_id agent_of
    load_agent incident note_incident Pool.load_pool Pool.save_pool Pool.add_capital
    Pool.take_capital ◌+ℤ◌ ◌-ℤ◌
run events = replay events genesis

abbrev after : List Event → Db memory
after events = elim (replay events genesis) [ none ↦ genesis | some db ↦ db ]

attack_tally :
    tally_of ((after attack_log).agents "0xa7") ≡ record { streak = 0; routine = 2; attempts = 1 }
unfolding run
attack_tally = refl

pool_balances :
    ((load_pool (after pool_log).pools).junior_capital ≡ pos 865)
    × ((load_pool (after pool_log).pools).senior_capital ≡ pos 4000)
unfolding run
pool_balances = (refl, refl)

tally-replay_example :
    tally_of ((after attack_log).agents "0xa7") ≡ count_events "0xa7" attack_log no_tally
unfolding run
tally-replay_example = tally-replay attack_log genesis (after attack_log) "0xa7" refl

abbrev report_log : List Event
report_log =
    record { header = at 1; params = guard_attempted_breach }
    ∷ record { header = at 2; params = classified 2 (2 ∷ []) 900 [] }
    ∷ []

reported_attempt_example :
    let tally = tally_of ((after report_log).agents "0xa7") in
    (tally.attempts ≡ 2) × (tally.streak ≡ 0)
unfolding run
reported_attempt_example =
    reported_attempt (at 1) (at 2) (2 ∷ []) 900 [] genesis (after report_log) refl refl

replay-holds_example : Every IsConsistent (after attack_log).holds
unfolding run
replay-holds_example =
    replay-holds attack_log genesis (after attack_log) (Every-no_entities IsConsistent)
      (tt, (tt, (refl, (tt, (tt, tt))))) refl

-- a second guard's hold of the same number
abbrev shared_number : List Event
shared_number =
    record { header = at 1; params = held 9 (2 ∷ []) 900 5000 }
    ∷ record { header = at 2; params = owner_decision 9 1 (3 ∷ []) }
    ∷ record { header = record (at 3) { address = 0xb8 ∷ [] }; params = held 9 (2 ∷ []) 70 5000 }
    ∷ []

-- it takes the place of the first, and is pending with the time at which that was resolved
shared_hold :
    map {B = String × ℕ × Option ℕ}
      (λ h. (h.agent, h.status, h.resolved_at))
      ((after shared_number).holds "09")
    ≡ some ("0xb8", Guard.hold_pending, some 1002)
unfolding run
shared_hold = refl

replay-ledger_example :
    let pool = load_pool (after pool_log).pools in
    let m = movements pool_log in
    (pool.junior_capital ≡ sub_ℕ m.junior_in m.junior_out)
    × (pool.senior_capital ≡ sub_ℕ m.senior_in m.senior_out)
    × (pool.premium_pool ≡ m.premiums)
    × (pool.total_payouts ≡ m.payouts)
    × (pool.claim_count % 2 ^ 32 ≡ m.claims % 2 ^ 32)
unfolding run
replay-ledger_example = replay-ledger pool_log (after pool_log) refl

abbrev claim_log : List Event
claim_log =
    record { header = at 1; params = verdict_accepted guard (6 ∷ []) 1 135 1 }
    ∷ record { header = at 2; params = payout (6 ∷ []) (7 ∷ []) 135 }
    ∷ record { header = at 3; params = strike_recorded (2 ∷ []) 3 }
    ∷ []

replay-IsListed_example : IsListed (after claim_log)
unfolding run
replay-IsListed_example =
    replay-IsListed claim_log genesis (after claim_log)
      (Every-no_entities IsSettled, Every-no_entities IsFlagged) refl

abbrev terms : Terms
terms = record {
  owner = 3 ∷ [];
  cap = 2500;
  per_tx = 100;
  daily = 1000;
  velocity = 10;
  deductible_bps = 1000;
  curfew_start = 1440;
  curfew_end = 1440;
  hold_window_sec = 120;
  sdk_installed = true;
}

abbrev policy_log : (caps : List ℕ) → List Event
policy_log caps =
    record {
      header = at 1;
      params =
          policy_updated guard 1 (8 ∷ [])
            (some (record { terms = terms; recipients = (1 ∷ []) ∷ []; caps = caps }));
    }
    ∷ []

policy_trap : replay (policy_log []) genesis ≡ none
unfolding run
policy_trap = refl
