-- ===== src/Subgraph/Streak/Replay.antt =====
-- The replay of an event log leaves every agent with the count of its own events.
use repayd.Common.{
  ℕ, ◌+◌, String, ◌≡◌, refl, ◌∙◌, ap, Option, none, some, List, [], ◌∷◌, arith, Option-cases, inl,
  inr, str_eq, str_eq_iff,
}
use repayd.Subgraph.Graph.{Graph, Bytes}
use repayd.Subgraph.Entities.{Db, Meta}
use repayd.Subgraph.Guard
use repayd.Subgraph.Registry
use repayd.Subgraph.Registry.{PolicyView}
use repayd.Subgraph.Court
use repayd.Subgraph.Pool
use repayd.Subgraph.Events.{
  Event, Params, dispatch, replay, policy_updated, guard_attempted_breach, classified,
}
use repayd.Subgraph.Streak.{tally_of, count_events, agents_after, tally-agents_after}

module _ ⦃g : Graph⦄ where
  open g use {load}

  agents-handle_policy_updated :
      (e : Meta) (agent : Bytes) (version : ℕ) (hash : Bytes) (view : Option PolicyView)
      (db db' : Db g)
      → Registry.handle_policy_updated e agent version hash view db ≡ some db'
      → db'.agents ≡ agents_after e (policy_updated agent version hash view) db.agents
  unfolding Registry.handle_policy_updated agents_after
  agents-handle_policy_updated e agent version hash none db db' h = ground arith
  agents-handle_policy_updated e agent version hash (some v) db db' h = ground arith

  dispatch-agents :
      (e : Meta) (p : Params) (db db' : Db g)
      → dispatch e p db ≡ some db'
      → db'.agents ≡ agents_after e p db.agents
  unfolding dispatch agents_after Registry.handle_policy_revoked Guard.handle_executed_routine
      Guard.handle_classified Guard.handle_held Guard.handle_released Guard.handle_owner_decision
      Guard.handle_hold_lapsed Guard.handle_violation_blocked Guard.handle_guard_attempted_breach
      Guard.handle_authority_revoked Guard.handle_agent_key_rotated Guard.handle_withdrawn
      Guard.handle_received Court.handle_verdict_accepted Court.handle_attempted_breach_signal
      Court.handle_hold_verdict_routed Court.handle_reopened Court.handle_arbitration_concluded
      Court.handle_strike_recorded Court.handle_reported Court.handle_cleared Pool.handle_deposited
      Pool.handle_redeemed Pool.handle_payout Pool.handle_premium_recorded Pool.handle_loss_applied
      Pool.handle_reinsurance_hooked Pool.handle_usdc_transfer
  dispatch-agents e (policy_updated agent version hash view) db db' h =
      agents-handle_policy_updated e agent version hash view db db' h
  dispatch-agents e p db db' h = ground arith

  -- If the replay of a log does not trap, the streak, the routine transfers and the attempts that an
  -- agent carries are what its events alone count: a routine transfer adds to the streak, and an
  -- incident (a blocked violation, an attempted breach, a revoked authority, or an accepted verdict
  -- of an attempted or a covered breach) ends it.
  pub tally-replay :
      (events : List Event) (db db' : Db g) (id : String)
      → replay events db ≡ some db'
      → tally_of (load db'.agents id) ≡ count_events id events (tally_of (load db.agents id))
  unfolding replay
  tally-replay [] db db' id h = ground arith
  tally-replay (e ∷ es) db db' id h = elim (Option-cases (dispatch e.header e.params db)) [
    | inl trapped ↦ ground arith
    | inr (next, done) ↦
        tally-replay es next db' id (ground arith)
        ∙ ap (count_events id es) (
            ap (λ t. tally_of (load t id)) (dispatch-agents e.header e.params db next done)
            ∙ tally-agents_after e.header e.params db.agents id)
  ]

  -- An attempt that anyone reports, which the guard logs as an attempted breach and a classified
  -- violation, adds two to the attempts of its agent and leaves the streak at zero.
  pub reported_attempt :
      (breach class : Meta) (to : Bytes) (amount : ℕ) (tag : Bytes) (db db' : Db g)
      → breach.address ≡ class.address
      → let log : List Event =
          record { header = breach; params = guard_attempted_breach }
          ∷ record { header = class; params = classified 2 to amount tag }
          ∷ [] in
        replay log db ≡ some db'
        → let before = tally_of (load db.agents (g.to_hex_string breach.address)) in
          let after = tally_of (load db'.agents (g.to_hex_string breach.address)) in
          (after.attempts ≡ before.attempts + 2) × (after.streak ≡ 0)
  reported_attempt breach class to amount tag db db' same h =
      let key = g.to_hex_string breach.address in
      let log : List Event =
        record { header = breach; params = guard_attempted_breach }
        ∷ record { header = class; params = classified 2 to amount tag }
        ∷ [] in
      ground (
        arith,
        tally-replay log db db' key h,
        (str_eq_iff key key).1 refl,
        ap (λ a. str_eq (g.to_hex_string a) key) same,
      )
