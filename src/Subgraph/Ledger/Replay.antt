-- ===== src/Subgraph/Ledger/Replay.antt =====
-- The replay of an event log keeps the pool of packages/subgraph/src/mapping.ts at its sums.
use mathlib.Core.Option.{some-injective}
use mathlib.Core.Path.{subst}
use repayd.Common.{
  ℕ, ◌+◌, ◌%◌, ◌^◌, ◌≡◌, none, some, List, [], ◌∷◌, arith, ℤ, pos_part, neg_part, sub_ℕ,
  Option-cases, inl, inr,
}
use repayd.Subgraph.Graph.{Graph}
use repayd.Subgraph.Entities.{PoolState, Db, Meta}
use repayd.Subgraph.Guard
use repayd.Subgraph.Registry
use repayd.Subgraph.Registry.{PolicyView}
use repayd.Subgraph.Court
use repayd.Subgraph.Pool
use repayd.Subgraph.Pool.{load_pool, save_pool, add_capital, take_capital}
use repayd.Subgraph.Events.{
  Event, Params, dispatch, replay, genesis, policy_updated, deposited, redeemed, payout,
  premium_recorded, loss_applied,
}
use repayd.Subgraph.Ledger.{
  Movement, movement_of, movements, Moved, Moved-trans, Moved-none, add_capital-Moved,
  take_capital-Moved, apply_loss-Moved,
}

from_empty :
    (m : Movement) (q : PoolState)
    → Moved m Pool.empty_pool q
    → (q.junior_capital ≡ sub_ℕ m.junior_in m.junior_out)
      × (q.senior_capital ≡ sub_ℕ m.senior_in m.senior_out)
      × (q.premium_pool ≡ m.premiums)
      × (q.total_payouts ≡ m.payouts)
      × (q.claim_count % 2 ^ 32 ≡ m.claims % 2 ^ 32)
from_empty m q h = (
  capital q.junior_capital m.junior_in m.junior_out h.junior,
  capital q.senior_capital m.senior_in m.senior_out h.senior,
  omega (arith, h.premium),
  omega (arith, h.paid),
  omega (arith, h.counted),
)
  where
    capital : (a : ℤ) (i o : ℕ) → pos_part a + 0 + o ≡ neg_part a + 0 + i → a ≡ sub_ℕ i o
    capital a i o h = ground arith

module _ ⦃g : Graph⦄ where
  open g use {load-save, load-no_entities}

  -- what a saved pool is when it is loaded again
  abbrev stamped : Meta → PoolState → PoolState
  stamped e p = record p { updated_at = e.timestamp }

  load_pool-save_pool :
      (e : Meta) (p : PoolState) (pools : g.Table PoolState)
      → load_pool (save_pool e p pools) ≡ stamped e p
  unfolding load_pool save_pool
  load_pool-save_pool e p pools = rw (load-save pools "pool" "pool" (stamped e p))

  stamped-Moved :
      (m : Movement) (e : Meta) (p q : PoolState) (pools : g.Table PoolState)
      → Moved m p q
      → Moved m p (load_pool (save_pool e q pools))
  stamped-Moved m e p q pools h = rw (load_pool-save_pool e q pools) (record {
    junior = h.junior;
    senior = h.senior;
    premium = h.premium;
    paid = h.paid;
    counted = h.counted;
  })

  dispatch-Moved :
      (e : Meta) (p : Params) (db db' : Db g)
      → dispatch e p db ≡ some db'
      → Moved (movement_of p) (load_pool db.pools) (load_pool db'.pools)
  unfolding dispatch
  dispatch-Moved e (deposited depositor tranche assets) db db' h = rw (← some-injective _ _ h) (
      unfold Pool.handle_deposited in
      stamped-Moved _ e _ _ db.pools
        (add_capital-Moved depositor tranche assets (load_pool db.pools)))
  dispatch-Moved e (redeemed depositor tranche assets) db db' h = rw (← some-injective _ _ h) (
      unfold Pool.handle_redeemed in
      stamped-Moved _ e _ _ db.pools
        (take_capital-Moved depositor tranche assets (load_pool db.pools)))
  dispatch-Moved e (payout digest claimant amount) db db' h =
      rw (← some-injective _ _ h)
        (unfold Pool.handle_payout in stamped-Moved _ e _ _ db.pools (ground arith))
  dispatch-Moved e (premium_recorded agent amount) db db' h =
      rw (← some-injective _ _ h)
        (unfold Pool.handle_premium_recorded in stamped-Moved _ e _ _ db.pools (ground arith))
  dispatch-Moved e (loss_applied amount junior senior reinsurance) db db' h =
      rw (← some-injective _ _ h) (
        unfold Pool.handle_loss_applied in
        stamped-Moved _ e _ _ db.pools
          (apply_loss-Moved amount junior senior reinsurance (load_pool db.pools)))
  dispatch-Moved e (policy_updated agent version hash none) db db' h =
      rw (← same h) (Moved-none (load_pool db.pools))
    where
      same :
          dispatch e (policy_updated agent version hash none) db ≡ some db' → db.pools ≡ db'.pools
      same h = unfold Registry.handle_policy_updated in ground arith
  dispatch-Moved e (policy_updated agent version hash (some v)) db db' h =
      rw (← same h) (Moved-none (load_pool db.pools))
    where
      same :
          dispatch e (policy_updated agent version hash (some v)) db ≡ some db'
          → db.pools ≡ db'.pools
      same h = unfold Registry.handle_policy_updated in ground arith
  dispatch-Moved e p db db' h = rw (← same h) (Moved-none (load_pool db.pools))
    where
      same : dispatch e p db ≡ some db' → db.pools ≡ db'.pools
      same h =
          unfold Registry.handle_policy_revoked Guard.handle_executed_routine
            Guard.handle_classified Guard.handle_held Guard.handle_released
            Guard.handle_owner_decision Guard.handle_hold_lapsed Guard.handle_violation_blocked
            Guard.handle_guard_attempted_breach Guard.handle_authority_revoked
            Guard.handle_agent_key_rotated Guard.handle_withdrawn Guard.handle_received
            Court.handle_verdict_accepted Court.handle_attempted_breach_signal
            Court.handle_hold_verdict_routed Court.handle_reopened
            Court.handle_arbitration_concluded Court.handle_strike_recorded Court.handle_reported
            Court.handle_cleared Pool.handle_deposited Pool.handle_redeemed Pool.handle_payout
            Pool.handle_premium_recorded Pool.handle_loss_applied Pool.handle_reinsurance_hooked
            Pool.handle_usdc_transfer in
          ground arith

  replay-Moved :
      (events : List Event) (db db' : Db g)
      → replay events db ≡ some db'
      → Moved (movements events) (load_pool db.pools) (load_pool db'.pools)
  unfolding replay
  replay-Moved [] db db' h = rw (some-injective _ _ h) (Moved-none (load_pool db'.pools))
  replay-Moved (e ∷ es) db db' h = elim (Option-cases (dispatch e.header e.params db)) [
    | inl trapped ↦ ground arith
    | inr (next, done) ↦
        Moved-trans _ _ _ _ _ (dispatch-Moved e.header e.params db next done)
          (replay-Moved es next db' (ground arith))
  ]

  load_pool-genesis : load_pool (genesis ⦃g = g⦄).pools ≡ Pool.empty_pool
  unfolding load_pool
  load_pool-genesis = rw (load-no_entities {V = PoolState} "pool")

  -- If the replay of a log from the empty database does not trap, the capital of each tranche is what
  -- was deposited into it less what was redeemed and what it lost, which may be negative; the premium
  -- pool and the payouts are the sums of their events; the claim count is that of the payouts, modulo
  -- 2 ^ 32.
  pub replay-ledger :
      (events : List Event) (db : Db g)
      → replay events genesis ≡ some db
      → let pool = load_pool db.pools in
        let m = movements events in
        (pool.junior_capital ≡ sub_ℕ m.junior_in m.junior_out)
        × (pool.senior_capital ≡ sub_ℕ m.senior_in m.senior_out)
        × (pool.premium_pool ≡ m.premiums)
        × (pool.total_payouts ≡ m.payouts)
        × (pool.claim_count % 2 ^ 32 ≡ m.claims % 2 ^ 32)
  replay-ledger events db h = from_empty (movements events) (load_pool db.pools) (
      subst (λ p. Moved (movements events) p (load_pool db.pools)) load_pool-genesis
        (replay-Moved events genesis db h))
