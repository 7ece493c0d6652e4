-- ===== src/Subgraph/Listing.antt =====
-- The claims and the blocklist entries that the handlers of packages/subgraph/src/mapping.ts keep.
use mathlib.Core.Path.{subst}
use mathlib.Core.Option.{some-injective}
use repayd.Common.{
  ℕ, ◌≡◌, ◌≢◌, refl, true, not, ◌||◌, none, some, List, [], ◌∷◌, arith, leb, ◌==◌, Option-cases,
  Bool-cases, inl, inr,
}
use repayd.Subgraph.Graph.{Graph, Bytes}
use repayd.Subgraph.Entities.{Claim, BlocklistEntry, Db, Meta}
use repayd.Subgraph.Guard
use repayd.Subgraph.Registry
use repayd.Subgraph.Court
use repayd.Subgraph.Pool
use repayd.Subgraph.Events.{
  Event, Params, dispatch, replay, policy_updated, verdict_accepted, payout, strike_recorded,
  reported, cleared,
}
use repayd.Subgraph.Every.{Sat, Every, Every-save}

-- A claim is covered or denied and not both, and a covered one has a time of payment.
pub record IsSettled (c : Claim) : Type 0 where
  pub exclusive : c.denied ≡ not c.covered
  pub paid : c.covered ≡ true → c.paid_at ≢ none

-- An entry is flagged exactly from three strikes on.
abbrev pub IsFlagged : BlocklistEntry → Type 0
IsFlagged entry = entry.flagged ≡ leb 3 entry.strikes

module _ ⦃g : Graph⦄ where
  open g use {Table, load, save, to_hex_string}

  abbrev pub IsListed : Db g → Type 0
  IsListed db = Every IsSettled db.claims × Every IsFlagged db.blocklist

  handle_verdict_accepted-claims :
      (e : Meta) (agent digest : Bytes) (outcome paid alibi : ℕ) (db : Db g)
      → Every IsSettled db.claims
      → Every IsSettled (Court.handle_verdict_accepted e agent digest outcome paid alibi db).claims
  unfolding Court.handle_verdict_accepted
  handle_verdict_accepted-claims e agent digest outcome paid alibi db all =
      elim (Bool-cases (outcome == 1 || outcome == 2)) [
        | inl claimed ↦
            rw claimed (Every-save IsSettled db.claims (to_hex_string digest) _ all (grind arith))
        | inr other ↦ rw other all
      ]

  handle_payout-claims :
      (e : Meta) (digest claimant : Bytes) (amount : ℕ) (db : Db g)
      → Every IsSettled db.claims
      → Every IsSettled (Pool.handle_payout e digest claimant amount db).claims
  unfolding Pool.handle_payout
  handle_payout-claims e digest claimant amount db all =
      elim (Option-cases (load db.claims (to_hex_string digest))) [
        | inl missing ↦ rw (missing, Pool.handle_payout) all
        | inr (c, found) ↦
            let old = subst (Sat IsSettled) found (all (to_hex_string digest)) in
            rw (found, Pool.handle_payout)
              (Every-save IsSettled db.claims (to_hex_string digest) _ all
                (record { exclusive = old.exclusive; paid = λ _ e. cc }))
      ]

  handle_cleared-blocklist :
      (destination : Bytes) (db : Db g)
      → Every IsFlagged db.blocklist
      → Every IsFlagged (Court.handle_cleared destination db).blocklist
  unfolding Court.handle_cleared
  handle_cleared-blocklist destination db all =
      elim (Option-cases (load db.blocklist (to_hex_string destination))) [
        | inl missing ↦ rw (missing, Court.handle_cleared) all
        | inr (entry, found) ↦
            rw (found, Court.handle_cleared)
              (Every-save IsFlagged db.blocklist (to_hex_string destination) _ all (ground arith))
      ]

  handle_cleared-claims :
      (destination : Bytes) (db : Db g)
      → Every IsSettled db.claims
      → Every IsSettled (Court.handle_cleared destination db).claims
  unfolding Court.handle_cleared
  handle_cleared-claims destination db all =
      elim (Option-cases (load db.blocklist (to_hex_string destination))) [
        | inl missing ↦ rw (missing, Court.handle_cleared) all
        | inr (entry, found) ↦ rw (found, Court.handle_cleared) all
      ]

  same_tables :
      (db db' : Db g)
      → db.claims ≡ db'.claims
      → db.blocklist ≡ db'.blocklist
      → IsListed db
      → IsListed db'
  same_tables db db' p q all = (subst (Every IsSettled) p all.0, subst (Every IsFlagged) q all.1)

  dispatch-IsListed :
      (e : Meta) (p : Params) (db db' : Db g)
      → dispatch e p db ≡ some db'
      → IsListed db
      → IsListed db'
  unfolding dispatch
  dispatch-IsListed e (verdict_accepted agent digest outcome paid alibi) db db' h all =
      rw (← some-injective _ _ h) (
        handle_verdict_accepted-claims e agent digest outcome paid alibi db all.0,
        unfold Court.handle_verdict_accepted in all.1,
      )
  dispatch-IsListed e (payout digest claimant amount) db db' h all =
      rw (← some-injective _ _ h)
        (handle_payout-claims e digest claimant amount db all.0, unfold Pool.handle_payout in all.1)
  dispatch-IsListed e (strike_recorded destination strikes) db db' h all =
      rw (← some-injective _ _ h) (
        unfold Court.handle_strike_recorded in
        (all.0, Every-save IsFlagged db.blocklist (to_hex_string destination) _ all.1 refl))
  dispatch-IsListed e (reported destination strikes evidence) db db' h all =
      rw (← some-injective _ _ h) (
        unfold Court.handle_reported in
        (all.0, Every-save IsFlagged db.blocklist (to_hex_string destination) _ all.1 refl))
  dispatch-IsListed e (cleared destination) db db' h all =
      rw (← some-injective _ _ h)
        (handle_cleared-claims destination db all.0, handle_cleared-blocklist destination db all.1)
  dispatch-IsListed e (policy_updated agent version hash none) db db' h all =
      unfold Registry.handle_policy_updated in same_tables db db' (ground arith) (ground arith) all
  dispatch-IsListed e (policy_updated agent version hash (some v)) db db' h all =
      unfold Registry.handle_policy_updated in same_tables db db' (ground arith) (ground arith) all
  dispatch-IsListed e p db db' h all =
      unfold Registry.handle_policy_revoked Guard.handle_executed_routine Guard.handle_classified
        Guard.handle_held Guard.handle_released Guard.handle_owner_decision Guard.handle_hold_lapsed
        Guard.handle_violation_blocked Guard.handle_guard_attempted_breach
        Guard.handle_authority_revoked Guard.handle_agent_key_rotated Guard.handle_withdrawn
        Guard.handle_received Court.handle_verdict_accepted Court.handle_attempted_breach_signal
        Court.handle_hold_verdict_routed Court.handle_reopened Court.handle_arbitration_concluded
        Court.handle_strike_recorded Court.handle_reported Court.handle_cleared
        Pool.handle_deposited Pool.handle_redeemed Pool.handle_payout Pool.handle_premium_recorded
        Pool.handle_loss_applied Pool.handle_reinsurance_hooked Pool.handle_usdc_transfer in
      same_tables db db' (ground arith) (ground arith) all

  -- After the replay of any log that does not trap, every claim is covered or denied and not both, a
  -- covered claim has a time of payment, and a blocklist entry is flagged exactly from three strikes on.
  pub replay-IsListed :
      (events : List Event) (db db' : Db g)
      → IsListed db
      → replay events db ≡ some db'
      → IsListed db'
  unfolding replay
  replay-IsListed [] db db' all h = rw (← some-injective _ _ h) all
  replay-IsListed (e ∷ es) db db' all h = elim (Option-cases (dispatch e.header e.params db)) [
    | inl trapped ↦ ground arith
    | inr (next, done) ↦
        replay-IsListed es next db' (dispatch-IsListed e.header e.params db next done all)
          (ground arith)
  ]
