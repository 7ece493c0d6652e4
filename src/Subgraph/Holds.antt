-- ===== src/Subgraph/Holds.antt =====
-- The life of a hold in packages/subgraph/src/mapping.ts.
use mathlib.Core.Path.{subst}
use mathlib.Core.Option.{some-injective}
use repayd.Common.{
  ℕ, ◌≡◌, ◌≢◌, ◌≤◌, ◌↔◌, Bool, true, false, Option, none, some, List, [], ◌∷◌, arith, Option-cases,
  inl, inr,
}
use repayd.Subgraph.Graph.{Graph, Bytes}
use repayd.Subgraph.Entities.{Hold, Db, Meta}
use repayd.Subgraph.Guard
use repayd.Subgraph.Registry
use repayd.Subgraph.Guard.{hold_pending, hold_auto_frozen, resolve, status_of_decision}
use repayd.Subgraph.Court
use repayd.Subgraph.Pool
use repayd.Subgraph.Events.{
  Event, Params, dispatch, replay, policy_updated, held, released, owner_decision, hold_lapsed,
  hold_verdict_routed,
}
use repayd.Subgraph.Every.{Sat, Every, Every-save}

-- A hold has a known status; it is pending exactly as long as no time and no actor resolved it.
pub record IsConsistent (h : Hold) : Type 0 where
  pub known : h.status ≤ hold_auto_frozen
  pub pending : (h.status ≡ hold_pending) ↔ (h.resolved_at ≡ none)
  pub actor : (h.resolved_at ≡ none) ↔ (h.resolved_by ≡ none)

resolve-IsConsistent :
    (status timestamp : ℕ) (actor : Bytes) (h : Hold)
    → 0 ≢ status
    → status ≤ hold_auto_frozen
    → IsConsistent (resolve status timestamp actor h)
resolve-IsConsistent status timestamp actor h ne le = grind arith

status_range : (d : ℕ) → (0 ≢ status_of_decision d) × (status_of_decision d ≤ hold_auto_frozen)
unfolding status_of_decision
status_range d = ground arith

module _ ⦃g : Graph⦄ where
  open g use {Table, load, save, to_string}

  abbrev HoldsConsistent : Db g → Type 0
  HoldsConsistent db = Every IsConsistent db.holds

  handle_held-holds :
      (e : Meta) (hold_id : ℕ) (to : Bytes) (amount release_at : ℕ) (db : Db g)
      → load db.holds (to_string hold_id) ≡ none
      → HoldsConsistent db
      → HoldsConsistent (Guard.handle_held e hold_id to amount release_at db)
  unfolding Guard.handle_held
  handle_held-holds e hold_id to amount release_at db new all =
      rw new (Every-save IsConsistent db.holds (to_string hold_id) _ all (grind arith))

  -- a handler that rewrites a hold, if it is there
  rewrite-holds :
      (id : _) (db : Db g) (f : Hold → Hold)
      → ((h : Hold) → IsConsistent h → IsConsistent (f h))
      → HoldsConsistent db
      → (h : Hold) → load db.holds id ≡ some h
      → Every IsConsistent (save db.holds id (f h))
  rewrite-holds id db f keep all h found =
      Every-save IsConsistent db.holds id (f h) all
        (keep h (subst (Sat IsConsistent) found (all id)))

  handle_released-holds :
      (e : Meta) (hold_id : ℕ) (db : Db g)
      → HoldsConsistent db
      → HoldsConsistent (Guard.handle_released e hold_id db)
  unfolding Guard.handle_released
  handle_released-holds e hold_id db all = elim (Option-cases (load db.holds (to_string hold_id))) [
    | inl missing ↦ rw (missing, Guard.handle_released) all
    | inr (h, found) ↦
        rw (found, Guard.handle_released)
          (rewrite-holds _ db _
            (λ h _. resolve-IsConsistent 1 e.timestamp e.address h (omega arith) (omega arith)) all
            h found)
  ]

  handle_owner_decision-holds :
      (e : Meta) (hold_id decision : ℕ) (actor : Bytes) (db : Db g)
      → HoldsConsistent db
      → HoldsConsistent (Guard.handle_owner_decision e hold_id decision actor db)
  unfolding Guard.handle_owner_decision
  handle_owner_decision-holds e hold_id decision actor db all =
      elim (Option-cases (load db.holds (to_string hold_id))) [
        | inl missing ↦ rw (missing, Guard.handle_owner_decision) all
        | inr (h, found) ↦
            let range = status_range decision in
            rw (found, Guard.handle_owner_decision)
              (rewrite-holds _ db _
                (λ h _. resolve-IsConsistent _ e.timestamp actor h range.0 range.1) all h found)
      ]

  handle_hold_lapsed-holds :
      (e : Meta) (hold_id extended_to : ℕ) (db : Db g)
      → HoldsConsistent db
      → HoldsConsistent (Guard.handle_hold_lapsed e hold_id extended_to db)
  unfolding Guard.handle_hold_lapsed
  handle_hold_lapsed-holds e hold_id extended_to db all =
      elim (Option-cases (load db.holds (to_string hold_id))) [
        | inl missing ↦ rw (missing, Guard.handle_hold_lapsed) all
        | inr (h, found) ↦
            rw (found, Guard.handle_hold_lapsed)
              (rewrite-holds _ db (λ h. record h { extended_to = extended_to })
                (λ h c. record { known = c.known; pending = c.pending; actor = c.actor }) all h
                found)
      ]

  handle_hold_verdict_routed-holds :
      (e : Meta) (hold_id : ℕ) (clean : Bool) (db : Db g)
      → HoldsConsistent db
      → HoldsConsistent (Court.handle_hold_verdict_routed e hold_id clean db)
  unfolding Court.handle_hold_verdict_routed
  handle_hold_verdict_routed-holds e hold_id true db all =
      elim (Option-cases (load db.holds (to_string hold_id))) [
        | inl missing ↦ rw (missing, Court.handle_hold_verdict_routed) all
        | inr (h, found) ↦ rw (found, Court.handle_hold_verdict_routed) all
      ]
  handle_hold_verdict_routed-holds e hold_id false db all =
      elim (Option-cases (load db.holds (to_string hold_id))) [
        | inl missing ↦ rw (missing, Court.handle_hold_verdict_routed) all
        | inr (h, found) ↦
            rw (found, Court.handle_hold_verdict_routed)
              (rewrite-holds _ db _
                (λ h _. resolve-IsConsistent 2 e.timestamp e.address h (omega arith) (omega arith))
                all h found)
      ]

  -- a Held event names a hold that is not there yet
  abbrev pub IsNewHold : Params → Db g → Type 0
  IsNewHold (held hold_id to amount release_at) db = load db.holds (to_string hold_id) ≡ none
  IsNewHold _ db = Unit

  -- so does each Held event of a log, when its turn comes
  abbrev pub OpensNew : List Event → Option (Db g) → Type 0
  OpensNew [] (some db) = Unit
  OpensNew (e ∷ es) (some db) = IsNewHold e.params db × OpensNew es (dispatch e.header e.params db)
  OpensNew events none = Unit

  dispatch-holds :
      (e : Meta) (p : Params) (db db' : Db g)
      → IsNewHold p db
      → dispatch e p db ≡ some db'
      → HoldsConsistent db
      → HoldsConsistent db'
  unfolding dispatch
  dispatch-holds e (held hold_id to amount release_at) db db' new h all =
      rw (← some-injective _ _ h) (handle_held-holds e hold_id to amount release_at db new all)
  dispatch-holds e (released hold_id) db db' new h all =
      rw (← some-injective _ _ h) (handle_released-holds e hold_id db all)
  dispatch-holds e (owner_decision hold_id decision actor) db db' new h all =
      rw (← some-injective _ _ h) (handle_owner_decision-holds e hold_id decision actor db all)
  dispatch-holds e (hold_lapsed hold_id extended_to) db db' new h all =
      rw (← some-injective _ _ h) (handle_hold_lapsed-holds e hold_id extended_to db all)
  dispatch-holds e (hold_verdict_routed hold_id clean) db db' new h all =
      rw (← some-injective _ _ h) (handle_hold_verdict_routed-holds e hold_id clean db all)
  dispatch-holds e (policy_updated agent version hash none) db db' new h all =
      subst (Every IsConsistent) (same h) all
    where
      same :
          dispatch e (policy_updated agent version hash none) db ≡ some db' → db.holds ≡ db'.holds
      same h = unfold Registry.handle_policy_updated in ground arith
  dispatch-holds e (policy_updated agent version hash (some v)) db db' new h all =
      subst (Every IsConsistent) (same h) all
    where
      same :
          dispatch e (policy_updated agent version hash (some v)) db ≡ some db'
          → db.holds ≡ db'.holds
      same h = unfold Registry.handle_policy_updated in ground arith
  dispatch-holds e p db db' new h all = subst (Every IsConsistent) (same h) all
    where
      same : dispatch e p db ≡ some db' → db.holds ≡ db'.holds
      same h =
          unfold Registry.handle_policy_revoked Guard.handle_executed_routine
            Guard.handle_classified Guard.handle_held Guard.handle_released
            Guard.handle_owner_decision Guard.handle_hold_lapsed Guard.handle_violation_blocked
            Guard.handle_guard_attempted_breach Guard.handle_authority_revoked
            Guard.handle_agent_key_rotated Guard.handle_withdrawn Guard.handle_received
            Court.handle_verdict_accepted Court.handle_attempted_breach_signal
            Court.handle_hold_verdict_routed Court.handle_reopened
            Court.handle_arbitration_concluded Court.handle_strike_recorded Court.handle_reported
            Court.handle_cleared Pool.handle_deposited Pool.handle_redeemed Pool.handle_payout
            Pool.handle_premium_recorded Pool.handle_loss_applied Pool.handle_reinsurance_hooked
            Pool.handle_usdc_transfer in
          ground arith

  -- Say that a database is consistent when each of its holds has a known status, is pending exactly as
  -- long as it has no resolution time, and has a resolving actor exactly when it has that time. A
  -- consistent database, as the empty one is, is consistent after the replay of any log that does not
  -- trap and in which each Held event names a hold that is not there yet.
  pub replay-holds :
      (events : List Event) (db db' : Db g)
      → HoldsConsistent db
      → OpensNew events (some db)
      → replay events db ≡ some db'
      → HoldsConsistent db'
  unfolding replay
  replay-holds [] db db' all new h = rw (← some-injective _ _ h) all
  replay-holds (e ∷ es) db db' all new h = elim (Option-cases (dispatch e.header e.params db)) [
    | inl trapped ↦ ground arith
    | inr (next, done) ↦
        replay-holds es next db' (dispatch-holds e.header e.params db next new.0 done all)
          (subst (OpensNew es) done new.1) (ground arith)
  ]
