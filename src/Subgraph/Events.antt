-- ===== src/Subgraph/Events.antt =====
-- The events of packages/subgraph, their dispatch to the handlers of src/mapping.ts, and the replay
-- of an event log. Handlers with an empty body are one constructor, `wiring`.
use repayd.Common.{ℕ, Bool, Option, none, some, List, [], ◌∷◌}
use repayd.Subgraph.Graph.{Graph, Bytes}
use repayd.Subgraph.Entities.{Db, Meta}
use repayd.Subgraph.Guard
use repayd.Subgraph.Registry
use repayd.Subgraph.Registry.{PolicyView}
use repayd.Subgraph.Court
use repayd.Subgraph.Pool

-- the parameters of an event, in the order of its handler's
pub data Params : Type 0 where
  policy_updated : Bytes → ℕ → Bytes → Option PolicyView → Params
  policy_revoked : Bytes → Params
  executed_routine : Bytes → ℕ → Params
  classified : ℕ → Bytes → ℕ → Bytes → Params
  held : ℕ → Bytes → ℕ → ℕ → Params
  released : ℕ → Params
  owner_decision : ℕ → ℕ → Bytes → Params
  hold_lapsed : ℕ → ℕ → Params
  violation_blocked : Bytes → Bytes → ℕ → Params
  guard_attempted_breach : Params
  authority_revoked : Params
  agent_key_rotated : Params
  withdrawn : Bytes → ℕ → Params
  received : Bytes → ℕ → Params
  verdict_accepted : Bytes → Bytes → ℕ → ℕ → ℕ → Params
  attempted_breach_signal : Bytes → Bytes → Params
  hold_verdict_routed : ℕ → Bool → Params
  reopened : Bytes → Params
  arbitration_concluded : Bytes → Bool → Params
  strike_recorded : Bytes → ℕ → Params
  reported : Bytes → ℕ → Bytes → Params
  cleared : Bytes → Params
  deposited : Bytes → ℕ → ℕ → Params
  redeemed : Bytes → ℕ → ℕ → Params
  payout : Bytes → Bytes → ℕ → Params
  premium_recorded : Bytes → ℕ → Params
  loss_applied : ℕ → ℕ → ℕ → ℕ → Params
  reinsurance_hooked : ℕ → Params
  usdc_transfer : Bytes → Bytes → ℕ → Params
  wiring : Params

pub record Event : Type 0 where
  pub header : Meta
  pub params : Params

module _ ⦃g : Graph⦄ where
  -- `none` is a handler that traps.
  unfoldable pub dispatch : Meta → Params → Db g → Option (Db g)
  dispatch e (policy_updated agent version hash view) db =
      Registry.handle_policy_updated e agent version hash view db
  dispatch e (policy_revoked agent) db = some (Registry.handle_policy_revoked e agent db)
  dispatch e (executed_routine to amount) db = some (Guard.handle_executed_routine e to amount db)
  dispatch e (classified tier to amount tag) db =
      some (Guard.handle_classified e tier to amount tag db)
  dispatch e (held hold_id to amount release_at) db =
      some (Guard.handle_held e hold_id to amount release_at db)
  dispatch e (released hold_id) db = some (Guard.handle_released e hold_id db)
  dispatch e (owner_decision hold_id decision actor) db =
      some (Guard.handle_owner_decision e hold_id decision actor db)
  dispatch e (hold_lapsed hold_id extended_to) db =
      some (Guard.handle_hold_lapsed e hold_id extended_to db)
  dispatch e (violation_blocked tag to amount) db =
      some (Guard.handle_violation_blocked e tag to amount db)
  dispatch e guard_attempted_breach db = some (Guard.handle_guard_attempted_breach e db)
  dispatch e authority_revoked db = some (Guard.handle_authority_revoked e db)
  dispatch e agent_key_rotated db = some (Guard.handle_agent_key_rotated e db)
  dispatch e (withdrawn to amount) db = some (Guard.handle_withdrawn e to amount db)
  dispatch e (received from value) db = some (Guard.handle_received e from value db)
  dispatch e (verdict_accepted agent digest outcome paid alibi) db =
      some (Court.handle_verdict_accepted e agent digest outcome paid alibi db)
  dispatch e (attempted_breach_signal agent tx_hash) db =
      some (Court.handle_attempted_breach_signal e agent tx_hash db)
  dispatch e (hold_verdict_routed hold_id clean) db =
      some (Court.handle_hold_verdict_routed e hold_id clean db)
  dispatch e (reopened digest) db = some (Court.handle_reopened digest db)
  dispatch e (arbitration_concluded digest overturned) db =
      some (Court.handle_arbitration_concluded digest overturned db)
  dispatch e (strike_recorded destination strikes) db =
      some (Court.handle_strike_recorded destination strikes db)
  dispatch e (reported destination strikes evidence) db =
      some (Court.handle_reported e destination strikes evidence db)
  dispatch e (cleared destination) db = some (Court.handle_cleared destination db)
  dispatch e (deposited depositor tranche assets) db =
      some (Pool.handle_deposited e depositor tranche assets db)
  dispatch e (redeemed depositor tranche assets) db =
      some (Pool.handle_redeemed e depositor tranche assets db)
  dispatch e (payout digest claimant amount) db =
      some (Pool.handle_payout e digest claimant amount db)
  dispatch e (premium_recorded agent amount) db =
      some (Pool.handle_premium_recorded e agent amount db)
  dispatch e (loss_applied amount junior senior reinsurance) db =
      some (Pool.handle_loss_applied e amount junior senior reinsurance db)
  dispatch e (reinsurance_hooked attachment) db =
      some (Pool.handle_reinsurance_hooked e attachment db)
  dispatch e (usdc_transfer from to value) db = some (Pool.handle_usdc_transfer e from to value db)
  dispatch e wiring db = some db

  unfoldable pub replay : List Event → Db g → Option (Db g)
  replay [] db = some db
  replay (event ∷ events) db = elim (dispatch event.header event.params db) [
    | none ↦ none
    | some db' ↦ replay events db'
  ]

  open g use {no_entities}

  abbrev pub genesis : Db g
  genesis = record {
    agents = no_entities;
    policies = no_entities;
    recipient_caps = no_entities;
    transactions = no_entities;
    holds = no_entities;
    verdicts = no_entities;
    claims = no_entities;
    blocklist = no_entities;
    reports = no_entities;
    transfers = no_entities;
    flows = no_entities;
    pools = no_entities;
  }
