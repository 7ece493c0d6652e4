-- ===== src/Subgraph/Guard.antt =====
-- The handlers of packages/subgraph/src/mapping.ts for the GuardAccount.
use repayd.Common.{ℕ, ◌+◌, String, Bool, true, false, Option, none, some, [], ◌==◌, if◌then◌else◌}
use repayd.Subgraph.Graph.{Graph, Bytes, kept_field}
use repayd.Subgraph.Entities.{
  Agent, Transaction, Hold, PoolFlow, FlowType, withdrawn, received, Db, Meta,
}
use repayd.Subgraph.Agents.{event_id, load_agent, agent_of, note_incident}

abbrev pub hold_pending : ℕ
hold_pending = 0

abbrev pub hold_released : ℕ
hold_released = 1

abbrev pub hold_frozen : ℕ
hold_frozen = 2

abbrev pub hold_owner_approved : ℕ
hold_owner_approved = 3

abbrev pub hold_owner_frozen : ℕ
hold_owner_frozen = 4

abbrev pub hold_owner_frozen_rotated : ℕ
hold_owner_frozen_rotated = 5

abbrev pub hold_watcher_frozen : ℕ
hold_watcher_frozen = 6

abbrev pub hold_auto_frozen : ℕ
hold_auto_frozen = 7

-- h.status, h.resolvedAt and h.resolvedBy
abbrev pub resolve : ℕ → ℕ → Bytes → Hold → Hold
resolve status timestamp actor h = record h {
  status = status;
  resolved_at = some timestamp;
  resolved_by = some actor;
}

-- the ladder on `event.params.decision`
unfoldable pub status_of_decision : ℕ → ℕ
status_of_decision d =
    if d == 0
    then hold_owner_approved
    else if d == 1
    then hold_owner_frozen
    else if d == 2
    then hold_owner_frozen_rotated
    else if d == 0xff
    then hold_watcher_frozen
    else if d == 0xfe
    then hold_auto_frozen
    else hold_frozen

-- a flow with none of the optional fields
abbrev pub bare_flow : FlowType → ℕ → ℕ → PoolFlow
bare_flow flow_type amount timestamp = record {
  flow_type = flow_type;
  amount = amount;
  tranche = none;
  depositor = none;
  claimant = none;
  agent = none;
  digest = none;
  junior_loss = none;
  senior_loss = none;
  reinsurance_loss = none;
  block_timestamp = timestamp;
}

module _ ⦃g : Graph⦄ where
  open g use {Table, load, save, to_hex_string, to_string, concat}

  -- new Transaction(eventId(event)), filled and saved
  unfoldable pub record_transaction :
      Meta → Bytes → Bytes → ℕ → ℕ → Bytes → Bool → Table Transaction → Table Transaction
  record_transaction event agent to amount tier tag executed table =
      save table (event_id event) (record {
        agent = to_hex_string agent;
        tx_hash = event.transaction_hash;
        to = to;
        amount = amount;
        tx_tier = tier;
        tag = tag;
        executed = executed;
        block_timestamp = event.timestamp;
      })

  -- streak, totalRoutineTx and lastRoutineAt
  unfoldable pub note_routine : Bytes → ℕ → Table Agent → Table Agent
  note_routine address timestamp agents =
      let agent = agent_of address agents in
      save (load_agent address agents) (to_hex_string address) (record agent {
        streak = agent.streak + 1;
        total_routine_tx = agent.total_routine_tx + 1;
        last_routine_at = some timestamp;
      })

  unfoldable pub handle_executed_routine : Meta → Bytes → ℕ → Db g → Db g
  handle_executed_routine event to amount db = record db {
    agents = note_routine event.address event.timestamp db.agents;
    transactions = record_transaction event event.address to amount 0 [] true db.transactions;
  }

  unfoldable pub handle_classified : Meta → ℕ → Bytes → ℕ → Bytes → Db g → Db g
  handle_classified event tier to amount tag db = if tier == 0 then db else record db {
    agents =
        if tier == 2
        then note_incident event.address event.timestamp db.agents
        else load_agent event.address db.agents;
    transactions = record_transaction event event.address to amount tier tag false db.transactions;
  }

  unfoldable pub handle_held : Meta → ℕ → Bytes → ℕ → ℕ → Db g → Db g
  handle_held event hold_id to amount release_at db = record db {
    agents = load_agent event.address db.agents;
    transactions = record_transaction event event.address to amount 1 [] false db.transactions;
    holds = save db.holds (to_string hold_id) (record {
      agent = to_hex_string event.address;
      transaction = event_id event;
      to = to;
      amount = amount;
      release_at = release_at;
      extended_to = 0;
      status = hold_pending;
      created_at = event.timestamp;
      resolved_at = kept_field (λ h. h.resolved_at) (load db.holds (to_string hold_id));
      resolved_by = kept_field (λ h. h.resolved_by) (load db.holds (to_string hold_id));
    });
  }

  abbrev mark_executed : Option Transaction → String → Table Transaction → Table Transaction
  mark_executed none id table = table
  mark_executed (some t) id table = save table id (record t { executed = true })

  unfoldable pub handle_released : Meta → ℕ → Db g → Db g
  handle_released event hold_id db =
      let id = to_string hold_id in
      elim (load db.holds id) [
        | none ↦ db
        | some h ↦ record db {
          holds = save db.holds id (resolve hold_released event.timestamp event.address h);
          transactions =
              mark_executed (load db.transactions h.transaction) h.transaction db.transactions;
        }
      ]

  unfoldable pub handle_owner_decision : Meta → ℕ → ℕ → Bytes → Db g → Db g
  handle_owner_decision event hold_id decision actor db =
      let id = to_string hold_id in
      elim (load db.holds id) [
        | none ↦ db
        | some h ↦ record db {
          holds = save db.holds id (resolve (status_of_decision decision) event.timestamp actor h);
        }
      ]

  unfoldable pub handle_hold_lapsed : Meta → ℕ → ℕ → Db g → Db g
  handle_hold_lapsed event hold_id extended_to db =
      let id = to_string hold_id in
      elim (load db.holds id) [
        | none ↦ db
        | some h ↦ record db { holds = save db.holds id (record h { extended_to = extended_to }) }
      ]

  unfoldable pub handle_violation_blocked : Meta → Bytes → Bytes → ℕ → Db g → Db g
  handle_violation_blocked event tag to amount db = record db {
    agents = note_incident event.address event.timestamp db.agents;
    transactions = record_transaction event event.address to amount 2 tag false db.transactions;
  }

  unfoldable pub handle_guard_attempted_breach : Meta → Db g → Db g
  handle_guard_attempted_breach event db = record db {
    agents = note_incident event.address event.timestamp db.agents;
  }

  unfoldable pub handle_authority_revoked : Meta → Db g → Db g
  handle_authority_revoked event db = record db {
    agents = note_incident event.address event.timestamp db.agents;
  }

  unfoldable pub handle_agent_key_rotated : Meta → Db g → Db g
  handle_agent_key_rotated event db =
      let agents = load_agent event.address db.agents in
      record db {
        agents = save agents (to_hex_string event.address) (agent_of event.address db.agents);
      }

  unfoldable pub handle_withdrawn : Meta → Bytes → ℕ → Db g → Db g
  handle_withdrawn event to amount db = record db {
    agents = load_agent event.address db.agents;
    flows = save db.flows (event_id event) (record (bare_flow withdrawn amount event.timestamp) {
      digest = kept_field (λ f. f.digest) (load db.flows (event_id event));
      claimant = some to;
      agent = some (agent_of event.address db.agents).guard_address;
    });
  }

  unfoldable pub handle_received : Meta → Bytes → ℕ → Db g → Db g
  handle_received event from value db = record db {
    agents = load_agent event.address db.agents;
    flows = save db.flows (event_id event) (record (bare_flow received value event.timestamp) {
      digest = kept_field (λ f. f.digest) (load db.flows (event_id event));
      depositor = some from;
      agent = some (agent_of event.address db.agents).guard_address;
    });
  }
