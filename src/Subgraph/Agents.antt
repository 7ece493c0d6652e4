-- ===== src/Subgraph/Agents.antt =====
-- loadAgent and noteIncident of packages/subgraph/src/mapping.ts.
use repayd.Common.{
  ℕ, ◌+◌, String, ◌≡◌, ◌∙◌, none, some, if◌then◌else◌, str_eq, str_eq_iff, Option-cases, Bool-cases,
  inl, inr,
}
use repayd.Subgraph.Graph.{Graph, Bytes}
use repayd.Subgraph.Entities.{Agent, Meta}

module _ ⦃g : Graph⦄ where
  open g use {Table, load, save, load-save, to_hex_string, concat_i32}

  -- eventId
  unfoldable pub event_id : Meta → String
  event_id event = to_hex_string (concat_i32 event.transaction_hash event.log_index)

  abbrev pub new_agent : Bytes → Agent
  new_agent address = record {
    guard_address = address;
    streak = 0;
    premium_multiplier = "1";
    total_routine_tx = 0;
    total_attempts = 0;
    last_routine_at = none;
    last_incident_at = none;
  }

  -- the agent that `loadAgent` returns, and the table in which it has saved a new one
  unfoldable pub agent_of : Bytes → Table Agent → Agent
  agent_of address agents = elim (load agents (to_hex_string address)) [
    | none ↦ new_agent address
    | some agent ↦ agent
  ]

  unfoldable pub load_agent : Bytes → Table Agent → Table Agent
  load_agent address agents = elim (load agents (to_hex_string address)) [
    | none ↦ save agents (to_hex_string address) (new_agent address)
    | some agent ↦ agents
  ]

  unfoldable pub incident : ℕ → Agent → Agent
  incident timestamp agent = record agent {
    streak = 0;
    last_incident_at = some timestamp;
    total_attempts = agent.total_attempts + 1;
  }

  -- const agent = loadAgent(address); noteIncident(agent, timestamp);
  unfoldable pub note_incident : Bytes → ℕ → Table Agent → Table Agent
  note_incident address timestamp agents =
      save (load_agent address agents) (to_hex_string address)
        (incident timestamp (agent_of address agents))

  -- `loadAgent` leaves every agent as it is, but for a new one.
  pub load-load_agent :
      (address : Bytes) (agents : Table Agent) (id : String)
      → load (load_agent address agents) id ≡ (
          if str_eq (to_hex_string address) id
          then some (agent_of address agents)
          else load agents id)
  unfolding load_agent agent_of
  load-load_agent address agents id =
      let key = to_hex_string address in
      elim (Option-cases (load agents key)) [
        | inl e ↦ rw (e, load_agent, agent_of) (load-save agents key id (new_agent address))
        | inr (a, e) ↦
            rw (e, load_agent, agent_of)
              (elim (Bool-cases (str_eq key id)) [
                | inl same ↦ rw (same, ← (str_eq_iff key id).0 same) e
                | inr other ↦ rw other
              ])
      ]

  pub load-save_agent :
      (address : Bytes) (agents : Table Agent) (id : String) (a : Agent)
      → load (save (load_agent address agents) (to_hex_string address) a) id
        ≡ (if str_eq (to_hex_string address) id then some a else load agents id)
  load-save_agent address agents id a =
      let key = to_hex_string address in
      load-save (load_agent address agents) key id a ∙ elim (Bool-cases (str_eq key id)) [
        | inl same ↦ rw same
        | inr other ↦ rw other (load-load_agent address agents id ∙ rw other)
      ]
