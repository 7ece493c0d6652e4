-- ===== src/Erc8004/Mapping.antt =====
-- The handlers of packages/subgraph/erc8004/src/mapping.ts.
use repayd.Common.{
  ℕ, suc, zero, String, true, false, not, Option, none, some, List, [], ◌∷◌, leb, if◌then◌else◌,
  length, str_eq,
}
use repayd.Subgraph.Graph.{Graph, Bytes, kept_field}
use repayd.Erc8004.Entities.{
  Erc8004Agent, Erc8004Feedback, Erc8004Validation, NewFeedback, ValidationRequest,
  ValidationResponse, registered, uri_updated, metadata_set, new_feedback, feedback_revoked,
  validation_request, validation_response, Event, Db,
}

abbrev pub zero_bytes : ℕ → Bytes
zero_bytes zero = []
zero_bytes (suc n) = 0 ∷ zero_bytes n

abbrev pub zero_address : Bytes
zero_address = zero_bytes 20

abbrev pub zero_bytes32 : Bytes
zero_bytes32 = zero_bytes 32

abbrev pub first_bytes : ℕ → Bytes → Bytes
first_bytes zero bs = []
first_bytes (suc n) [] = []
first_bytes (suc n) (b ∷ bs) = b ∷ first_bytes n bs

unfoldable pub wallet_from_metadata_value : Bytes → Bytes
wallet_from_metadata_value value =
    if leb 20 (length value) then first_bytes 20 value else zero_address

unfoldable pub new_agent : ℕ → Erc8004Agent
new_agent timestamp = record {
  owner = zero_address;
  agent_uri = "";
  wallet = zero_address;
  registered_at = timestamp;
  last_activity_at = timestamp;
}

abbrev pub agent_or_new : ℕ → Option Erc8004Agent → Erc8004Agent
agent_or_new timestamp none = new_agent timestamp
agent_or_new timestamp (some agent) = agent

module _ ⦃g : Graph⦄ where
  open g use {Table, load, save, to_hex_string, to_string, concat}

  unfoldable pub load_agent : ℕ → ℕ → Table Erc8004Agent → Erc8004Agent
  load_agent id timestamp agents = agent_or_new timestamp (load agents (to_string id))

  -- the agent is saved with the time of its last activity
  unfoldable pub touch : String → Erc8004Agent → ℕ → Table Erc8004Agent → Table Erc8004Agent
  touch id agent timestamp agents = save agents id (record agent { last_activity_at = timestamp })

  -- an agent that is there is changed and touched
  abbrev pub touch_with :
      (Erc8004Agent → Erc8004Agent)
      → String
      → ℕ
      → Option Erc8004Agent
      → Table Erc8004Agent
      → Table Erc8004Agent
  touch_with change id timestamp none agents = agents
  touch_with change id timestamp (some agent) agents = touch id (change agent) timestamp agents

  unfoldable pub handle_registered : ℕ → ℕ → String → Bytes → Db g → Db g
  handle_registered timestamp id uri owner db =
      let agent : Erc8004Agent = record {
        owner = owner;
        agent_uri = uri;
        wallet = owner;
        registered_at = timestamp;
        last_activity_at = timestamp;
      } in
      record db { agents = save db.agents (to_string id) agent }

  unfoldable pub handle_uri_updated : ℕ → ℕ → String → Db g → Db g
  handle_uri_updated timestamp id uri db = record db {
    agents =
        touch_with (λ agent. record agent { agent_uri = uri }) (to_string id) timestamp
          (load db.agents (to_string id)) db.agents;
  }

  unfoldable pub handle_metadata_set : ℕ → ℕ → String → Bytes → Db g → Db g
  handle_metadata_set timestamp id key value db =
      if not (str_eq key "agentWallet") then db else record db {
        agents =
            touch_with (λ agent. record agent { wallet = wallet_from_metadata_value value })
              (to_string id) timestamp (load db.agents (to_string id)) db.agents;
      }

  abbrev pub feedback_id : ℕ → Bytes → ℕ → String
  feedback_id agent client index =
      concat (to_string agent)
        (concat "-" (concat (to_hex_string client) (concat "-" (to_string index))))

  -- agent.save(), and touch after the entity that refers to it
  abbrev pub saved_agent : ℕ → ℕ → Table Erc8004Agent → Table Erc8004Agent
  saved_agent id timestamp agents =
      let agent = load_agent id timestamp agents in
      touch (to_string id) agent timestamp (save agents (to_string id) agent)

  -- over the one that is stored, if one is
  abbrev pub posted_feedback : ℕ → NewFeedback → Option Erc8004Feedback → Erc8004Feedback
  posted_feedback timestamp e stored = record {
    agent = to_string e.agent_id;
    client = e.client_address;
    feedback_index = e.feedback_index;
    value = e.value;
    value_decimals = e.value_decimals;
    tag1 = e.tag1;
    tag2 = e.tag2;
    endpoint = e.endpoint;
    feedback_uri = e.feedback_uri;
    feedback_hash = e.feedback_hash;
    is_revoked = false;
    revoked_at = kept_field (λ fb. fb.revoked_at) stored;
    block_timestamp = timestamp;
  }

  abbrev pub requested_validation :
      ℕ → ValidationRequest → Option Erc8004Validation → Erc8004Validation
  requested_validation timestamp e stored = record {
    agent = to_string e.agent_id;
    validator = e.validator_address;
    request_uri = e.request_uri;
    response = kept_field (λ v. v.response) stored;
    response_hash = zero_bytes32;
    response_uri = "";
    tag = "";
    requested_at = timestamp;
    responded_at = none;
    block_timestamp = timestamp;
  }

  abbrev pub answered_validation : ℕ → ValidationResponse → Erc8004Validation
  answered_validation timestamp e = record {
    agent = to_string e.agent_id;
    validator = e.validator_address;
    request_uri = "";
    response = some e.response;
    response_hash = e.response_hash;
    response_uri = e.response_uri;
    tag = e.tag;
    requested_at = timestamp;
    responded_at = some timestamp;
    block_timestamp = timestamp;
  }

  unfoldable pub handle_new_feedback : ℕ → NewFeedback → Db g → Db g
  handle_new_feedback timestamp e db = record db {
    feedbacks = save db.feedbacks (feedback_id e.agent_id e.client_address e.feedback_index) (
        posted_feedback timestamp e
          (load db.feedbacks (feedback_id e.agent_id e.client_address e.feedback_index)));
    agents = saved_agent e.agent_id timestamp db.agents;
  }

  abbrev pub revoke : ℕ → String → Option Erc8004Feedback → Db g → Db g
  revoke timestamp id none db = db
  revoke timestamp id (some fb) db = record db {
    feedbacks = save db.feedbacks id (record fb { is_revoked = true; revoked_at = some timestamp });
    agents = touch_with (λ agent. agent) fb.agent timestamp (load db.agents fb.agent) db.agents;
  }

  unfoldable pub handle_feedback_revoked : ℕ → ℕ → Bytes → ℕ → Db g → Db g
  handle_feedback_revoked timestamp agent client index db =
      revoke timestamp (feedback_id agent client index)
        (load db.feedbacks (feedback_id agent client index)) db

  unfoldable pub handle_validation_request : ℕ → ValidationRequest → Db g → Db g
  handle_validation_request timestamp e db = record db {
    validations =
        save db.validations (to_hex_string e.request_hash)
          (requested_validation timestamp e (load db.validations (to_hex_string e.request_hash)));
    agents = saved_agent e.agent_id timestamp db.agents;
  }

  -- the response to a request that is not there, or that is
  abbrev pub respond : ℕ → ValidationResponse → Option Erc8004Validation → Db g → Db g
  respond timestamp e none db = record db {
    validations =
        save db.validations (to_hex_string e.request_hash) (answered_validation timestamp e);
    agents = saved_agent e.agent_id timestamp db.agents;
  }
  respond timestamp e (some v) db = record db {
    validations = save db.validations (to_hex_string e.request_hash) (record v {
      response = some e.response;
      response_uri = e.response_uri;
      response_hash = e.response_hash;
      tag = e.tag;
      responded_at = some timestamp;
    });
    agents = touch_with (λ agent. agent) v.agent timestamp (load db.agents v.agent) db.agents;
  }

  unfoldable pub handle_validation_response : ℕ → ValidationResponse → Db g → Db g
  handle_validation_response timestamp e db =
      respond timestamp e (load db.validations (to_hex_string e.request_hash)) db

  unfoldable pub handle : Event → Db g → Db g
  handle event db = elim event.params [
    | registered id uri owner ↦ handle_registered event.timestamp id uri owner db
    | uri_updated id uri ↦ handle_uri_updated event.timestamp id uri db
    | metadata_set id key value ↦ handle_metadata_set event.timestamp id key value db
    | new_feedback e ↦ handle_new_feedback event.timestamp e db
    | feedback_revoked id client index ↦ handle_feedback_revoked event.timestamp id client index db
    | validation_request e ↦ handle_validation_request event.timestamp e db
    | validation_response e ↦ handle_validation_response event.timestamp e db
  ]

  unfoldable pub replay : List Event → Db g → Db g
  unfolding handle
  replay [] db = db
  replay (e ∷ es) db = replay es (handle e db)

  open g use {no_entities}

  abbrev pub genesis : Db g
  genesis = record { agents = no_entities; feedbacks = no_entities; validations = no_entities }
