-- ===== src/Erc8004/Entities.antt =====
-- The entities of packages/subgraph/erc8004 and the events of the three registries that they mirror.
use repayd.Common.{ℕ, String, Bool, Option, ℤ}
use repayd.Subgraph.Graph.{Graph, Bytes}

pub record Erc8004Agent : Type 0 where
  pub owner : Bytes
  pub agent_uri : String
  pub wallet : Bytes
  pub registered_at : ℕ
  pub last_activity_at : ℕ

pub record Erc8004Feedback : Type 0 where
  pub agent : String
  pub client : Bytes
  pub feedback_index : ℕ
  pub value : ℤ
  pub value_decimals : ℕ
  pub tag1 : String
  pub tag2 : String
  pub endpoint : String
  pub feedback_uri : String
  pub feedback_hash : Bytes
  pub is_revoked : Bool
  pub revoked_at : Option ℕ
  pub block_timestamp : ℕ

pub record Erc8004Validation : Type 0 where
  pub agent : String
  pub validator : Bytes
  pub request_uri : String
  pub response : Option ℕ
  pub response_hash : Bytes
  pub response_uri : String
  pub tag : String
  pub requested_at : ℕ
  pub responded_at : Option ℕ
  pub block_timestamp : ℕ

pub record NewFeedback : Type 0 where
  pub agent_id : ℕ
  pub client_address : Bytes
  pub feedback_index : ℕ
  pub value : ℤ
  pub value_decimals : ℕ
  pub tag1 : String
  pub tag2 : String
  pub endpoint : String
  pub feedback_uri : String
  pub feedback_hash : Bytes

pub record ValidationRequest : Type 0 where
  pub validator_address : Bytes
  pub agent_id : ℕ
  pub request_uri : String
  pub request_hash : Bytes

pub record ValidationResponse : Type 0 where
  pub validator_address : Bytes
  pub agent_id : ℕ
  pub request_hash : Bytes
  pub response : ℕ
  pub response_uri : String
  pub response_hash : Bytes
  pub tag : String

-- the parameters of an event
pub data Params : Type 0 where
  registered : ℕ → String → Bytes → Params
  uri_updated : ℕ → String → Params
  metadata_set : ℕ → String → Bytes → Params
  new_feedback : NewFeedback → Params
  feedback_revoked : ℕ → Bytes → ℕ → Params
  validation_request : ValidationRequest → Params
  validation_response : ValidationResponse → Params

pub record Event : Type 0 where
  pub timestamp : ℕ
  pub params : Params

pub record Db (g : Graph) : Type 0 where
  pub agents : g.Table Erc8004Agent
  pub feedbacks : g.Table Erc8004Feedback
  pub validations : g.Table Erc8004Validation
