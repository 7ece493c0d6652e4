-- ===== src/Subgraph/Entities.antt =====
-- The entities of packages/subgraph, and the database of one deployment. The id of an entity is the
-- key under which its table holds it. A field that a handler may leave null is an Option.
use repayd.Common.{ℕ, String, Bool, Option, ℤ}
use repayd.Subgraph.Graph.{Graph, Bytes}

pub record Agent : Type 0 where
  pub guard_address : Bytes
  pub streak : ℕ
  pub premium_multiplier : String
  pub total_routine_tx : ℕ
  pub total_attempts : ℕ
  pub last_routine_at : Option ℕ
  pub last_incident_at : Option ℕ

-- the fields of a policy that are read from the registry's view
pub record Terms : Type 0 where
  pub owner : Bytes
  pub cap : ℕ
  pub per_tx : ℕ
  pub daily : ℕ
  pub velocity : ℕ
  pub deductible_bps : ℕ
  pub curfew_start : ℕ
  pub curfew_end : ℕ
  pub hold_window_sec : ℕ
  pub sdk_installed : Bool

pub record Policy : Type 0 where
  pub agent : String
  pub version : ℕ
  pub policy_hash : Bytes
  pub terms : Option Terms
  pub revoked : Bool
  pub revoked_at : Option ℕ
  pub created_at : ℕ
  pub updated_at : ℕ

pub record RecipientCap : Type 0 where
  pub policy : String
  pub recipient : Bytes
  pub cap : ℕ

pub record Transaction : Type 0 where
  pub agent : String
  pub tx_hash : Bytes
  pub to : Bytes
  pub amount : ℕ
  pub tx_tier : ℕ
  pub tag : Bytes
  pub executed : Bool
  pub block_timestamp : ℕ

pub record Hold : Type 0 where
  pub agent : String
  pub transaction : String
  pub to : Bytes
  pub amount : ℕ
  pub release_at : ℕ
  pub extended_to : ℕ
  pub status : ℕ
  pub created_at : ℕ
  pub resolved_at : Option ℕ
  pub resolved_by : Option Bytes

pub record Verdict : Type 0 where
  pub agent : String
  pub policy : Option String
  pub outcome : ℕ
  pub payout : ℕ
  pub alibi : ℕ
  pub digest : Bytes
  pub accepted_at : ℕ
  pub reopen_count : ℕ

pub record Claim : Type 0 where
  pub verdict : String
  pub agent : String
  pub claimant : Bytes
  pub payout : ℕ
  pub covered : Bool
  pub denied : Bool
  pub paid_at : Option ℕ
  pub block_timestamp : ℕ

pub record BlocklistEntry : Type 0 where
  pub destination : Bytes
  pub strikes : ℕ
  pub flagged : Bool
  pub cleared : Bool
  pub evidence : Option Bytes

pub record Report : Type 0 where
  pub entry : String
  pub evidence : Bytes
  pub reporter : Bytes
  pub block_timestamp : ℕ

pub record Transfer : Type 0 where
  pub from : Bytes
  pub to : Bytes
  pub value : ℕ
  pub block_timestamp : ℕ

pub data FlowType : Type 0 where
  deposit redeem payout premium loss reinsurance withdrawn received : FlowType

pub record PoolFlow : Type 0 where
  pub flow_type : FlowType
  pub amount : ℕ
  pub tranche : Option ℕ
  pub depositor : Option Bytes
  pub claimant : Option Bytes
  pub agent : Option Bytes
  pub digest : Option Bytes
  pub junior_loss : Option ℕ
  pub senior_loss : Option ℕ
  pub reinsurance_loss : Option ℕ
  pub block_timestamp : ℕ

-- Capital is signed: a redemption or a loss is subtracted with no test.
pub record PoolState : Type 0 where
  pub junior_capital : ℤ
  pub senior_capital : ℤ
  pub premium_pool : ℕ
  pub total_payouts : ℕ
  pub claim_count : ℕ
  pub updated_at : ℕ

pub record Db (g : Graph) : Type 0 where
  pub agents : g.Table Agent
  pub policies : g.Table Policy
  pub recipient_caps : g.Table RecipientCap
  pub transactions : g.Table Transaction
  pub holds : g.Table Hold
  pub verdicts : g.Table Verdict
  pub claims : g.Table Claim
  pub blocklist : g.Table BlocklistEntry
  pub reports : g.Table Report
  pub transfers : g.Table Transfer
  pub flows : g.Table PoolFlow
  pub pools : g.Table PoolState

-- what every event carries
pub record Meta : Type 0 where
  pub address : Bytes
  pub transaction_hash : Bytes
  pub log_index : ℕ
  pub timestamp : ℕ
