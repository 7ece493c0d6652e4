-- ===== src/Engine/Verdict.antt =====
-- packages/engine/src/types.ts: what the engine judges, and the verdict that it emits.
use repayd.Common.{ℕ, String, Bool, Option, List, ℤ, if◌then◌else◌}

pub data Provenance : Type 0 where
  verified computed : Provenance

pub data Tier : Type 0 where
  routine elevated violation : Tier

pub data Alibi : Type 0 where
  unknown external owner_signed : Alibi

pub data Outcome : Type 0 where
  none covered denied_owner_origin attempted_breach dismissed : Outcome

pub data HoldAction : Type 0 where
  release freeze none : HoldAction

pub data Origin : Type 0 where
  owner_console job web tool : Origin

pub record InstructionRecord : Type 0 where
  pub digest : String
  pub origin : Origin
  pub owner_signed : Bool
  pub timestamp : ℕ
  pub tee_cosigned : Bool
  pub prev : String

pub record Transaction : Type 0 where
  pub to : String
  pub amount : ℕ
  pub tx_hash : String
  pub block_timestamp : ℕ
  pub calldata : String
  pub instruction : Option InstructionRecord

-- A narrative line is kept as its pieces, before the numbers are printed.
pub data Piece : Type 0 where
  text : String → Piece
  number : ℕ → Piece
  thousandths : ℕ → Piece
  quotient : ℕ → ℕ → Piece

pub record Reason : Type 0 where
  pub tag : String
  pub provenance : Provenance
  pub detail : List Piece

pub record BehavioralFacts : Type 0 where
  pub recipient_first_seen : Option ℕ
  pub recipient_on_blocklist_strikes : ℕ
  pub known_drainer_calldata : Bool
  pub hour_of_day_history : List ℕ
  pub amount_history : List ℕ

pub record Verdict : Type 0 where
  pub tier : Tier
  pub outcome : Outcome
  pub alibi : Alibi
  pub payout_amount : ℤ
  pub loss_amount : ℕ
  pub reasons : List Reason
  pub hold_action : HoldAction

-- the alibi of an instruction record, if there is one
abbrev pub alibi_of : Option InstructionRecord → Alibi
alibi_of Option.none = Alibi.unknown
alibi_of (Option.some i) = if i.owner_signed then Alibi.owner_signed else Alibi.external
