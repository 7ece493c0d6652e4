-- ===== src/Resume/Fields.antt =====
-- packages/record/src/resume.ts: the fields of a resume and what it is built from. A text is the list
-- of its UTF-16 units.
use repayd.Common.{ℕ, String, Bool, Option, List, [], ◌∷◌, codes, Chars}

pub data Provenance : Type 0 where
  verified computed : Provenance

pub data FieldKey : Type 0 where
  insured driving claims alibi backing status : FieldKey

pub record ResumeField : Type 0 where
  pub key : FieldKey
  pub text : Chars
  pub provenance : Provenance

pub record Resume : Type 0 where
  pub insured_field : ResumeField
  pub driving_field : ResumeField
  pub claims_field : ResumeField
  pub alibi_field : ResumeField
  pub backing_field : ResumeField
  pub status_field : ResumeField

-- resume[key]
abbrev pub field_at : Resume → FieldKey → ResumeField
field_at r insured = r.insured_field
field_at r driving = r.driving_field
field_at r claims = r.claims_field
field_at r alibi = r.alibi_field
field_at r backing = r.backing_field
field_at r status = r.status_field

-- amounts of dollars are exact numbers of cents
pub record PolicyInput : Type 0 where
  pub version : ℕ
  pub cap_usd : ℕ
  pub pool_healthy : Bool

-- a multiplier is an exact number of hundredths
pub record DrivingInput : Type 0 where
  pub clean_days : ℕ
  pub score : ℕ
  pub premium_multiplier : Option ℕ

pub record ClaimsInput : Type 0 where
  pub covered : ℕ
  pub attempted : ℕ
  pub payouts_usd : List ℕ

pub record AlibiInput : Type 0 where
  pub installed : Bool
  pub instruction_chain_live : Bool

pub record ResumeInput : Type 0 where
  pub policy : PolicyInput
  pub driving : DrivingInput
  pub claims : ClaimsInput
  pub alibi : AlibiInput
  pub world_id_verified : Bool
  pub status : Chars

abbrev pub field_order : List FieldKey
field_order = insured ∷ driving ∷ claims ∷ alibi ∷ backing ∷ status ∷ []

abbrev pub field_label : FieldKey → Chars
field_label insured = codes "INSURED"
field_label driving = codes "DRIVING"
field_label claims = codes "CLAIMS"
field_label alibi = codes "ALIBI SDK"
field_label backing = codes "BACKING"
field_label status = codes "STATUS"

abbrev pub ens_text_key : FieldKey → String
ens_text_key insured = "com.bulwark.insured"
ens_text_key driving = "com.bulwark.driving"
ens_text_key claims = "com.bulwark.claims"
ens_text_key alibi = "com.bulwark.alibi"
ens_text_key backing = "com.bulwark.backing"
ens_text_key status = "com.bulwark.status"
