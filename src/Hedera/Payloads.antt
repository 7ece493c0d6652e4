-- ===== src/Hedera/Payloads.antt =====
-- packages/hedera/src/payloads.ts: buildResumePayload.
use repayd.Common.{◌≡◌, refl, String, true, none, List, [], ◌∷◌, map, codes, Chars}
use repayd.Resume.Fields.{
  FieldKey, insured, driving, claims, alibi, backing, status, ResumeField, ResumeInput, field_at,
  field_order,
}
use repayd.Resume.Build.{build_resume}
use repayd.Resume.Records.{labelled, render_resume, from_ens_text_records}

abbrev pub payload_input : ResumeInput
payload_input = record {
  policy = record { version = 1; cap_usd = 250000; pool_healthy = true };
  driving = record { clean_days = 1; score = 100; premium_multiplier = none };
  claims = record { covered = 1; attempted = 1; payouts_usd = 13500 ∷ [] };
  alibi = record { installed = true; instruction_chain_live = true };
  world_id_verified = true;
  status = codes "ACTIVE since 2026-09-11";
}

-- the keys of the resume object
abbrev pub key_name : FieldKey → String
key_name insured = "INSURED"
key_name driving = "DRIVING"
key_name claims = "CLAIMS"
key_name alibi = "ALIBI"
key_name backing = "BACKING"
key_name status = "STATUS"

pub record ResumePayload : Type 0 where
  pub ens : String
  pub ens_text_records : List (String × Chars)
  pub block : Chars
  pub fields : List ResumeField

unfoldable pub build_resume_payload : String → ResumePayload
unfolding build_resume labelled render_resume
build_resume_payload ens =
    let resume = build_resume payload_input in
    record {
      ens = ens;
      ens_text_records = map (λ k. (key_name k, labelled (field_at resume k))) field_order;
      block = render_resume resume;
      fields = map (field_at resume) field_order;
    }

-- The records of the resume payload are under the names of the fields, not under their ENS keys:
-- fromEnsTextRecords finds no field in them.
pub from_ens_text_records-build_resume_payload :
    (ens : String) (k : FieldKey)
    → from_ens_text_records (build_resume_payload ens).ens_text_records k ≡ none
unfolding from_ens_text_records build_resume_payload
from_ens_text_records-build_resume_payload ens insured = refl
from_ens_text_records-build_resume_payload ens driving = refl
from_ens_text_records-build_resume_payload ens claims = refl
from_ens_text_records-build_resume_payload ens alibi = refl
from_ens_text_records-build_resume_payload ens backing = refl
from_ens_text_records-build_resume_payload ens status = refl
