-- ===== src/Resume/Examples.antt =====
-- Tests of packages/record on a resume, its rendered block and its text records.
use repayd.Common.{◌≡◌, refl, true, some, [], ◌∷◌, codes, digit, digits, pad_start, zeros, every}
use repayd.Resume.Fields.{driving, ResumeInput, field_at}
use repayd.Resume.Build.{grouped, usd, multiplier, insured_text, driving_text, build_resume}
use repayd.Resume.Records.{to_ens_text_records, from_ens_text_records}
use repayd.Resume.RoundTrip.{is_legible}
use repayd.Resume.Legible.{from_ens_text_records-build_resume}

abbrev input : ResumeInput
input = record {
  policy = record { version = 4; cap_usd = 250000; pool_healthy = true };
  driving = record { clean_days = 179; score = 94; premium_multiplier = some 72 };
  claims = record { covered = 1; attempted = 1; payouts_usd = 13550 ∷ [] };
  alibi = record { installed = true; instruction_chain_live = true };
  world_id_verified = true;
  status = codes "ACTIVE";
}

amount : usd 123456750 ≡ codes "$1,234,567.50"
unfolding usd grouped digits digit pad_start zeros
amount = refl

insured_line : insured_text input.policy ≡ codes "yes · policy v4 · cap $2,500 · pool healthy"
unfolding insured_text usd grouped digits digit pad_start zeros
insured_line = refl

driving_line : driving_text input.driving ≡ codes "94/100 · 179-day clean streak · premium 0.72x"
unfolding driving_text multiplier digits digit pad_start zeros
driving_line = refl

status_legible : is_legible input.status ≡ true
unfolding every
status_legible = refl

from_ens_text_records-build_resume_example :
    from_ens_text_records (to_ens_text_records (build_resume input)) driving
    ≡ some (
      (field_at (build_resume input) driving).text,
      (field_at (build_resume input) driving).provenance,
    )
from_ens_text_records-build_resume_example =
    from_ens_text_records-build_resume input driving status_legible
