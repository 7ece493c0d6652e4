-- ===== src/Resume/Build.antt =====
-- packages/record/src/resume.ts: buildResume and the texts of its fields.
use repayd.Common.{
  ℕ, ◌+◌, ◌/◌, ◌%◌, Bool, Option, none, some, List, [], ◌∷◌, ◌++◌, ltb, ◌==◌, if◌then◌else◌, codes,
  digits, pad_start, length, Chars,
}
use repayd.Resume.Fields.{
  verified, computed, insured, driving, claims, alibi, backing, status, Resume, PolicyInput,
  DrivingInput, ClaimsInput, AlibiInput, ResumeInput,
}

abbrev pub number : ℕ → Chars
number n = digits 10 n n

-- the separators of thousands: one before each digit that a multiple of three digits follows
unfoldable pub grouped : Chars → Chars
grouped [] = []
grouped (c ∷ cs) =
    let rest = grouped cs in
    if length cs % 3 == 0 then (if length cs == 0 then c ∷ [] else c ∷ b',' ∷ rest) else c ∷ rest

abbrev pub two_digits : ℕ → Chars
two_digits n = pad_start 2 (number n)

-- an amount of cents
unfoldable pub usd : ℕ → Chars
unfolding grouped
usd cents =
    let whole = codes "$" ++ grouped (number (cents / 100)) in
    if cents % 100 == 0 then whole else whole ++ codes "." ++ two_digits (cents % 100)

-- a number of hundredths, toFixed(2)
unfoldable pub multiplier : ℕ → Chars
multiplier x = number (x / 100) ++ codes "." ++ two_digits (x % 100) ++ codes "x"

abbrev pub dot : Chars
dot = codes " · "

unfoldable pub insured_text : PolicyInput → Chars
unfolding usd
insured_text p =
    codes "yes · policy v"
    ++ number p.version
    ++ codes " · cap "
    ++ usd p.cap_usd
    ++ dot
    ++ (if p.pool_healthy then codes "pool healthy" else codes "pool under strain")

abbrev pub premium_part : Option ℕ → Chars
premium_part none = []
premium_part (some x) = dot ++ codes "premium " ++ multiplier x

unfoldable pub driving_text : DrivingInput → Chars
unfolding multiplier
driving_text d =
    number d.score
    ++ codes "/100 · "
    ++ number d.clean_days
    ++ codes "-day clean streak"
    ++ premium_part d.premium_multiplier

abbrev pub sum : ℕ → List ℕ → ℕ
sum total [] = total
sum total (x ∷ xs) = sum (total + x) xs

abbrev pub payouts_part : ℕ → Chars
payouts_part total = if ltb 0 total then codes " (" ++ usd total ++ codes ")" else []

abbrev pub covered_part : ClaimsInput → Chars
covered_part c =
    if ltb 0 c.covered
    then number c.covered ++ codes " covered" ++ payouts_part (sum 0 c.payouts_usd)
    else codes "0 covered"

abbrev pub attempted_part : ℕ → Chars
attempted_part n =
    if ltb 0 n then number n ++ codes " attempted (frozen, no loss)" else codes "0 attempted"

unfoldable pub claims_text : ClaimsInput → Chars
unfolding usd
claims_text c = covered_part c ++ dot ++ attempted_part c.attempted

unfoldable pub alibi_text : AlibiInput → Chars
alibi_text a =
    if a.installed
    then (if a.instruction_chain_live
        then codes "installed (instruction chain live)"
        else codes "installed (instruction chain not yet live)")
    else codes "not installed"

unfoldable pub backing_text : Bool → Chars
backing_text world_id_verified =
    if world_id_verified then codes "World-ID verified human" else codes "unverified backing"

unfoldable pub build_resume : ResumeInput → Resume
unfolding insured_text driving_text claims_text alibi_text backing_text
build_resume input = record {
  insured_field = record { key = insured; text = insured_text input.policy; provenance = verified };
  driving_field = record {
    key = driving;
    text = driving_text input.driving;
    provenance = computed;
  };
  claims_field = record { key = claims; text = claims_text input.claims; provenance = verified };
  alibi_field = record { key = alibi; text = alibi_text input.alibi; provenance = verified };
  backing_field = record {
    key = backing;
    text = backing_text input.world_id_verified;
    provenance = verified;
  };
  status_field = record { key = status; text = input.status; provenance = verified };
}
