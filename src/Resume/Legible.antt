-- ===== src/Resume/Legible.antt =====
-- packages/record/src/resume.ts: the texts that buildResume writes are single lines.
use repayd.Common.{
  ℕ, zero, suc, ◌/◌, ◌%◌, ◌<◌, ◌≡◌, refl, Bool, true, false, not, ◌&&◌, Option, none, some, [], ◌∷◌,
  ◌++◌, if◌then◌else◌, ltb, ◌==◌, codes, every, length, digit, digits, pad_start, zeros, ◌-◌, Chars,
  arith,
}
use native.Mathlib.Nat.{mod-lt}
use repayd.Common.{ltb→lt}
use repayd.Resume.Fields.{
  FieldKey, insured, driving, claims, alibi, backing, status, field_at, PolicyInput, DrivingInput,
  ClaimsInput, AlibiInput, ResumeInput,
}
use repayd.Resume.Build.{
  number, grouped, two_digits, usd, multiplier, dot, insured_text, premium_part, driving_text, sum,
  payouts_part, covered_part, attempted_part, claims_text, alibi_text, backing_text, build_resume,
}
use repayd.Resume.Records.{to_ens_text_records, from_ens_text_records, is_terminator}
use repayd.Resume.RoundTrip.{
  is_line, starts_inked, is_legible, from_ens_text_records-to_ens_text_records,
}

-- texts that are one line, and those that also start with no white space
record Line (s : Chars) : Type 0 where
  line : is_line s ≡ true

record Legible (s : Chars) : Type 0 where
  legible : is_legible s ≡ true

written : (s : Chars) → is_line s ≡ true → Line s
written s h = record { line = h }

printed : (s : Chars) → is_legible s ≡ true → Legible s
printed s h = record { legible = h }

both : (a b : Bool) → (a && b) ≡ true → (a ≡ true) × (b ≡ true)
both a b e = ground arith

join : (a b : Bool) → a ≡ true → b ≡ true → (a && b) ≡ true
join a b e f = ground arith

is_line-append : (s t : Chars) → is_line s ≡ true → is_line t ≡ true → is_line (s ++ t) ≡ true
unfolding every
is_line-append [] t h k = k
is_line-append (c ∷ cs) t h k =
    let (first, rest) = both (not (is_terminator c)) (is_line cs) h in
    join (not (is_terminator c)) (is_line (cs ++ t)) first (is_line-append cs t rest k)

is_legible-append :
    (s t : Chars) → is_legible s ≡ true → is_line t ≡ true → is_legible (s ++ t) ≡ true
unfolding every
is_legible-append [] t h k = absurd (ground (arith, h))
is_legible-append (c ∷ cs) t h k =
    let (line, inked) = both (is_line (c ∷ cs)) (starts_inked (c ∷ cs)) h in
    join (is_line ((c ∷ cs) ++ t)) (starts_inked (c ∷ cs)) (is_line-append (c ∷ cs) t line k) inked

Line-append : (s t : Chars) → Line s → Line t → Line (s ++ t)
Line-append s t h k = written (s ++ t) (is_line-append s t h.line k.line)

Legible-append : (s t : Chars) → Legible s → Line t → Legible (s ++ t)
Legible-append s t h k = printed (s ++ t) (is_legible-append s t h.legible k.line)

Line-Legible : (s : Chars) → Legible s → Line s
Line-Legible s h = written s (both (is_line s) (starts_inked s) h.legible).0

digit-Legible : (d : ℕ) → d < 10 → Legible (digit d ∷ [])
unfolding digit every
digit-Legible d h = printed (digit d ∷ []) (ground arith)

digits-Legible : (fuel n : ℕ) → Legible (digits 10 fuel n)
unfolding digits
digits-Legible zero n = digit-Legible (n % 10) (mod-lt n (omega arith))
digits-Legible (suc fuel) n = go (digits-Legible fuel (n / 10)) (ltb n 10) refl
  where
    go :
        Legible (digits 10 fuel (n / 10))
        → (b : Bool) → ltb n 10 ≡ b
        → Legible (elim b [
          | true ↦ digit n ∷ []
          | false ↦ digits 10 fuel (n / 10) ++ (digit (n % 10) ∷ [])
        ])
    go rest true small = digit-Legible n (ltb→lt n 10 small)
    go rest false large =
        Legible-append (digits 10 fuel (n / 10)) (digit (n % 10) ∷ []) rest
          (Line-Legible (digit (n % 10) ∷ []) (digit-Legible (n % 10) (mod-lt n (omega arith))))

number-Line : (n : ℕ) → Line (number n)
number-Line n = Line-Legible (number n) (digits-Legible n n)

zeros-Line : (k : ℕ) → Line (zeros k)
unfolding zeros every
zeros-Line zero = written [] refl
zeros-Line (suc k) = written (zeros (suc k)) (zeros-Line k).line

pad_start-Line : (n : ℕ) (s : Chars) → Line s → Line (pad_start n s)
unfolding pad_start
pad_start-Line n s h = Line-append (zeros (n - length s)) s (zeros-Line (n - length s)) h

grouped-Line : (s : Chars) → Line s → Line (grouped s)
unfolding grouped every
grouped-Line [] h = written [] refl
grouped-Line (c ∷ cs) h =
    let (first, rest) = both (not (is_terminator c)) (is_line cs) h.line in
    go (length cs % 3 == 0) (length cs == 0) first (grouped-Line cs (written cs rest)).line
  where
    go :
        (a b : Bool)
        → not (is_terminator c) ≡ true
        → is_line (grouped cs) ≡ true
        → Line (if a then (if b then c ∷ [] else c ∷ b',' ∷ grouped cs) else c ∷ grouped cs)
    go true true k l = written _ (rw k refl)
    go true false k l = written _ (rw k l)
    go false b k l = written _ (rw k l)

two_digits-Line : (n : ℕ) → Line (two_digits n)
two_digits-Line n = pad_start-Line 2 (number n) (number-Line n)

if-Line : (b : Bool) (s t : Chars) → Line s → Line t → Line (if b then s else t)
if-Line true s t h k = h
if-Line false s t h k = k

usd-Line : (cents : ℕ) → Line (usd cents)
unfolding usd every
usd-Line cents = if-Line (cents % 100 == 0) _ _ whole (
    Line-append _ (two_digits (cents % 100)) (Line-append _ (codes ".") whole (written _ refl))
      (two_digits-Line (cents % 100)))
  where
    whole : Line (codes "$" ++ grouped (number (cents / 100)))
    whole =
        Line-append (codes "$") (grouped (number (cents / 100))) (written _ refl)
          (grouped-Line (number (cents / 100)) (number-Line (cents / 100)))

insured_text-Legible : (p : PolicyInput) → Legible (insured_text p)
unfolding insured_text every
insured_text-Legible p =
    Legible-append _ (if p.pool_healthy then codes "pool healthy" else codes "pool under strain")
      (Legible-append _ dot
        (Legible-append _ (usd p.cap_usd)
          (Legible-append _ (codes " · cap ")
            (Legible-append (codes "yes · policy v") (number p.version) (printed _ refl)
              (number-Line p.version))
            (written _ refl))
          (usd-Line p.cap_usd))
        (written _ refl))
      (if-Line p.pool_healthy (codes "pool healthy") (codes "pool under strain") (written _ refl)
        (written _ refl))

multiplier-Line : (x : ℕ) → Line (multiplier x)
unfolding multiplier every
multiplier-Line x =
    Line-append _ (codes "x")
      (Line-append _ (two_digits (x % 100))
        (Line-append (number (x / 100)) (codes ".") (number-Line (x / 100)) (written _ refl))
        (two_digits-Line (x % 100)))
      (written _ refl)

premium_part-Line : (o : Option ℕ) → Line (premium_part o)
unfolding every
premium_part-Line none = (written _ refl)
premium_part-Line (some x) =
    Line-append (dot ++ codes "premium ") (multiplier x) (written _ refl) (multiplier-Line x)

driving_text-Legible : (d : DrivingInput) → Legible (driving_text d)
unfolding driving_text every
driving_text-Legible d =
    Legible-append _ (premium_part d.premium_multiplier)
      (Legible-append _ (codes "-day clean streak")
        (Legible-append _ (number d.clean_days)
          (Legible-append (number d.score) (codes "/100 · ") (digits-Legible d.score d.score)
            (written _ refl))
          (number-Line d.clean_days))
        (written _ refl))
      (premium_part-Line d.premium_multiplier)

payouts_part-Line : (total : ℕ) → Line (payouts_part total)
unfolding every
payouts_part-Line total =
    if-Line (ltb 0 total) _ []
      (Line-append _ (codes ")")
        (Line-append (codes " (") (usd total) (written _ refl) (usd-Line total)) (written _ refl))
      (written _ refl)

if-Legible : (b : Bool) (s t : Chars) → Legible s → Legible t → Legible (if b then s else t)
if-Legible true s t h k = h
if-Legible false s t h k = k

covered_part-Legible : (c : ClaimsInput) → Legible (covered_part c)
unfolding every
covered_part-Legible c =
    if-Legible (ltb 0 c.covered) _ (codes "0 covered")
      (Legible-append _ (payouts_part (sum 0 c.payouts_usd))
        (Legible-append (number c.covered) (codes " covered") (digits-Legible c.covered c.covered)
          (written _ refl))
        (payouts_part-Line (sum 0 c.payouts_usd)))
      (printed _ refl)

attempted_part-Line : (n : ℕ) → Line (attempted_part n)
unfolding every
attempted_part-Line n =
    if-Line (ltb 0 n) _ (codes "0 attempted")
      (Line-append (number n) (codes " attempted (frozen, no loss)") (number-Line n)
        (written _ refl))
      (written _ refl)

claims_text-Legible : (c : ClaimsInput) → Legible (claims_text c)
unfolding claims_text every
claims_text-Legible c =
    Legible-append _ (attempted_part c.attempted)
      (Legible-append (covered_part c) dot (covered_part-Legible c) (written _ refl))
      (attempted_part-Line c.attempted)

alibi_text-Legible : (a : AlibiInput) → Legible (alibi_text a)
unfolding alibi_text every
alibi_text-Legible a =
    if-Legible a.installed _ (codes "not installed")
      (if-Legible a.instruction_chain_live (codes "installed (instruction chain live)")
        (codes "installed (instruction chain not yet live)") (printed _ refl) (printed _ refl))
      (printed _ refl)

backing_text-Legible : (b : Bool) → Legible (backing_text b)
unfolding backing_text every
backing_text-Legible b =
    if-Legible b (codes "World-ID verified human") (codes "unverified backing") (printed _ refl)
      (printed _ refl)

build_resume-Legible :
    (input : ResumeInput) (k : FieldKey)
    → Legible input.status
    → Legible (field_at (build_resume input) k).text
unfolding build_resume
build_resume-Legible input insured h = insured_text-Legible input.policy
build_resume-Legible input driving h = driving_text-Legible input.driving
build_resume-Legible input claims h = claims_text-Legible input.claims
build_resume-Legible input alibi h = alibi_text-Legible input.alibi
build_resume-Legible input backing h = backing_text-Legible input.world_id_verified
build_resume-Legible input status h = h

-- Whatever a resume is built from, if its status is one line that starts with no white space, each of
-- its fields is read back from its ENS text records with its text and its provenance.
pub from_ens_text_records-build_resume :
    (input : ResumeInput) (k : FieldKey)
    → is_legible input.status ≡ true
    → from_ens_text_records (to_ens_text_records (build_resume input)) k
      ≡ some ((field_at (build_resume input) k).text, (field_at (build_resume input) k).provenance)
from_ens_text_records-build_resume input k h =
    from_ens_text_records-to_ens_text_records (build_resume input) k
      (build_resume-Legible input k (printed input.status h)).legible
