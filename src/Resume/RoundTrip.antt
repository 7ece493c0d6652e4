-- ===== src/Resume/RoundTrip.antt =====
-- packages/record/src/resume.ts: a text record is read back as the field that it was written from.
use repayd.Common.{
  ℕ, ◌<◌, ◌≡◌, refl, sym, ap, ◌∙◌, Bool, true, false, not, ◌&&◌, some, [], ◌∷◌, ◌++◌, if◌then◌else◌,
  codes, codes_eq, codes_eq_sound, every, length, length-append, ++-assoc, trim_start, trim_end,
  is_space, is_empty, Chars, Bool-cases, inl, inr, arith,
}
use repayd.Resume.Fields.{
  Provenance, verified, computed, FieldKey, insured, driving, claims, alibi, backing, status,
  ResumeField, Resume, field_at, ens_text_key,
}
use repayd.Resume.Records.{
  label_of, labelled, record_at, to_ens_text_records, is_terminator, match_value,
  parse_ens_text_value, from_ens_text_records,
}

-- one line of text
abbrev pub is_line : Chars → Bool
is_line s = every (λ c. not (is_terminator c)) s

abbrev pub starts_inked : Chars → Bool
starts_inked [] = false
starts_inked (c ∷ cs) = not (is_space c)

-- one line that starts with no white space
abbrev pub is_legible : Chars → Bool
is_legible s = is_line s && starts_inked s

abbrev suffix : Provenance → Chars
suffix p = codes " [" ++ label_of p ++ codes "]"

length-suffix : (p : Provenance) → length (suffix p) ≡ 11
length-suffix verified = refl
length-suffix computed = refl

differ : (xs ys : Chars) → length ys < length xs → codes_eq xs ys ≡ false
differ xs ys h = elim (Bool-cases (codes_eq xs ys)) [
  | inr e ↦ e
  | inl e ↦ absurd (omega (arith, h, ap (λ (s : Chars). length s) (codes_eq_sound xs ys e)))
]

match_value-suffix : (p : Provenance) → match_value (suffix p) ≡ some ([], p)
unfolding match_value
match_value-suffix verified = refl
match_value-suffix computed = refl

-- the value is matched where its text ends
match_value-append :
    (t : Chars) (p : Provenance) → is_line t ≡ true → match_value (t ++ suffix p) ≡ some (t, p)
unfolding match_value every
match_value-append [] p h = match_value-suffix p
match_value-append (c ∷ cs) p h =
    rw
      (
        differ (c ∷ (cs ++ suffix p)) (codes " [VERIFIED]") longer,
        differ (c ∷ (cs ++ suffix p)) (codes " [COMPUTED]") longer,
        no_terminator,
        match_value-append cs p rest,
      )
      refl
  where
    longer : 11 < length (c ∷ (cs ++ suffix p))
    longer = omega (arith, length-append cs (suffix p), length-suffix p)

    no_terminator : is_terminator c ≡ false
    no_terminator = left (is_terminator c) _ h
      where
        left : (a b : Bool) → (not a && b) ≡ true → a ≡ false
        left a b e = ground arith

    rest : is_line cs ≡ true
    rest = right (not (is_terminator c)) _ h
      where
        right : (a b : Bool) → (a && b) ≡ true → b ≡ true
        right a b e = ground arith

trim_end-snoc :
    (xs : Chars) (c : ℕ) → is_space c ≡ false → trim_end (xs ++ (c ∷ [])) ≡ xs ++ (c ∷ [])
trim_end-snoc [] c h = rw h refl
trim_end-snoc (x ∷ xs) c h = rw (trim_end-snoc xs c h, not_empty xs) (keep (is_space x))
  where
    not_empty : (ys : Chars) → is_empty (ys ++ (c ∷ [])) ≡ false
    not_empty [] = refl
    not_empty (y ∷ ys) = refl

    keep : (b : Bool) → (if b && false then [] else x ∷ (xs ++ (c ∷ []))) ≡ x ∷ (xs ++ (c ∷ []))
    keep true = refl
    keep false = refl

trimmed :
    (t : Chars) (p : Provenance)
    → starts_inked t ≡ true
    → trim_end (trim_start (t ++ suffix p)) ≡ t ++ suffix p
trimmed [] p h = absurd (ground arith)
trimmed (c ∷ cs) p h = rw (inked (is_space c) h) (
    sym (ap (λ (s : Chars). trim_end s) assoc)
    ∙ trim_end-snoc ((c ∷ cs) ++ (codes " [" ++ label_of p)) b']' refl
    ∙ assoc)
  where
    inked : (b : Bool) → not b ≡ true → b ≡ false
    inked b e = ground arith

    assoc : ((c ∷ cs) ++ (codes " [" ++ label_of p)) ++ (b']' ∷ []) ≡ (c ∷ cs) ++ suffix p
    assoc = ++-assoc (c ∷ cs) (codes " [" ++ label_of p) (b']' ∷ [])

parse_ens_text_value-labelled :
    (f : ResumeField)
    → is_legible f.text ≡ true
    → parse_ens_text_value (labelled f) ≡ (f.text, f.provenance)
unfolding parse_ens_text_value labelled
parse_ens_text_value-labelled f h =
    let (line, inked) = both (is_line f.text) (starts_inked f.text) h in
    rw (trimmed f.text f.provenance inked, match_value-append f.text f.provenance line) refl
  where
    both : (a b : Bool) → (a && b) ≡ true → (a ≡ true) × (b ≡ true)
    both a b e = ground arith

not_empty_value : (f : ResumeField) → is_empty (labelled f) ≡ false
unfolding labelled
not_empty_value f = go f.text
  where
    go : (t : Chars) → is_empty (t ++ suffix f.provenance) ≡ false
    go [] = refl
    go (c ∷ cs) = refl

record_at-to_ens_text_records :
    (r : Resume) (k : FieldKey)
    → record_at (to_ens_text_records r) (ens_text_key k) ≡ some (labelled (field_at r k))
unfolding to_ens_text_records
record_at-to_ens_text_records r insured = refl
record_at-to_ens_text_records r driving = refl
record_at-to_ens_text_records r claims = refl
record_at-to_ens_text_records r alibi = refl
record_at-to_ens_text_records r backing = refl
record_at-to_ens_text_records r status = refl

-- A field of any resume whose text is one line that starts with no white space is read back from the
-- resume's ENS text records, with its text and its provenance.
pub from_ens_text_records-to_ens_text_records :
    (r : Resume) (k : FieldKey)
    → is_legible (field_at r k).text ≡ true
    → from_ens_text_records (to_ens_text_records r) k
      ≡ some ((field_at r k).text, (field_at r k).provenance)
unfolding from_ens_text_records
from_ens_text_records-to_ens_text_records r k h =
    rw
      (
        record_at-to_ens_text_records r k,
        not_empty_value (field_at r k),
        parse_ens_text_value-labelled (field_at r k) h,
      )
      refl
