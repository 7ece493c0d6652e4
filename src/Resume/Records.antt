-- ===== src/Resume/Records.antt =====
-- packages/record/src/resume.ts: the rendered block, and the text records of ENS.
use repayd.Common.{
  ℕ, zero, suc, ◌-◌, ◌||◌, max, String, Bool, Option, none, some, List, [], ◌∷◌, ◌++◌, ◌==◌,
  if◌then◌else◌, str_eq, codes, codes_eq, length, map, trim_start, trim_end, is_empty, Chars,
}
use repayd.Resume.Fields.{
  Provenance, verified, computed, FieldKey, ResumeField, Resume, field_at, field_order, field_label,
  ens_text_key,
}

abbrev pub label_of : Provenance → Chars
label_of verified = codes "VERIFIED"
label_of computed = codes "COMPUTED"

abbrev pub spaces : ℕ → Chars
spaces zero = []
spaces (suc n) = 32 ∷ spaces n

abbrev pub pad_label : ℕ → Chars → Chars
pad_label width s = s ++ spaces (width - length s)

abbrev pub width_of : List FieldKey → ℕ
width_of [] = 0
width_of (k ∷ ks) = max (length (field_label k)) (width_of ks)

-- "text [PROVENANCE]"
unfoldable pub labelled : ResumeField → Chars
labelled f = f.text ++ (codes " [" ++ label_of f.provenance ++ codes "]")

abbrev pub render_line : ℕ → Resume → FieldKey → Chars
render_line width r k = pad_label width (field_label k) ++ codes ": " ++ labelled (field_at r k)

abbrev pub join_lines : List Chars → Chars
join_lines [] = []
join_lines (l ∷ []) = l
join_lines (l ∷ ls) = l ++ codes "\n" ++ join_lines ls

unfoldable pub render_resume : Resume → Chars
unfolding labelled
render_resume r = join_lines (map (render_line (width_of field_order) r) field_order)

-- the value of a key, "" or undefined when it has none
abbrev pub record_at : List (String × Chars) → String → Option Chars
record_at [] key = none
record_at ((k, v) ∷ rs) key = if str_eq k key then some v else record_at rs key

unfoldable pub to_ens_text_records : Resume → List (String × Chars)
unfolding labelled
to_ens_text_records r = map (λ k. (ens_text_key k, labelled (field_at r k))) field_order

-- a line terminator, which `.` does not match
abbrev pub is_terminator : ℕ → Bool
is_terminator c = c == 10 || c == 13 || c == 8232 || c == 8233

abbrev pub cons_text : ℕ → Option (Chars × Provenance) → Option (Chars × Provenance)
cons_text c none = none
cons_text c (some (text, p)) = some (c ∷ text, p)

-- /^(.*) \[(VERIFIED|COMPUTED)\]$/
unfoldable pub match_value : Chars → Option (Chars × Provenance)
unfolding codes_eq
match_value [] = none
match_value (c ∷ cs) =
    let rest = match_value cs in
    if codes_eq (c ∷ cs) (codes " [VERIFIED]")
    then some ([], verified)
    else if codes_eq (c ∷ cs) (codes " [COMPUTED]")
    then some ([], computed)
    else if is_terminator c
    then none
    else cons_text c rest

abbrev pub or_unlabelled : Chars → Option (Chars × Provenance) → Chars × Provenance
or_unlabelled value none = (value, computed)
or_unlabelled value (some m) = m

unfoldable pub parse_ens_text_value : Chars → Chars × Provenance
unfolding match_value
parse_ens_text_value value =
    let trimmed = trim_end (trim_start value) in or_unlabelled trimmed (match_value trimmed)

abbrev pub parse_record : Option Chars → Option (Chars × Provenance)
parse_record none = none
parse_record (some raw) = if is_empty raw then none else some (parse_ens_text_value raw)

-- the field of a key, if its record is there
unfoldable pub from_ens_text_records :
    List (String × Chars) → FieldKey → Option (Chars × Provenance)
unfolding parse_ens_text_value
from_ens_text_records records k = parse_record (record_at records (ens_text_key k))
