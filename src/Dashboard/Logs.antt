-- ===== src/Dashboard/Logs.antt =====
-- packages/dashboard/src/run-manager.ts: the tail of a run's log, without secrets. A line is the list
-- of its UTF-16 units.
use repayd.Common.{
  trim_start, is_empty, trim_end, ℕ, suc, zero, ◌-◌, Bool, true, false, ◌&&◌, ◌||◌, Option, none,
  some, List, [], ◌∷◌, ◌++◌, map, ltb, leb, ◌==◌, if◌then◌else◌, codes, length, any, to_lower,
  Chars,
}
use repayd.Dashboard.Run.{Run}

abbrev pub take : ℕ → List ℕ → List ℕ
take zero xs = []
take (suc n) [] = []
take (suc n) (x ∷ xs) = x ∷ take n xs

abbrev pub drop {ℓ} : {A : Type ℓ} → ℕ → List A → List A
drop zero xs = xs
drop (suc n) [] = []
drop (suc n) (x ∷ xs) = drop n xs

-- where the scan for /\x1b\[[0-9;]*m/ is: outside, behind an escape, or in the numbers of a code
pub data Scan : Type 0 where
  outside escape code : Scan

-- one unit: what the scan is in next, the units read back as text, and those held back
abbrev pub restart : ℕ → Chars → Scan × Chars × Chars
restart c held = if c == 27 then (escape, held, 27 ∷ []) else (outside, held ++ (c ∷ []), [])

abbrev pub scan_unit : Scan → ℕ → Chars → Scan × Chars × Chars
scan_unit outside c held = restart c held
scan_unit escape c held = if c == b'[' then (code, [], held ++ (c ∷ [])) else restart c held
scan_unit code c held =
    if c == b'm'
    then (outside, [], [])
    else if (leb b'0' c && leb c b'9') || c == b';'
    then (code, [], held ++ (c ∷ []))
    else restart c held

abbrev pub strip_from : Scan → Chars → Chars → Chars
strip_from s held [] = held
strip_from s held (c ∷ cs) =
    let (next, out, kept) = scan_unit s c held in out ++ strip_from next kept cs

-- line.replace(/\x1b\[[0-9;]*m/g, "")
abbrev pub strip_codes : Chars → Chars
strip_codes line = strip_from outside [] line

-- whether a text starts with another, and what follows
abbrev pub after_prefix : Chars → Chars → Option Chars
after_prefix [] s = some s
after_prefix (p ∷ ps) [] = none
after_prefix (p ∷ ps) (c ∷ cs) = if p == c then after_prefix ps cs else none

abbrev pub starts : Chars → Chars → Bool
starts p s = elim (after_prefix p s) [ none ↦ false | some r ↦ true ]

abbrev pub contains : Chars → Chars → Bool
contains p [] = starts p []
contains p (c ∷ cs) = starts p (c ∷ cs) || contains p cs

abbrev pub redacted : Chars
redacted = codes "[redacted]"

-- String.replaceAll of a secret: `skip` units of a match remain to be dropped
abbrev pub replace_from : ℕ → Chars → Chars → Chars
replace_from skip secret [] = []
replace_from (suc skip) secret (c ∷ cs) = replace_from skip secret cs
replace_from zero secret (c ∷ cs) =
    let skipped = replace_from (length secret - 1) secret cs in
    let rest = replace_from 0 secret cs in
    if starts secret (c ∷ cs) then redacted ++ skipped else c ∷ rest

abbrev pub replace_all : Chars → Chars → Chars
replace_all secret text = replace_from 0 secret text

abbrev pub replace_secrets : List Chars → Chars → Chars
replace_secrets [] text = text
replace_secrets (s ∷ ss) text = replace_secrets ss (replace_all s text)

abbrev pub redact : List Chars → Chars → Chars
redact secrets text = take 4000 (replace_secrets secrets text)

abbrev pub last_40 {ℓ} : {A : Type ℓ} → List A → List A
last_40 xs = if ltb 40 (length xs) then drop (length xs - 40) xs else xs

unfoldable pub append_log : List Chars → Chars → Run → Run
append_log secrets line run =
    let text = redact secrets (trim_end (trim_start (strip_codes line))) in
    if is_empty text
    then run
    else record run { log_tail = last_40 (run.log_tail ++ (take 1200 text ∷ [])) }

-- /DEMO FAILED|error:|Error:|insufficient|blocked address/i
unfoldable pub is_error_line : Chars → Bool
unfolding any to_lower
is_error_line line =
    any (λ p. contains (codes p) (map to_lower line))
      ("demo failed" ∷ "error:" ∷ "insufficient" ∷ "blocked address" ∷ [])

abbrev pub last_or : Chars → List Chars → Chars
last_or d [] = d
last_or d (x ∷ xs) = last_or x xs

-- the last line that names an error
abbrev pub last_error_line : List Chars → Option Chars
last_error_line [] = none
last_error_line (x ∷ xs) = elim (last_error_line xs) [
  | some y ↦ some y
  | none ↦ if is_error_line x then some x else none
]

unfoldable pub last_error : Run → Chars
last_error run = elim (last_error_line run.log_tail) [
  | some line ↦ line
  | none ↦
      last_or (codes "Inspect the run's preserved logs and confirmed transactions.") run.log_tail
]
