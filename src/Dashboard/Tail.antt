-- ===== src/Dashboard/Tail.antt =====
-- packages/dashboard/src/run-manager.ts: the log of a run is a tail of bounded length.
use repayd.Common.{
  is_empty, trim_end, trim_start, ℕ, suc, zero, ◌-◌, ◌≤◌, ◌≡◌, String, Bool, true, false, some,
  List, [], ◌∷◌, ◌++◌, Chars, if◌then◌else◌, ltb, arith, str_eq, length, All, Bool-cases, inl, inr,
}
use repayd.Coverage.Assoc.{get}
use repayd.Dashboard.Run.{Run}
use repayd.Dashboard.Logs.{take, drop, last_40, append_log, redact, strip_codes}
use repayd.Dashboard.Markers.{taken, threw}
use repayd.Dashboard.Manager.{new_run, failed_run}
use repayd.Dashboard.Streams.{beaten}
use repayd.Dashboard.Finish.{completed_run}
use repayd.Dashboard.Steps.{Step, run_steps, empty_manager, DrawsNew}
use repayd.Dashboard.Moves.{
  Move, stays, takes, stops, logs, beats, fails, completes, consumed-Keeps,
}
use repayd.Dashboard.History.{run_steps-All}

-- at most 40 lines of at most 1200 units
abbrev pub IsShort : List Chars → Type 0
IsShort tail = (length tail ≤ 40) × All (λ line. length line ≤ 1200) tail

length-drop : (n : ℕ) (xs : List Chars) → length (drop n xs) ≡ length xs - n
length-drop zero xs = omega arith
length-drop (suc n) [] = omega arith
length-drop (suc n) (x ∷ xs) = omega (arith, length-drop n xs)

length-take : (n : ℕ) (xs : Chars) → length (take n xs) ≤ n
length-take zero xs = omega arith
length-take (suc n) [] = omega arith
length-take (suc n) (x ∷ xs) = omega (arith, length-take n xs)

All-drop : (P : Chars → Type 0) (n : ℕ) (xs : List Chars) → All P xs → All P (drop n xs)
All-drop P zero xs h = h
All-drop P (suc n) [] h = tt
All-drop P (suc n) (x ∷ xs) (hx, h) = All-drop P n xs h

All-snoc :
    (P : Chars → Type 0) (xs : List Chars) (x : Chars) → All P xs → P x → All P (xs ++ (x ∷ []))
All-snoc P [] x h hx = (hx, tt)
All-snoc P (y ∷ ys) x (hy, h) hx = (hy, All-snoc P ys x h hx)

last_40-IsShort : (xs : List Chars) → All (λ line. length line ≤ 1200) xs → IsShort (last_40 xs)
last_40-IsShort xs h = elim (Bool-cases (ltb 40 (length xs))) [
  | inl e ↦ rw e (
    omega (arith, length-drop (length xs - 40) xs),
    All-drop (λ line. length line ≤ 1200) (length xs - 40) xs h,
  )
  | inr e ↦ rw e (ground arith, h)
]

append_log-IsShort :
    (secrets : List Chars) (line : Chars) (r : Run)
    → IsShort r.log_tail
    → IsShort (append_log secrets line r).log_tail
unfolding append_log
append_log-IsShort secrets line r (n, h) =
    go (redact secrets (trim_end (trim_start (strip_codes line)))) (is_empty _)
  where
    go :
        (text : Chars) (b : Bool)
        → IsShort (
            (if b
              then r
              else record r { log_tail = last_40 (r.log_tail ++ (take 1200 text ∷ [])) }).log_tail)
    go text true = (n, h)
    go text false =
        last_40-IsShort (r.log_tail ++ (take 1200 text ∷ []))
          (All-snoc (λ l. length l ≤ 1200) r.log_tail (take 1200 text) h (length-take 1200 text))

same_tail : (xs ys : List Chars) → ys ≡ xs → IsShort xs → IsShort ys
same_tail xs ys e h = rw e h

Move-IsShort : (r s : Run) → Move r s → IsShort r.log_tail → IsShort s.log_tail
unfolding beaten failed_run completed_run
Move-IsShort r _ stays h = h
Move-IsShort r s (takes now line on e) h =
    same_tail r.log_tail s.log_tail (consumed-Keeps now line r (taken s) e).log_tail h
Move-IsShort r s (stops now line m on e) h =
    same_tail r.log_tail s.log_tail (consumed-Keeps now line r (threw s m) e).log_tail h
Move-IsShort r _ (logs secrets line on) h = append_log-IsShort secrets line r h
Move-IsShort r _ (beats now on) h = h
Move-IsShort r _ (fails now error status on how) h = h
Move-IsShort r _ (completes now result on stored passed) h = h

-- However many lines a process writes, the log of a run has at most 40 lines of at most 1200 units.
pub run_steps-IsShort :
    (steps : List Step) (secrets : List Chars) (id : String) (r : Run)
    → DrawsNew steps (empty_manager secrets)
    → get str_eq (run_steps steps (empty_manager secrets)).runs id ≡ some r
    → (length r.log_tail ≤ 40) × All (λ line. length line ≤ 1200) r.log_tail
unfolding new_run
run_steps-IsShort steps secrets id r fresh h =
    run_steps-All (λ (x : Run). IsShort x.log_tail) (λ now i count. (omega arith, tt)) Move-IsShort
      steps secrets id r fresh h
