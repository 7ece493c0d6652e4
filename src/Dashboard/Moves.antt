-- ===== src/Dashboard/Moves.antt =====
-- packages/dashboard/src/run-manager.ts: what one step of the manager can do to one run.
use mathlib.Core.Path.{subst}
use repayd.Demo.Bus.{RunPhase}
use repayd.Common.{
  is_empty, trim_end, trim_start, ◌≤◌, ℕ, ◌≡◌, refl, String, Bool, true, false, some, List, Chars,
  if◌then◌else◌, ◌⊎◌, arith,
}
use repayd.Coverage.Schema.{ok}
use repayd.Dashboard.Run.{Run, RunStatus, failed, interrupted, is_running, RunResult, index_of}
use repayd.Dashboard.Logs.{append_log, redact, strip_codes}
use repayd.Dashboard.Keeps.{Keeps, consume_marker-Holds, Holds}
use repayd.Dashboard.Verified.{assert_result}
use repayd.Dashboard.Markers.{Line, Consumed, taken, threw, consume_marker}
use repayd.Dashboard.Manager.{failed_run}
use repayd.Dashboard.Streams.{beaten}
use repayd.Dashboard.Finish.{completed_run}

pub pick :
    {A B : Type 0} (c : Bool) (x : A) (f : A → B) (y : A) → f y ≡ f x → f (if c then x else y) ≡ f x
pick true x f y h = refl
pick false x f y h = h

-- the life of a run: nothing, or one of the moves of a run that is running
pub data Move : Run → Run → Type 0 where
  stays : {r : Run} → Move r r
  takes :
      {r s : Run}
      → (now : ℕ) (line : Line) → is_running r.status ≡ true
      → consume_marker now line r ≡ taken s
      → Move r s
  stops :
      {r s : Run}
      → (now : ℕ) (line : Line) (e : String) → is_running r.status ≡ true
      → consume_marker now line r ≡ threw s e
      → Move r s
  logs :
      {r : Run}
      → (secrets : List Chars) (line : Chars) → is_running r.status ≡ true
      → Move r (append_log secrets line r)
  beats : {r : Run} → (now : ℕ) → is_running r.status ≡ true → Move r (beaten now r)
  fails :
      {r : Run}
      → (now : ℕ) (error : Chars) (status : RunStatus) → is_running r.status ≡ true
      → (status ≡ failed) ⊎ (status ≡ interrupted)
      → Move r (failed_run now error status r)
  completes :
      {r : Run}
      → (now : ℕ) (result : RunResult) → is_running r.status ≡ true
      → r.result ≡ some result
      → assert_result r result ≡ ok tt
      → Move r (completed_run now result r)

pub append_log-id :
    (secrets : List Chars) (line : Chars) (r : Run) → (append_log secrets line r).id ≡ r.id
unfolding append_log
append_log-id secrets line r =
    pick (is_empty (redact secrets (trim_end (trim_start (strip_codes line))))) r
      (λ (s : Run). s.id) _ refl

pub append_log-status :
    (secrets : List Chars) (line : Chars) (r : Run) → (append_log secrets line r).status ≡ r.status
unfolding append_log
append_log-status secrets line r =
    pick (is_empty (redact secrets (trim_end (trim_start (strip_codes line))))) r
      (λ (s : Run). s.status) _ refl

append_log-phase :
    (secrets : List Chars) (line : Chars) (r : Run) → (append_log secrets line r).phase ≡ r.phase
unfolding append_log
append_log-phase secrets line r =
    pick (is_empty (redact secrets (trim_end (trim_start (strip_codes line))))) r
      (λ (s : Run). s.phase) _ refl

-- what a line has made of a run that consumeMarker changes
pub consumed-Keeps :
    (now : ℕ) (line : Line) (r : Run) (c : Consumed)
    → consume_marker now line r ≡ c
    → Holds (Keeps r) c
consumed-Keeps now line r c h = subst (Holds (Keeps r)) h (consume_marker-Holds now line r)

pub Move-id : (r s : Run) → Move r s → s.id ≡ r.id
unfolding beaten failed_run completed_run
Move-id r _ stays = refl
Move-id r s (takes now line h e) = (consumed-Keeps now line r (taken s) e).id
Move-id r s (stops now line m h e) = (consumed-Keeps now line r (threw s m) e).id
Move-id r _ (logs secrets line h) = append_log-id secrets line r
Move-id r _ (beats now h) = refl
Move-id r _ (fails now error status h e) = refl
Move-id r _ (completes now result h e a) = refl

-- a run that is over stays as it is
pub Move-over : (r s : Run) → Move r s → is_running r.status ≡ false → s ≡ r
Move-over r _ stays over = refl
Move-over r s (takes now line h e) over = absurd (ground (arith, h, over))
Move-over r s (stops now line m h e) over = absurd (ground (arith, h, over))
Move-over r _ (logs secrets line h) over = absurd (ground (arith, h, over))
Move-over r _ (beats now h) over = absurd (ground (arith, h, over))
Move-over r _ (fails now error status h e) over = absurd (ground (arith, h, over))
Move-over r _ (completes now result h e a) over = absurd (ground (arith, h, over))

-- the phase never goes back
pub Move-phase : (r s : Run) → Move r s → index_of r.phase ≤ index_of s.phase
unfolding beaten failed_run completed_run
Move-phase r _ stays = omega arith
Move-phase r s (takes now line h e) = (consumed-Keeps now line r (taken s) e).phase
Move-phase r s (stops now line m h e) = (consumed-Keeps now line r (threw s m) e).phase
Move-phase r _ (logs secrets line h) = rw (append_log-phase secrets line r) (omega arith)
Move-phase r _ (beats now h) = omega arith
Move-phase r _ (fails now error status h e) = omega arith
Move-phase r _ (completes now result h e a) = index_of_le r.phase
  where
    index_of_le : (p : RunPhase) → index_of p ≤ 7
    index_of_le p = ground arith
