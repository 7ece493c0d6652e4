-- ===== src/Dashboard/Completion.antt =====
-- packages/dashboard/src/run-manager.ts: what is known of a run that is completed.
use mathlib.Core.Path.{subst}
use repayd.Common.{
  ℕ, ◌≡◌, refl, sym, ap, String, Bool, true, false, not, ◌&&◌, Option, none, some, List, str_eq,
  Chars, inl, inr, arith, ℤ, ltb_ℤ,
}
use repayd.Coverage.Assoc.{get}
use repayd.Coverage.Schema.{ok, require}
use repayd.Coverage.Bounds.{then-ok, bind-ok}
use repayd.Demo.Bus.{complete}
use repayd.Dashboard.Run.{Run, RunStatus, completed, is_running, RunResult, safe_integer}
use repayd.Dashboard.Markers.{taken, threw}
use repayd.Dashboard.Logs.{append_log}
use repayd.Dashboard.Verified.{
  belongs_to, outcomes_verified, or_zero, window_ordered, evidence_complete, require_supported,
  require_evidence, evidence_names, balances_valid, assert_result,
}
use repayd.Dashboard.Manager.{new_run, failed_run}
use repayd.Dashboard.Streams.{beaten}
use repayd.Dashboard.Finish.{completed_run}
use repayd.Dashboard.Steps.{Step, run_steps, empty_manager, DrawsNew}
use repayd.Dashboard.Moves.{
  Move, stays, takes, stops, logs, beats, fails, completes, append_log-status, consumed-Keeps,
}
use repayd.Dashboard.History.{run_steps-All}

-- the tests of assertResult, each passed
pub record Passes (run : Run) (r : RunResult) : Type 0 where
  pub belongs : belongs_to run r run.deployment ≡ true
  pub outcomes : outcomes_verified r.checks ≡ true
  pub window :
      window_ordered (safe_integer r.start_block) (safe_integer r.end_block) run.end_block ≡ true
  pub evidence : evidence_complete r run.transactions ≡ true
  pub supported : require_supported run.transactions r.checks ≡ ok tt
  pub named : require_evidence r.checks evidence_names ≡ ok tt
  pub balances : balances_valid r.balances r.pool ≡ true

require-true : (c : Bool) (e : String) → require c e ≡ ok tt → c ≡ true
require-true true e h = refl
require-true false e h = absurd (ground arith)

pub assert_result-Passes : (run : Run) (r : RunResult) → assert_result run r ≡ ok tt → Passes run r
unfolding assert_result
assert_result-Passes run r h =
    let (belongs, h1) = then-ok _ _ _ tt h in
    let (outcomes, h2) = then-ok _ _ _ tt h1 in
    let (window, h3) = then-ok _ _ _ tt h2 in
    let (evidence, h4) = then-ok _ _ _ tt h3 in
    let (_, supported, h5) = bind-ok (require_supported run.transactions r.checks) _ tt h4 in
    let (_, named, h6) = bind-ok (require_evidence r.checks evidence_names) _ tt h5 in
    record {
      belongs = belongs;
      outcomes = outcomes;
      window = window;
      evidence = evidence;
      supported = supported;
      named = named;
      balances = require-true _ _ h6;
    }

Passes-assert_result : (run : Run) (r : RunResult) → Passes run r → assert_result run r ≡ ok tt
unfolding assert_result
Passes-assert_result run r p =
    rw (p.belongs, p.outcomes, p.window, p.evidence, p.supported, p.named, p.balances) refl

-- after the end block is taken from the result, the window is in order still
window-twice :
    (first last seen : Option ℤ)
    → window_ordered first last seen ≡ true
    → window_ordered first last last ≡ true
window-twice (some first) (some last) seen h = go (ltb_ℤ last first) (ltb_ℤ last (or_zero seen)) h
  where
    self : ltb_ℤ last last ≡ false
    self = ground arith

    go : (b c : Bool) → (not b && not c) ≡ true → (not b && not (ltb_ℤ last last)) ≡ true
    go b c h = rw self (ground (arith, h))
window-twice none last seen h = absurd (ground arith)
window-twice (some first) none seen h = absurd (ground arith)

-- a completed run is in its last phase and has a result that passes
abbrev pub Confirmed : Run → Type 0
Confirmed run =
    run.status ≡ completed
    → (run.phase ≡ complete)
      × (run.progress ≡ 100)
      × ((result : RunResult) × (run.result ≡ some result) × (assert_result run result ≡ ok tt))

-- a run that is running is not confirmed yet
not_over : (run : Run) → is_running run.status ≡ true → Confirmed run
not_over run on done = absurd (ground (arith, on, ap is_running done))

still_running : (r s : Run) → s.status ≡ r.status → is_running r.status ≡ true → Confirmed s
still_running r s same on =
    not_over s (subst (λ (x : RunStatus). is_running x ≡ true) (sym same) on)

completed_run-Confirmed :
    (now : ℕ) (r : Run) (result : RunResult)
    → r.result ≡ some result
    → assert_result r result ≡ ok tt
    → Confirmed (completed_run now result r)
unfolding completed_run
completed_run-Confirmed now r result stored passed _ =
    let p = assert_result-Passes r result passed in
    (
      refl,
      refl,
      (
        result,
        stored,
        Passes-assert_result (completed_run now result r) result (record {
          belongs = p.belongs;
          outcomes = p.outcomes;
          window =
              window-twice (safe_integer result.start_block) (safe_integer result.end_block)
                r.end_block p.window;
          evidence = p.evidence;
          supported = p.supported;
          named = p.named;
          balances = p.balances;
        }),
      ),
    )

Move-Confirmed : (r s : Run) → Move r s → Confirmed r → Confirmed s
unfolding beaten failed_run
Move-Confirmed r _ stays h = h
Move-Confirmed r s (takes now line on e) h =
    still_running r s (consumed-Keeps now line r (taken s) e).status on
Move-Confirmed r s (stops now line m on e) h =
    still_running r s (consumed-Keeps now line r (threw s m) e).status on
Move-Confirmed r _ (logs secrets line on) h =
    still_running r (append_log secrets line r) (append_log-status secrets line r) on
Move-Confirmed r _ (beats now on) h = still_running r (beaten now r) refl on
Move-Confirmed r _ (fails now error status on (inl e)) h = λ done. absurd (ground (arith, e, done))
Move-Confirmed r _ (fails now error status on (inr e)) h = λ done. absurd (ground (arith, e, done))
Move-Confirmed r _ (completes now result on stored passed) h =
    completed_run-Confirmed now r result stored passed

-- Whatever steps follow each other, a run that is shown as completed is in its last phase at 100 per
-- cent and has a result that still passes every test of assertResult against that run.
pub run_steps-Confirmed :
    (steps : List Step) (secrets : List Chars) (id : String) (r : Run)
    → DrawsNew steps (empty_manager secrets)
    → get str_eq (run_steps steps (empty_manager secrets)).runs id ≡ some r
    → r.status ≡ completed
    → (r.phase ≡ complete)
      × (r.progress ≡ 100)
      × ((result : RunResult) × (r.result ≡ some result) × (assert_result r result ≡ ok tt))
unfolding new_run
run_steps-Confirmed steps secrets id r fresh h =
    run_steps-All Confirmed (λ now i count. not_over (new_run now i count) refl) Move-Confirmed
      steps secrets id r fresh h
