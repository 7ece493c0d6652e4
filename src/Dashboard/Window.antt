-- ===== src/Dashboard/Window.antt =====
-- packages/dashboard/src/run-manager.ts: each move of a run keeps its receipts distinct and in its
-- window.
use mathlib.Core.Path.{subst}
use repayd.Common.{
  is_some, is_empty, trim_end, trim_start, str_eq, ℕ, ◌≡◌, refl, String, Bool, true, false, not,
  ◌||◌, Option, none, some, List, [], ◌∷◌, ◌++◌, ◌==◌, All, Chars, if◌then◌else◌, arith, ℤ, pos,
  leb,
}
use repayd.Coverage.Assoc.{get}
use repayd.Coverage.Schema.{Parse, fail, ok}
use repayd.Demo.Bus.{RunPhase, deploying}
use repayd.Dashboard.Run.{
  Run, DemoEvent, SentReceipt, Receipt, DeploymentRecord, RunResult, index_of, progress_of, advance,
  present, phase_in, phases, safe_integer,
}
use repayd.Dashboard.Logs.{append_log, redact, strip_codes}
use repayd.Dashboard.Verified.{assert_result, receipt_of, window_ordered}
use repayd.Dashboard.Markers.{
  Line, event_line, tx_line, deployment_line, result_line, plain_line, Consumed, ignored, taken,
  threw, push_event, is_event, hash_valid, advance_named, advance_to, consume_event, widen,
  same_status, add_receipt, consume_checked, check_receipt, consume_receipt, is_deployment,
  min_block, max_block, deploy, keep_result, consume_result, consume_body, stamp, consume_marker,
}
use repayd.Dashboard.Manager.{new_run, failed_run}
use repayd.Dashboard.Streams.{beaten}
use repayd.Dashboard.Finish.{completed_run}
use repayd.Dashboard.Steps.{Step, run_steps, empty_manager, DrawsNew}
use repayd.Dashboard.Keeps.{Holds, if-Holds, parsed-Holds}
use repayd.Dashboard.Moves.{Move, stays, takes, stops, logs, beats, fails, completes}
use repayd.Dashboard.History.{run_steps-All}
use repayd.Dashboard.Completion.{assert_result-Passes}
use repayd.Dashboard.Receipts.{
  DistinctHashes, AtMost, InWindow, Traced, DistinctHashes-snoc, All-snoc, All-weaken,
  min_block-AtLeast, min_block-covers, max_block-AtMost, max_block-covers,
}

advance-Traced : (phase : RunPhase) (r : Run) → Traced r → Traced (advance phase r)
unfolding advance
advance-Traced phase r h = go (leb (index_of r.phase) (index_of phase))
  where
    go :
        (b : Bool)
        → Traced (if b then record r { phase = phase; progress = progress_of phase } else r)
    go true = h
    go false = h

-- the window of a receipt that is there, or that joins the others
widened :
    (tx : Receipt) (txs : List Receipt) (start last : Option ℤ)
    → All (InWindow start last) txs
    → All
        (InWindow (min_block start (pos tx.block_number)) (max_block last (pos tx.block_number)))
        txs
widened tx txs start last h =
    All-weaken _ _ txs
      (λ t w. (
        min_block-AtLeast start (pos tx.block_number) t.block_number w.0,
        max_block-AtMost last (pos tx.block_number) t.block_number w.1,
      ))
      h

add_receipt-Traced :
    (tx : Receipt) (o : Option Receipt) (r : Run)
    → receipt_of r.transactions tx.hash ≡ o
    → Traced r
    → Holds Traced (add_receipt tx o r)
add_receipt-Traced tx none r new (distinct, inside) =
    advance-Traced tx.phase (widen tx (record r { transactions = r.transactions ++ (tx ∷ []) })) (
      DistinctHashes-snoc r.transactions tx distinct new,
      All-snoc _ r.transactions tx (widened tx r.transactions r.start_block r.end_block inside) (
        min_block-covers r.start_block tx.block_number,
        max_block-covers r.end_block tx.block_number,
      ),
    )
add_receipt-Traced tx (some existing) r new (distinct, inside) =
    if-Holds Traced
      (not (existing.block_number == tx.block_number)
        || not (same_status existing.status tx.status))
      _ _ (distinct, inside)
      (λ _.
        advance-Traced tx.phase (widen tx r)
          (distinct, widened tx r.transactions r.start_block r.end_block inside))

consume_receipt-Traced :
    (sent : SentReceipt) (r : Run) → Traced r → Holds Traced (consume_receipt sent r)
unfolding consume_receipt
consume_receipt-Traced sent r h = go (check_receipt sent)
  where
    go : (o : Option Receipt) → Holds Traced (consume_checked o r)
    go none = h
    go (some tx) = add_receipt-Traced tx (receipt_of r.transactions tx.hash) r refl h

consume_event-Traced :
    (now : ℕ) (e : DemoEvent) (r : Run) → Traced r → Holds Traced (consume_event now e r)
unfolding consume_event
consume_event-Traced now e r h =
    if-Holds Traced (not (is_event e)) _ _ h (λ _.
      if-Holds Traced (not (hash_valid (present e.tx_hash))) _ _ h (λ _. go (present e.phase)))
  where
    named :
        (name : String) (p : Option RunPhase)
        → Holds Traced (advance_named name p (push_event now e r))
    named name none = h
    named name (some p) = advance-Traced p (push_event now e r) h

    go : (name : Option String) → Holds Traced (advance_to name (push_event now e r))
    go none = h
    go (some name) = named name (phase_in phases name)

deploy-Traced :
    (dep : DeploymentRecord) (start : Option ℤ) (r : Run)
    → Traced r
    → Holds Traced (deploy dep start r)
deploy-Traced dep none r h = h
deploy-Traced dep (some start) r (distinct, inside) =
    if-Holds Traced (not (is_deployment dep)) _ _ (distinct, inside)
      (λ _.
        advance-Traced deploying
          (record r {
            deployment = some dep;
            guard = some dep.contracts.guard_account;
            start_block = min_block r.start_block start;
          })
          (
            distinct,
            All-weaken _ _ r.transactions
                (λ t w. (min_block-AtLeast r.start_block start t.block_number w.0, w.1)) inside,
          ))

consume_result-Traced :
    (result : RunResult) (r : Run) → Traced r → Holds Traced (consume_result result r)
unfolding consume_result
consume_result-Traced result r h = go (assert_result r result)
  where
    go : (p : Parse Unit) → Holds Traced (keep_result result p r)
    go (fail e) = h
    go (ok u) = h

consume_marker-Traced :
    (now : ℕ) (line : Line) (r : Run) → Traced r → Holds Traced (consume_marker now line r)
unfolding consume_marker consume_body
consume_marker-Traced now line r h = stamped (consume_body now line r) (body line)
  where
    stamped : (c : Consumed) → Holds Traced c → Holds Traced (stamp now c)
    stamped ignored k = tt
    stamped (taken s) k = k
    stamped (threw s e) k = k

    body : (l : Line) → Holds Traced (consume_body now l r)
    body (event_line p) = parsed-Holds Traced p r _ h (λ e. consume_event-Traced now e r h)
    body (tx_line p) = parsed-Holds Traced p r _ h (λ sent. consume_receipt-Traced sent r h)
    body (deployment_line p) =
        if-Holds Traced (is_some r.deployment) _ _ h
          (λ _. parsed-Holds Traced p r _ h (λ d. deploy-Traced d.0 (safe_integer d.1) r h))
    body (result_line p) =
        if-Holds Traced (is_some r.result) _ _ h
          (λ _. parsed-Holds Traced p r _ h (λ result. consume_result-Traced result r h))
    body (plain_line l) = tt

-- the end block of a result that passes is not below that of the run
window-AtMost :
    (first last seen : Option ℤ) (n : ℕ)
    → window_ordered first last seen ≡ true
    → AtMost seen n
    → AtMost last n
window-AtMost (some first) (some last) (some seen) n h k = ground arith
window-AtMost (some first) (some last) none n h k = absurd k
window-AtMost none last seen n h k = absurd (ground arith)
window-AtMost (some first) none seen n h k = absurd (ground arith)

log-Traced :
    (b : Bool) (tail : List Chars) (r : Run)
    → Traced r
    → Traced (if b then r else record r { log_tail = tail })
log-Traced true tail r h = h
log-Traced false tail r h = h

Move-Traced : (r s : Run) → Move r s → Traced r → Traced s
unfolding beaten failed_run completed_run append_log
Move-Traced r _ stays h = h
Move-Traced r s (takes now line on e) h =
    subst (Holds Traced) e (consume_marker-Traced now line r h)
Move-Traced r s (stops now line m on e) h =
    subst (Holds Traced) e (consume_marker-Traced now line r h)
Move-Traced r _ (logs secrets line on) h =
    log-Traced (is_empty (redact secrets (trim_end (trim_start (strip_codes line))))) _ r h
Move-Traced r _ (beats now on) h = h
Move-Traced r _ (fails now error status on how) h = h
Move-Traced r _ (completes now result on stored passed) (distinct, inside) = (
  distinct,
  All-weaken _ _ r.transactions
      (λ t w. (
        w.0,
        window-AtMost (safe_integer result.start_block) (safe_integer result.end_block) r.end_block
            t.block_number (assert_result-Passes r result passed).window w.1,
      ))
      inside,
)

-- Whatever steps follow each other, no two receipts of a run have the same hash, and the block of each
-- lies between the start and the end block that the run shows, those of a completed run included.
pub run_steps-Traced :
    (steps : List Step) (secrets : List Chars) (id : String) (r : Run)
    → DrawsNew steps (empty_manager secrets)
    → get str_eq (run_steps steps (empty_manager secrets)).runs id ≡ some r
    → DistinctHashes r.transactions × All (InWindow r.start_block r.end_block) r.transactions
unfolding new_run
run_steps-Traced steps secrets id r fresh h =
    run_steps-All Traced (λ now i count. (tt, tt)) Move-Traced steps secrets id r fresh h
