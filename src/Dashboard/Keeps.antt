-- ===== src/Dashboard/Keeps.antt =====
-- packages/dashboard/src/run-manager.ts: what consumeMarker leaves as it was, whether or not it
-- throws.
use repayd.Common.{
  is_some, ℕ, ◌≡◌, ◌≤◌, refl, String, Bool, true, false, not, ◌||◌, Option, none, some, [], ◌∷◌,
  ◌++◌, ◌==◌, if◌then◌else◌, leb, arith, ℤ,
}
use repayd.Coverage.Schema.{Parse, fail, ok}
use repayd.Demo.Bus.{RunPhase, deploying}
use repayd.Dashboard.Run.{
  Run, DemoEvent, SentReceipt, Receipt, DeploymentRecord, RunResult, index_of, progress_of, advance,
  present, phase_in, phases, safe_integer,
}
use repayd.Dashboard.Verified.{assert_result, receipt_of}
use repayd.Dashboard.Markers.{
  Line, event_line, tx_line, deployment_line, result_line, plain_line, Consumed, ignored, taken,
  threw, push_event, is_event, hash_valid, advance_named, advance_to, consume_event, widen,
  same_status, add_receipt, consume_checked, check_receipt, consume_receipt, is_deployment,
  min_block, deploy, parsed, keep_result, consume_result, consume_body, stamp, consume_marker,
}

-- what holds of the run after a line, if the line was a marker
abbrev pub Holds : (Run → Type 0) → Consumed → Type 0
Holds P ignored = Unit
Holds P (taken run) = P run
Holds P (threw run e) = P run

pub record Keeps (r s : Run) : Type 0 where
  pub id : s.id ≡ r.id
  pub status : s.status ≡ r.status
  pub log_tail : s.log_tail ≡ r.log_tail
  pub phase : index_of r.phase ≤ index_of s.phase

pub if-Holds :
    (P : Run → Type 0) (c : Bool) (x y : Consumed)
    → Holds P x
    → (c ≡ false → Holds P y)
    → Holds P (if c then x else y)
if-Holds P true x y hx hy = hx
if-Holds P false x y hx hy = hy refl

pub advance-Keeps : (r s : Run) (phase : RunPhase) → Keeps r s → Keeps r (advance phase s)
unfolding advance
advance-Keeps r s phase k = go (leb (index_of s.phase) (index_of phase)) refl
  where
    go :
        (b : Bool)
        → leb (index_of s.phase) (index_of phase) ≡ b
        → Keeps r (if b then record s { phase = phase; progress = progress_of phase } else s)
    go true h = record {
      id = k.id;
      status = k.status;
      log_tail = k.log_tail;
      phase = later (index_of r.phase) (index_of s.phase) (index_of phase) k.phase h;
    }
      where
        later : (a b c : ℕ) → a ≤ b → leb b c ≡ true → a ≤ c
        later a b c h l = ground arith
    go false h = k

pub Keeps-refl : (r : Run) → Keeps r r
Keeps-refl r = record { id = refl; status = refl; log_tail = refl; phase = omega arith }

-- a run with the same id, status, log and phase
abbrev same :
    (r s : Run)
    → s.id ≡ r.id
    → s.status ≡ r.status
    → s.log_tail ≡ r.log_tail
    → s.phase ≡ r.phase
    → Keeps r s
same r s i st l p = record {
  id = i;
  status = st;
  log_tail = l;
  phase = at_most (index_of r.phase) s.phase;
}
  where
    at_most : ℕ → RunPhase → index_of r.phase ≤ index_of s.phase
    at_most n q = rw p (omega arith)

advance_to-Holds :
    (r s : Run) (name : Option String) → Keeps r s → Holds (Keeps r) (advance_to name s)
advance_to-Holds r s none k = k
advance_to-Holds r s (some name) k = go (phase_in phases name)
  where
    go : (p : Option RunPhase) → Holds (Keeps r) (advance_named name p s)
    go none = k
    go (some p) = advance-Keeps r s p k

consume_event-Holds : (now : ℕ) (e : DemoEvent) (r : Run) → Holds (Keeps r) (consume_event now e r)
unfolding consume_event
consume_event-Holds now e r = if-Holds (Keeps r) (not (is_event e)) _ _ (Keeps-refl r) (λ _.
    if-Holds (Keeps r) (not (hash_valid (present e.tx_hash))) _ _ (Keeps-refl r) (λ _.
      advance_to-Holds r (push_event now e r) (present e.phase)
        (same r (push_event now e r) refl refl refl refl)))

add_receipt-Holds :
    (tx : Receipt) (existing : Option Receipt) (r : Run)
    → Holds (Keeps r) (add_receipt tx existing r)
add_receipt-Holds tx none r =
    advance-Keeps r (widen tx (record r { transactions = r.transactions ++ (tx ∷ []) })) tx.phase
      (same r _ refl refl refl refl)
add_receipt-Holds tx (some existing) r =
    if-Holds (Keeps r)
      (not (existing.block_number == tx.block_number)
        || not (same_status existing.status tx.status))
      _ _ (Keeps-refl r) (λ _. advance-Keeps r (widen tx r) tx.phase (same r _ refl refl refl refl))

consume_receipt-Holds : (sent : SentReceipt) (r : Run) → Holds (Keeps r) (consume_receipt sent r)
unfolding consume_receipt
consume_receipt-Holds sent r = go (check_receipt sent)
  where
    go : (o : Option Receipt) → Holds (Keeps r) (consume_checked o r)
    go none = Keeps-refl r
    go (some tx) = add_receipt-Holds tx (receipt_of r.transactions tx.hash) r

deploy-Holds :
    (dep : DeploymentRecord) (start : Option ℤ) (r : Run) → Holds (Keeps r) (deploy dep start r)
deploy-Holds dep none r = Keeps-refl r
deploy-Holds dep (some start) r =
    if-Holds (Keeps r) (not (is_deployment dep)) _ _ (Keeps-refl r) (λ _.
      advance-Keeps r
        (record r {
          deployment = some dep;
          guard = some dep.contracts.guard_account;
          start_block = min_block r.start_block start;
        })
        deploying (same r _ refl refl refl refl))

consume_result-Holds : (result : RunResult) (r : Run) → Holds (Keeps r) (consume_result result r)
unfolding consume_result
consume_result-Holds result r = go (assert_result r result)
  where
    go : (p : Parse Unit) → Holds (Keeps r) (keep_result result p r)
    go (fail e) = Keeps-refl r
    go (ok u) = same r _ refl refl refl refl

pub parsed-Holds :
    {A : Type 0}
    → (P : Run → Type 0) (p : Parse A) (r : Run) (f : A → Consumed) → P r
    → ((a : A) → Holds P (f a))
    → Holds P (parsed p r f)
parsed-Holds P (fail e) r f h hf = h
parsed-Holds P (ok a) r f h hf = hf a

stamp-Holds : (now : ℕ) (r : Run) (c : Consumed) → Holds (Keeps r) c → Holds (Keeps r) (stamp now c)
stamp-Holds now r ignored k = tt
stamp-Holds now r (taken s) k = record {
  id = k.id;
  status = k.status;
  log_tail = k.log_tail;
  phase = k.phase;
}
stamp-Holds now r (threw s e) k = k

consume_body-Holds : (now : ℕ) (line : Line) (r : Run) → Holds (Keeps r) (consume_body now line r)
unfolding consume_body
consume_body-Holds now (event_line p) r =
    parsed-Holds (Keeps r) p r _ (Keeps-refl r) (λ e. consume_event-Holds now e r)
consume_body-Holds now (tx_line p) r =
    parsed-Holds (Keeps r) p r _ (Keeps-refl r) (λ sent. consume_receipt-Holds sent r)
consume_body-Holds now (deployment_line p) r =
    if-Holds (Keeps r) (is_some r.deployment) _ _ (Keeps-refl r) (λ _.
      parsed-Holds (Keeps r) p r _ (Keeps-refl r) (λ d. deploy-Holds d.0 (safe_integer d.1) r))
consume_body-Holds now (result_line p) r =
    if-Holds (Keeps r) (is_some r.result) _ _ (Keeps-refl r)
      (λ _. parsed-Holds (Keeps r) p r _ (Keeps-refl r) (λ result. consume_result-Holds result r))
consume_body-Holds now (plain_line line) r = tt

pub consume_marker-Holds :
    (now : ℕ) (line : Line) (r : Run) → Holds (Keeps r) (consume_marker now line r)
unfolding consume_marker
consume_marker-Holds now line r =
    stamp-Holds now r (consume_body now line r) (consume_body-Holds now line r)
