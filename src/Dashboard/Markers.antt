-- ===== src/Dashboard/Markers.antt =====
-- packages/dashboard/src/run-manager.ts: consumeMarker, what a line of the process does to its run.
use Prim.Native.String.{◌++◌ as str_append}
use repayd.Common.{
  is_some, ℕ, ◌+◌, String, Bool, true, false, ◌&&◌, ◌||◌, not, Option, none, some, List, [], ◌∷◌,
  ◌++◌, ◌==◌, if◌then◌else◌, any, str_eq, length, ℤ, pos, ltb_ℤ, Chars,
}
use repayd.Coverage.Schema.{Value, text, Parse, fail, ok}
use repayd.Demo.Bus.{RunPhase, deploying, TxStatus, success, reverted}
use repayd.Dashboard.Run.{
  Run, DemoEvent, StoredDemoEvent, SentReceipt, Receipt, Contracts, DeploymentRecord, RunResult,
  arc_chain_id, phases, phase_in, is_address, is_hash, safe_integer, is_finite, present, advance,
}
use repayd.Dashboard.Verified.{assert_result, receipt_of}

-- a line by its marker, with what JSON.parse makes of the rest: a value, or the message it throws
pub data Line : Type 0 where
  event_line : Parse DemoEvent → Line
  tx_line : Parse SentReceipt → Line
  deployment_line : Parse (DeploymentRecord × Value) → Line
  result_line : Parse RunResult → Line
  plain_line : Chars → Line

-- whether the line was a marker, or the throw, with the run as it has been changed by then
pub data Consumed : Type 0 where
  ignored : Consumed
  taken : Run → Consumed
  threw : Run → String → Consumed

abbrev pub kinds : List String
kinds = "info" ∷ "ok" ∷ "warn" ∷ "bad" ∷ "payout" ∷ "title" ∷ []

abbrev pub is_text : Value → Bool
is_text (text s) = true
is_text _ = false

unfoldable pub is_event : DemoEvent → Bool
unfolding any
is_event e = is_text e.text && any (λ k. str_eq k e.kind) kinds && is_finite e.t

abbrev pub hash_valid : Option String → Bool
hash_valid none = true
hash_valid (some h) = is_hash h

abbrev pub advance_named : String → Option RunPhase → Run → Consumed
advance_named name none run = threw run (str_append "Unknown demo phase: " name)
advance_named name (some phase) run = taken (advance phase run)

abbrev pub advance_to : Option String → Run → Consumed
advance_to none run = taken run
advance_to (some name) run = advance_named name (phase_in phases name) run

abbrev pub push_event : ℕ → DemoEvent → Run → Run
push_event now e run =
    let stored : StoredDemoEvent = record {
      event = e;
      seq = length run.events + 1;
      emitted_at = now;
    } in
    record run { events = run.events ++ (stored ∷ []) }

unfoldable pub consume_event : ℕ → DemoEvent → Run → Consumed
consume_event now e run =
    if not (is_event e)
    then threw run "Demo emitted an invalid presentation event."
    else if not (hash_valid (present e.tx_hash))
    then threw run "Demo event contains an invalid transaction hash."
    else advance_to (present e.phase) (push_event now e run)

abbrev pub status_named : String → Option TxStatus
status_named s =
    if str_eq s "success" then some success else if str_eq s "reverted" then some reverted else none

abbrev pub label_of : Value → Option String
label_of (text s) = some s
label_of _ = none

abbrev pub block_of : Option ℤ → Option ℕ
block_of (some (pos n)) = some n
block_of _ = none

abbrev pub receipt_with :
    SentReceipt → Option ℕ → Option String → Option RunPhase → Option TxStatus → Option Receipt
receipt_with sent (some block) (some label) (some phase) (some status) = some (record {
  hash = sent.hash;
  label = label;
  phase = phase;
  block_number = block;
  timestamp = sent.timestamp;
  status = status;
})
receipt_with sent _ _ _ _ = none

-- the receipt, if it passes every test
unfoldable pub check_receipt : SentReceipt → Option Receipt
check_receipt sent =
    if not (is_hash sent.hash) || not (is_finite sent.timestamp)
    then none
    else receipt_with sent (block_of (safe_integer sent.block_number)) (label_of sent.label)
        (phase_in phases sent.phase) (status_named sent.status)

abbrev pub same_status : TxStatus → TxStatus → Bool
same_status success success = true
same_status reverted reverted = true
same_status _ _ = false

abbrev pub min_block : Option ℤ → ℤ → Option ℤ
min_block none b = some b
min_block (some a) b = some (if ltb_ℤ b a then b else a)

abbrev pub max_block : Option ℤ → ℤ → Option ℤ
max_block none b = some b
max_block (some a) b = some (if ltb_ℤ a b then b else a)

abbrev pub widen : Receipt → Run → Run
widen tx run = record run {
  start_block = min_block run.start_block (pos tx.block_number);
  end_block = max_block run.end_block (pos tx.block_number);
}

abbrev pub add_receipt : Receipt → Option Receipt → Run → Consumed
add_receipt tx none run =
    taken
      (advance tx.phase (widen tx (record run { transactions = run.transactions ++ (tx ∷ []) })))
add_receipt tx (some existing) run =
    if not (existing.block_number == tx.block_number) || not (same_status existing.status tx.status)
    then threw run "Conflicting evidence for the same transaction."
    else taken (advance tx.phase (widen tx run))

abbrev pub consume_checked : Option Receipt → Run → Consumed
consume_checked none run = threw run "Demo emitted an invalid receipt record."
consume_checked (some tx) run = add_receipt tx (receipt_of run.transactions tx.hash) run

unfoldable pub consume_receipt : SentReceipt → Run → Consumed
consume_receipt sent run = consume_checked (check_receipt sent) run

abbrev pub are_addresses : Contracts → Bool
are_addresses c =
    is_address c.usdc
    && is_address c.policy_registry
    && is_address c.blocklist
    && is_address c.verdicts
    && is_address c.mutual_pool
    && is_address c.guard_account

abbrev pub owner_valid : Option String → Bool
owner_valid none = false
owner_valid (some a) = is_address a

abbrev pub is_deployment : DeploymentRecord → Bool
is_deployment dep =
    dep.chain_id == arc_chain_id
    && are_addresses dep.contracts
    && owner_valid dep.amara_policy_owner
    && dep.mock_usdc

abbrev pub deploy : DeploymentRecord → Option ℤ → Run → Consumed
deploy dep none run =
    threw run "Demo deployment does not describe a confirmed Arc testnet demo-token stack."
deploy dep (some start) run =
    if not (is_deployment dep)
    then threw run "Demo deployment does not describe a confirmed Arc testnet demo-token stack."
    else taken (
        advance deploying (record run {
          deployment = some dep;
          guard = some dep.contracts.guard_account;
          start_block = min_block run.start_block start;
        }))

-- a value that JSON.parse has made, or its throw
abbrev pub parsed : {A : Type 0} → Parse A → Run → (A → Consumed) → Consumed
parsed (fail e) run f = threw run e
parsed (ok a) run f = f a

abbrev pub keep_result : RunResult → Parse Unit → Run → Consumed
keep_result r (fail e) run = threw run e
keep_result r (ok _) run = taken (record run { result = some r })

unfoldable pub consume_result : RunResult → Run → Consumed
consume_result r run = keep_result r (assert_result run r) run

unfoldable pub consume_body : ℕ → Line → Run → Consumed
consume_body now (event_line p) run = parsed p run (λ e. consume_event now e run)
consume_body now (tx_line p) run = parsed p run (λ sent. consume_receipt sent run)
consume_body now (deployment_line p) run =
    if is_some run.deployment
    then threw run "Demo attempted to publish two deployments in one run."
    else parsed p run (λ d. deploy d.0 (safe_integer d.1) run)
consume_body now (result_line p) run =
    if is_some run.result
    then threw run "Demo emitted its terminal result more than once."
    else parsed p run (λ r. consume_result r run)
consume_body now (plain_line line) run = ignored

abbrev pub stamp : ℕ → Consumed → Consumed
stamp now ignored = ignored
stamp now (taken run) = taken (record run { updated_at = now })
stamp now (threw run e) = threw run e

unfoldable pub consume_marker : ℕ → Line → Run → Consumed
consume_marker now line run = stamp now (consume_body now line run)
