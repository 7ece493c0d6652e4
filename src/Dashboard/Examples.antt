-- ===== src/Dashboard/Examples.antt =====
-- Tests of packages/dashboard/src/run-manager.ts on a run that is verified, and on one that stops.
use repayd.Common.{
  ◌≤◌, All, any, every, find, keep, to_lower, codes_eq, same_address, ℕ, ◌≡◌, refl, String, true,
  false, Option, none, some, List, [], ◌∷◌, codes, Chars, pos, str_eq,
}
use repayd.Coverage.Assoc.{get, set}
use repayd.Coverage.Schema.{Value, number, text, ok}
use repayd.Demo.Bus.{DemoCheck, complete}
use repayd.Dashboard.Run.{
  Run, SentReceipt, DeploymentRecord, RunResult, Receipt, is_run_id, is_running, index_of, advance,
  completed,
}
use repayd.Dashboard.Markers.{
  tx_line, deployment_line, result_line, consume_marker, consume_body, consume_event,
  consume_receipt, consume_result, check_receipt, is_event,
}
use repayd.Dashboard.Manager.{
  RunManager, new_run, start, new_child, accepted, opened_manager, fail_run, failed_run,
}
use repayd.Dashboard.Streams.{read_stdout, read_stderr}
use repayd.Dashboard.Logs.{append_log, last_error, is_error_line}
use repayd.Dashboard.Verified.{
  evidence_names, assert_result, outcomes_verified, evidence_complete, receipt_of, check_of,
  balances_valid,
}
use repayd.Dashboard.Finish.{exited, completed_run}
use repayd.Dashboard.Restore.{DemoState, shown, state, restore}
use repayd.Dashboard.Terminal.{run_steps-run_steps}
use repayd.Dashboard.Completion.{run_steps-Confirmed}
use repayd.Dashboard.Support.{Supports, assert_result-Supports}
use repayd.Dashboard.Receipts.{DistinctHashes, InWindow}
use repayd.Dashboard.Window.{run_steps-Traced}
use repayd.Dashboard.Restored.{Restores, restore-run_steps}
use repayd.Dashboard.Listing.{ShowsActive, SaysAll, state-run_steps}
use repayd.Dashboard.Restart.{start-exited}
use repayd.Dashboard.Active.{run_steps-active}
use repayd.Dashboard.Steps.{
  Step, starts, resets, stdout, stderr, exits, step, run_steps, empty_manager, DrawsNew,
}

abbrev first_id : String
first_id = "11111111-1111-4111-8111-111111111111"

abbrev second_id : String
second_id = "22222222-2222-4222-8222-222222222222"

abbrev address : String
address = "0x1111111111111111111111111111111111111111"

abbrev hash : String
hash = "0x22222222222222222222222222222222222222222222222222222222222222aa"

abbrev number_of : ℕ → Value
number_of n = number (pos n) 1

abbrev deployed : DeploymentRecord
deployed = record {
  chain_id = 5042002;
  contracts = record {
    usdc = address;
    policy_registry = address;
    blocklist = address;
    verdicts = address;
    mutual_pool = address;
    guard_account = address;
  };
  amara_policy_owner = some address;
  mock_usdc = true;
}

abbrev sent : SentReceipt
sent = record {
  hash = hash;
  label = text "salary";
  phase = "payroll";
  block_number = number_of 10;
  timestamp = number_of 1700000000;
  status = "success";
}

abbrev check : String → DemoCheck
check name = record { name = name; passed = true; detail = ""; tx_hash = some hash }

abbrev verified_result : RunResult
verified_result = record {
  version = 1;
  verified = true;
  run_id = first_id;
  chain_id = 5042002;
  guard = address;
  usdc = address;
  checks =
      check "payroll"
      ∷ check "containment"
      ∷ check "policy-block"
      ∷ check "loss"
      ∷ check "payout"
      ∷ check "provenance"
      ∷ [];
  tx_hashes = hash ∷ [];
  start_block = number_of 9;
  end_block = number_of 12;
  balances = some (number_of 5 ∷ []);
  pool = some (number_of 1, number_of 2);
}

abbrev secrets : List Chars
secrets = codes "hunter2hunter2" ∷ []

-- the process deploys, pays, and publishes its result
abbrev before_exit : List Step
before_exit =
    starts 1 first_id true
    ∷ stdout 2 (deployment_line (ok (deployed, number_of 9)))
    ∷ stderr (codes "key hunter2hunter2")
    ∷ stdout 3 (tx_line (ok sent))
    ∷ stdout 4 (result_line (ok verified_result))
    ∷ []

-- it exits, and a second run is started
abbrev all_steps : List Step
all_steps =
    starts 1 first_id true
    ∷ stdout 2 (deployment_line (ok (deployed, number_of 9)))
    ∷ stdout 3 (tx_line (ok sent))
    ∷ stdout 4 (result_line (ok verified_result))
    ∷ exits 5 0
    ∷ starts 6 second_id true
    ∷ []

abbrev paying : RunManager
paying = run_steps before_exit (empty_manager secrets)

abbrev paid : RunManager
paid = run_steps all_steps (empty_manager secrets)

abbrev or_new : Option Run → Run
or_new none = new_run 0 "" 0
or_new (some r) = r

abbrev first_paying : Run
first_paying = or_new (get str_eq paying.runs first_id)

abbrev first_paid : Run
first_paid = or_new (get str_eq paid.runs first_id)

completed_now : first_paid.status ≡ completed
unfolding run_steps step start new_run read_stdout read_stderr exited fail_run failed_run
    completed_run consume_marker consume_body consume_event consume_receipt consume_result
    check_receipt advance append_log assert_result outcomes_verified evidence_complete receipt_of
    check_of balances_valid get set any every find keep is_run_id is_event to_lower codes_eq
    same_address last_error is_error_line
completed_now = refl

-- the secret is not in the log
logged : first_paying.log_tail ≡ codes "key [redacted]" ∷ []
unfolding run_steps step start new_run read_stdout read_stderr exited fail_run failed_run
    completed_run consume_marker consume_body consume_event consume_receipt consume_result
    check_receipt advance append_log assert_result outcomes_verified evidence_complete receipt_of
    check_of balances_valid get set any every find keep is_run_id is_event to_lower codes_eq
    same_address last_error is_error_line
logged = refl

draws_paying : DrawsNew before_exit (empty_manager secrets)
unfolding run_steps step start new_run read_stdout read_stderr exited fail_run failed_run
    completed_run consume_marker consume_body consume_event consume_receipt consume_result
    check_receipt advance append_log assert_result outcomes_verified evidence_complete receipt_of
    check_of balances_valid get set any every find keep is_run_id is_event to_lower codes_eq
    same_address last_error is_error_line
draws_paying = ((refl, refl), (tt, (tt, (tt, (tt, tt)))))

draws_paid : DrawsNew all_steps (empty_manager secrets)
unfolding run_steps step start new_run read_stdout read_stderr exited fail_run failed_run
    completed_run consume_marker consume_body consume_event consume_receipt consume_result
    check_receipt advance append_log assert_result outcomes_verified evidence_complete receipt_of
    check_of balances_valid get set any every find keep is_run_id is_event to_lower codes_eq
    same_address last_error is_error_line
draws_paid = ((refl, refl), (tt, (tt, (tt, (tt, ((refl, refl), tt))))))

paying_found : get str_eq paying.runs first_id ≡ some first_paying
unfolding run_steps step start new_run read_stdout read_stderr exited fail_run failed_run
    completed_run consume_marker consume_body consume_event consume_receipt consume_result
    check_receipt advance append_log assert_result outcomes_verified evidence_complete receipt_of
    check_of balances_valid get set any every find keep is_run_id is_event to_lower codes_eq
    same_address last_error is_error_line
paying_found = refl

paid_found : get str_eq paid.runs first_id ≡ some first_paid
unfolding run_steps step start new_run read_stdout read_stderr exited fail_run failed_run
    completed_run consume_marker consume_body consume_event consume_receipt consume_result
    check_receipt advance append_log assert_result outcomes_verified evidence_complete receipt_of
    check_of balances_valid get set any every find keep is_run_id is_event to_lower codes_eq
    same_address last_error is_error_line
paid_found = refl

paying_on : is_running first_paying.status ≡ true
unfolding run_steps step start new_run read_stdout read_stderr exited fail_run failed_run
    completed_run consume_marker consume_body consume_event consume_receipt consume_result
    check_receipt advance append_log assert_result outcomes_verified evidence_complete receipt_of
    check_of balances_valid get set any every find keep is_run_id is_event to_lower codes_eq
    same_address last_error is_error_line
paying_on = refl

paying_child : paying.child ≡ some (new_child first_id)
unfolding run_steps step start new_run read_stdout read_stderr exited fail_run failed_run
    completed_run consume_marker consume_body consume_event consume_receipt consume_result
    check_receipt advance append_log assert_result outcomes_verified evidence_complete receipt_of
    check_of balances_valid get set any every find keep is_run_id is_event to_lower codes_eq
    same_address last_error is_error_line
paying_child = refl

passes : assert_result first_paying verified_result ≡ ok tt
unfolding run_steps step start new_run read_stdout read_stderr exited fail_run failed_run
    completed_run consume_marker consume_body consume_event consume_receipt consume_result
    check_receipt advance append_log assert_result outcomes_verified evidence_complete receipt_of
    check_of balances_valid get set any every find keep is_run_id is_event to_lower codes_eq
    same_address last_error is_error_line
passes = refl

loss_named : any (λ n. str_eq n "loss") evidence_names ≡ true
unfolding any
loss_named = refl

paying_open : paying.closed ≡ false
unfolding run_steps step start new_run read_stdout read_stderr exited fail_run failed_run
    completed_run consume_marker consume_body consume_event consume_receipt consume_result
    check_receipt advance append_log assert_result outcomes_verified evidence_complete receipt_of
    check_of balances_valid get set any every find keep is_run_id is_event to_lower codes_eq
    same_address last_error is_error_line
paying_open = refl

run_steps-active_example : paying.active_run_id ≡ some first_id
run_steps-active_example =
    run_steps-active before_exit secrets first_id first_paying draws_paying paying_found paying_on

run_steps-Confirmed_example :
    (first_paid.phase ≡ complete)
    × (first_paid.progress ≡ 100)
    × ((result : RunResult) × (first_paid.result ≡ some result)
        × (assert_result first_paid result ≡ ok tt))
run_steps-Confirmed_example =
    run_steps-Confirmed all_steps secrets first_id first_paid draws_paid paid_found completed_now

run_steps-run_steps_example :
    (s : Run) × (get str_eq (run_steps (exits 9 0 ∷ resets ∷ []) paid).runs first_id ≡ some s)
    × (index_of first_paid.phase ≤ index_of s.phase)
    × (is_running first_paid.status ≡ false → s ≡ first_paid)
run_steps-run_steps_example =
    run_steps-run_steps all_steps (exits 9 0 ∷ resets ∷ []) secrets first_id first_paid draws_paid
      (tt, (tt, tt)) paid_found

run_steps-Traced_example :
    DistinctHashes first_paid.transactions
    × All (InWindow first_paid.start_block first_paid.end_block) first_paid.transactions
run_steps-Traced_example =
    run_steps-Traced all_steps secrets first_id first_paid draws_paid paid_found

restore-run_steps_example :
    (n : RunManager) × (restore 9 secrets paying.saved paying.manifest ≡ ok n) × Restores paying n
restore-run_steps_example = restore-run_steps before_exit secrets secrets 9 draws_paying

state-run_steps_example :
    (s : DemoState) × (state none paid ≡ shown s)
    × (s.active_run_id ≡ paid.active_run_id)
    × ShowsActive paid.runs paid.active_run_id paid.selected_run_id s
    × SaysAll paid.runs paid.ids s.runs
state-run_steps_example = state-run_steps all_steps secrets draws_paid

start-exited_example :
    start 8 second_id true (exited 7 1 paying)
    ≡ accepted (opened_manager 8 second_id true (exited 7 1 paying))
start-exited_example =
    start-exited before_exit secrets 7 1 8 second_id true (new_child first_id) draws_paying
      paying_child paying_open

assert_result-Supports_example :
    (c : DemoCheck) × (tx : Receipt) × (check_of verified_result.checks "loss" ≡ some c)
    × Supports first_paying "loss" c tx
assert_result-Supports_example =
    assert_result-Supports first_paying verified_result "loss" passes loss_named
