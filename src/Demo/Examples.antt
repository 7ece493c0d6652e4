-- ===== src/Demo/Examples.antt =====
-- Tests of packages/demo/src/bus.ts on a short run, with numbers for events and deployments.
use repayd.Common.{
  every, ℕ, ◌≡◌, refl, String, true, some, List, [], ◌∷◌, length, any, keep, if◌then◌else◌,
}
use repayd.Demo.Bus.{
  RunTransaction, DemoCheck, DemoResult, Bus, payroll, success, publish, publish_transaction,
  publish_deployment, publish_result, end_demo,
}
use repayd.Demo.Evidence.{is_hash_of, publish_result-is_hash_of}
use repayd.Demo.Once.{
  BusCall, event, transaction, deployment, result, stop, results, transactions_of, step, run,
  started, Distinct, output-run,
}

abbrev paid : RunTransaction
paid = record {
  hash = "0xaa";
  label = "salary";
  phase = payroll;
  block_number = 10;
  timestamp = 1700000000;
  status = success;
}

abbrev passed_check : String → DemoCheck
passed_check name = record { name = name; passed = true; detail = ""; tx_hash = some "0xaa" }

abbrev verified : DemoResult
verified = record {
  run_id = "run";
  chain_id = 5042002;
  guard = "0x01";
  usdc = "0x02";
  checks =
      passed_check "payroll"
      ∷ passed_check "containment"
      ∷ passed_check "policy-block"
      ∷ passed_check "loss"
      ∷ passed_check "payout"
      ∷ passed_check "provenance"
      ∷ [];
  tx_hashes = "0xaa" ∷ [];
  start_block = 10;
  end_block = 12;
}

abbrev calls : List (BusCall ℕ ℕ)
calls =
    event 1
    ∷ deployment 7 9
    ∷ transaction paid
    ∷ transaction paid
    ∷ result verified
    ∷ result verified
    ∷ stop
    ∷ event 2
    ∷ []

abbrev after : Bus ℕ ℕ
after = run calls started

output-run_example :
    (length (results after.output) ≡ (if after.result_published then 1 else 0))
    × (transactions_of after.output ≡ after.transactions)
    × Distinct after.transactions
output-run_example = output-run calls

-- the second transaction, the second result and the event after the end are not written
written : length after.output ≡ 4
unfolding run step publish publish_transaction publish_deployment publish_result end_demo any every
    keep
written = refl

abbrev before_result : Bus ℕ ℕ
before_result = run (transaction paid ∷ []) started

abbrev with_result : Bus ℕ ℕ
with_result = run (transaction paid ∷ result verified ∷ []) started

publish_result-is_hash_of_example : is_hash_of before_result.transactions "0xaa" ≡ true
unfolding run step publish_transaction publish_result any every keep
publish_result-is_hash_of_example =
    publish_result-is_hash_of verified before_result with_result "0xaa" (refl, tt) refl refl
