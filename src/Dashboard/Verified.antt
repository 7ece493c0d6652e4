-- ===== src/Dashboard/Verified.antt =====
-- packages/dashboard/src/run-manager.ts: assertResult, the test of a result against its run.
use Prim.Native.String.{◌++◌ as str_append}
use repayd.Common.{
  ℕ, suc, String, Bool, true, false, ◌&&◌, ◌||◌, not, Option, none, some, List, [], ◌∷◌, ◌==◌,
  if◌then◌else◌, any, every, find, str_eq, same_address, length, ℤ, pos, ltb_ℤ,
}
use repayd.Coverage.Schema.{Value, number, Parse, ok, ◌>>◌, require}
use repayd.Demo.Bus.{TxStatus, success, reverted, DemoCheck}
use repayd.Dashboard.Run.{
  Run, RunResult, Receipt, DeploymentRecord, arc_chain_id, present, safe_integer, is_finite,
}

abbrev pub check_names : List String
check_names = "payroll" ∷ "containment" ∷ "policy-block" ∷ "loss" ∷ "payout" ∷ "provenance" ∷ []

abbrev pub evidence_names : List String
evidence_names = "payroll" ∷ "containment" ∷ "policy-block" ∷ "loss" ∷ "payout" ∷ []

-- a result for this run and this deployment
abbrev pub belongs : Run → RunResult → DeploymentRecord → Bool
belongs run r dep =
    r.version == 1
    && r.verified
    && str_eq r.run_id run.id
    && r.chain_id == arc_chain_id
    && same_address r.guard dep.contracts.guard_account
    && same_address r.usdc dep.contracts.usdc

abbrev pub belongs_to : Run → RunResult → Option DeploymentRecord → Bool
belongs_to run r none = false
belongs_to run r (some dep) = belongs run r dep

unfoldable pub outcomes_verified : List DemoCheck → Bool
unfolding any every
outcomes_verified checks =
    every (λ name. any (λ c. str_eq c.name name && c.passed) checks) check_names
    && not (any (λ c. not c.passed) checks)

-- run.endBlock ?? 0
abbrev pub or_zero : Option ℤ → ℤ
or_zero none = pos 0
or_zero (some n) = n

abbrev pub window_ordered : Option ℤ → Option ℤ → Option ℤ → Bool
window_ordered (some first) (some last) seen =
    not (ltb_ℤ last first) && not (ltb_ℤ last (or_zero seen))
window_ordered _ _ seen = false

abbrev pub names_hash : List String → String → Bool
names_hash hashes hash = any (λ h. same_address h hash) hashes

-- the size of a set of texts
abbrev pub distinct_count : List String → ℕ
distinct_count [] = 0
distinct_count (h ∷ hs) = let rest = distinct_count hs in if names_hash hs h then rest else suc rest

unfoldable pub evidence_complete : RunResult → List Receipt → Bool
unfolding any every
evidence_complete r txs =
    length r.tx_hashes == length txs
    && distinct_count r.tx_hashes == length txs
    && every (λ tx. names_hash r.tx_hashes tx.hash) txs

abbrev pub is_success : TxStatus → Bool
is_success success = true
is_success reverted = false

unfoldable pub receipt_of : List Receipt → String → Option Receipt
unfolding find
receipt_of txs hash = find (λ item. same_address item.hash hash) txs

abbrev pub confirms : DemoCheck → Option Receipt → Bool
confirms c none = false
confirms c (some tx) = str_eq c.name "policy-block" || is_success tx.status

abbrev pub supported_by : List Receipt → DemoCheck → Option String → Bool
supported_by txs c none = true
supported_by txs c (some hash) = confirms c (receipt_of txs hash)

abbrev pub is_supported : List Receipt → DemoCheck → Bool
is_supported txs c = supported_by txs c (present c.tx_hash)

-- the loop over the checks
abbrev pub require_supported : List Receipt → List DemoCheck → Parse Unit
require_supported txs [] = ok tt
require_supported txs (c ∷ cs) = do
  require (is_supported txs c)
      (str_append "No confirmed receipt supports the " (str_append c.name " check."))
  require_supported txs cs

abbrev pub has_hash : Option DemoCheck → Bool
has_hash none = false
has_hash (some c) = elim (present c.tx_hash) [ none ↦ false | some h ↦ true ]

unfoldable pub check_of : List DemoCheck → String → Option DemoCheck
unfolding find
check_of checks name = find (λ c. str_eq c.name name) checks

abbrev pub require_evidence : List DemoCheck → List String → Parse Unit
require_evidence checks [] = ok tt
require_evidence checks (name ∷ names) = do
  require (has_hash (check_of checks name))
      (str_append "The " (str_append name " check has no transaction evidence."))
  require_evidence checks names

-- a finite number that is not below zero
abbrev pub is_balance : Value → Bool
is_balance (number (pos n) d) = true
is_balance _ = false

unfoldable pub balances_valid : Option (List Value) → Option (Value × Value) → Bool
unfolding any
balances_valid (some values) (some (junior, senior)) =
    not (any (λ v. not (is_balance v)) values) && is_finite junior && is_finite senior
balances_valid _ _ = false

unfoldable pub assert_result : Run → RunResult → Parse Unit
assert_result run r = do
  require (belongs_to run r run.deployment)
      "Verified result is missing or belongs to a different deployment."
  require (outcomes_verified r.checks) "Not all required demo outcomes were verified."
  require (window_ordered (safe_integer r.start_block) (safe_integer r.end_block) run.end_block)
      "Demo result has an inconsistent receipt window."
  require (evidence_complete r run.transactions)
      "Demo result omitted confirmed transaction evidence."
  require_supported run.transactions r.checks
  require_evidence r.checks evidence_names
  require (balances_valid r.balances r.pool) "Demo result has invalid balance evidence."
