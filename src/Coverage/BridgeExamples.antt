-- ===== src/Coverage/BridgeExamples.antt =====
-- Tests of packages/api/src/coverage-bridge.ts on a node with one guard.
use repayd.Common.{
  ◌≡◌, ◌↔◌, refl, String, true, false, none, some, [], ◌∷◌, arith, if◌then◌else◌, str_eq,
  same_address, every,
}
use repayd.Engine.Policy.{Policy}
use repayd.Engine.Verdict.{Outcome, Transaction, BehavioralFacts}
use repayd.Engine.Breach.{judge_breach}
use repayd.Coverage.Store.{PolicyRequest}
use repayd.Coverage.Schema.{Parse, fail, ok}
use repayd.Coverage.Deployment.{DeploymentRecord, load_deployment}
use repayd.Coverage.Bridge.{
  BridgeConfig, Node, AttachResult, unsent, sent, bridge_from_env, to_on_chain_policy,
  bridge_policy, verify_guard_ownership, prepare_attach, attach_on_chain,
}
use repayd.Coverage.Attach.{IsAuthorized, attach_on_chain-IsAuthorized}
use repayd.Coverage.Capped.{judge_breach-to_on_chain_policy}

abbrev registry : String
registry = "0x00000000000000000000000000000000000000C1"

abbrev stack : DeploymentRecord
stack = record {
  chain_id = 31337;
  contracts = record {
    usdc = registry;
    policy_registry = registry;
    blocklist = registry;
    verdicts = registry;
    mutual_pool = registry;
    guard_account = registry;
  };
}

-- one guard, owned by the key
abbrev node : Node
node = record {
  chain_id = ok 31337;
  bytecode = λ wallet. ok (if str_eq wallet "0xa1" then some "0x6080" else none);
  owner_of = λ wallet. some "0x0A";
  address_of = λ key. ok "0x0a";
  latest_version = λ at wallet. ok 3;
  encode_attach = λ wallet version policy. ok "0xda7a";
  send = λ tx. ok "0x7e";
  policy_hash_at = λ at wallet version. ok "0x4a54";
  deployments = λ id. some stack;
}

abbrev config : BridgeConfig
config = record { rpc_url = "http://localhost"; private_key = "0x01"; registry_address = none }

abbrev req : PolicyRequest
req = record {
  cap = 1_000_000_000;
  per_tx = 10_000_000;
  daily = 50_000_000;
  velocity = 5;
  allowlist = "0xb0" ∷ [];
  deductible_bps = none;
  hold_window_sec = none;
}

abbrev attach_tx : repayd.Coverage.Bridge.Transaction
attach_tx = record { sender = "0x0a"; to = registry; payload = "0xda7a" }

abbrev attached : AttachResult
attached = record {
  tx_hash = "0x7e";
  registry = registry;
  agent = "0xa1";
  version = 4;
  policy_hash = "0x4a54";
}

attach_guard : attach_on_chain node config req "0xa1" ≡ sent attach_tx (ok attached)
unfolding attach_on_chain prepare_attach load_deployment verify_guard_ownership to_on_chain_policy
    same_address every
attach_guard = refl

-- the transaction is sent although the call throws
attach_unread :
    attach_on_chain
      (record node { policy_hash_at = λ at wallet version. fail "timeout" })
      config
      req
      "0xa1"
    ≡ sent attach_tx (fail "timeout")
unfolding attach_on_chain prepare_attach load_deployment verify_guard_ownership to_on_chain_policy
    same_address every
attach_unread = refl

attach_account :
    attach_on_chain node config req "0xa2"
    ≡ unsent "attach precheck failed: agentWallet is an EOA — coverage requires a GuardAccount"
unfolding attach_on_chain prepare_attach load_deployment verify_guard_ownership to_on_chain_policy
    every
attach_account = refl

attach_on_chain-IsAuthorized_example :
    ((result : Parse AttachResult) × (attach_on_chain node config req "0xa1"
        ≡ sent attach_tx result))
    ↔ (IsAuthorized node config req "0xa1" attach_tx
        × ((tx_hash : String) × (node.send attach_tx ≡ ok tx_hash)))
attach_on_chain-IsAuthorized_example = attach_on_chain-IsAuthorized node config req "0xa1" attach_tx

without_key : bridge_from_env (λ name. none) ≡ ok none
unfolding bridge_from_env
without_key = refl

abbrev read_back : Policy
read_back = record {
  version = 4;
  agent = "0xa1";
  owner = "0x0A";
  coverage_cap = 1_000_000_000;
  deductible_bps = 1000;
  per_tx_limit = 10_000_000;
  daily_limit = 50_000_000;
  velocity_limit = 5;
  allowlist = (bridge_policy req "0xa1" "0x0A").allowlist;
  curfew_start_minute = 1440;
  curfew_end_minute = 1440;
  hold_window_sec = 120;
  sdk_installed = true;
}

-- one dollar to the recipient of the allowlist
abbrev allowed : Transaction
allowed = record {
  to = "0xb0";
  amount = 1_000_000;
  tx_hash = "0x71";
  block_timestamp = 43_200;
  calldata = "0x";
  instruction = none;
}

abbrev quiet : BehavioralFacts
quiet = record {
  recipient_first_seen = some 0;
  recipient_on_blocklist_strikes = 0;
  known_drainer_calldata = false;
  hour_of_day_history = [];
  amount_history = [];
}

judge_breach-to_on_chain_policy_example :
    (judge_breach read_back allowed quiet).outcome ≡ Outcome.covered
unfolding to_on_chain_policy
judge_breach-to_on_chain_policy_example =
    judge_breach-to_on_chain_policy req "0xa1" "0x0A" (bridge_policy req "0xa1" "0x0A") read_back
      allowed quiet refl refl (omega arith) (ground arith)
