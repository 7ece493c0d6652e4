-- ===== src/Coverage/ServerExamples.antt =====
-- Tests of POST /v1/coverage of packages/api/src/server.ts, with a key and a wallet that is no contract.
use repayd.Common.{
  ◌≡◌, refl, String, true, Option, none, some, if◌then◌else◌, str_eq, every, any, pos,
}
use repayd.Coverage.Assoc.{set}
use repayd.Coverage.Store.{CoverageStore, empty_store, create, new_policy, values, covers_wallet}
use repayd.Coverage.Schema.{
  Value, fail, ok, number, text, array, object, nil, end, field, parse_policy,
  parse_coverage_request,
}
use repayd.Coverage.Bridge.{Node, bridge_from_env, verify_guard_ownership}
use repayd.Coverage.Server.{post_coverage}
use repayd.Coverage.Retry.{post_coverage-again}

abbrev env : String → Option String
env name =
    if str_eq name "COVERAGE_PLATFORM_KEY"
    then some "0x00000000000000000000000000000000000000000000000000000000000000b1"
    else if str_eq name "COVERAGE_RPC_URL"
    then some "http://localhost"
    else none

abbrev node : Node
node = record {
  chain_id = ok 31337;
  bytecode = λ wallet. ok none;
  owner_of = λ wallet. none;
  address_of = λ key. ok "0x0a";
  latest_version = λ at wallet. ok 0;
  encode_attach = λ wallet version policy. ok "0xda7a";
  send = λ tx. fail "rejected";
  policy_hash_at = λ at wallet version. fail "timeout";
  deployments = λ id. none;
}

abbrev wallet : String
wallet = "0x00000000000000000000000000000000000000A1"

abbrev body : Value
body = object (
    field "agentWallet" (text wallet) (
      field "platform" (text "boa") (
        field "policy"
          (object (
            field "cap" (number (pos 1_000_000_000) 1) (
              field "perTx" (number (pos 10_000_000) 1) (
                field "daily" (number (pos 50_000_000) 1)
                  (field "velocity" (number (pos 5) 1) (field "allowlist" (array nil) end))))))
          end)))

abbrev after_first : CoverageStore
after_first = (post_coverage env node (some body) 100 empty_store).1

-- the reply is a refusal, and yet the wallet has active coverage
refused_but_covered :
    ((post_coverage env node (some body) 100 empty_store).0.status ≡ 422)
    × (any (covers_wallet wallet) (values after_first.policies) ≡ true)
unfolding post_coverage parse_coverage_request parse_policy every create new_policy any set
    bridge_from_env verify_guard_ownership
refused_but_covered = (refl, refl)

post_coverage-again_example :
    ((post_coverage env node (some body) 200 after_first).0.status ≡ 400)
    × ((post_coverage env node (some body) 200 after_first).1 ≡ after_first)
post_coverage-again_example = post_coverage-again env env node node 100 200 (some body) empty_store
