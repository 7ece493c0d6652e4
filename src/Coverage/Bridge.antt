-- ===== src/Coverage/Bridge.antt =====
-- packages/api/src/coverage-bridge.ts: the mapping of a requested policy, the precheck of its guard
-- and the transaction that attaches it. The node, the key library and the ABI encoder are a record.
-- The addresses in the message of a failed precheck are left out.
use Prim.Native.String.{◌++◌ as str_append}
use repayd.Common.{
  ℕ, suc, String, Bool, true, false, ◌&&◌, ◌||◌, not, Option, none, some, List, ◌∷◌, map, ltb, ◌==◌,
  if◌then◌else◌, codes, length, every, is_hex_digit, str_eq, same_address,
}
use repayd.Engine.Policy.{RecipientCap, no_curfew}
use repayd.Coverage.Store.{Number, exactly, PolicyRequest}
use repayd.Coverage.Schema.{Parse, fail, ok, ◌>>=◌, ◌>>◌, require}
use repayd.Coverage.Deployment.{DeploymentRecord, load_deployment}

pub record BridgePolicy : Type 0 where
  pub agent : String
  pub owner : String
  pub coverage_cap : ℕ
  pub deductible_bps : Number
  pub per_tx_limit : ℕ
  pub daily_limit : ℕ
  pub velocity_limit : ℕ
  pub allowlist : List RecipientCap
  pub curfew_start : ℕ
  pub curfew_end : ℕ
  pub hold_window_sec : Number
  pub sdk_installed : Bool

pub record BridgeConfig : Type 0 where
  pub rpc_url : String
  pub private_key : String
  pub registry_address : Option String

abbrev pub is_key_codes : List ℕ → Bool
is_key_codes (a ∷ b ∷ s) = a == b'0' && b == b'x' && length s == 64 && every is_hex_digit s
is_key_codes _ = false

-- a variable of the environment that is set and not empty
abbrev pub non_empty : Option String → Option String
non_empty none = none
non_empty (some v) = if str_eq v "" then none else some v

abbrev pub config_of : Option String → Option String → Option String → Parse (Option BridgeConfig)
config_of none _ _ = ok none
config_of (some pk) none _ = ok none
config_of (some pk) (some rpc) registry = do
  require (is_key_codes (codes pk))
      "COVERAGE_PLATFORM_KEY must be a 0x-prefixed 32-byte private key"
  ok (some (record { rpc_url = rpc; private_key = pk; registry_address = registry }))

unfoldable pub bridge_from_env : (String → Option String) → Parse (Option BridgeConfig)
bridge_from_env env =
    config_of (non_empty (env "COVERAGE_PLATFORM_KEY")) (non_empty (env "COVERAGE_RPC_URL"))
      (env "COVERAGE_REGISTRY_ADDRESS")

abbrev pub or_else_number : Option Number → ℕ → Number
or_else_number none n = exactly (record { num = n; den = 1 })
or_else_number (some x) n = x

abbrev pub uncapped : String → RecipientCap
uncapped recipient = record { recipient = recipient; cap = 0 }

abbrev pub bridge_policy : PolicyRequest → String → String → BridgePolicy
bridge_policy req agent owner = record {
  agent = agent;
  owner = owner;
  coverage_cap = req.cap;
  deductible_bps = or_else_number req.deductible_bps 1000;
  per_tx_limit = req.per_tx;
  daily_limit = req.daily;
  velocity_limit = req.velocity;
  allowlist = map uncapped req.allowlist;
  curfew_start = no_curfew;
  curfew_end = no_curfew;
  hold_window_sec = or_else_number req.hold_window_sec 120;
  sdk_installed = true;
}

unfoldable pub to_on_chain_policy : PolicyRequest → String → String → Parse BridgePolicy
to_on_chain_policy req agent owner = do
  require (not (ltb req.cap req.per_tx)) "policy.perTx must be <= policy.cap"
  ok (bridge_policy req agent owner)

pub record Transaction : Type 0 where
  pub sender : String
  pub to : String
  pub payload : String

-- what the bridge calls: the node at the configured URL, each call of which may be rejected, the
-- address of a key and the encoding of an attach call
pub record Node : Type 0 where
  pub chain_id : Parse ℕ
  pub bytecode : String → Parse (Option String)
  pub owner_of : String → Option String
  pub address_of : String → Parse String
  pub latest_version : String → String → Parse ℕ
  pub encode_attach : String → ℕ → BridgePolicy → Parse String
  pub send : Transaction → Parse String
  pub policy_hash_at : String → String → ℕ → Parse String
  pub deployments : ℕ → Option DeploymentRecord

pub data Ownership : Type 0 where
  not_owned : String → Ownership
  owned : String → Ownership

abbrev pub has_code : Option String → Bool
has_code none = false
has_code (some code) = not (str_eq code "" || str_eq code "0x")

abbrev pub compare_owner : Option String → Parse String → Parse Ownership
compare_owner none signer = ok (not_owned "agentWallet has no OWNER() — not a GuardAccount")
compare_owner (some owner) signer = do
  key_address ← signer
  if same_address owner key_address
      then ok (owned owner)
      else ok (not_owned "signer is not the GuardAccount OWNER")

unfoldable pub verify_guard_ownership : Node → BridgeConfig → String → Parse Ownership
unfolding same_address
verify_guard_ownership node config wallet = do
  code ← node.bytecode wallet
  if has_code code
      then compare_owner (node.owner_of wallet) (node.address_of config.private_key)
      else ok (not_owned "agentWallet is an EOA — coverage requires a GuardAccount")

abbrev pub registry_of : Node → Option String → ℕ → Parse String
registry_of node none id = do
  deployed ← load_deployment node.deployments id
  ok deployed.contracts.policy_registry
registry_of node (some registry) id = ok registry

abbrev pub require_owned : Ownership → Parse String
require_owned (not_owned reason) = fail (str_append "attach precheck failed: " reason)
require_owned (owned owner) = ok owner

-- all that comes before the transaction is sent
pub record Prepared : Type 0 where
  pub registry : String
  pub version : ℕ
  pub transaction : Transaction

unfoldable pub prepare_attach : Node → BridgeConfig → PolicyRequest → String → Parse Prepared
unfolding load_deployment verify_guard_ownership to_on_chain_policy
prepare_attach node config req wallet = do
  id ← node.chain_id
  registry ← registry_of node (non_empty config.registry_address) id
  ownership ← verify_guard_ownership node config wallet
  owner ← require_owned ownership
  sender ← node.address_of config.private_key
  policy ← to_on_chain_policy req wallet owner
  version ← node.latest_version registry wallet
  data_of_call ← node.encode_attach wallet (suc version) policy
  ok (record {
    registry = registry;
    version = suc version;
    transaction = record { sender = sender; to = registry; payload = data_of_call };
  })

pub record AttachResult : Type 0 where
  pub tx_hash : String
  pub registry : String
  pub agent : String
  pub version : ℕ
  pub policy_hash : String

-- the call throws before a transaction is sent, or it sends one and then returns or throws
pub data Attached : Type 0 where
  unsent : String → Attached
  sent : Transaction → Parse AttachResult → Attached

abbrev pub result_of : Node → String → Prepared → String → Parse AttachResult
result_of node wallet p tx_hash = do
  policy_hash ← node.policy_hash_at p.registry wallet p.version
  ok (record {
    tx_hash = tx_hash;
    registry = p.registry;
    agent = wallet;
    version = p.version;
    policy_hash = policy_hash;
  })

abbrev pub after_send : Node → String → Prepared → Parse String → Attached
after_send node wallet p (fail e) = unsent e
after_send node wallet p (ok tx_hash) = sent p.transaction (result_of node wallet p tx_hash)

abbrev pub attach_prepared : Node → String → Parse Prepared → Attached
attach_prepared node wallet (fail e) = unsent e
attach_prepared node wallet (ok p) = after_send node wallet p (node.send p.transaction)

unfoldable pub attach_on_chain : Node → BridgeConfig → PolicyRequest → String → Attached
unfolding prepare_attach
attach_on_chain node config req wallet =
    attach_prepared node wallet (prepare_attach node config req wallet)
