-- ===== src/Coverage/Deployment.antt =====
-- packages/api/src/deployment.ts: the record of a deployed stack, and what is tested of it.
use repayd.Common.{ℕ, String, Option, none, some, List, [], ◌∷◌, ◌==◌}
use repayd.Coverage.Schema.{Parse, fail, ok, ◌>>=◌, ◌>>◌, require, is_address}

pub record DeploymentContracts : Type 0 where
  pub usdc : String
  pub policy_registry : String
  pub blocklist : String
  pub verdicts : String
  pub mutual_pool : String
  pub guard_account : String

-- what is read of the file of a deployment
pub record DeploymentRecord : Type 0 where
  pub chain_id : ℕ
  pub contracts : DeploymentContracts

-- Object.entries of the contracts, without the keys
abbrev pub entries : DeploymentContracts → List String
entries c =
    c.usdc ∷ c.policy_registry ∷ c.blocklist ∷ c.verdicts ∷ c.mutual_pool ∷ c.guard_account ∷ []

abbrev pub require_valid : List String → Parse Unit
require_valid [] = ok tt
require_valid (v ∷ vs) = do require (is_address v) "invalid address"; require_valid vs

abbrev pub require_file : Option DeploymentRecord → Parse DeploymentRecord
require_file none = fail "no deployment record"
require_file (some raw) = ok raw

-- the file of each chain is given; none where there is none
unfoldable pub load_deployment : (ℕ → Option DeploymentRecord) → ℕ → Parse DeploymentRecord
load_deployment files id = do
  raw ← require_file (files id)
  require_valid (entries raw.contracts)
  require (raw.chain_id == id) "chainId is not the requested one"
  ok raw
