-- ===== src/Demo/Bus.antt =====
-- packages/demo/src/bus.ts: the state of a run and the lines that it writes, with the types of
-- packages/demo/src/run-types.ts that it reads.
use repayd.Common.{
  every, ℕ, String, Bool, true, false, ◌&&◌, ◌||◌, not, Option, none, some, List, [], ◌∷◌, ◌++◌,
  ◌==◌, if◌then◌else◌, any, keep, length, str_eq,
}

pub data RunPhase : Type 0 where
  preflight deploying payroll containment blocked recovery provenance complete : RunPhase

pub data TxStatus : Type 0 where
  success reverted : TxStatus

pub record RunTransaction : Type 0 where
  pub hash : String
  pub label : String
  pub phase : RunPhase
  pub block_number : ℕ
  pub timestamp : ℕ
  pub status : TxStatus

pub record DemoCheck : Type 0 where
  pub name : String
  pub passed : Bool
  pub detail : String
  pub tx_hash : Option String

-- the fields of a result, without its balances and pool
pub record DemoResult : Type 0 where
  pub run_id : String
  pub chain_id : ℕ
  pub guard : String
  pub usdc : String
  pub checks : List DemoCheck
  pub tx_hashes : List String
  pub start_block : ℕ
  pub end_block : ℕ

abbrev pub required : List String
required = "payroll" ∷ "containment" ∷ "policy-block" ∷ "loss" ∷ "payout" ∷ "provenance" ∷ []

abbrev pub has_checks : DemoResult → Bool
has_checks r =
    length r.checks == length required
    && every (λ name. length (keep (λ c. str_eq c.name name && c.passed) r.checks) == 1) required

abbrev pub has_transactions : DemoResult → List RunTransaction → Bool
has_transactions r txs =
    length r.tx_hashes == length txs && every (λ tx. any (λ h. str_eq h tx.hash) r.tx_hashes) txs

-- what the bus only passes on: an event, and a deployment record
module _ (DemoEvent Deployment : Type 0) where
  -- a line of the output, by its marker
  pub data Line : Type 0 where
    event_line : DemoEvent → Line
    tx_line : RunTransaction → Line
    deployment_line : Deployment → ℕ → Line
    result_line : DemoResult → Line

  pub record Bus : Type 0 where
    pub output : List Line
    pub history : List DemoEvent
    pub transactions : List RunTransaction
    pub demo_running : Bool
    pub result_published : Bool

module _ {DemoEvent Deployment : Type 0} where
  unfoldable pub publish : DemoEvent → Bus DemoEvent Deployment → Bus DemoEvent Deployment
  publish e b =
      if not b.demo_running
      then b
      else record b { output = b.output ++ (event_line e ∷ []); history = b.history ++ (e ∷ []) }

  unfoldable pub publish_transaction :
      RunTransaction → Bus DemoEvent Deployment → Bus DemoEvent Deployment
  unfolding any
  publish_transaction tx b =
      if not b.demo_running
      then b
      else if any (λ item. str_eq item.hash tx.hash) b.transactions
      then b
      else record b {
        output = b.output ++ (tx_line tx ∷ []);
        transactions = b.transactions ++ (tx ∷ []);
      }

  -- none when the source throws
  unfoldable pub publish_deployment :
      Deployment → ℕ → Bus DemoEvent Deployment → Option (Bus DemoEvent Deployment)
  publish_deployment d start_block b =
      if not b.demo_running
      then none
      else some (record b { output = b.output ++ (deployment_line d start_block ∷ []) })

  unfoldable pub publish_result :
      DemoResult → Bus DemoEvent Deployment → Option (Bus DemoEvent Deployment)
  unfolding every any keep
  publish_result r b =
      if not b.demo_running || b.result_published
      then none
      else if not (has_checks r)
      then none
      else if not (has_transactions r b.transactions)
      then none
      else some (record b { output = b.output ++ (result_line r ∷ []); result_published = true })

  unfoldable pub start_demo : Bus DemoEvent Deployment → Option (Bus DemoEvent Deployment)
  start_demo b =
      if b.demo_running
      then none
      else some (record b {
        history = [];
        transactions = [];
        result_published = false;
        demo_running = true;
      })

  unfoldable pub end_demo : Bus DemoEvent Deployment → Bus DemoEvent Deployment
  end_demo b = record b { demo_running = false }
