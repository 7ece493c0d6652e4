-- ===== src/Dashboard/Run.antt =====
-- packages/dashboard/src/run-manager.ts: a run, with the records that its process sends and its
-- phases.
use repayd.Common.{
  ℕ, suc, ◌^◌, String, Bool, true, false, ◌&&◌, ◌||◌, Option, none, some, List, [], ◌∷◌, ltb, leb,
  ◌==◌, if◌then◌else◌, str_eq, codes, length, every, is_hex_digit, ℤ, pos, negsuc, Chars,
}
use repayd.Coverage.Schema.{Value, number}
use repayd.Demo.Bus.{
  RunPhase, preflight, deploying, payroll, containment, blocked, recovery, provenance, complete,
  TxStatus, DemoCheck,
}

pub data RunStatus : Type 0 where
  running completed failed interrupted : RunStatus

abbrev pub is_running : RunStatus → Bool
is_running running = true
is_running _ = false

-- an event as it is sent: what the code tests at run time may be any value
pub record DemoEvent : Type 0 where
  pub text : Value
  pub kind : String
  pub t : Value
  pub phase : Option String
  pub tx_hash : Option String

pub record StoredDemoEvent : Type 0 where
  pub event : DemoEvent
  pub seq : ℕ
  pub emitted_at : ℕ

-- a receipt as it is sent
pub record SentReceipt : Type 0 where
  pub hash : String
  pub label : Value
  pub phase : String
  pub block_number : Value
  pub timestamp : Value
  pub status : String

-- a receipt that has been checked
pub record Receipt : Type 0 where
  pub hash : String
  pub label : String
  pub phase : RunPhase
  pub block_number : ℕ
  pub timestamp : Value
  pub status : TxStatus

pub record Contracts : Type 0 where
  pub usdc : String
  pub policy_registry : String
  pub blocklist : String
  pub verdicts : String
  pub mutual_pool : String
  pub guard_account : String

-- an address that is absent is the empty text
pub record DeploymentRecord : Type 0 where
  pub chain_id : ℕ
  pub contracts : Contracts
  pub amara_policy_owner : Option String
  pub mock_usdc : Bool

pub record RunResult : Type 0 where
  pub version : ℕ
  pub verified : Bool
  pub run_id : String
  pub chain_id : ℕ
  pub guard : String
  pub usdc : String
  pub checks : List DemoCheck
  pub tx_hashes : List String
  pub start_block : Value
  pub end_block : Value
  pub balances : Option (List Value)
  pub pool : Option (Value × Value)

pub record Run : Type 0 where
  pub id : String
  pub label : Chars
  pub chain_id : ℕ
  pub status : RunStatus
  pub phase : RunPhase
  pub started_at : ℕ
  pub updated_at : ℕ
  pub heartbeat_at : ℕ
  pub ended_at : Option ℕ
  pub progress : ℕ
  pub events : List StoredDemoEvent
  pub transactions : List Receipt
  pub log_tail : List Chars
  pub deployment : Option DeploymentRecord
  pub guard : Option String
  pub start_block : Option ℤ
  pub end_block : Option ℤ
  pub result : Option RunResult
  pub error : Option Chars

abbrev pub arc_chain_id : ℕ
arc_chain_id = 5042002

-- PHASES.indexOf
abbrev pub index_of : RunPhase → ℕ
index_of preflight = 0
index_of deploying = 1
index_of payroll = 2
index_of containment = 3
index_of blocked = 4
index_of recovery = 5
index_of provenance = 6
index_of complete = 7

abbrev pub progress_of : RunPhase → ℕ
progress_of preflight = 2
progress_of deploying = 10
progress_of payroll = 30
progress_of containment = 48
progress_of blocked = 62
progress_of recovery = 74
progress_of provenance = 92
progress_of complete = 98

abbrev pub phases : List (String × RunPhase)
phases =
    ("preflight", preflight)
    ∷ ("deploying", deploying)
    ∷ ("payroll", payroll)
    ∷ ("containment", containment)
    ∷ ("blocked", blocked)
    ∷ ("recovery", recovery)
    ∷ ("provenance", provenance)
    ∷ ("complete", complete)
    ∷ []

abbrev pub phase_in : List (String × RunPhase) → String → Option RunPhase
phase_in [] name = none
phase_in ((n, p) ∷ ps) name = if str_eq n name then some p else phase_in ps name

abbrev pub hex_after_prefix : ℕ → List ℕ → Bool
hex_after_prefix n (a ∷ b ∷ s) = a == b'0' && b == b'x' && length s == n && every is_hex_digit s
hex_after_prefix n _ = false

-- /^0x[\da-fA-F]{40}$/
abbrev pub is_address : String → Bool
is_address s = hex_after_prefix 40 (codes s)

-- /^0x[\da-fA-F]{64}$/
abbrev pub is_hash : String → Bool
is_hash s = hex_after_prefix 64 (codes s)

-- /^[\da-f-]{36}$/i
unfoldable pub is_run_id : String → Bool
unfolding every
is_run_id id = length (codes id) == 36 && every (λ c. is_hex_digit c || c == b'-') (codes id)

-- Number.isSafeInteger
abbrev pub safe_integer : Value → Option ℤ
safe_integer (number (pos n) d) = if d == 1 && ltb n (2 ^ 53) then some (pos n) else none
safe_integer (number (negsuc n) d) =
    if d == 1 && ltb (suc n) (2 ^ 53) then some (negsuc n) else none
safe_integer _ = none

-- Number.isFinite
abbrev pub is_finite : Value → Bool
is_finite (number n d) = true
is_finite _ = false

-- the value of an optional text if it counts as true
abbrev pub present : Option String → Option String
present none = none
present (some s) = if str_eq s "" then none else some s

unfoldable pub advance : RunPhase → Run → Run
advance phase run =
    if leb (index_of run.phase) (index_of phase)
    then record run { phase = phase; progress = progress_of phase }
    else run
