-- ===== src/Engine/Policy.antt =====
-- packages/engine/src/types.ts: the policy, its tests, the payout formula and the on-chain shape.
-- Amounts, limits and times are naturals; the payout is signed, since the deductible is not bounded.
pub mod Payout
pub mod Curfew
pub mod Allowlist
use repayd.Common.{
  ℕ, ◌-◌, ◌/◌, ◌%◌, String, Bool, true, false, ◌&&◌, ◌||◌, Option, none, some, List, ltb, leb, ◌==◌,
  if◌then◌else◌, ℤ, pos, sub_ℕ, ◌*ℤ◌, ◌/ℤ◌, ltb_ℤ, find, any, same_address,
}

pub record RecipientCap : Type 0 where
  pub recipient : String
  pub cap : ℕ

pub record Policy : Type 0 where
  pub version : ℕ
  pub agent : String
  pub owner : String
  pub coverage_cap : ℕ
  pub deductible_bps : ℕ
  pub per_tx_limit : ℕ
  pub daily_limit : ℕ
  pub velocity_limit : ℕ
  pub allowlist : List RecipientCap
  pub curfew_start_minute : ℕ
  pub curfew_end_minute : ℕ
  pub hold_window_sec : ℕ
  pub sdk_installed : Bool

abbrev pub no_curfew : ℕ
no_curfew = 1440

unfoldable pub compute_payout : ℕ → ℕ → ℕ → ℤ
unfolding ◌*ℤ◌ ◌/ℤ◌
compute_payout loss deductible_bps coverage_cap =
    let after_deductible : ℤ = pos loss *ℤ sub_ℕ 10_000 deductible_bps /ℤ 10_000 in
    if ltb_ℤ (pos coverage_cap) after_deductible then pos coverage_cap else after_deductible

abbrev pub cap_of : Option RecipientCap → ℕ → ℕ
cap_of none default = default
cap_of (some entry) default = entry.cap

unfoldable pub effective_limit : Policy → String → ℕ
unfolding find
effective_limit policy to =
    cap_of (find (λ c. same_address c.recipient to) policy.allowlist) policy.per_tx_limit

unfoldable pub is_allowlisted : Policy → String → Bool
unfolding any
is_allowlisted policy to = any (λ c. same_address c.recipient to) policy.allowlist

unfoldable pub curfew_active : Policy → ℕ → Bool
curfew_active policy timestamp =
    let s = policy.curfew_start_minute in
    let e = policy.curfew_end_minute in
    let minute_of_day = timestamp % 86_400 / 60 in
    if s == no_curfew || e == no_curfew
    then false
    else if s == e
    then true
    else if ltb s e
    then leb s minute_of_day && ltb minute_of_day e
    else leb s minute_of_day || ltb minute_of_day e

pub record OnChainPolicy : Type 0 where
  pub version : ℕ
  pub agent : String
  pub owner : String
  pub coverage_cap : ℕ
  pub deductible_bps : ℕ
  pub per_tx_limit : ℕ
  pub daily_limit : ℕ
  pub velocity_limit : ℕ
  pub allowlist : List RecipientCap
  pub curfew_start : ℕ
  pub curfew_end : ℕ
  pub hold_window_sec : ℕ
  pub sdk_installed : Bool

unfoldable pub to_on_chain_policy : Policy → OnChainPolicy
to_on_chain_policy policy = record {
  version = policy.version;
  agent = policy.agent;
  owner = policy.owner;
  coverage_cap = policy.coverage_cap;
  deductible_bps = policy.deductible_bps;
  per_tx_limit = policy.per_tx_limit;
  daily_limit = policy.daily_limit;
  velocity_limit = policy.velocity_limit;
  allowlist = policy.allowlist;
  curfew_start = policy.curfew_start_minute;
  curfew_end = policy.curfew_end_minute;
  hold_window_sec = policy.hold_window_sec;
  sdk_installed = policy.sdk_installed;
}
