-- ===== src/Coverage/Store.antt =====
-- packages/api/src/store.ts: the policy store, with the request and response types of
-- packages/api/src/schemas.ts.
use Prim.Native.String.{◌++◌ as str_append}
use repayd.Common.{
  ℕ, suc, ◌*◌, String, Bool, true, false, ◌&&◌, not, Option, none, some, List, [], ◌∷◌,
  if◌then◌else◌, any, keep, str_eq, codes_eq, ℤ, pos, ◌+ℤ◌, ◌-ℤ◌, Chars, digits, pad_start,
}
use repayd.Pricing.Record.{Ratio, Piece, text, amount}
use repayd.Engine.Quote.{DrivingRecord, Quote, quote}
use repayd.Coverage.Assoc.{get, set}

-- a number of the runtime: an exact one, or NaN
pub data Number : Type 0 where
  nan : Number
  exactly : Ratio → Number

pub record PolicyRequest : Type 0 where
  pub cap : ℕ
  pub per_tx : ℕ
  pub daily : ℕ
  pub velocity : ℕ
  pub allowlist : List String
  pub deductible_bps : Option Number
  pub hold_window_sec : Option Number

pub record CoverageRequest : Type 0 where
  pub agent_wallet : String
  pub policy : PolicyRequest
  pub platform : String
  pub watch_only : Option Bool

pub record CoverageResponse : Type 0 where
  pub policy_id : Chars
  pub premium_stream : List Piece
  pub record_name : String
  pub multiplier : Ratio
  pub monthly_premium : ℕ

pub data Status : Type 0 where
  active cancelled : Status

pub record StoredPolicy : Type 0 where
  pub policy_id : Chars
  pub request : CoverageRequest
  pub response : CoverageResponse
  pub created_at : ℕ
  pub status : Status

pub record PlatformAccount : Type 0 where
  pub platform : String
  pub agent_count : ℤ
  pub premium_volume : ℤ
  pub rev_share_bps : ℕ

pub record CoverageStore : Type 0 where
  pub policies : List (Chars × StoredPolicy)
  pub platforms : List (String × PlatformAccount)
  pub counter : ℕ

abbrev pub empty_store : CoverageStore
empty_store = record { policies = []; platforms = []; counter = 0 }

abbrev pub rev_share_bps : ℕ
rev_share_bps = 2000

abbrev pub is_active : Status → Bool
is_active active = true
is_active cancelled = false

-- req.watchOnly as a condition
abbrev pub is_true : Option Bool → Bool
is_true (some true) = true
is_true _ = false

abbrev pub values : List (Chars × StoredPolicy) → List StoredPolicy
values [] = []
values ((k, v) ∷ m) = v ∷ values m

abbrev pub covers_wallet : String → StoredPolicy → Bool
covers_wallet wallet p = str_eq p.request.agent_wallet wallet && is_active p.status

abbrev pub on_platform : String → StoredPolicy → Bool
on_platform platform p = str_eq p.request.platform platform && is_active p.status

-- the record of a new agent
abbrev pub new_record : CoverageRequest → ℕ → DrivingRecord
new_record req now = record {
  clean_streak_days = 0;
  anomaly_load = record { num = 0; den = 1 };
  attempted_breaches = [];
  recent_claims = [];
  lifetime_claims = 0;
  world_id_verified = true;
  sdk_installed = not (is_true req.watch_only);
  watch_only = is_true req.watch_only;
  now = now;
}

-- "bwk_" and the counter in base 36, of six digits or more
unfoldable pub policy_id_of : ℕ → Chars
unfolding digits pad_start
policy_id_of n = b'b' ∷ b'w' ∷ b'k' ∷ b'_' ∷ pad_start 6 (digits 36 n n)

abbrev pub response_of : CoverageRequest → ℕ → Quote → CoverageResponse
response_of req n q = record {
  policy_id = policy_id_of n;
  premium_stream =
      amount (record { num = q.multiplier.num * 2; den = q.multiplier.den })
      ∷ text "%/mo-equiv"
      ∷ [];
  record_name = str_append req.platform ".repayd.eth";
  multiplier = q.multiplier;
  monthly_premium = q.monthly_premium;
}

abbrev pub account_or_new : String → Option PlatformAccount → PlatformAccount
account_or_new platform (some acct) = acct
account_or_new platform none = record {
  platform = platform;
  agent_count = pos 0;
  premium_volume = pos 0;
  rev_share_bps = rev_share_bps;
}

unfoldable pub add_agent : PlatformAccount → ℕ → PlatformAccount
unfolding ◌+ℤ◌
add_agent acct premium = record acct {
  agent_count = acct.agent_count +ℤ pos 1;
  premium_volume = acct.premium_volume +ℤ pos premium;
}

unfoldable pub remove_agent : PlatformAccount → ℕ → PlatformAccount
unfolding ◌-ℤ◌
remove_agent acct premium = record acct {
  agent_count = acct.agent_count -ℤ pos 1;
  premium_volume = acct.premium_volume -ℤ pos premium;
}

-- the stored policy of a request
unfoldable pub new_policy : CoverageRequest → ℕ → ℕ → StoredPolicy
unfolding policy_id_of quote
new_policy req n now = record {
  policy_id = policy_id_of n;
  request = req;
  response = response_of req n (quote (new_record req now) req.policy.cap);
  created_at = now;
  status = active;
}

unfoldable pub platform_stats : CoverageStore → String → Option PlatformAccount
unfolding get
platform_stats s platform = get str_eq s.platforms platform

-- create throws when the wallet has active coverage
unfoldable pub create :
    CoverageRequest → ℕ → CoverageStore → Option (CoverageResponse × CoverageStore)
unfolding any set platform_stats new_policy add_agent
create req now s =
    if any (covers_wallet req.agent_wallet) (values s.policies)
    then none
    else (let n = suc s.counter in
        let p = new_policy req n now in
        let acct = account_or_new req.platform (platform_stats s req.platform) in
        some (
          p.response,
          record {
            policies = set codes_eq s.policies p.policy_id p;
            platforms =
                set str_eq s.platforms req.platform (add_agent acct p.response.monthly_premium);
            counter = n;
          },
        ))

unfoldable pub get_policy : CoverageStore → Chars → Option StoredPolicy
unfolding get
get_policy s id = get codes_eq s.policies id

unfoldable pub list_by_platform : CoverageStore → String → List StoredPolicy
unfolding keep
list_by_platform s platform = keep (on_platform platform) (values s.policies)

pub data Cancelled : Type 0 where
  not_found already_cancelled : Cancelled
  done : StoredPolicy → CoverageStore → Cancelled

abbrev pub settle :
    CoverageStore → StoredPolicy → Option PlatformAccount → List (String × PlatformAccount)
settle s p none = s.platforms
settle s p (some acct) =
    set str_eq s.platforms p.request.platform (remove_agent acct p.response.monthly_premium)

unfoldable pub cancel_found : Chars → CoverageStore → StoredPolicy → Cancelled
unfolding set remove_agent platform_stats
cancel_found id s p =
    let closed : StoredPolicy = record p { status = cancelled } in
    if not (is_active p.status)
    then already_cancelled
    else done closed (record s {
      policies = set codes_eq s.policies id closed;
      platforms = settle s p (platform_stats s p.request.platform);
    })

unfoldable pub cancel : Chars → ℕ → CoverageStore → Cancelled
unfolding get_policy cancel_found
cancel id now s = elim (get_policy s id) [ none ↦ not_found | some p ↦ cancel_found id s p ]
