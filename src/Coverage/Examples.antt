-- ===== src/Coverage/Examples.antt =====
-- Tests of packages/api/src/store.ts on two agents of one platform.
use repayd.Common.{
  every, false, ◌≡◌, ◌≤◌, refl, true, none, some, List, [], ◌∷◌, codes, pos, length, any, digits,
  digit, zeros, pad_start,
}
use repayd.Engine.Quote.{
  quote, quote_of, loads, loads_before, loads_after, monthly_of, load_streak, load_anomaly,
  load_attempt, load_claim, load_kya, load_sdk, load_watch_only,
}
use repayd.Coverage.Assoc.{total}
use repayd.Coverage.Store.{
  nan, exactly, CoverageRequest, StoredPolicy, CoverageStore, empty_store, new_policy, policy_id_of,
  list_by_platform, cancelled,
}
use repayd.Coverage.Schema.{
  Value, Fields, ok, number, number_nan, text, array, object, nil, end, field, parse_policy,
  parse_coverage_request,
}
use repayd.Coverage.Bounds.{IsAccepted, parse_coverage_request-IsAccepted}
use repayd.Coverage.Books.{Request, create_request, cancel_request, run, account}
use repayd.Coverage.Accounts.{sum_premiums, platform_stats-run}
use repayd.Coverage.Wallets.{wallets, wallets-run}

abbrev atlas : CoverageRequest
atlas = record {
  agent_wallet = "0xa1";
  policy = record {
    cap = 1_000_000_000;
    per_tx = 10_000_000;
    daily = 50_000_000;
    velocity = 5;
    allowlist = [];
    deductible_bps = none;
    hold_window_sec = none;
  };
  platform = "boa";
  watch_only = none;
}

abbrev watched : CoverageRequest
watched = record atlas { agent_wallet = "0xb2"; watch_only = some true }

abbrev requests : List Request
requests =
    create_request atlas 100
    ∷ create_request watched 200
    ∷ create_request atlas 300
    ∷ cancel_request (codes "bwk_000001") 400
    ∷ []

policy_id_of_37 : policy_id_of 37 ≡ codes "bwk_000011"
unfolding policy_id_of pad_start digits digit zeros
policy_id_of_37 = refl

-- 2% of a thousand dollars, at 0.8 * 0.9
monthly_premium : (new_policy atlas 1 0).response.monthly_premium ≡ 14_400_000
unfolding new_policy quote quote_of loads loads_before loads_after monthly_of load_streak
    load_anomaly load_attempt load_claim load_kya load_sdk load_watch_only any
monthly_premium = refl

abbrev first : StoredPolicy
first = new_policy atlas 1 100

abbrev one_policy : CoverageStore
one_policy = run (create_request atlas 100 ∷ []) empty_store

platform_stats-run_example :
    let s = run requests empty_store in
    let acct = account s "boa" in
    let fleet = list_by_platform s "boa" in
    (acct.agent_count ≡ pos (length fleet)) × (acct.premium_volume ≡ pos (sum_premiums fleet))
platform_stats-run_example = platform_stats-run requests "boa"

wallets-run_example : total (wallets "0xa1") (run requests empty_store).policies ≤ 1
wallets-run_example = wallets-run requests "0xa1"

abbrev closed : StoredPolicy
closed = record first { status = cancelled }

abbrev all_closed : CoverageStore
all_closed = run (cancel_request first.policy_id 400 ∷ []) one_policy

abbrev accepted_policy : Fields
accepted_policy = field "cap" (number (pos 1_000_000_000) 1) (
    field "perTx" (number (pos 10_000_000) 1) (
      field "daily" (number (pos 50_000_000) 1)
        (field "velocity" (number (pos 5) 1) (field "allowlist" (array nil) end))))

abbrev accepted_body : Value
accepted_body = object (
    field "agentWallet" (text "0x00000000000000000000000000000000000000A1")
      (field "platform" (text "boa") (field "policy" (object accepted_policy) end)))

abbrev accepted : CoverageRequest
accepted = record {
  agent_wallet = "0x00000000000000000000000000000000000000A1";
  policy = record {
    cap = 1_000_000_000;
    per_tx = 10_000_000;
    daily = 50_000_000;
    velocity = 5;
    allowlist = [];
    deductible_bps = some (exactly (record { num = 1000; den = 1 }));
    hold_window_sec = some (exactly (record { num = 120; den = 1 }));
  };
  platform = "boa";
  watch_only = some false;
}

parse_coverage_request-IsAccepted_example : IsAccepted accepted
unfolding parse_coverage_request parse_policy every
parse_coverage_request-IsAccepted_example =
    parse_coverage_request-IsAccepted accepted_body accepted
      (tt, (tt, ((tt, (tt, (tt, (tt, (tt, tt))))), tt))) refl

-- a deductible of half a basis point passes
half_basis_point :
    parse_coverage_request (
      object (
        field "agentWallet" (text "0x00000000000000000000000000000000000000A1") (
          field "platform" (text "boa") (
            field "policy"
              (object (field "deductibleBps" (number (pos 1) 2) accepted_policy))
              end))))
    ≡ ok (record accepted {
      policy = record accepted.policy {
        deductible_bps = some (exactly (record { num = 1; den = 2 }));
      };
    })
unfolding parse_coverage_request parse_policy every
half_basis_point = refl

-- and so does a deductible that is NaN
nan_deductible :
    parse_coverage_request (
      object (
        field "agentWallet" (text "0x00000000000000000000000000000000000000A1") (
          field "platform"
            (text "boa")
            (field "policy" (object (field "deductibleBps" number_nan accepted_policy)) end))))
    ≡ ok (record accepted { policy = record accepted.policy { deductible_bps = some nan } })
unfolding parse_coverage_request parse_policy every
nan_deductible = refl
