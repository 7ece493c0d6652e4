-- ===== src/Coverage/Accounts.antt =====
-- The accounts of packages/api/src/store.ts are those of the active policies, cancellations included.
use repayd.Common.{
  ℕ, ◌+◌, ◌≡◌, refl, ap, ◌∙◌, String, true, Option, none, some, List, [], ◌∷◌, arith, keep, length,
  codes_eq, pos, Chars, Bool-cases, Option-cases, inl, inr,
}
use repayd.Coverage.Assoc.{get, total}
use repayd.Coverage.Store.{
  StoredPolicy, CoverageStore, empty_store, Status, is_active, active, cancelled, values,
  on_platform, platform_stats, list_by_platform, not_found, cancel_found, cancel, get_policy,
}
use repayd.Coverage.Books.{
  Request, create_request, cancel_request, after_cancel, step, run, counts, premiums, account,
  Booked, empty_store-Booked, create-Booked,
}
use repayd.Coverage.Settled.{settled-Booked, has_account}

pub cancel-Booked :
    (id : Chars) (now : ℕ) (s : CoverageStore)
    → Booked s
    → Booked (after_cancel s (cancel id now s))
unfolding cancel get_policy cancel_found
cancel-Booked id now s b = go (get codes_eq s.policies id) refl
  where
    opened : (st : Status) → is_active st ≡ true → st ≡ active
    opened active h = refl
    opened cancelled h = ground arith

    go :
        (o : Option StoredPolicy)
        → get codes_eq s.policies id ≡ o
        → Booked (after_cancel s (elim o [ none ↦ not_found | some p ↦ cancel_found id s p ]))
    go none found = b
    go (some p) found = elim (Bool-cases (is_active p.status)) [
      | inr over ↦ rw over b
      | inl open_now ↦ elim (Option-cases (platform_stats s p.request.platform)) [
        | inl missing ↦ absurd (has_account s id p b found (opened p.status open_now) missing)
        | inr (acct, stats) ↦
            rw (open_now, stats)
              (settled-Booked s b id p found (opened p.status open_now) acct stats)
      ]
    ]

run-Booked : (requests : List Request) (s : CoverageStore) → Booked s → Booked (run requests s)
unfolding run step
run-Booked [] s b = b
run-Booked (create_request req now ∷ rs) s b = run-Booked rs _ (create-Booked req now s b)
run-Booked (cancel_request id now ∷ rs) s b = run-Booked rs _ (cancel-Booked id now s b)

abbrev pub sum_premiums : List StoredPolicy → ℕ
sum_premiums [] = 0
sum_premiums (p ∷ ps) = p.response.monthly_premium + sum_premiums ps

total-keep :
    (q : String) (m : List (Chars × StoredPolicy))
    → (total (counts q) m ≡ length (keep (on_platform q) (values m)))
      × (total (premiums q) m ≡ sum_premiums (keep (on_platform q) (values m)))
unfolding keep
total-keep q [] = (refl, refl)
total-keep q ((k, p) ∷ m) =
    let (n, v) = total-keep q m in
    elim (Bool-cases (on_platform q p)) [
      | inl on ↦ rw on (omega (arith, n), omega (arith, v))
      | inr off ↦ rw off (omega (arith, n), omega (arith, v))
    ]

-- After any sequence of creations and cancellations, those that throw included, the account of a
-- platform counts its active policies, which listByPlatform lists, and its volume is the sum of their
-- monthly premiums; neither is ever negative.
pub platform_stats-run :
    (requests : List Request) (platform : String)
    → let s = run requests empty_store in
      let acct = account s platform in
      let fleet = list_by_platform s platform in
      (acct.agent_count ≡ pos (length fleet)) × (acct.premium_volume ≡ pos (sum_premiums fleet))
unfolding list_by_platform
platform_stats-run requests platform =
    let b = run-Booked requests empty_store empty_store-Booked in
    let (n, v) = total-keep platform (run requests empty_store).policies in
    (b.counted platform ∙ ap pos n, b.volume platform ∙ ap pos v)
