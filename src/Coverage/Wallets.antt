-- ===== src/Coverage/Wallets.antt =====
-- One active policy for a wallet in packages/api/src/store.ts.
use mathlib.Core.Path.{subst}
use repayd.Common.{
  str_eq_sound, ℕ, suc, ◌≤◌, ◌≡◌, refl, String, false, Option, none, some, List, [], ◌∷◌, arith,
  if◌then◌else◌, any, str_eq, codes_eq, Chars, Bool-cases, inl, inr,
}
use repayd.Coverage.Assoc.{get, total}
use repayd.Coverage.Store.{
  CoverageRequest, StoredPolicy, CoverageStore, empty_store, is_active, cancelled, values,
  covers_wallet, new_policy, policy_id_of, create, not_found, cancel_found, cancel, get_policy,
}
use repayd.Coverage.Books.{
  Request, create_request, cancel_request, created, after_cancel, step, run, Booked,
  empty_store-Booked, total-set_new, total-set_old, create-Booked,
}
use repayd.Coverage.Accounts.{cancel-Booked}

abbrev pub wallets : String → StoredPolicy → ℕ
wallets w p = if covers_wallet w p then 1 else 0

abbrev AtMostOne : CoverageStore → Type 0
AtMostOne s = (w : String) → total (wallets w) s.policies ≤ 1

any-total :
    (w : String) (m : List (Chars × StoredPolicy))
    → any (covers_wallet w) (values m) ≡ false
    → total (wallets w) m ≡ 0
unfolding any
any-total w [] h = refl
any-total w ((k, p) ∷ m) h = ground (arith, any-total w m)

create-AtMostOne :
    (req : CoverageRequest) (now : ℕ) (s : CoverageStore)
    → Booked s
    → AtMostOne s
    → AtMostOne (created s (create req now s))
unfolding create new_policy
create-AtMostOne req now s b one w =
    elim (Bool-cases (any (covers_wallet req.agent_wallet) (values s.policies))) [
      | inl covered ↦ rw covered (one w)
      | inr free ↦
          rw
            (
              free,
              total-set_new (wallets w) s.policies (policy_id_of (suc s.counter))
                  (new_policy req (suc s.counter) now) (b.fresh (suc s.counter) (omega arith)),
            )
            (elim (Bool-cases (str_eq req.agent_wallet w)) [
              | inl same ↦ rw same (
                  omega (
                    arith,
                    any-total w s.policies (
                        subst (λ x. any (covers_wallet x) (values s.policies) ≡ false)
                          (str_eq_sound req.agent_wallet w same) free),
                  ))
              | inr other ↦ rw other (omega (arith, one w))
            ])
    ]

cancel-AtMostOne :
    (id : Chars) (now : ℕ) (s : CoverageStore)
    → AtMostOne s
    → AtMostOne (after_cancel s (cancel id now s))
unfolding cancel get_policy cancel_found
cancel-AtMostOne id now s one w = go (get codes_eq s.policies id) refl
  where
    go :
        (o : Option StoredPolicy)
        → get codes_eq s.policies id ≡ o
        → total
            (wallets w)
            (after_cancel s (elim o [ none ↦ not_found | some p ↦ cancel_found id s p ])).policies
          ≤ 1
    go none found = one w
    go (some p) found = elim (Bool-cases (is_active p.status)) [
      | inr over ↦ rw over (one w)
      | inl open_now ↦ rw open_now (
          omega
            (arith, one w, total-set_old (wallets w) s.policies id (closed p) p found, is_zero p))
    ]
      where
        closed : StoredPolicy → StoredPolicy
        closed p = record p { status = cancelled }

        is_zero : (p : StoredPolicy) → wallets w (closed p) ≡ 0
        is_zero p = ground arith

run-AtMostOne :
    (requests : List Request) (s : CoverageStore)
    → Booked s
    → AtMostOne s
    → AtMostOne (run requests s)
unfolding run step
run-AtMostOne [] s b one = one
run-AtMostOne (create_request req now ∷ rs) s b one =
    run-AtMostOne rs _ (create-Booked req now s b) (create-AtMostOne req now s b one)
run-AtMostOne (cancel_request id now ∷ rs) s b one =
    run-AtMostOne rs _ (cancel-Booked id now s b) (cancel-AtMostOne id now s one)

-- After any sequence of creations and cancellations, at most one active policy names a wallet, spelled
-- as it was given.
pub wallets-run :
    (requests : List Request) (wallet : String)
    → total (wallets wallet) (run requests empty_store).policies ≤ 1
wallets-run requests wallet =
    run-AtMostOne requests empty_store empty_store-Booked (λ w. omega arith) wallet
