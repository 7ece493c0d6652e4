-- ===== src/Coverage/Lifecycle.antt =====
-- The life of a policy of packages/api/src/store.ts: created, found, cancelled once.
use mathlib.Core.Path.{subst}
use mathlib.Core.Option.{some-injective}
use repayd.Common.{
  ℕ, suc, ◌≡◌, refl, sym, ap, ◌∙◌, false, Option, none, some, List, arith, any, str_eq, codes_eq,
  codes_eq_refl, codes_eq_sound, Chars, Bool-cases, inl, inr,
}
use repayd.Coverage.Assoc.{get, set, get-set}
use repayd.Coverage.Store.{
  CoverageRequest, CoverageResponse, StoredPolicy, CoverageStore, is_active, active, cancelled,
  values, covers_wallet, new_policy, policy_id_of, add_agent, account_or_new, platform_stats,
  create, Cancelled, not_found, already_cancelled, done, cancel_found, cancel, get_policy,
}

get_policy-set :
    (m : List (Chars × StoredPolicy)) (k : Chars) (p : StoredPolicy)
    → get codes_eq (set codes_eq m k p) k ≡ some p
get_policy-set m k p = rw (get-set codes_eq codes_eq_sound m k k p, codes_eq_refl k) refl

-- When create returns, the id of its response finds an active policy with that request, that response
-- and that time.
pub get_policy-create :
    (req : CoverageRequest) (now : ℕ) (s next : CoverageStore) (response : CoverageResponse)
    → create req now s ≡ some (response, next)
    → (p : StoredPolicy) × (get_policy next response.policy_id ≡ some p)
      × (p.request ≡ req)
      × (p.response ≡ response)
      × (p.created_at ≡ now)
      × (p.status ≡ active)
unfolding create new_policy get_policy policy_id_of
get_policy-create req now s next response h =
    elim (Bool-cases (any (covers_wallet req.agent_wallet) (values s.policies))) [
      | inl covered ↦ absurd (ground arith)
      | inr free ↦
          let e = returned free in
          (
            p,
            subst
                (λ (r : CoverageResponse × CoverageStore).
                  get codes_eq r.1.policies r.0.policy_id ≡ some p)
                e (get_policy-set s.policies p.policy_id p),
            refl,
            ap (λ (r : CoverageResponse × CoverageStore). r.0) e,
            refl,
            refl,
          )
    ]
  where
    p : StoredPolicy
    p = new_policy req (suc s.counter) now

    opened : CoverageStore
    opened = record {
      policies = set codes_eq s.policies p.policy_id p;
      platforms = set str_eq s.platforms req.platform (
          add_agent (account_or_new req.platform (platform_stats s req.platform))
            p.response.monthly_premium);
      counter = suc s.counter;
    }

    returned :
        any (covers_wallet req.agent_wallet) (values s.policies) ≡ false
        → ◌≡◌ {A = CoverageResponse × CoverageStore} (p.response, opened) (response, next)
    returned free = some-injective _ _ (sym (rw free refl) ∙ h)

-- what holds of a cancellation that is done
abbrev CancelsOnce : Chars → ℕ → Cancelled → Type 0
CancelsOnce id later (done p next) =
    (p.status ≡ cancelled)
    × (get_policy next id ≡ some p)
    × (cancel id later next ≡ already_cancelled)
CancelsOnce id later _ = Unit

cancel_found-CancelsOnce :
    (id : Chars) (later : ℕ) (s : CoverageStore) (q : StoredPolicy)
    → CancelsOnce id later (cancel_found id s q)
unfolding cancel get_policy cancel_found
cancel_found-CancelsOnce id later s q = elim (Bool-cases (is_active q.status)) [
  | inr over ↦ rw over tt
  | inl open_now ↦ rw open_now (
    refl,
    get_policy-set s.policies id closed,
    rw (cancel, get_policy-set s.policies id closed) refl,
  )
]
  where
    closed : StoredPolicy
    closed = record q { status = cancelled }

-- A policy that cancel returns is cancelled, is the one that is found from then on, and is not
-- cancelled again: the second call throws.
pub cancel-cancel :
    (id : Chars) (now later : ℕ) (s next : CoverageStore) (p : StoredPolicy)
    → cancel id now s ≡ done p next
    → (p.status ≡ cancelled)
      × (get_policy next id ≡ some p)
      × (cancel id later next ≡ already_cancelled)
unfolding cancel get_policy
cancel-cancel id now later s next p h = go (get codes_eq s.policies id) h
  where
    go :
        (o : Option StoredPolicy)
        → elim o [ none ↦ not_found | some q ↦ cancel_found id s q ] ≡ done p next
        → (p.status ≡ cancelled)
          × (get_policy next id ≡ some p)
          × (cancel id later next ≡ already_cancelled)
    go none h = absurd (ground arith)
    go (some q) h = subst (CancelsOnce id later) h (cancel_found-CancelsOnce id later s q)
