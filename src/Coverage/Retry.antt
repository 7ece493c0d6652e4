-- ===== src/Coverage/Retry.antt =====
-- What a second POST /v1/coverage with the body of a first one does.
use mathlib.Core.Path.{subst}
use repayd.Common.{
  ℕ, suc, ◌≡◌, refl, String, Bool, true, ◌||◌, Option, none, some, List, [], ◌∷◌, arith, any,
  Bool-cases, inl, inr, codes_eq, Chars, str_eq_self,
}
use repayd.Coverage.Assoc.{set}
use repayd.Coverage.Store.{
  CoverageRequest, CoverageResponse, StoredPolicy, CoverageStore, values, covers_wallet, new_policy,
  create,
}
use repayd.Coverage.Schema.{Value, Parse, fail, ok, parse_coverage_request}
use repayd.Coverage.Bridge.{Node}
use repayd.Coverage.Server.{Reply, reply_created, reply_parsed, post_coverage}

any-set :
    (wallet : String) (policies : List (Chars × StoredPolicy)) (id : Chars) (p : StoredPolicy)
    → covers_wallet wallet p ≡ true
    → any (covers_wallet wallet) (values (set codes_eq policies id p)) ≡ true
unfolding any set
any-set wallet [] id p h = rw h refl
any-set wallet ((k, v) ∷ m) id p h = elim (Bool-cases (codes_eq k id)) [
  | inl e ↦ rw (e, h) refl
  | inr e ↦ rw e (or_true _ _ (any-set wallet m id p h))
]
  where
    or_true : (a b : Bool) → b ≡ true → (a || b) ≡ true
    or_true a b h = ground arith

new_policy-covers_wallet :
    (req : CoverageRequest) (n now : ℕ)
    → covers_wallet req.agent_wallet (new_policy req n now) ≡ true
unfolding new_policy
new_policy-covers_wallet req n now = rw (str_eq_self req.agent_wallet) refl

create-covers_wallet :
    (req : CoverageRequest) (now : ℕ) (s stored : CoverageStore) (response : CoverageResponse)
    → create req now s ≡ some (response, stored)
    → any (covers_wallet req.agent_wallet) (values stored.policies) ≡ true
unfolding create
create-covers_wallet req now s stored response h =
    elim (Bool-cases (any (covers_wallet req.agent_wallet) (values s.policies))) [
      | inl e ↦ absurd (refused (rw e at h))
      | inr e ↦
          subst (λ t. any (covers_wallet req.agent_wallet) (values t.policies) ≡ true)
            (stored_eq _ _ (rw e at h))
            (any-set req.agent_wallet s.policies (new_policy req (suc s.counter) now).policy_id
              (new_policy req (suc s.counter) now)
              (new_policy-covers_wallet req (suc s.counter) now))
    ]
  where
    refused : ◌≡◌ {A = Option (CoverageResponse × CoverageStore)} none (some (response, stored)) → ⊥
    refused h = ground arith

    stored_eq :
        (r : CoverageResponse) (t : CoverageStore)
        → ◌≡◌ {A = Option (CoverageResponse × CoverageStore)}
            (some (r, t))
            (some (response, stored))
        → t ≡ stored
    stored_eq r t h = ground arith

create-covered :
    (req : CoverageRequest) (now : ℕ) (s : CoverageStore)
    → any (covers_wallet req.agent_wallet) (values s.policies) ≡ true
    → create req now s ≡ none
unfolding create
create-covered req now s h = rw h refl

create-none :
    (req : CoverageRequest) (now later : ℕ) (s : CoverageStore)
    → create req now s ≡ none
    → create req later s ≡ none
unfolding create
create-none req now later s h =
    elim (Bool-cases (any (covers_wallet req.agent_wallet) (values s.policies))) [
      | inl e ↦ rw e refl
      | inr e ↦ absurd (stored _ (rw e at h))
    ]
  where
    stored : (x : CoverageResponse × CoverageStore) → some x ≡ none → ⊥
    stored x h = ground arith

module _ (env later_env : String → Option String) (node later_node : Node) (now later : ℕ) where
  -- the second reply is a refusal, and the store is left as it was
  abbrev IsRefused : Reply × CoverageStore → CoverageStore → Type 0
  IsRefused second s = (second.0.status ≡ 400) × (second.1 ≡ s)

  created-IsRefused :
      (req : CoverageRequest) (s : CoverageStore) (made : Option (CoverageResponse × CoverageStore))
      → create req now s ≡ made
      → let first = reply_created env node req s made in
        IsRefused (reply_parsed later_env later_node later first.1 (ok req)) first.1
  created-IsRefused req s none h = rw (create-none req now later s h) (refl, refl)
  created-IsRefused req s (some (response, stored)) h =
      rw (create-covered req later stored (create-covers_wallet req now s stored response h))
        (refl, refl)

  parsed-IsRefused :
      (s : CoverageStore) (parsed : Parse CoverageRequest)
      → let first = reply_parsed env node now s parsed in
        IsRefused (reply_parsed later_env later_node later first.1 parsed) first.1
  parsed-IsRefused s (fail e) = (refl, refl)
  parsed-IsRefused s (ok req) = created-IsRefused req s (create req now s) refl

  -- A body that is posted to /v1/coverage a second time is answered with status 400 and changes
  -- nothing in the store, whatever the first reply was: also when the bridge has refused the guard or
  -- has failed.
  pub post_coverage-again :
      (body : Option Value) (s : CoverageStore)
      → let first = post_coverage env node body now s in
        let second = post_coverage later_env later_node body later first.1 in
        (second.0.status ≡ 400) × (second.1 ≡ first.1)
  unfolding post_coverage
  post_coverage-again none s = (refl, refl)
  post_coverage-again (some body) s = parsed-IsRefused s (parse_coverage_request body)
