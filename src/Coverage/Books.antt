-- ===== src/Coverage/Books.antt =====
-- The platform accounts of packages/api/src/store.ts over any sequence of requests.
use repayd.Common.{
  str_eq_sound, ℕ, suc, ◌+◌, ◌<◌, ◌≡◌, refl, ap, ◌∙◌, String, Bool, true, false, Option, none, some,
  List, [], ◌∷◌, arith, if◌then◌else◌, any, str_eq, codes_eq, codes_eq_sound, ℤ, pos, ◌+ℤ◌, ◌-ℤ◌,
  Chars, Bool-cases, inl, inr,
}
use repayd.Coverage.Assoc.{get, set, get-set, total, of_option, total-set}
use repayd.Coverage.Store.{
  CoverageRequest, CoverageResponse, StoredPolicy, PlatformAccount, CoverageStore, empty_store,
  active, values, covers_wallet, on_platform, account_or_new, add_agent, new_policy, policy_id_of,
  platform_stats, create, Cancelled, done, cancel,
}
use repayd.Coverage.Ids.{policy_id_of_injective}

pub data Request : Type 0 where
  create_request : CoverageRequest → ℕ → Request
  cancel_request : Chars → ℕ → Request

-- what a request leaves in the store; one that throws leaves it as it is
abbrev pub created : CoverageStore → Option (CoverageResponse × CoverageStore) → CoverageStore
created s none = s
created s (some (response, next)) = next

abbrev pub after_cancel : CoverageStore → Cancelled → CoverageStore
after_cancel s (done p next) = next
after_cancel s _ = s

unfoldable pub step : Request → CoverageStore → CoverageStore
unfolding create cancel
step (create_request req now) s = created s (create req now s)
step (cancel_request id now) s = after_cancel s (cancel id now s)

unfoldable pub run : List Request → CoverageStore → CoverageStore
unfolding step
run [] s = s
run (r ∷ rs) s = run rs (step r s)

abbrev pub counts : String → StoredPolicy → ℕ
counts platform p = if on_platform platform p then 1 else 0

abbrev pub premiums : String → StoredPolicy → ℕ
premiums platform p = if on_platform platform p then p.response.monthly_premium else 0

abbrev pub account : CoverageStore → String → PlatformAccount
account s platform = account_or_new platform (platform_stats s platform)

pub record Booked (s : CoverageStore) : Type 0 where
  pub fresh : (n : ℕ) → s.counter < n → get codes_eq s.policies (policy_id_of n) ≡ none
  pub counted : (q : String) → (account s q).agent_count ≡ pos (total (counts q) s.policies)
  pub volume : (q : String) → (account s q).premium_volume ≡ pos (total (premiums q) s.policies)

pub empty_store-Booked : Booked empty_store
unfolding platform_stats get
empty_store-Booked = record { fresh = λ n h. refl; counted = λ q. refl; volume = λ q. refl }

-- a key that is not there, or one that is, when its value is replaced
pub total-set_new :
    (f : StoredPolicy → ℕ) (m : List (Chars × StoredPolicy)) (k : Chars) (v : StoredPolicy)
    → get codes_eq m k ≡ none
    → total f (set codes_eq m k v) ≡ total f m + f v
total-set_new f m k v h = omega (arith, total-set codes_eq f m k v, ap (of_option f) h)

pub total-set_old :
    (f : StoredPolicy → ℕ) (m : List (Chars × StoredPolicy)) (k : Chars) (v w : StoredPolicy)
    → get codes_eq m k ≡ some w
    → total f (set codes_eq m k v) + f w ≡ total f m + f v
total-set_old f m k v w h = omega (arith, total-set codes_eq f m k v, ap (of_option f) h)

pos-add : (z : ℤ) (a b : ℕ) → z ≡ pos a → z +ℤ pos b ≡ pos (a + b)
unfolding ◌+ℤ◌
pos-add z a b h = rw h (ground arith)

pub pos-sub : (z : ℤ) (a b c : ℕ) → z ≡ pos a → c + b ≡ a → z -ℤ pos b ≡ pos c
unfolding ◌-ℤ◌
pos-sub z a b c h e = rw h (ground arith)

-- the account that a platform finds after another account was set
pub account-set :
    (s : CoverageStore) (m : List (Chars × StoredPolicy)) (n : ℕ) (p q : String)
    (acct : PlatformAccount)
    → account (record { policies = m; platforms = set str_eq s.platforms p acct; counter = n }) q
      ≡ (if str_eq p q then acct else account s q)
unfolding platform_stats
account-set s m n p q acct =
    rw (get-set str_eq str_eq_sound s.platforms p q acct)
      (choose (str_eq p q) (get str_eq s.platforms q))
  where
    choose :
        (b : Bool) (o : Option PlatformAccount)
        → account_or_new q (if b then some acct else o) ≡ (if b then acct else account_or_new q o)
    choose true o = refl
    choose false o = refl

-- a store with one more active policy, under a key that is not there
module _ (s : CoverageStore) (b : Booked s) (k : Chars) (p : StoredPolicy) (n : ℕ)
    (is_new : get codes_eq s.policies k ≡ none) (is_open : p.status ≡ active) where
  abbrev enrolled : CoverageStore
  enrolled = record {
    policies = set codes_eq s.policies k p;
    platforms =
        set str_eq s.platforms p.request.platform
          (add_agent (account s p.request.platform) p.response.monthly_premium);
    counter = n;
  }

  enrolled-counted :
      (q : String) → (account enrolled q).agent_count ≡ pos (total (counts q) enrolled.policies)
  unfolding add_agent
  enrolled-counted q =
      rw
        (
          account-set s enrolled.policies n p.request.platform q _,
          total-set_new (counts q) s.policies k p is_new,
          is_open,
        )
        (elim (Bool-cases (str_eq p.request.platform q)) [
          | inl same ↦
              rw (same, str_eq_sound p.request.platform q same) (pos-add _ _ 1 (b.counted q))
          | inr other ↦ rw other (b.counted q ∙ ap pos (omega arith))
        ])

  enrolled-volume :
      (q : String)
      → (account enrolled q).premium_volume ≡ pos (total (premiums q) enrolled.policies)
  unfolding add_agent
  enrolled-volume q =
      rw
        (
          account-set s enrolled.policies n p.request.platform q _,
          total-set_new (premiums q) s.policies k p is_new,
          is_open,
        )
        (elim (Bool-cases (str_eq p.request.platform q)) [
          | inl same ↦
              rw (same, str_eq_sound p.request.platform q same)
                (pos-add _ _ p.response.monthly_premium (b.volume q))
          | inr other ↦ rw other (b.volume q ∙ ap pos (omega arith))
        ])

pub create-Booked :
    (req : CoverageRequest) (now : ℕ) (s : CoverageStore)
    → Booked s
    → Booked (created s (create req now s))
unfolding create new_policy
create-Booked req now s b =
    elim (Bool-cases (any (covers_wallet req.agent_wallet) (values s.policies))) [
      | inl covered ↦ rw covered b
      | inr free ↦ rw free (record {
        fresh = later;
        counted = enrolled-counted s b id p n (b.fresh n (omega arith)) refl;
        volume = enrolled-volume s b id p n (b.fresh n (omega arith)) refl;
      })
    ]
  where
    n : ℕ
    n = suc s.counter

    id : Chars
    id = policy_id_of n

    p : StoredPolicy
    p = new_policy req n now

    later : (i : ℕ) → n < i → get codes_eq (set codes_eq s.policies id p) (policy_id_of i) ≡ none
    later i h =
        rw
          (
            get-set codes_eq codes_eq_sound s.policies id (policy_id_of i) p,
            other,
            b.fresh i (omega (arith, h)),
          )
          refl
      where
        other : codes_eq id (policy_id_of i) ≡ false
        other = elim (Bool-cases (codes_eq id (policy_id_of i))) [
          | inl same ↦ absurd (omega (arith, policy_id_of_injective n i same, h))
          | inr apart ↦ apart
        ]
