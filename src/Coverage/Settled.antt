-- ===== src/Coverage/Settled.antt =====
-- A policy of packages/api/src/store.ts that is cancelled: the accounts after it.
use mathlib.Core.Path.{subst}
use repayd.Common.{
  str_eq_sound, ℕ, ◌+◌, ◌<◌, ◌≡◌, ◌≢◌, refl, sym, ap, ◌∙◌, String, Bool, true, false, Option, none,
  some, arith, if◌then◌else◌, str_eq, str_eq_iff, pos_part, codes_eq, codes_eq_sound, pos, Chars,
  Bool-cases, inl, inr,
}
use repayd.Coverage.Assoc.{get, set, get-set, total}
use repayd.Coverage.Store.{
  StoredPolicy, PlatformAccount, CoverageStore, active, cancelled, account_or_new, remove_agent,
  policy_id_of, platform_stats,
}
use repayd.Coverage.Books.{counts, premiums, account, Booked, total-set_old, pos-sub, account-set}

some-ne-none : (p : StoredPolicy) → some p ≢ none
some-ne-none p h = ground arith

-- a store of which one active policy is cancelled
module _ (s : CoverageStore) (b : Booked s) (k : Chars) (p : StoredPolicy)
    (found : get codes_eq s.policies k ≡ some p) (is_open : p.status ≡ active)
    (acct : PlatformAccount) (stats : platform_stats s p.request.platform ≡ some acct) where
  abbrev pub closed : StoredPolicy
  closed = record p { status = cancelled }

  abbrev pub settled : CoverageStore
  settled = record {
    policies = set codes_eq s.policies k closed;
    platforms =
        set str_eq s.platforms p.request.platform (remove_agent acct p.response.monthly_premium);
    counter = s.counter;
  }

  own : account s p.request.platform ≡ acct
  own = ap (account_or_new p.request.platform) stats

  own_of : (q : String) → str_eq p.request.platform q ≡ true → account s q ≡ acct
  own_of q same = subst (λ x. account s x ≡ acct) (str_eq_sound p.request.platform q same) own

  -- what the policy counted for is gone
  counts-settled :
      (q : String)
      → total (counts q) settled.policies + (if str_eq p.request.platform q then 1 else 0)
        ≡ total (counts q) s.policies
  counts-settled q = elim (Bool-cases (str_eq p.request.platform q)) [
    | inl same ↦
        rw same (
          omega (arith, total-set_old (counts q) s.policies k closed p found, is_one same, is_zero))
    | inr other ↦ rw other (
        omega (arith, total-set_old (counts q) s.policies k closed p found, is_none other, is_zero))
  ]
    where
      is_zero : counts q closed ≡ 0
      is_zero = ground arith

      is_one : str_eq p.request.platform q ≡ true → counts q p ≡ 1
      is_one same = rw (same, is_open) refl

      is_none : str_eq p.request.platform q ≡ false → counts q p ≡ 0
      is_none other = rw other refl

  premiums-settled :
      (q : String)
      → total (premiums q) settled.policies
          + (if str_eq p.request.platform q then p.response.monthly_premium else 0)
        ≡ total (premiums q) s.policies
  premiums-settled q = elim (Bool-cases (str_eq p.request.platform q)) [
    | inl same ↦ rw same (
        omega (arith, total-set_old (premiums q) s.policies k closed p found, is_all same, is_zero))
    | inr other ↦ rw other (
        omega
          (arith, total-set_old (premiums q) s.policies k closed p found, is_none other, is_zero))
  ]
    where
      is_zero : premiums q closed ≡ 0
      is_zero = ground arith

      is_all : str_eq p.request.platform q ≡ true → premiums q p ≡ p.response.monthly_premium
      is_all same = rw (same, is_open) refl

      is_none : str_eq p.request.platform q ≡ false → premiums q p ≡ 0
      is_none other = rw other refl

  settled-counted :
      (q : String) → (account settled q).agent_count ≡ pos (total (counts q) settled.policies)
  unfolding remove_agent
  settled-counted q =
      rw (account-set s settled.policies s.counter p.request.platform q _)
        (elim (Bool-cases (str_eq p.request.platform q)) [
          | inl same ↦ rw same (
              pos-sub acct.agent_count (total (counts q) s.policies) 1 _
                (ap (λ (a : PlatformAccount). a.agent_count) (sym (own_of q same)) ∙ b.counted q)
                (sym (
                    ap (λ (c : Bool). total (counts q) settled.policies + (if c then 1 else 0))
                      same)
                  ∙ counts-settled q))
          | inr other ↦ rw other (
              b.counted q
              ∙ ap pos (
                  sym (counts-settled q)
                  ∙ ap (λ (c : Bool). total (counts q) settled.policies + (if c then 1 else 0))
                      other
                  ∙ omega arith))
        ])

  settled-volume :
      (q : String) → (account settled q).premium_volume ≡ pos (total (premiums q) settled.policies)
  unfolding remove_agent
  settled-volume q =
      let m = p.response.monthly_premium in
      rw (account-set s settled.policies s.counter p.request.platform q _)
        (elim (Bool-cases (str_eq p.request.platform q)) [
          | inl same ↦ rw same (
              pos-sub acct.premium_volume (total (premiums q) s.policies) m _
                (ap (λ (a : PlatformAccount). a.premium_volume) (sym (own_of q same)) ∙ b.volume q)
                (sym (
                    ap (λ (c : Bool). total (premiums q) settled.policies + (if c then m else 0))
                      same)
                  ∙ premiums-settled q))
          | inr other ↦ rw other (
              b.volume q
              ∙ ap pos (
                  sym (premiums-settled q)
                  ∙ ap (λ (c : Bool). total (premiums q) settled.policies + (if c then m else 0))
                      other
                  ∙ omega arith))
        ])

  fresh_settled : (n : ℕ) → s.counter < n → get codes_eq settled.policies (policy_id_of n) ≡ none
  fresh_settled n h =
      rw (get-set codes_eq codes_eq_sound s.policies k (policy_id_of n) closed, apart, b.fresh n h)
        refl
    where
      apart : codes_eq k (policy_id_of n) ≡ false
      apart = elim (Bool-cases (codes_eq k (policy_id_of n))) [
        | inl same ↦ absurd (
            some-ne-none p (
              sym found
              ∙ ap (get codes_eq s.policies) (codes_eq_sound k (policy_id_of n) same)
              ∙ b.fresh n h))
        | inr other ↦ other
      ]

  pub settled-Booked : Booked settled
  settled-Booked = record {
    fresh = fresh_settled;
    counted = settled-counted;
    volume = settled-volume;
  }

-- a platform with an active policy has an account
pub has_account :
    (s : CoverageStore) (k : Chars) (p : StoredPolicy)
    → Booked s
    → get codes_eq s.policies k ≡ some p
    → p.status ≡ active
    → platform_stats s p.request.platform ≢ none
has_account s k p b found is_open missing =
    absurd (omega (arith, none_counted, left, is_zero, is_one))
  where
    q : String
    q = p.request.platform

    closed : StoredPolicy
    closed = record p { status = cancelled }

    left :
        total (counts q) (set codes_eq s.policies k closed) + counts q p
        ≡ total (counts q) s.policies + counts q closed
    left = total-set_old (counts q) s.policies k closed p found

    is_zero : counts q closed ≡ 0
    is_zero = ground arith

    is_one : counts q p ≡ 1
    is_one = rw ((str_eq_iff q q).1 refl, is_open) refl

    none_counted : 0 ≡ total (counts q) s.policies
    none_counted = ap pos_part (
        ap (λ (o : Option PlatformAccount). (account_or_new q o).agent_count) (sym missing)
        ∙ b.counted q)
