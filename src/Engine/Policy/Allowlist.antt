-- ===== src/Engine/Policy/Allowlist.antt =====
-- The limit and the membership test of packages/engine/src/types.ts agree on the allowlist.
use repayd.Common.{
  ℕ, String, ◌≡◌, refl, true, false, List, [], ◌∷◌, ◌++◌, arith, find, any, same_address,
  Bool-cases, inl, inr, ap,
}
use repayd.Engine.Policy.{Policy, RecipientCap, effective_limit, is_allowlisted, cap_of}

-- the first entry of a list that names the recipient, with what stands before it and after it
pub record FirstEntry (cs : List RecipientCap) (to : String) (cap : ℕ) : Type 0 where
  pub before : List RecipientCap
  pub entry : RecipientCap
  pub after : List RecipientCap
  pub split : cs ≡ before ++ entry ∷ after
  pub none_before : any (λ c. same_address c.recipient to) before ≡ false
  pub named : same_address entry.recipient to ≡ true
  pub is_cap : cap ≡ entry.cap

limit_of_list :
    (cs : List RecipientCap) (to : String) (default : ℕ)
    → any (λ c. same_address c.recipient to) cs ≡ false
    → cap_of (find (λ c. same_address c.recipient to) cs) default ≡ default
unfolding any find
limit_of_list [] to default h = refl
limit_of_list (c ∷ cs) to default h = ground (arith, limit_of_list cs to default)

first_of_list :
    (cs : List RecipientCap) (to : String) (default : ℕ)
    → any (λ c. same_address c.recipient to) cs ≡ true
    → FirstEntry cs to (cap_of (find (λ c. same_address c.recipient to) cs) default)
unfolding any find
first_of_list [] to default h = cc
first_of_list (c ∷ cs) to default h = elim (Bool-cases (same_address c.recipient to)) [
  | inl e ↦ record {
    before = [];
    entry = c;
    after = cs;
    split = refl;
    none_before = refl;
    named = e;
    is_cap = rw e;
  }
  | inr e ↦
      let r = first_of_list cs to default (ground arith) in
      record {
        before = c ∷ r.before;
        entry = r.entry;
        after = r.after;
        split = ap (◌∷◌ c) r.split;
        none_before = rw e r.none_before;
        named = r.named;
        is_cap = rw e r.is_cap;
      }
]

-- A recipient that no allowlist entry names has the policy's per-transaction limit.
pub effective_limit_other :
    (policy : Policy) (to : String)
    → is_allowlisted policy to ≡ false
    → effective_limit policy to ≡ policy.per_tx_limit
unfolding effective_limit is_allowlisted
effective_limit_other policy to = limit_of_list policy.allowlist to policy.per_tx_limit

-- An allowlisted recipient has the cap of the first entry of the allowlist that names it, in
-- whatever case of letters.
pub effective_limit_allowlisted :
    (policy : Policy) (to : String)
    → is_allowlisted policy to ≡ true
    → FirstEntry policy.allowlist to (effective_limit policy to)
unfolding effective_limit is_allowlisted
effective_limit_allowlisted policy to = first_of_list policy.allowlist to policy.per_tx_limit
