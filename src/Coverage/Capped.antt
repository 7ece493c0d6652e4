-- ===== src/Coverage/Capped.antt =====
-- The limits that packages/engine reads in a policy that coverage-bridge.ts has mapped, whose
-- allowlist has a cap of 0 for each recipient.
use mathlib.Core.Path.{subst}
use repayd.Common.{
  ℕ, ◌<◌, ◌≡◌, ◌≢◌, refl, sym, ◌∙◌, String, true, not, List, [], ◌∷◌, map, arith, ltb, Bool-cases,
  inl, inr, any, find, same_address, ap,
}
use repayd.Engine.Policy.{Policy, effective_limit, is_allowlisted, cap_of}
use repayd.Engine.Verdict.{Alibi, Outcome, Transaction, BehavioralFacts, alibi_of}
use repayd.Engine.Breach.{judge_breach}
use repayd.Engine.Breach.Table.{judge_breach_table}
use repayd.Coverage.Store.{PolicyRequest}
use repayd.Coverage.Schema.{ok}
use repayd.Coverage.Bounds.{ok_injective, then-ok}
use repayd.Coverage.Bridge.{BridgePolicy, uncapped, to_on_chain_policy}

cap_of-uncapped :
    (recipients : List String) (to : String) (default : ℕ)
    → any (λ c. same_address c.recipient to) (map uncapped recipients) ≡ true
    → cap_of (find (λ c. same_address c.recipient to) (map uncapped recipients)) default ≡ 0
unfolding any find
cap_of-uncapped [] to default h = absurd (ground arith)
cap_of-uncapped (r ∷ rs) to default h = elim (Bool-cases (same_address r to)) [
  | inl e ↦ rw e refl
  | inr e ↦ rw e (cap_of-uncapped rs to default (rw e at h))
]

-- An allowlisted recipient of a mapped policy has a limit of 0.
pub effective_limit-uncapped :
    (policy : Policy) (recipients : List String) (to : String)
    → policy.allowlist ≡ map uncapped recipients
    → is_allowlisted policy to ≡ true
    → effective_limit policy to ≡ 0
unfolding effective_limit is_allowlisted
effective_limit-uncapped policy recipients to same listed =
    rw same (cap_of-uncapped recipients to policy.per_tx_limit (rw same at listed))

-- Under a policy whose allowlist is the one that toOnChainPolicy has mapped, judgeBreach covers every
-- loss of a positive amount that the owner did not sign, be the recipient on the allowlist and the
-- amount within perTx.
pub judge_breach-to_on_chain_policy :
    (req : PolicyRequest) (agent owner : String) (mapped : BridgePolicy) (policy : Policy)
    (tx : Transaction) (facts : BehavioralFacts)
    → to_on_chain_policy req agent owner ≡ ok mapped
    → policy.allowlist ≡ mapped.allowlist
    → 0 < tx.amount
    → alibi_of tx.instruction ≢ Alibi.owner_signed
    → (judge_breach policy tx facts).outcome ≡ Outcome.covered
unfolding to_on_chain_policy
judge_breach-to_on_chain_policy req agent owner mapped policy tx facts h same positive unsigned =
    let (within, h_mapped) = then-ok (not (ltb req.cap req.per_tx)) _ _ mapped h in
    let is_list = same ∙ sym (ap (λ p. p.allowlist) (ok_injective _ mapped h_mapped)) in
    let table = judge_breach_table policy tx facts in
    elim (Bool-cases (is_allowlisted policy tx.to)) [
      | inl listed ↦
          let limit = effective_limit-uncapped policy req.allowlist tx.to is_list listed in
          table.1.1 (unsigned, inl (subst (λ l. l < tx.amount) (sym limit) positive))
      | inr other ↦ table.1.1 (unsigned, inr (inl other))
    ]
