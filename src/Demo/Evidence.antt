-- ===== src/Demo/Evidence.antt =====
-- What a result that packages/demo/src/bus.ts accepts names: the transactions of the run and no other.
use mathlib.Core.Path.{subst, sym}
use repayd.Common.{
  suc, ◌≤◌, ◌≡◌, refl, ap, String, Bool, true, false, ◌&&◌, ◌||◌, not, none, some, List, [], ◌∷◌,
  arith, if◌then◌else◌, any, every, length, str_eq, str_eq_iff, Bool-cases, inl, inr, ◌==◌,
}
use repayd.Demo.Bus.{RunTransaction, DemoResult, Bus, has_checks, has_transactions, publish_result}
use repayd.Demo.Once.{Distinct}

-- without the first text that is the given one
unfoldable remove : String → List String → List String
remove a [] = []
remove a (x ∷ xs) = let rest = remove a xs in if str_eq x a then xs else x ∷ rest

abbrev pub lists : List String → String → Bool
lists hs a = any (λ h. str_eq h a) hs

abbrev pub is_hash_of : List RunTransaction → String → Bool
is_hash_of ts a = any (λ u. str_eq a u.hash) ts

length-remove :
    (a : String) (hs : List String) → lists hs a ≡ true → length hs ≡ suc (length (remove a hs))
unfolding any remove
length-remove a [] h = ground arith
length-remove a (x ∷ xs) h = elim (Bool-cases (str_eq x a)) [
  | inl same ↦ rw same refl
  | inr other ↦ rw other (ap suc (length-remove a xs (ground arith)))
]

lists-remove :
    (a b : String) (hs : List String)
    → str_eq a b ≡ false
    → lists hs b ≡ true
    → lists (remove a hs) b ≡ true
unfolding any remove
lists-remove a b [] apart h = ground arith
lists-remove a b (x ∷ xs) apart h = elim (Bool-cases (str_eq x a)) [
  | inl same ↦
      rw same (later (subst (λ y. str_eq y b ≡ false) (sym ((str_eq_iff x a).0 same)) apart) h)
  | inr other ↦ rw other (elim (Bool-cases (str_eq x b)) [
    | inl here ↦ rw here refl
    | inr not_here ↦ rw not_here (lists-remove a b xs apart (later not_here h))
  ])
]
  where
    later : {c d : Bool} → c ≡ false → (c || d) ≡ true → d ≡ true
    later {c} {d} f t = ground arith

every-remove :
    (a : String) (hs : List String) (ts : List RunTransaction)
    → is_hash_of ts a ≡ false
    → every (λ t. lists hs t.hash) ts ≡ true
    → every (λ t. lists (remove a hs) t.hash) ts ≡ true
unfolding any every
every-remove a hs [] apart h = refl
every-remove a hs (t ∷ ts) apart h = ground (arith, lists-remove a t.hash hs, every-remove a hs ts)

-- Distinct transactions that a list names are no more than its texts.
length-every :
    (hs : List String) (ts : List RunTransaction)
    → Distinct ts
    → every (λ t. lists hs t.hash) ts ≡ true
    → length ts ≤ length hs
unfolding every
length-every hs [] d h = omega arith
length-every hs (t ∷ ts) (dt, d) h = omega (
  arith,
  length-remove t.hash hs (ground arith),
  length-every (remove t.hash hs) ts d (every-remove t.hash hs ts dt (ground arith)),
)

accepted :
    {DemoEvent Deployment : Type 0}
    → (r : DemoResult) (b next : Bus DemoEvent Deployment) → publish_result r b ≡ some next
    → has_transactions r b.transactions ≡ true
unfolding publish_result
accepted r b next h =
    guarded (not b.demo_running || b.result_published) (not (has_checks r))
      (has_transactions r b.transactions) _ next h
  where
    guarded :
        {A : Type 0}
        → (c d e : Bool) (x y : A)
        → (if c then none else if d then none else if not e then none else some x) ≡ some y
        → e ≡ true
    guarded c d e x y h = ground arith

and_right : (c d : Bool) → (c && d) ≡ true → d ≡ true
and_right c d h = ground arith

-- When the transactions of a run are distinct and publishResult does not throw, each hash that the
-- result names is that of a transaction of the run.
pub publish_result-is_hash_of :
    {DemoEvent Deployment : Type 0}
    → (r : DemoResult) (b next : Bus DemoEvent Deployment) (hash : String) → Distinct b.transactions
    → publish_result r b ≡ some next
    → lists r.tx_hashes hash ≡ true
    → is_hash_of b.transactions hash ≡ true
publish_result-is_hash_of r b next hash d published named =
    elim (Bool-cases (is_hash_of b.transactions hash)) [
      | inl listed ↦ listed
      | inr foreign ↦ absurd (
          omega (
            arith,
            length-remove hash r.tx_hashes named,
            same_length (accepted r b next published),
            length-every (remove hash r.tx_hashes) b.transactions d (
                every-remove hash r.tx_hashes b.transactions foreign
                  (all_named (accepted r b next published))),
          ))
    ]
  where
    same_length :
        has_transactions r b.transactions ≡ true → length r.tx_hashes ≡ length b.transactions
    same_length h = ground arith

    all_named :
        has_transactions r b.transactions ≡ true
        → every (λ t. lists r.tx_hashes t.hash) b.transactions ≡ true
    all_named h = and_right (length r.tx_hashes == length b.transactions) _ h
