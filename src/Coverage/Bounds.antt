-- ===== src/Coverage/Bounds.antt =====
-- What a request that passes packages/api/src/schemas.ts satisfies.
use mathlib.Core.Path.{subst}
use repayd.Common.{
  ℕ, ◌*◌, ◌≤◌, ◌<◌, ◌≡◌, refl, sym, ◌∙◌, String, Bool, true, false, ◌||◌, not, Option, some, List,
  arith, ltb, ◌==◌, codes, All, pos, Bool-cases, inl, inr, str_eq,
}
use repayd.Coverage.Store.{Number, exactly, PolicyRequest, CoverageRequest}
use repayd.Coverage.Schema.{
  Value, Items, Fields, Parse, fail, ok, undefined, null, array, object, end, field, number,
  number_nan, text, nil, cons, ◌>>=◌, ◌>>◌, require, lookup, require_object, require_string,
  require_uint, is_address, require_address, require_addresses, require_array, or_default, in_range,
  require_range, utf16_length, is_yes, parse_policy, parse_coverage_request,
}

pub ok_injective : {A : Type 0} (a b : A) → ok a ≡ ok b → a ≡ b
ok_injective a b h = ground arith

pub bind-ok :
    {A B : Type 0} (m : Parse A) (f : A → Parse B) (b : B)
    → (m >>= f) ≡ ok b
    → (a : A) × (m ≡ ok a) × (f a ≡ ok b)
bind-ok (fail e) f b h = absurd (ground arith)
bind-ok (ok a) f b h = (a, refl, h)

pub then-ok :
    {A : Type 0} (c : Bool) (e : String) (n : Parse A) (b : A)
    → (require c e >> n) ≡ ok b
    → (c ≡ true) × (n ≡ ok b)
then-ok true e n b h = (refl, h)
then-ok false e n b h = absurd (ground arith)

abbrev mutual
  -- no field of a value is NaN, at any depth
  pub NoNan : Value → Type 0
  NoNan number_nan = ⊥
  NoNan (object fs) = NoNanFields fs
  NoNan _ = Unit

  pub NoNanFields : Fields → Type 0
  NoNanFields end = Unit
  NoNanFields (field name v fs) = NoNan v × NoNanFields fs

lookup-NoNan : (fs : Fields) (name : String) → NoNanFields fs → NoNan (lookup fs name)
lookup-NoNan end name h = tt
lookup-NoNan (field n v fs) name (h, hs) = elim (Bool-cases (str_eq n name)) [
  | inl e ↦ rw e h
  | inr e ↦ rw e (lookup-NoNan fs name hs)
]

or_default-NoNan : (v : Value) (n : ℕ) → NoNan v → NoNan (or_default v n)
or_default-NoNan undefined n h = tt
or_default-NoNan null n h = tt
or_default-NoNan v n h = h

require_object-NoNan :
    (v : Value) (e : String) (fs : Fields) → require_object v e ≡ ok fs → NoNan v → NoNanFields fs
require_object-NoNan (object gs) e fs h safe = subst NoNanFields (ok_injective gs fs h) safe
require_object-NoNan (array xs) e fs h safe = subst NoNanFields (ok_injective end fs h) tt
require_object-NoNan v e fs h safe = absurd (ground arith)

-- an exact number between two bounds, its denominator positive
abbrev pub Between : ℕ → ℕ → Option Number → Type 0
Between low high (some (exactly r)) = (low * r.den ≤ r.num) × (r.num ≤ high * r.den)
Between low high _ = ⊥

require_range-ok :
    (v : Value) (low high : ℕ) (e : String) (x : Number)
    → NoNan v
    → require_range v low high e ≡ ok x
    → Between low high (some x)
require_range-ok (number (pos n) d) low high e x safe h =
    elim (Bool-cases (in_range low high n d)) [
      | inl inside ↦
          subst (λ y. Between low high (some y))
            (ok_injective (exactly (record { num = n; den = d })) x (rw inside at h)) (ground arith)
      | inr outside ↦ absurd (ground arith)
    ]
require_range-ok v low high e x safe h = absurd (ground arith)

require_address-ok :
    (v : Value) (e : String) (a : String) → require_address v e ≡ ok a → is_address a ≡ true
require_address-ok (text s) e a h = elim (Bool-cases (is_address s)) [
  | inl valid ↦ subst (λ x. is_address x ≡ true) (ok_injective s a (sym (rw valid refl) ∙ h)) valid
  | inr invalid ↦ absurd (ground arith)
]
require_address-ok v e a h = absurd (ground arith)

require_addresses-ok :
    (xs : Items) (e : String) (out : List String)
    → require_addresses xs e ≡ ok out
    → All (λ a. is_address a ≡ true) out
require_addresses-ok nil e out h = subst (All (λ a. is_address a ≡ true)) (ok_injective _ _ h) tt
require_addresses-ok (cons v vs) e out h =
    let (a, ha, h1) = bind-ok (require_address v e) _ out h in
    let (rest, hrest, h2) = bind-ok (require_addresses vs e) _ out h1 in
    subst (All (λ x. is_address x ≡ true)) (ok_injective _ _ h2)
      (require_address-ok v e a ha, require_addresses-ok vs e rest hrest)

-- A policy that passes has amounts in order, addresses only, and its deductible and hold window within
-- their bounds.
pub record IsSound (p : PolicyRequest) : Type 0 where
  pub positive : 0 < p.per_tx
  pub per_tx-daily : p.per_tx ≤ p.daily
  pub per_tx-cap : p.per_tx ≤ p.cap
  pub addresses : All (λ a. is_address a ≡ true) p.allowlist
  pub deductible : Between 0 5000 p.deductible_bps
  pub hold : Between 30 3600 p.hold_window_sec

parse_policy-IsSound :
    (fields : Fields) (p : PolicyRequest)
    → NoNanFields fields
    → parse_policy fields ≡ ok p
    → IsSound p
unfolding parse_policy
parse_policy-IsSound fields p safe h =
    let (cap, h_cap, h1) = bind-ok (require_uint (lookup fields "cap") "policy.cap") _ p h in
    let (per_tx, h_per_tx, h2) =
      bind-ok (require_uint (lookup fields "perTx") "policy.perTx") _ p h1 in
    let (daily, h_daily, h3) =
      bind-ok (require_uint (lookup fields "daily") "policy.daily") _ p h2 in
    let (velocity, h_velocity, h4) =
      bind-ok (require_uint (lookup fields "velocity") "policy.velocity") _ p h3 in
    let (nonzero, h5) = then-ok _ _ _ p h4 in
    let (ordered, h6) = then-ok _ _ _ p h5 in
    let (capped, h7) = then-ok _ _ _ p h6 in
    let (items, h_items, h8) =
      bind-ok (require_array (lookup fields "allowlist") "policy.allowlist required") _ p h7 in
    let (allowlist, h_allowlist, h9) =
      bind-ok (require_addresses items "policy.allowlist entries must be addresses") _ p h8 in
    let (deductible, h_deductible, h10) =
      bind-ok
        (require_range (or_default (lookup fields "deductibleBps") 1000) 0 5000
          "policy.deductibleBps must be 0-5000")
        _ p h9 in
    let (hold, h_hold, h11) =
      bind-ok
        (require_range (or_default (lookup fields "holdWindowSec") 120) 30 3600
          "policy.holdWindowSec must be 30-3600")
        _ p h10 in
    let q : PolicyRequest = record {
      cap = cap;
      per_tx = per_tx;
      daily = daily;
      velocity = velocity;
      allowlist = allowlist;
      deductible_bps = some deductible;
      hold_window_sec = some hold;
    } in
    subst IsSound (ok_injective q p h11) (record {
      positive = positive_of per_tx cap daily nonzero;
      per_tx-daily = not_less per_tx daily ordered;
      per_tx-cap = not_less per_tx cap capped;
      addresses = require_addresses-ok items _ allowlist h_allowlist;
      deductible =
          require_range-ok (or_default (lookup fields "deductibleBps") 1000) 0 5000
            "policy.deductibleBps must be 0-5000" deductible
            (or_default-NoNan _ 1000 (lookup-NoNan fields "deductibleBps" safe)) h_deductible;
      hold =
          require_range-ok (or_default (lookup fields "holdWindowSec") 120) 30 3600
            "policy.holdWindowSec must be 30-3600" hold
            (or_default-NoNan _ 120 (lookup-NoNan fields "holdWindowSec" safe)) h_hold;
    })
  where
    positive_of : (a b c : ℕ) → not (a == 0 || b == 0 || c == 0) ≡ true → 0 < a
    positive_of a b c h = ground arith

    not_less : (a b : ℕ) → not (ltb b a) ≡ true → a ≤ b
    not_less a b h = ground arith

-- a request names an address and a platform, and its policy is sound
abbrev pub IsAccepted : CoverageRequest → Type 0
IsAccepted req =
    (is_address req.agent_wallet ≡ true)
    × (0 < utf16_length (codes req.platform))
    × (utf16_length (codes req.platform) ≤ 64)
    × IsSound req.policy

-- Whatever the body is, as long as none of its fields is NaN, which no JSON text gives, a request that
-- parseCoverageRequest returns has a wallet and an allowlist of
-- addresses, a platform of 1 to 64 characters, amounts above zero with perTx at most daily and cap, a
-- deductible of at most 5000 basis points and a hold window of 30 to 3600 seconds.
pub parse_coverage_request-IsAccepted :
    (input : Value) (req : CoverageRequest)
    → NoNan input
    → parse_coverage_request input ≡ ok req
    → IsAccepted req
unfolding parse_coverage_request
parse_coverage_request-IsAccepted input req safe h =
    let (body, h_body, h1) = bind-ok (require_object input "body must be an object") _ req h in
    let (wallet, h_wallet, h2) =
      bind-ok (require_string (lookup body "agentWallet") "agentWallet") _ req h1 in
    let (valid, h3) = then-ok (is_address wallet) _ _ req h2 in
    let (platform, h_platform, h4) =
      bind-ok (require_string (lookup body "platform") "platform") _ req h3 in
    let (sized, h5) = then-ok _ _ _ req h4 in
    let (fields, h_fields, h6) =
      bind-ok (require_object (lookup body "policy") "policy required") _ req h5 in
    let (policy, h_policy, h7) = bind-ok (parse_policy fields) _ req h6 in
    let q : CoverageRequest = record {
      agent_wallet = wallet;
      policy = policy;
      platform = platform;
      watch_only = some (is_yes (lookup body "watchOnly"));
    } in
    subst IsAccepted (ok_injective q req h7) (
      valid,
      above (utf16_length (codes platform)) sized,
      below (utf16_length (codes platform)) sized,
      parse_policy-IsSound fields policy
          (require_object-NoNan _ "policy required" fields h_fields
            (lookup-NoNan body "policy" (require_object-NoNan input _ body h_body safe)))
          h_policy,
    )
  where
    above : (n : ℕ) → not (n == 0 || ltb 64 n) ≡ true → 0 < n
    above n h = ground arith

    below : (n : ℕ) → not (n == 0 || ltb 64 n) ≡ true → n ≤ 64
    below n h = ground arith
