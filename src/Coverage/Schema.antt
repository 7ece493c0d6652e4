-- ===== src/Coverage/Schema.antt =====
-- packages/api/src/schemas.ts: the validation of a request body, a value that may be anything.
use Prim.Native.String.{◌++◌ as str_append}
use repayd.Common.{
  ℕ, ◌+◌, ◌*◌, ◌^◌, String, Bool, true, false, ◌&&◌, ◌||◌, not, some, List, [], ◌∷◌, ltb, leb, ◌==◌,
  if◌then◌else◌, str_eq, codes, length, ℤ, pos, negsuc, every, is_hex_digit,
}
use repayd.Coverage.Store.{Number, nan, exactly, PolicyRequest, CoverageRequest}

-- a value of the runtime; a number is an integer over a positive one, in lowest terms, or it is NaN or
-- one of the infinities
mutual
  pub data Value : Type 0 where
    undefined null : Value
    boolean : Bool → Value
    number : ℤ → ℕ → Value
    number_nan infinity negative_infinity : Value
    bigint : ℤ → Value
    text : String → Value
    array : Items → Value
    object : Fields → Value

  pub data Items : Type 0 where
    nil : Items
    cons : Value → Items → Items

  pub data Fields : Type 0 where
    end : Fields
    field : String → Value → Fields → Fields

-- what a validator returns, or the message that it throws
pub data Parse (A : Type 0) : Type 0 where
  fail : String → Parse A
  ok : A → Parse A

infixl 20 ◌>>=◌ ◌>>◌
abbrev pub ◌>>=◌ : {A B : Type 0} → Parse A → (A → Parse B) → Parse B
fail e >>= f = fail e
ok a >>= f = f a

abbrev pub ◌>>◌ : {A B : Type 0} → Parse A → Parse B → Parse B
m >> n = m >>= λ _. n

abbrev pub require : Bool → String → Parse Unit
require true e = ok tt
require false e = fail e

abbrev pub lookup : Fields → String → Value
lookup end name = undefined
lookup (field n v fs) name = if str_eq n name then v else lookup fs name

-- an array is an object too, without the fields that are read
abbrev pub require_object : Value → String → Parse Fields
require_object (object fs) e = ok fs
require_object (array xs) e = ok end
require_object _ e = fail e

abbrev pub require_string : Value → String → Parse String
require_string (text s) name = ok s
require_string _ name = fail (str_append name " must be a string")

-- Number.isSafeInteger of a natural over a positive number
abbrev pub is_safe : ℕ → ℕ → Bool
is_safe n d = (d == 1) && ltb n (2 ^ 53)

abbrev pub not_uint : String → Parse ℕ
not_uint name = fail (str_append name " must be a non-negative integer")

abbrev pub require_uint : Value → String → Parse ℕ
require_uint (bigint (pos n)) name = ok n
require_uint (bigint (negsuc n)) name = fail (str_append name " must be >= 0")
require_uint (number (pos n) d) name = if is_safe n d then ok n else not_uint name
require_uint _ name = not_uint name

abbrev pub is_address_codes : List ℕ → Bool
is_address_codes (a ∷ b ∷ s) = a == b'0' && b == b'x' && length s == 40 && every is_hex_digit s
is_address_codes _ = false

-- /^0x[0-9a-fA-F]{40}$/
abbrev pub is_address : String → Bool
is_address s = is_address_codes (codes s)

abbrev pub require_address : Value → String → Parse String
require_address (text s) e = if is_address s then ok s else fail e
require_address _ e = fail e

abbrev pub require_addresses : Items → String → Parse (List String)
require_addresses nil e = ok []
require_addresses (cons v vs) e = do
  a ← require_address v e
  rest ← require_addresses vs e
  ok (a ∷ rest)

abbrev pub require_array : Value → String → Parse Items
require_array (array xs) e = ok xs
require_array _ e = fail e

-- value ?? default
abbrev pub or_default : Value → ℕ → Value
or_default undefined n = number (pos n) 1
or_default null n = number (pos n) 1
or_default v n = v

abbrev pub in_range : ℕ → ℕ → ℕ → ℕ → Bool
in_range low high n d = leb (low * d) n && leb n (high * d)

-- NaN passes, since it is neither below nor above a bound
abbrev pub require_range : Value → ℕ → ℕ → String → Parse Number
require_range number_nan low high e = ok nan
require_range (number (pos n) d) low high e =
    if in_range low high n d then ok (exactly (record { num = n; den = d })) else fail e
require_range _ low high e = fail e

-- String.length, in units of 16 bits
abbrev pub utf16_length : List ℕ → ℕ
utf16_length [] = 0
utf16_length (c ∷ cs) = (if ltb 65535 c then 2 else 1) + utf16_length cs

abbrev pub is_yes : Value → Bool
is_yes (boolean b) = b
is_yes _ = false

unfoldable pub parse_policy : Fields → Parse PolicyRequest
parse_policy policy = do
  cap ← require_uint (lookup policy "cap") "policy.cap"
  per_tx ← require_uint (lookup policy "perTx") "policy.perTx"
  daily ← require_uint (lookup policy "daily") "policy.daily"
  velocity ← require_uint (lookup policy "velocity") "policy.velocity"
  require (not (per_tx == 0 || cap == 0 || daily == 0)) "policy amounts must be > 0"
  require (not (ltb daily per_tx)) "policy.daily must be >= policy.perTx"
  require (not (ltb cap per_tx)) "policy.perTx must be <= policy.cap"
  items ← require_array (lookup policy "allowlist") "policy.allowlist required"
  allowlist ← require_addresses items "policy.allowlist entries must be addresses"
  deductible ←
      require_range (or_default (lookup policy "deductibleBps") 1000) 0 5000
        "policy.deductibleBps must be 0-5000"
  hold ←
      require_range (or_default (lookup policy "holdWindowSec") 120) 30 3600
        "policy.holdWindowSec must be 30-3600"
  ok (record {
    cap = cap;
    per_tx = per_tx;
    daily = daily;
    velocity = velocity;
    allowlist = allowlist;
    deductible_bps = some deductible;
    hold_window_sec = some hold;
  })

unfoldable pub parse_coverage_request : Value → Parse CoverageRequest
unfolding parse_policy
parse_coverage_request input = do
  body ← require_object input "body must be an object"
  wallet ← require_string (lookup body "agentWallet") "agentWallet"
  require (is_address wallet) "agentWallet must be a 0x-prefixed 20-byte address"
  platform ← require_string (lookup body "platform") "platform"
  require (not (utf16_length (codes platform) == 0 || ltb 64 (utf16_length (codes platform))))
      "platform must be 1-64 chars"
  fields ← require_object (lookup body "policy") "policy required"
  policy ← parse_policy fields
  ok (record {
    agent_wallet = wallet;
    policy = policy;
    platform = platform;
    watch_only = some (is_yes (lookup body "watchOnly"));
  })
