-- ===== src/Sdk/Chain.antt =====
-- The Repayd class of packages/sdk/src/index.ts: the chain, its head, commit and verifyChain.
use repayd.Common.{
  Chars, ℕ, String, Bool, true, false, not, Option, none, some, List, [], ◌∷◌, ◌++◌, if◌then◌else◌,
  codes_eq,
}
use repayd.Sdk.Noble.{Noble}
use repayd.Sdk.Hex.{number_to_hex32, text_to_hex32, keccak_utf8, keccak_packed_hex, slice_2}

pub data Origin : Type 0 where
  owner_console job web tool : Origin

abbrev pub origin_text : Origin → String
origin_text owner_console = "owner-console"
origin_text job = "job"
origin_text web = "web"
origin_text tool = "tool"

pub record ChainEntry : Type 0 where
  pub digest : Chars
  pub instruction_hash : Chars
  pub origin : Origin
  pub owner_signed : Bool
  pub timestamp : ℕ
  pub tee_cosigned : Bool
  pub prev : Chars
  pub signature : Option Chars

abbrev pub genesis_head : Chars
genesis_head = b'0' ∷ b'x' ∷ b'0' ∷ []

-- the digest of the last of the entries, after a given one
abbrev pub last_digest : Chars → List ChainEntry → Chars
last_digest before [] = before
last_digest before (e ∷ es) = last_digest e.digest es

abbrev pub head : List ChainEntry → Chars
head chain = last_digest genesis_head chain

abbrev pub is_owner_console : Origin → Bool
is_owner_console owner_console = true
is_owner_console _ = false

-- the request for a co-signature: no endpoint is attached, none answers, or a response came
pub data Cosign : Type 0 where
  not_attached unreachable : Cosign
  response : Bool → Cosign

abbrev pub request_tee_cosign : Cosign → Bool
request_tee_cosign (response ok) = ok
request_tee_cosign _ = false

module _ ⦃noble : Noble⦄ where
  -- concatHex of the fields of a link
  abbrev pub concat_fields : Chars → Origin → Bool → ℕ → Chars → Chars
  concat_fields prev origin owner_signed timestamp instruction_hash =
      prev
      ++ text_to_hex32 (origin_text origin)
      ++ (if owner_signed then b'0' ∷ b'1' ∷ [] else b'0' ∷ b'0' ∷ [])
      ++ number_to_hex32 timestamp
      ++ instruction_hash

  unfoldable pub compute_entry_digest : Chars → Origin → Bool → ℕ → Chars → Chars
  unfolding keccak_packed_hex text_to_hex32 number_to_hex32
  compute_entry_digest prev origin owner_signed timestamp instruction_hash =
      keccak_packed_hex (concat_fields prev origin owner_signed timestamp instruction_hash)

  abbrev pub sign_digest : List ℕ → Bool → Chars → Option Chars
  sign_digest key true digest =
      some (b'0' ∷ b'x' ∷ noble.sign (noble.hex_to_bytes (slice_2 digest)) key)
  sign_digest key false digest = none

  -- commit up to its await: the link, before the answer of the co-signer
  unfoldable pub prepare : List ℕ → List ChainEntry → String → Origin → ℕ → ChainEntry
  unfolding compute_entry_digest keccak_utf8 slice_2
  prepare key chain instruction origin timestamp =
      let instruction_hash = keccak_utf8 instruction in
      let owner_signed = is_owner_console origin in
      let prev = head chain in
      let digest = compute_entry_digest prev origin owner_signed timestamp instruction_hash in
      record {
        digest = digest;
        instruction_hash = instruction_hash;
        origin = origin;
        owner_signed = owner_signed;
        timestamp = timestamp;
        tee_cosigned = false;
        prev = prev;
        signature = sign_digest key owner_signed digest;
      }

  -- commit after its await: the chain that the link has been pushed on
  abbrev pub append : Cosign → ChainEntry → List ChainEntry → List ChainEntry
  append cosign link chain =
      chain ++ (record link { tee_cosigned = request_tee_cosign cosign } ∷ [])

  unfoldable pub commit : List ℕ → List ChainEntry → String → Origin → ℕ → Cosign → List ChainEntry
  unfolding prepare
  commit key chain instruction origin timestamp cosign =
      append cosign (prepare key chain instruction origin timestamp) chain

  abbrev pub digest_of : ChainEntry → Chars
  digest_of e = compute_entry_digest e.prev e.origin e.owner_signed e.timestamp e.instruction_hash

  unfoldable pub verify_from : Chars → List ChainEntry → Bool
  unfolding compute_entry_digest
  verify_from expected_prev [] = true
  verify_from expected_prev (e ∷ es) =
      if not (codes_eq e.prev expected_prev)
      then false
      else if not (codes_eq (digest_of e) e.digest)
      then false
      else verify_from e.digest es

  unfoldable pub verify_chain : List ChainEntry → Bool
  unfolding verify_from
  verify_chain chain = verify_from genesis_head chain
