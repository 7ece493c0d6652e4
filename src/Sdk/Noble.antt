-- ===== src/Sdk/Noble.antt =====
-- What packages/sdk/src/index.ts uses of the noble libraries and of the runtime: hashing, signing, and
-- the encoders of texts and bytes.
use repayd.Common.{Chars, ℕ, ◌≡◌, String, Bool, true, List}

pub record Noble : Type 0 where
  pub utf8 : String → List ℕ
  pub keccak_256 : List ℕ → List ℕ
  pub bytes_to_hex : List ℕ → Chars
  pub hex_to_bytes : Chars → List ℕ
  -- the numbers of the curve's scalars; getPublicKey throws on other keys
  pub is_private_key : List ℕ → Bool
  pub get_public_key : List ℕ → List ℕ
  -- sign is followed by toCompactHex in the source
  pub sign : List ℕ → List ℕ → Chars
  pub verify : List ℕ → List ℕ → List ℕ → Bool
  -- a signature made with a key verifies under its public key
  pub verify-sign :
      (message key : List ℕ)
      → verify (hex_to_bytes (sign message key)) message (get_public_key key) ≡ true
