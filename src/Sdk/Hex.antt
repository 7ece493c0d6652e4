-- ===== src/Sdk/Hex.antt =====
-- The hash helpers of packages/sdk/src/index.ts: what is hashed for a link of the chain.
use repayd.Common.{
  Chars, digits, pad_start, pad_end, ℕ, ◌%◌, String, true, false, ◌&&◌, ◌||◌, List, [], ◌∷◌, ◌++◌,
  ◌==◌, if◌then◌else◌, length,
}
use repayd.Sdk.Noble.{Noble}

-- toHex32 of a number
unfoldable pub number_to_hex32 : ℕ → Chars
unfolding pad_start digits
number_to_hex32 n = pad_start 64 (digits 16 n n)

unfoldable pub bytes_as_hex : List ℕ → Chars
unfolding pad_start digits
bytes_as_hex [] = []
bytes_as_hex (b ∷ bs) = pad_start 2 (digits 16 b b) ++ bytes_as_hex bs

-- replace(/0x/gi, "")
unfoldable pub strip_0x : Chars → Chars
strip_0x [] = []
strip_0x (a ∷ []) = a ∷ []
strip_0x (a ∷ b ∷ rest) = elim ((a == b'0') && (b == b'x' || b == b'X')) [
  | true ↦ strip_0x rest
  | false ↦ a ∷ strip_0x (b ∷ rest)
]

unfoldable pub even_length : Chars → Chars
even_length bare = if length bare % 2 == 0 then bare else b'0' ∷ bare

abbrev pub prefix_0x : Chars → Chars
prefix_0x s = b'0' ∷ b'x' ∷ s

-- slice(2)
unfoldable pub slice_2 : Chars → Chars
slice_2 (_ ∷ _ ∷ s) = s
slice_2 _ = []

module _ ⦃noble : Noble⦄ where
  -- toHex32 of an origin
  unfoldable pub text_to_hex32 : String → Chars
  unfolding pad_end bytes_as_hex
  text_to_hex32 s = pad_end 64 (bytes_as_hex (noble.utf8 s))

  unfoldable pub keccak_utf8 : String → Chars
  keccak_utf8 text = prefix_0x (noble.bytes_to_hex (noble.keccak_256 (noble.utf8 text)))

  unfoldable pub keccak_packed_hex : Chars → Chars
  unfolding even_length strip_0x
  keccak_packed_hex hex =
      prefix_0x
        (noble.bytes_to_hex (noble.keccak_256 (noble.hex_to_bytes (even_length (strip_0x hex)))))
