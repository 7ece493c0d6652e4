-- ===== src/Sdk/Digits.antt =====
-- toHex32 of packages/sdk/src/index.ts on numbers.
use repayd.Common.{ℕ, ◌≡◌, ◌∙◌, arith, digits, pad_start, value, value-zeros, value-digits}
use repayd.Sdk.Hex.{number_to_hex32}

-- The word that a number is encoded as reads back, in base 16, as the number, so that no two
-- timestamps share one.
pub value-number_to_hex32 : (n : ℕ) → value 16 0 (number_to_hex32 n) ≡ n
unfolding number_to_hex32 pad_start
value-number_to_hex32 n =
    value-zeros 16 _ (digits 16 n n) ∙ value-digits 16 n n (omega arith) (omega arith) (omega arith)
