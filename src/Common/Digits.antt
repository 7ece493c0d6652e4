-- ===== src/Common/Digits.antt =====
-- Number.toString(radix) of a natural, and its padding with zeros.
use Prim.Native.Nat.{ℕ, zero, suc, ◌+◌, ◌-◌, ◌*◌, ◌/◌, ◌%◌, ◌≤◌, ◌<◌}
use mathlib.Core.Path.{◌≡◌, refl, ap, ◌∙◌}
use mathlib.Core.Bool.{Bool, true, false, ◌&&◌, ◌||◌}
use mathlib.Core.List.{List, [], ◌∷◌, ◌++◌}
use native.Mathlib.Omega.{arith}
use native.Mathlib.Nat.{div-lt_self, mod-lt, zero-mod, div-add-mod'}
use repayd.Common.Tests.{ltb, leb, ltb→lt, ltb→le, if◌then◌else◌}
use repayd.Common.Lists.{length}

-- a text as its characters' codes
abbrev pub Chars : Type 0
Chars = List ℕ

-- /^[0-9a-fA-F]$/ of a character
abbrev pub is_hex_digit : ℕ → Bool
is_hex_digit c =
    (leb b'0' c && leb c b'9') || (leb b'a' c && leb c b'f') || (leb b'A' c && leb c b'F')

unfoldable pub digit : ℕ → ℕ
digit d = if ltb d 10 then b'0' + d else b'a' + d - 10

-- the number itself is fuel enough, by value-digits
unfoldable pub digits : ℕ → ℕ → ℕ → Chars
unfolding digit
digits radix zero n = digit (n % radix) ∷ []
digits radix (suc fuel) n = elim (ltb n radix) [
  | true ↦ digit n ∷ []
  | false ↦ digits radix fuel (n / radix) ++ (digit (n % radix) ∷ [])
]

unfoldable pub zeros : ℕ → Chars
zeros zero = []
zeros (suc n) = b'0' ∷ zeros n

unfoldable pub pad_start : ℕ → Chars → Chars
unfolding zeros
pad_start n s = zeros (n - length s) ++ s

unfoldable pub pad_end : ℕ → Chars → Chars
unfolding zeros
pad_end n s = s ++ zeros (n - length s)

-- the number that digits are read as
unfoldable pub digit_value : ℕ → ℕ
digit_value c = if ltb c b'a' then c - b'0' else c - 87

unfoldable pub value : ℕ → ℕ → Chars → ℕ
unfolding digit_value
value radix n [] = n
value radix n (c ∷ cs) = value radix (n * radix + digit_value c) cs

digit_value-digit : (d : ℕ) → d < 36 → digit_value (digit d) ≡ d
unfolding digit_value digit
digit_value-digit d h = ground arith

module _ (radix : ℕ) where
  value-append :
      (n c : ℕ) (s : Chars)
      → value radix n (s ++ (c ∷ [])) ≡ value radix n s * radix + digit_value c
  unfolding value
  value-append n c [] = refl
  value-append n c (x ∷ xs) = value-append (n * radix + digit_value x) c xs

  pub value-zeros : (k : ℕ) (s : Chars) → value radix 0 (zeros k ++ s) ≡ value radix 0 s
  unfolding value zeros digit_value
  value-zeros zero s = refl
  value-zeros (suc k) s = ap (λ m. value radix m (zeros k ++ s)) (omega arith) ∙ value-zeros k s

  pub value-digits :
      (fuel n : ℕ) → 1 < radix → radix ≤ 36 → n ≤ fuel → value radix 0 (digits radix fuel n) ≡ n
  unfolding digits value
  value-digits zero n lo hi h = rw (is_zero h, zero-mod radix) (omega arith)
    where
      is_zero : n ≤ 0 → n ≡ 0
      is_zero h = omega arith
  value-digits (suc fuel) n lo hi h = go (value-digits fuel (n / radix) lo hi) (ltb n radix) refl
    where
      go :
          (n / radix ≤ fuel → value radix 0 (digits radix fuel (n / radix)) ≡ n / radix)
          → (b : Bool) → ltb n radix ≡ b
          → value radix 0 (elim b [
            | true ↦ digit n ∷ []
            | false ↦ digits radix fuel (n / radix) ++ (digit (n % radix) ∷ [])
          ])
            ≡ n
      go rest true small =
          omega (arith, digit_value-digit n (omega (arith, hi, ltb→lt n radix small)))
      go rest false large =
          value-append 0 (digit (n % radix)) (digits radix fuel (n / radix))
          ∙ rw (rest shrinks, digit_value-digit (n % radix) in_range) (div-add-mod' n radix)
        where
          shrinks : n / radix ≤ fuel
          shrinks = omega (
            arith,
            div-lt_self {n = n} {k = radix} (omega (arith, lo, ltb→le n radix large)) lo,
            h,
          )

          in_range : n % radix < 36
          in_range = omega (arith, mod-lt n {m = radix} (omega (arith, lo)), hi)
