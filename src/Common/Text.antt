-- ===== src/Common/Text.antt =====
-- Texts, and hex addresses, which the sources compare without regard to case.
use Prim.Native.Nat.{ℕ, ◌+◌}
use Prim.Native.Char.{code}
use Prim.Native.String.{String}
use mathlib.Core.Path.{◌≡◌, refl}
use mathlib.Core.Bool.{Bool, true, false, ◌&&◌}
use mathlib.Core.List.{List, [], ◌∷◌, map}
use native.Mathlib.Omega.{arith}
use repayd.Common.Tests.{leb, ◌==◌, if◌then◌else◌}
pub use text.Mathlib.Text.{◌==◌ as str_eq}
pub use text.Mathlib.TextEquality.{eq_iff as str_eq_iff}

-- The code points of a text.
abbrev pub codes : String → List ℕ
codes String.[] = []
codes (String.◌∷◌ c s) = code c ∷ codes s

-- String.toLowerCase on ASCII letters, the only letters of a hex address.
unfoldable pub to_lower : ℕ → ℕ
to_lower c = if leb b'A' c && leb c b'Z' then c + 32 else c

unfoldable pub codes_eq : List ℕ → List ℕ → Bool
codes_eq [] [] = true
codes_eq (x ∷ xs) (y ∷ ys) = x == y && codes_eq xs ys
codes_eq _ _ = false

unfoldable pub same_address : String → String → Bool
unfolding to_lower codes_eq
same_address a b = codes_eq (map to_lower (codes a)) (map to_lower (codes b))

pub codes_eq_refl : (xs : List ℕ) → codes_eq xs xs ≡ true
unfolding codes_eq
codes_eq_refl [] = ground arith
codes_eq_refl (x ∷ xs) = ground (arith, codes_eq_refl xs)

pub same_address_refl : (a : String) → same_address a a ≡ true
unfolding same_address
same_address_refl a = codes_eq_refl (map to_lower (codes a))

pub codes_eq_sound : (xs ys : List ℕ) → codes_eq xs ys ≡ true → xs ≡ ys
unfolding codes_eq
codes_eq_sound [] [] h = refl
codes_eq_sound [] (y ∷ ys) h = ground arith
codes_eq_sound (x ∷ xs) [] h = ground arith
codes_eq_sound (x ∷ xs) (y ∷ ys) h = ground (arith, codes_eq_sound xs ys)

pub str_eq_sound : (a b : String) → str_eq a b ≡ true → a ≡ b
str_eq_sound a b = (str_eq_iff a b).0

pub str_eq_self : (a : String) → str_eq a a ≡ true
str_eq_self a = (str_eq_iff a a).1 refl
