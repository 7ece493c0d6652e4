-- ===== src/Common/Trim.antt =====
-- String.trim, on the units of a text.
use Prim.Native.Nat.{ℕ}
use mathlib.Core.Bool.{Bool, true, false, ◌&&◌, ◌||◌}
use mathlib.Core.List.{[], ◌∷◌}
use repayd.Common.Tests.{leb, ◌==◌, if◌then◌else◌}
use repayd.Common.Digits.{Chars}

-- the white space that String.trim removes
abbrev pub is_space : ℕ → Bool
is_space c =
    (leb 9 c && leb c 13)
    || c == 32
    || c == 160
    || c == 5760
    || (leb 8192 c && leb c 8202)
    || c == 8232
    || c == 8233
    || c == 8239
    || c == 8287
    || c == 12288
    || c == 65279

abbrev pub trim_start : Chars → Chars
trim_start [] = []
trim_start (c ∷ cs) = if is_space c then trim_start cs else c ∷ cs

abbrev pub is_empty : Chars → Bool
is_empty [] = true
is_empty (c ∷ cs) = false

abbrev pub trim_end : Chars → Chars
trim_end [] = []
trim_end (c ∷ cs) = let rest = trim_end cs in if is_space c && is_empty rest then [] else c ∷ rest
