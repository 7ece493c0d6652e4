-- ===== src/Erc8004/Encoding.antt =====
-- packages/sdk/src/erc8004/encoding.ts: a signed value in the registry's int128, and the sum of
-- values.
use repayd.Common.{
  ℕ, ◌+◌, ◌-◌, ◌^◌, ◌<◌, ◌≤◌, ◌≡◌, Option, none, some, List, [], ◌∷◌, ltb, leb, ℤ, pos, negsuc,
  ◌+ℤ◌, sub_ℕ, if◌then◌else◌, arith, inl, inr, Bool-cases,
}

-- none when it throws; the result is not below zero
unfoldable pub to_feedback_int128 : ℤ → Option ℕ
to_feedback_int128 (pos n) = if ltb (2 ^ 127 - 1) n then none else some n
to_feedback_int128 (negsuc n) = if leb (2 ^ 127) n then none else some (2 ^ 128 - (n + 1))

unfoldable pub from_feedback_int128 : ℕ → ℤ
from_feedback_int128 raw = if leb (2 ^ 127) raw then sub_ℕ raw (2 ^ 128) else pos raw

abbrev pub sum_from : ℤ → List ℤ → ℤ
sum_from sum [] = sum
sum_from sum (v ∷ vs) = sum_from (sum +ℤ v) vs

abbrev pub reputation_sum : List ℤ → ℤ
reputation_sum values = sum_from (pos 0) values

-- a value that an int128 can hold, and one that it cannot
abbrev pub InRange : ℤ → Type 0
InRange (pos n) = n < 2 ^ 127
InRange (negsuc n) = n < 2 ^ 127

abbrev pub OutOfRange : ℤ → Type 0
OutOfRange (pos n) = 2 ^ 127 ≤ n
OutOfRange (negsuc n) = 2 ^ 127 ≤ n

-- a throw, or a number of 128 bits that is read back as the value
abbrev pub Encodes : ℤ → Option ℕ → Type 0
Encodes v none = OutOfRange v
Encodes v (some raw) = InRange v × (raw < 2 ^ 128) × (from_feedback_int128 raw ≡ v)

-- toFeedbackInt128 throws exactly on the values that an int128 cannot hold. Any other value becomes a
-- number below 2 ^ 128, which fromFeedbackInt128 reads back as that value.
pub to_feedback_int128-Encodes : (v : ℤ) → Encodes v (to_feedback_int128 v)
unfolding to_feedback_int128 from_feedback_int128
to_feedback_int128-Encodes (pos n) = elim (Bool-cases (ltb (2 ^ 127 - 1) n)) [
  | inl e ↦ rw e (ground arith)
  | inr e ↦ rw e (ground arith, ground arith, ground arith)
]
to_feedback_int128-Encodes (negsuc n) = elim (Bool-cases (leb (2 ^ 127) n)) [
  | inl e ↦ rw e (ground arith)
  | inr e ↦ rw e (ground arith, ground arith, ground arith)
]
