-- ===== src/Coverage/Ids.antt =====
-- The policy ids of packages/api/src/store.ts: a counter in base 36.
use repayd.Common.{
  ℕ, ◌≡◌, ◌∙◌, sym, ap, true, ◌∷◌, arith, Chars, digits, pad_start, value, value-zeros,
  value-digits, codes_eq, codes_eq_sound,
}
use repayd.Coverage.Store.{policy_id_of}

-- the number of an id, after "bwk_"
abbrev policy_number : Chars → ℕ
policy_number (_ ∷ _ ∷ _ ∷ _ ∷ s) = value 36 0 s
policy_number _ = 0

policy_number-policy_id_of : (n : ℕ) → policy_number (policy_id_of n) ≡ n
unfolding policy_id_of pad_start
policy_number-policy_id_of n =
    value-zeros 36 _ (digits 36 n n) ∙ value-digits 36 n n (omega arith) (omega arith) (omega arith)

-- Two counters never give one id.
pub policy_id_of_injective : (m n : ℕ) → codes_eq (policy_id_of m) (policy_id_of n) ≡ true → m ≡ n
policy_id_of_injective m n h =
    sym (policy_number-policy_id_of m)
    ∙ ap policy_number (codes_eq_sound (policy_id_of m) (policy_id_of n) h)
    ∙ policy_number-policy_id_of n
