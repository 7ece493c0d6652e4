-- ===== src/Sdk/Alibi.antt =====
-- alibiFor of packages/sdk/src/index.ts: its lookups, and what it answers on a committed chain.
use repayd.Common.{
  Chars, ℕ, ltb, Bool-cases, inl, inr, ◌≡◌, refl, Bool, true, false, ◌&&◌, ◌||◌, not, Option, none,
  some, List, [], ◌∷◌, arith, length, any, find, keep, codes_eq, if◌then◌else◌,
}
use repayd.Sdk.Noble.{Noble}
use repayd.Sdk.Hex.{slice_2}
use repayd.Sdk.Chain.{ChainEntry}

pub record Answer : Type 0 where
  pub found : Bool
  pub owner_signed : Bool

abbrev pub differ : Bool → Bool → Bool
differ true b = not b
differ false b = b

abbrev pub signature_hex : Option Chars → Chars
signature_hex none = []
signature_hex (some s) = slice_2 s

abbrev pub has_digest : Chars → ChainEntry → Bool
has_digest h e = codes_eq e.digest h

abbrev pub has_text : Chars → ChainEntry → Bool
has_text h e = codes_eq e.instruction_hash h

module _ ⦃noble : Noble⦄ where
  unfoldable pub verdict_for : List ℕ → ChainEntry → Answer
  unfolding slice_2
  verdict_for public_key entry =
      if not entry.owner_signed then record { found = true; owner_signed = false } else record {
        found = true;
        owner_signed =
            noble.verify (noble.hex_to_bytes (signature_hex entry.signature))
              (noble.hex_to_bytes (slice_2 entry.digest)) public_key;
      }

  -- the lookup by the hash of a text, given the entries that share it
  unfoldable pub attribute : List ℕ → List ChainEntry → Answer
  unfolding verdict_for
  attribute public_key [] = record { found = false; owner_signed = false }
  attribute public_key (m ∷ ms) =
      if ltb 1 (length (m ∷ ms)) && any (λ e. differ e.owner_signed m.owner_signed) (m ∷ ms)
      then record { found = true; owner_signed = true }
      else verdict_for public_key m

  unfoldable pub alibi_for : List ℕ → List ChainEntry → Chars → Answer
  unfolding verdict_for attribute
  alibi_for public_key chain h = elim (find (has_digest h) chain) [
    | some e ↦ verdict_for public_key e
    | none ↦ attribute public_key (keep (has_text h) chain)
  ]

  -- an entry marked as signed carries a signature that verifies
  abbrev pub IsGenuine : List ℕ → ChainEntry → Type 0
  IsGenuine public_key e =
      e.owner_signed ≡ true
      → noble.verify (noble.hex_to_bytes (signature_hex e.signature))
          (noble.hex_to_bytes (slice_2 e.digest)) public_key
        ≡ true

  pub verdict_for-IsGenuine :
      (public_key : List ℕ) (e : ChainEntry)
      → IsGenuine public_key e
      → verdict_for public_key e ≡ record { found = true; owner_signed = e.owner_signed }
  unfolding verdict_for
  verdict_for-IsGenuine public_key e h = ground arith

  any-differ :
      (b : Bool) (ms : List ChainEntry)
      → any (λ e. differ e.owner_signed b) ms ≡ true
      → (b || any (λ e. e.owner_signed) ms) ≡ true
  unfolding any
  any-differ b [] h = ground arith
  any-differ true (m ∷ ms) h = refl
  any-differ false (m ∷ ms) h = ground (arith, any-differ false ms)

  any_same :
      (b : Bool) (ms : List ChainEntry)
      → any (λ e. differ e.owner_signed b) ms ≡ false
      → (b || any (λ e. e.owner_signed) ms) ≡ b
  unfolding any
  any_same b [] h = ground arith
  any_same true (m ∷ ms) h = refl
  any_same false (m ∷ ms) h = ground (arith, any_same false ms)

  pub attribute-IsGenuine :
      (public_key : List ℕ) (m : ChainEntry) (ms : List ChainEntry)
      → IsGenuine public_key m
      → attribute public_key (m ∷ ms)
        ≡ record { found = true; owner_signed = m.owner_signed || any (λ e. e.owner_signed) ms }
  unfolding attribute any verdict_for
  attribute-IsGenuine public_key m [] h = ground (arith, verdict_for-IsGenuine public_key m h)
  attribute-IsGenuine public_key m (n ∷ ns) h =
      elim (Bool-cases (any (λ e. differ e.owner_signed m.owner_signed) (n ∷ ns))) [
        | inl found ↦ ground (arith, any-differ m.owner_signed (n ∷ ns) found)
        | inr same ↦
            ground
              (arith, any_same m.owner_signed (n ∷ ns) same, verdict_for-IsGenuine public_key m h)
      ]
