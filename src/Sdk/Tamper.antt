-- ===== src/Sdk/Tamper.antt =====
-- Tampering with the chain of packages/sdk/src/index.ts: what a verified chain's head fixes.
use repayd.Common.{
  Chars, ℕ, ◌≡◌, ◌≢◌, ◌⊎◌, sym, ◌∙◌, inl, inr, true, List, [], ◌∷◌, arith, codes_eq, codes_eq_sound,
  Bool-cases, codes_eq_refl, length,
}
use repayd.Sdk.Noble.{Noble}
use repayd.Sdk.Chain.{
  Origin, ChainEntry, genesis_head, last_digest, head, digest_of, verify_from, verify_chain,
}

-- the fields of a link that its digest is computed from
abbrev pub SameFields : ChainEntry → ChainEntry → Type 0
SameFields x y =
    (x.prev ≡ y.prev)
    × (x.origin ≡ y.origin)
    × (x.owner_signed ≡ y.owner_signed)
    × (x.timestamp ≡ y.timestamp)
    × (x.instruction_hash ≡ y.instruction_hash)

-- pairwise the same fields and digests
abbrev pub SameLinks : List ChainEntry → List ChainEntry → Type 0
SameLinks [] [] = Unit
SameLinks (x ∷ xs) (y ∷ ys) = SameFields x y × (x.digest ≡ y.digest) × SameLinks xs ys
SameLinks _ _ = ⊥

codes_decide : (xs ys : List ℕ) → (xs ≡ ys) ⊎ (xs ≢ ys)
codes_decide xs ys = elim (Bool-cases (codes_eq xs ys)) [
  | inl same ↦ inl (codes_eq_sound xs ys same)
  | inr other ↦ inr (λ e. absurd (ground (arith, codes_eq_refl xs)))
]

origin_decide : (x y : Origin) → (x ≡ y) ⊎ (x ≢ y)
origin_decide x y = ground arith

fields_decide : (x y : ChainEntry) → SameFields x y ⊎ ¬ SameFields x y
fields_decide x y = ground (
  arith,
  codes_decide x.prev y.prev,
  origin_decide x.origin y.origin,
  codes_decide x.instruction_hash y.instruction_hash,
)

module _ ⦃noble : Noble⦄ where
  -- at some position the two lists have links with other fields and one digest
  abbrev pub CollideIn : List ChainEntry → List ChainEntry → Type 0
  CollideIn [] ys = ⊥
  CollideIn (x ∷ xs) [] = ⊥
  CollideIn (x ∷ xs) (y ∷ ys) = ((¬ SameFields x y) × (digest_of x ≡ digest_of y)) ⊎ CollideIn xs ys

  verify_from-cons :
      (p : Chars) (x : ChainEntry) (xs : List ChainEntry)
      → verify_from p (x ∷ xs) ≡ true
      → (p ≡ x.prev) × (digest_of x ≡ x.digest) × (verify_from x.digest xs ≡ true)
  unfolding verify_from
  verify_from-cons p x xs h =
      ground (arith, codes_eq_sound x.prev p, codes_eq_sound (digest_of x) x.digest)

  -- The last digest of two verified runs of links of one length fixes the links and where they start.
  verify_from-fixed :
      (p q : Chars) (xs ys : List ChainEntry)
      → verify_from p xs ≡ true
      → verify_from q ys ≡ true
      → length xs ≡ length ys
      → last_digest p xs ≡ last_digest q ys
      → ((p ≡ q) × SameLinks xs ys) ⊎ CollideIn xs ys
  unfolding verify_from
  verify_from-fixed p q [] [] hx hy n d = inl (d, tt)
  verify_from-fixed p q [] (y ∷ ys) hx hy n d = absurd (omega arith)
  verify_from-fixed p q (x ∷ xs) [] hx hy n d = absurd (omega arith)
  verify_from-fixed p q (x ∷ xs) (y ∷ ys) hx hy n d =
      let (px, dx, vx) = verify_from-cons p x xs hx in
      let (qy, dy, vy) = verify_from-cons q y ys hy in
      elim (verify_from-fixed x.digest y.digest xs ys vx vy (omega arith) d) [
        | inr collision ↦ inr (inr collision)
        | inl (same_digest, same_links) ↦ elim (fields_decide x y) [
          | inr other ↦ inr (inl (other, dx ∙ same_digest ∙ sym dy))
          | inl fields ↦ inl (px ∙ fields.0 ∙ sym qy, (fields, same_digest, same_links))
        ]
      ]

  -- Two verified chains of one length and one head have the same links, field by field and digest by
  -- digest, or else at some position the two chains have links with other fields to which
  -- computeEntryDigest gives one digest.
  pub verify_chain-fixed :
      (xs ys : List ChainEntry)
      → verify_chain xs ≡ true
      → verify_chain ys ≡ true
      → length xs ≡ length ys
      → head xs ≡ head ys
      → SameLinks xs ys ⊎ CollideIn xs ys
  unfolding verify_chain
  verify_chain-fixed xs ys hx hy n d =
      elim (verify_from-fixed genesis_head genesis_head xs ys hx hy n d) [
        | inr collision ↦ inr collision
        | inl (_, links) ↦ inl links
      ]
