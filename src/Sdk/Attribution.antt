-- ===== src/Sdk/Attribution.antt =====
-- What alibiFor of packages/sdk/src/index.ts answers on a chain of commits, from the calls themselves.
use mathlib.Core.Option.{some-injective}
use mathlib.Core.Path.{subst}
use repayd.Common.{
  Chars, ℕ, ◌≡◌, refl, Bool, true, false, ◌&&◌, ◌||◌, Option, none, some, List, [], ◌∷◌, ◌++◌,
  arith, any, find, keep, All, codes_eq, Bool-cases, inl, inr,
}
use repayd.Sdk.Noble.{Noble}
use repayd.Sdk.Hex.{keccak_utf8, slice_2}
use repayd.Sdk.Chain.{ChainEntry, prepare, commit, sign_digest, is_owner_console}
use repayd.Sdk.Sequence.{Call, commit_call, commit_all}
use repayd.Sdk.Alibi.{
  Answer, signature_hex, has_digest, has_text, verdict_for, attribute, alibi_for, IsGenuine,
  verdict_for-IsGenuine, attribute-IsGenuine,
}

abbrev pub has_owner_text : Chars → ChainEntry → Bool
has_owner_text h e = has_text h e && e.owner_signed

-- a link of that digest is what it is marked as; a text is the owner's if any of its links is
abbrev pub attribution : List ChainEntry → Chars → Answer
attribution chain h = elim (find (has_digest h) chain) [
  | some e ↦ record { found = true; owner_signed = e.owner_signed }
  | none ↦ record { found = any (has_text h) chain; owner_signed = any (has_owner_text h) chain }
]

module _ {ℓ} {A : Type ℓ} where
  any-append : (p : A → Bool) (xs ys : List A) → any p (xs ++ ys) ≡ (any p xs || any p ys)
  unfolding any
  any-append p [] ys = refl
  any-append p (x ∷ xs) ys = ground (arith, any-append p xs ys)

module _ {ℓ κ} {A : Type ℓ} where
  All-append : (P : A → Type κ) (xs : List A) (x : A) → All P xs → P x → All P (xs ++ (x ∷ []))
  All-append P [] x hs h = (h, tt)
  All-append P (y ∷ ys) x (h', hs) h = (h', All-append P ys x hs h)

  All-find :
      (p : A → Bool) (P : A → Type κ) (xs : List A) (x : A) → find p xs ≡ some x → All P xs → P x
  unfolding find
  All-find p P [] x found hs = ground arith
  All-find p P (y ∷ ys) x found (h, hs) = elim (Bool-cases (p y)) [
    | inl holds ↦ subst P (some-injective _ _ (ground arith)) h
    | inr fails ↦ All-find p P ys x (ground arith) hs
  ]

or_single : (p q r : Bool) → ((p || (q || false)) || r) ≡ (p || (q || r))
or_single p q r = ground arith

any-keep :
    (h : Chars) (xs : List ChainEntry)
    → any (λ x. x.owner_signed) (keep (has_text h) xs) ≡ any (has_owner_text h) xs
unfolding any keep
any-keep h [] = refl
any-keep h (x ∷ xs) = ground (arith, any-keep h xs)

module _ ⦃noble : Noble⦄ (public_key : List ℕ) where
  -- The entries that share a text are attributed as the chain says.
  attribute-keep :
      (h : Chars) (chain : List ChainEntry)
      → All (IsGenuine public_key) chain
      → attribute public_key (keep (has_text h) chain)
        ≡ record { found = any (has_text h) chain; owner_signed = any (has_owner_text h) chain }
  unfolding attribute any keep
  attribute-keep h [] g = refl
  attribute-keep h (e ∷ es) (g, gs) = elim (Bool-cases (has_text h e)) [
    | inl same ↦
        rw (same, attribute-IsGenuine public_key e (keep (has_text h) es) g, any-keep h es) refl
    | inr other ↦ rw (other) (attribute-keep h es gs)
  ]

  pub alibi_for-IsGenuine :
      (chain : List ChainEntry) (h : Chars)
      → All (IsGenuine public_key) chain
      → alibi_for public_key chain h ≡ attribution chain h
  unfolding alibi_for
  alibi_for-IsGenuine chain h g = go (find (has_digest h) chain) refl
    where
      go :
          (o : Option ChainEntry)
          → find (has_digest h) chain ≡ o
          → elim o [
            | some e ↦ verdict_for public_key e
            | none ↦ attribute public_key (keep (has_text h) chain)
          ]
            ≡ elim o [
              | some e ↦ record { found = true; owner_signed = e.owner_signed }
              | none ↦ record {
                found = any (has_text h) chain;
                owner_signed = any (has_owner_text h) chain;
              }
            ]
      go none missing = attribute-keep h chain g
      go (some e) found =
          verdict_for-IsGenuine public_key e
            (All-find (has_digest h) (IsGenuine public_key) chain e found g)

module _ ⦃noble : Noble⦄ (key : List ℕ) where
  sign_digest-verifies :
      (b : Bool) (digest : Chars)
      → b ≡ true
      → noble.verify
          (noble.hex_to_bytes (signature_hex (sign_digest key b digest)))
          (noble.hex_to_bytes (slice_2 digest))
          (noble.get_public_key key)
        ≡ true
  unfolding slice_2
  sign_digest-verifies true digest h = noble.verify-sign (noble.hex_to_bytes (slice_2 digest)) key
  sign_digest-verifies false digest h = ground arith

  commit-IsGenuine :
      (chain : List ChainEntry) (c : Call)
      → All (IsGenuine (noble.get_public_key key)) chain
      → All (IsGenuine (noble.get_public_key key)) (commit_call key chain c)
  unfolding commit prepare
  commit-IsGenuine chain c g =
      All-append (IsGenuine (noble.get_public_key key)) chain _ g
        (sign_digest-verifies (is_owner_console c.origin) _)

  commit_all-IsGenuine :
      (chain : List ChainEntry) (calls : List Call)
      → All (IsGenuine (noble.get_public_key key)) chain
      → All (IsGenuine (noble.get_public_key key)) (commit_all key chain calls)
  commit_all-IsGenuine chain [] g = g
  commit_all-IsGenuine chain (c ∷ cs) g =
      commit_all-IsGenuine (commit_call key chain c) cs (commit-IsGenuine chain c g)

  -- On the chain of any calls of commit, alibiFor answers a digest by the mark of its link, and any
  -- other hash by its text: found if some link has that text, and the owner's as soon as one of these
  -- links is, so that text committed both ways is never external.
  pub alibi_for-commit_all :
      (calls : List Call) (h : Chars)
      → let chain = commit_all key [] calls in
        alibi_for (noble.get_public_key key) chain h ≡ attribution chain h
  alibi_for-commit_all calls h =
      alibi_for-IsGenuine (noble.get_public_key key) (commit_all key [] calls) h
        (commit_all-IsGenuine [] calls tt)

  -- the calls that said the text of a hash
  abbrev pub says : Chars → Call → Bool
  says h c = codes_eq (keccak_utf8 c.instruction) h

  abbrev pub owner_says : Chars → Call → Bool
  owner_says h c = says h c && is_owner_console c.origin

  any-commit_all :
      (h : Chars) (chain : List ChainEntry) (calls : List Call)
      → any (has_owner_text h) (commit_all key chain calls)
        ≡ (any (has_owner_text h) chain || any (owner_says h) calls)
  unfolding any commit prepare
  any-commit_all h chain [] = ground arith
  any-commit_all h chain (c ∷ cs) =
      rw (any-commit_all h (commit_call key chain c) cs, any-append (has_owner_text h) chain _)
        (or_single (any (has_owner_text h) chain) (owner_says h c) (any (owner_says h) cs))

  -- On the chain of any calls of commit, a hash that is no link's digest is answered as the owner's
  -- exactly when the owner's console gave an instruction of that hash in one of the calls.
  pub owner_signed-commit_all :
      (calls : List Call) (h : Chars)
      → find (has_digest h) (commit_all key [] calls) ≡ none
      → (alibi_for (noble.get_public_key key) (commit_all key [] calls) h).owner_signed
        ≡ any (owner_says h) calls
  unfolding any
  owner_signed-commit_all calls h missing =
      rw (alibi_for-commit_all calls h, attribution, missing) (any-commit_all h [] calls)
