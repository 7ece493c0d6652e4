-- ===== src/Sdk/Sequence.antt =====
-- Sequences of commits of packages/sdk/src/index.ts, one after the other or overlapping at the await.
use repayd.Common.{
  Chars, ℕ, ◌≡◌, refl, String, Bool, true, false, ◌&&◌, List, [], ◌∷◌, ◌++◌, arith, codes_eq,
  codes_eq_refl,
}
use repayd.Sdk.Noble.{Noble}
use repayd.Sdk.Chain.{
  Origin, ChainEntry, genesis_head, last_digest, head, Cosign, digest_of, append, prepare, commit,
  verify_from, verify_chain,
}

-- one call of commit, with the co-signer's answer to it
pub record Call : Type 0 where
  pub instruction : String
  pub origin : Origin
  pub timestamp : ℕ
  pub cosign : Cosign

module _ ⦃noble : Noble⦄ where
  abbrev pub commit_call : List ℕ → List ChainEntry → Call → List ChainEntry
  commit_call key chain c = commit key chain c.instruction c.origin c.timestamp c.cosign

  -- each call awaited before the next
  abbrev pub commit_all : List ℕ → List ChainEntry → List Call → List ChainEntry
  commit_all key chain [] = chain
  commit_all key chain (c ∷ cs) = commit_all key (commit_call key chain c) cs

  -- two calls that both start before either is finished
  abbrev pub commit_overlapping : List ℕ → List ChainEntry → Call → Call → List ChainEntry
  commit_overlapping key chain a b =
      append b.cosign (prepare key chain b.instruction b.origin b.timestamp)
        (append a.cosign (prepare key chain a.instruction a.origin a.timestamp) chain)

  pub verify_from-append :
      (p : Chars) (chain : List ChainEntry) (e : ChainEntry)
      → verify_from p (chain ++ (e ∷ [])) ≡ (
          verify_from p chain
          && codes_eq e.prev (last_digest p chain)
          && codes_eq (digest_of e) e.digest)
  unfolding verify_from
  verify_from-append p [] e = ground arith
  verify_from-append p (x ∷ xs) e = ground (arith, verify_from-append x.digest xs e)

  last_digest-append :
      (p : Chars) (chain : List ChainEntry) (e : ChainEntry)
      → last_digest p (chain ++ (e ∷ [])) ≡ e.digest
  last_digest-append p [] e = refl
  last_digest-append p (x ∷ xs) e = last_digest-append x.digest xs e

  and-true : (b : Bool) → (b && true && true) ≡ b
  and-true true = refl
  and-true false = refl

  -- A link whose predecessor is not the last of the chain.
  verify_from-dangling :
      (p : Chars) (chain : List ChainEntry) (e : ChainEntry)
      → codes_eq e.prev (last_digest p chain) ≡ false
      → verify_from p (chain ++ (e ∷ [])) ≡ false
  verify_from-dangling p chain e h = rw (verify_from-append p chain e, h) (and-false _ _)
    where
      and-false : (b c : Bool) → (b && false && c) ≡ false
      and-false b c = ground arith

  verify_chain-commit :
      (key : List ℕ) (chain : List ChainEntry) (c : Call)
      → verify_chain (commit_call key chain c) ≡ verify_chain chain
  unfolding verify_chain commit prepare
  verify_chain-commit key chain c =
      rw (verify_from-append genesis_head chain _, codes_eq_refl, codes_eq_refl) (and-true _)

  -- A chain stays as verifiable as it was whatever instructions are committed to it one after the
  -- other, and with whatever answers of the co-signer.
  pub verify_chain-commit_all :
      (key : List ℕ) (chain : List ChainEntry) (calls : List Call)
      → verify_chain (commit_all key chain calls) ≡ verify_chain chain
  verify_chain-commit_all key chain [] = refl
  verify_chain-commit_all key chain (c ∷ cs) =
      rw (verify_chain-commit_all key (commit_call key chain c) cs)
        (verify_chain-commit key chain c)

  -- When two calls of commit overlap, both starting from the head of one chain, the chain that results
  -- does not verify, unless the digest of the link pushed first is that head itself.
  pub verify_chain-commit_overlapping :
      (key : List ℕ) (chain : List ChainEntry) (a b : Call)
      → codes_eq (head chain) (head (commit_call key chain a)) ≡ false
      → verify_chain (commit_overlapping key chain a b) ≡ false
  unfolding verify_chain commit prepare
  verify_chain-commit_overlapping key chain a b h = verify_from-dangling genesis_head _ _ h
