-- ===== src/Sdk/Store.antt =====
-- JsonChainStore and the Repayd constructor of packages/sdk/src/index.ts: the chain across restarts.
use mathlib.Core.Path.{subst}
use repayd.Common.{
  every, is_hex_digit, Chars, sym, ℕ, ◌≡◌, refl, Bool, true, false, ◌&&◌, ◌||◌, not, Option, none,
  some, List, [], ◌∷◌, arith, ◌==◌, length, Bool-cases, inl, inr, if◌then◌else◌,
}
use repayd.Sdk.Noble.{Noble}
use repayd.Sdk.Chain.{ChainEntry}
use repayd.Sdk.Sequence.{Call, commit_call}

-- JSON.stringify and JSON.parse of the stored object; a text that is no JSON does not parse, and an
-- object may have no array of entries
pub record Json : Type 1 where
  pub Document : Type 0
  pub stringify : List ChainEntry → Document
  pub parse : Document → Option (Option (List ChainEntry))
  pub parse-stringify :
      (entries : List ChainEntry) → parse (stringify entries) ≡ some (some entries)

pub record Config : Type 0 where
  pub session_key : Chars
  -- whether a storePath is configured
  pub has_store : Bool

pub record Repayd : Type 0 where
  pub config : Config
  pub session_key_bytes : List ℕ
  pub session_pubkey_bytes : List ℕ
  pub chain : List ChainEntry

-- replace(/^0x/i, "")
unfoldable pub drop_0x : Chars → Chars
drop_0x (a ∷ b ∷ rest) = if (a == b'0') && (b == b'x' || b == b'X') then rest else a ∷ b ∷ rest
drop_0x s = s

-- /^[0-9a-fA-F]{64}$/
abbrev pub is_key_hex : Chars → Bool
is_key_hex s = (length s == 64) && every is_hex_digit s

module _ ⦃json : Json⦄ where
  -- the file at the store's path: missing, or its text
  abbrev pub File : Type 0
  File = Option json.Document

  unfoldable pub load : Bool → File → List ChainEntry
  load false file = []
  load true none = []
  load true (some text) = elim (json.parse text) [
    | none ↦ []
    | some none ↦ []
    | some (some entries) ↦ entries
  ]

  unfoldable pub save : Bool → List ChainEntry → File → File
  save false entries file = file
  save true entries file = some (json.stringify entries)

  module _ ⦃noble : Noble⦄ where
    -- the constructor, which throws on a malformed key and on one that is no private key
    unfoldable pub construct : Config → File → Option Repayd
    unfolding load every drop_0x
    construct config file =
        let key_hex = drop_0x config.session_key in
        let key = noble.hex_to_bytes key_hex in
        if not (is_key_hex key_hex) || not (noble.is_private_key key)
        then none
        else some (record {
          config = config;
          session_key_bytes = key;
          session_pubkey_bytes = noble.get_public_key key;
          chain = load config.has_store file;
        })

    -- a call of commit, with the file that it writes
    unfoldable pub commit_saved : Call → Repayd × File → Repayd × File
    unfolding save
    commit_saved call (r, file) =
        let chain = commit_call r.session_key_bytes r.chain call in
        (record r { chain = chain }, save r.config.has_store chain file)

    unfoldable pub run : List Call → Repayd × File → Repayd × File
    run [] s = s
    run (c ∷ cs) s = run cs (commit_saved c s)

    load-stringify :
        (has_store : Bool) (entries : List ChainEntry)
        → has_store ≡ true
        → load has_store (some (json.stringify entries)) ≡ entries
    unfolding load
    load-stringify true entries h = rw (load, json.parse-stringify entries) refl
    load-stringify false entries h = ground arith

    -- What a fresh object is when the file holds another chain.
    construct-stringify :
        (config : Config) (file : File) (r : Repayd) (chain : List ChainEntry)
        → construct config file ≡ some r
        → config.has_store ≡ true
        → construct config (some (json.stringify chain)) ≡ some (record r { chain = chain })
    unfolding construct
    construct-stringify config file r chain h stored =
        elim (Bool-cases (is_key_hex (drop_0x config.session_key))) [
          | inl good ↦
              elim (Bool-cases
                (noble.is_private_key (noble.hex_to_bytes (drop_0x config.session_key)))) [
                  | inl private ↦
                      rw (good, private, load-stringify config.has_store chain stored)
                        (ground arith)
                  | inr bad ↦ absurd (ground arith)
                ]
          | inr bad ↦ absurd (ground arith)
        ]

    construct-config :
        (config : Config) (file : File) (r : Repayd)
        → construct config file ≡ some r
        → r.config ≡ config
    unfolding construct
    construct-config config file r h = ground arith

    save-stored :
        (has_store : Bool) (entries : List ChainEntry) (file : File)
        → has_store ≡ true
        → save has_store entries file ≡ some (json.stringify entries)
    unfolding save
    save-stored true entries file h = refl
    save-stored false entries file h = ground arith

    -- Once an object with a store is made, each commit leaves a file from which the constructor, given
    -- the same configuration, makes the same object again: keys, and chain with every link.
    pub construct-run :
        (calls : List Call) (config : Config) (file : File) (r : Repayd)
        → construct config file ≡ some r
        → config.has_store ≡ true
        → let s = run calls (r, file) in construct config s.1 ≡ some s.0
    unfolding run commit_saved
    construct-run [] config file r h stored = h
    construct-run (c ∷ cs) config file r h stored =
        construct-run cs config _ _
          (rw
            (save-stored r.config.has_store _ file
              (subst (λ x. x.has_store ≡ true) (sym (construct-config config file r h)) stored))
            (construct-stringify config file r _ h stored))
          stored
