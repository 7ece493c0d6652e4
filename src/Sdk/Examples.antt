-- ===== src/Sdk/Examples.antt =====
-- Tests of packages/sdk/src/index.ts with a hash and a signature that can be read.
use repayd.Common.{
  every, digits, digit, zeros, pad_start, Chars, ℕ, ◌≡◌, refl, true, false, none, some, List, [],
  ◌∷◌, ◌++◌, codes, codes_eq, codes_eq_refl, ◌⊎◌, any, find,
}
use repayd.Sdk.Noble.{Noble}
use repayd.Sdk.Hex.{strip_0x, even_length, slice_2, keccak_utf8, number_to_hex32}
use repayd.Sdk.Chain.{
  owner_console, web, response, not_attached, ChainEntry, compute_entry_digest, prepare, commit,
  verify_from, verify_chain,
}
use repayd.Sdk.Sequence.{
  Call, commit_all, commit_overlapping, verify_chain-commit_all, verify_chain-commit_overlapping,
}
use repayd.Sdk.Alibi.{alibi_for}
use repayd.Sdk.Attribution.{attribution, alibi_for-commit_all, owner_signed-commit_all}
use repayd.Sdk.Tamper.{SameLinks, CollideIn, verify_chain-fixed}
use repayd.Sdk.Store.{Json, Config, Repayd, construct, run, drop_0x, load, construct-run}

-- the bytes are their own hash, and a signature is the message and the key
instance plain : Noble
plain = record {
  utf8 = codes;
  keccak_256 = λ bytes. bytes;
  bytes_to_hex = λ bytes. bytes;
  hex_to_bytes = λ hex. hex;
  is_private_key = λ key. true;
  get_public_key = λ key. key;
  sign = λ message key. message ++ key;
  verify = λ signature message key. codes_eq signature (message ++ key);
  verify-sign = λ message key. codes_eq_refl (message ++ key);
}

-- a document is the entries themselves
instance in_memory : Json
in_memory = record {
  Document = List ChainEntry;
  stringify = λ entries. entries;
  parse = λ document. some (some document);
  parse-stringify = λ entries. refl;
}

abbrev session_key : List ℕ
session_key = 7 ∷ 9 ∷ []

abbrev by_owner : Call
by_owner = record {
  instruction = "pay";
  origin = owner_console;
  timestamp = 1700000000;
  cosign = response true;
}

abbrev by_page : Call
by_page = record {
  instruction = "pay";
  origin = web;
  timestamp = 1700000060;
  cosign = not_attached;
}

number_to_hex32_timestamp :
    slice_2 (slice_2 (number_to_hex32 1700000000))
    ≡ slice_2 (slice_2 (codes "000000000000000000000000000000000000000000000000000000006553f100"))
unfolding slice_2 number_to_hex32 pad_start digits digit zeros
number_to_hex32_timestamp = refl

strip_0x_genesis : even_length (strip_0x (codes "0x00x12")) ≡ codes "0012"
unfolding strip_0x even_length
strip_0x_genesis = refl

verify_chain-commit_all_example :
    verify_chain (commit_all session_key [] (by_owner ∷ by_page ∷ [])) ≡ verify_chain []
verify_chain-commit_all_example = verify_chain-commit_all session_key [] (by_owner ∷ by_page ∷ [])

verify_chain-commit_overlapping_example :
    verify_chain (commit_overlapping session_key [] by_owner by_page) ≡ false
unfolding commit prepare compute_entry_digest codes_eq plain
verify_chain-commit_overlapping_example =
    verify_chain-commit_overlapping session_key [] by_owner by_page refl

abbrev committed : List ChainEntry
committed = commit_all session_key [] (by_owner ∷ by_page ∷ [])

alibi_for-commit_all_example :
    alibi_for (plain.get_public_key session_key) committed (keccak_utf8 "pay")
    ≡ attribution committed (keccak_utf8 "pay")
alibi_for-commit_all_example =
    alibi_for-commit_all session_key (by_owner ∷ by_page ∷ []) (keccak_utf8 "pay")

-- the text of both calls is the owner's, though the page gave it too
ambiguous_text :
    attribution committed (keccak_utf8 "pay") ≡ record { found = true; owner_signed = true }
unfolding commit prepare compute_entry_digest codes_eq plain find any keccak_utf8
ambiguous_text = refl

owner_signed-commit_all_example :
    (alibi_for (plain.get_public_key session_key) committed (keccak_utf8 "pay")).owner_signed ≡ true
unfolding commit prepare compute_entry_digest codes_eq plain find any keccak_utf8
owner_signed-commit_all_example =
    owner_signed-commit_all session_key (by_owner ∷ by_page ∷ []) (keccak_utf8 "pay") refl

abbrev cosigned : List ChainEntry
cosigned = commit session_key [] "pay" owner_console 1700000000 (response true)

abbrev not_cosigned : List ChainEntry
not_cosigned = commit session_key [] "pay" owner_console 1700000000 not_attached

-- a co-signature is not part of what the head fixes
verify_chain-fixed_example : SameLinks cosigned not_cosigned ⊎ CollideIn cosigned not_cosigned
unfolding commit prepare verify_chain verify_from codes_eq plain compute_entry_digest
verify_chain-fixed_example = verify_chain-fixed cosigned not_cosigned refl refl refl refl

abbrev hex_key : Chars
hex_key = codes "0x00112233445566778899aabbccddeeff00112233445566778899AABBCCDDEEFF"

abbrev stored : Config
stored = record { session_key = hex_key; has_store = true }

abbrev fresh : Repayd
fresh = record {
  config = stored;
  session_key_bytes = codes "00112233445566778899aabbccddeeff00112233445566778899AABBCCDDEEFF";
  session_pubkey_bytes = codes "00112233445566778899aabbccddeeff00112233445566778899AABBCCDDEEFF";
  chain = [];
}

construct-run_example :
    let s = run (by_owner ∷ by_page ∷ []) (fresh, none) in construct stored s.1 ≡ some s.0
unfolding construct load drop_0x every plain
construct-run_example = construct-run (by_owner ∷ by_page ∷ []) stored none fresh refl refl

short_key : construct (record { session_key = codes "0x00"; has_store = false }) none ≡ none
unfolding construct drop_0x every
short_key = refl
