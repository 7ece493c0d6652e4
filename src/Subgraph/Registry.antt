-- ===== src/Subgraph/Registry.antt =====
-- The handlers of packages/subgraph/src/mapping.ts for the PolicyRegistry.
use repayd.Common.{ℕ, String, true, false, Option, none, some, List, [], ◌∷◌}
use repayd.Subgraph.Graph.{Graph, Bytes}
use repayd.Subgraph.Entities.{Terms, Policy, RecipientCap, Db, Meta}
use repayd.Subgraph.Agents.{load_agent}

-- what `getPolicyView` returns: the terms, the recipients and their caps
pub record PolicyView : Type 0 where
  pub terms : Terms
  pub recipients : List Bytes
  pub caps : List ℕ

abbrev cap_entity : Option RecipientCap → String → Bytes → ℕ → RecipientCap
cap_entity none policy recipient cap = record { policy = policy; recipient = recipient; cap = cap }
cap_entity (some rc) policy recipient cap = record rc { cap = cap }

abbrev created_at_of : Option Policy → ℕ → ℕ
created_at_of none timestamp = timestamp
created_at_of (some policy) timestamp = policy.created_at

abbrev terms_of : Option Policy → Option Terms
terms_of none = none
terms_of (some policy) = policy.terms

module _ ⦃g : Graph⦄ where
  open g use {Table, load, save, to_hex_string, to_string, concat}

  -- The loop over the recipients. `none` is the trap of an index past the end of `caps`.
  unfoldable pub rebuild_allowlist :
      String → List Bytes → List ℕ → Table RecipientCap → Option (Table RecipientCap)
  rebuild_allowlist policy [] caps table = some table
  rebuild_allowlist policy (recipient ∷ rs) [] table = none
  rebuild_allowlist policy (recipient ∷ rs) (cap ∷ caps) table =
      let id = concat (concat policy "-") (to_hex_string recipient) in
      rebuild_allowlist policy rs caps
        (save table id (cap_entity (load table id) policy recipient cap))

  -- the policy before the view is read
  abbrev policy_header : Meta → Bytes → ℕ → Bytes → Option Policy → Policy
  policy_header event agent version policy_hash old = record {
    agent = to_hex_string agent;
    version = version;
    policy_hash = policy_hash;
    terms = terms_of old;
    revoked = false;
    revoked_at = none;
    created_at = created_at_of old event.timestamp;
    updated_at = event.timestamp;
  }

  -- `view` is the answer of the registry, `none` where the call reverts.
  unfoldable pub handle_policy_updated :
      Meta → Bytes → ℕ → Bytes → Option PolicyView → Db g → Option (Db g)
  handle_policy_updated event agent version policy_hash view db =
      let id = to_hex_string agent in
      let policy = policy_header event agent version policy_hash (load db.policies id) in
      let agents = load_agent agent db.agents in
      elim view [
        | none ↦ some (record db { agents = agents; policies = save db.policies id policy })
        | some v ↦ elim (rebuild_allowlist id v.recipients v.caps db.recipient_caps) [
          | none ↦ none
          | some table ↦ some (record db {
            agents = agents;
            policies = save db.policies id (record policy { terms = some v.terms });
            recipient_caps = table;
          })
        ]
      ]

  unfoldable pub handle_policy_revoked : Meta → Bytes → Db g → Db g
  handle_policy_revoked event agent db =
      let id = to_hex_string agent in
      elim (load db.policies id) [
        | none ↦ db
        | some policy ↦ record db {
          policies = save db.policies id (record policy {
            revoked = true;
            revoked_at = some event.timestamp;
            updated_at = event.timestamp;
          });
        }
      ]
