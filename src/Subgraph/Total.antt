-- ===== src/Subgraph/Total.antt =====
-- When the handlers of packages/subgraph/src/mapping.ts return.
use repayd.Common.{
  ℕ, ◌≤◌, ◌≡◌, ◌≢◌, String, refl, Option, none, some, List, [], ◌∷◌, arith, length, All,
}
use repayd.Subgraph.Graph.{Graph, Bytes}
use repayd.Subgraph.Entities.{RecipientCap, Db, Meta}
use repayd.Subgraph.Registry
use repayd.Subgraph.Registry.{PolicyView, rebuild_allowlist}
use repayd.Subgraph.Events.{Event, Params, dispatch, replay, policy_updated}

-- the view of a policy has a cap for each of its recipients
abbrev pub HasCaps : Params → Type 0
HasCaps (policy_updated agent version hash (some v)) = length v.recipients ≤ length v.caps
HasCaps _ = Unit

module _ ⦃g : Graph⦄ where
  open g use {Table}

  rebuild_allowlist-total :
      (policy : String) (rs : List Bytes) (caps : List ℕ) (t : Table RecipientCap)
      → length rs ≤ length caps
      → (t' : Table RecipientCap) × (rebuild_allowlist policy rs caps t ≡ some t')
  unfolding rebuild_allowlist
  rebuild_allowlist-total policy [] caps t h = (t, refl)
  rebuild_allowlist-total policy (r ∷ rs) [] t h = absurd (omega arith)
  rebuild_allowlist-total policy (r ∷ rs) (c ∷ caps) t h =
      rebuild_allowlist-total policy rs caps _ (omega arith)

  returned : (o : Option (Db g)) → o ≢ none → (db : Db g) × (o ≡ some db)
  returned none h = absurd (h refl)
  returned (some db) h = (db, refl)

  dispatch-ne-none : (e : Meta) (p : Params) (db : Db g) → HasCaps p → dispatch e p db ≢ none
  unfolding dispatch Registry.handle_policy_updated
  dispatch-ne-none e (policy_updated agent version hash none) db h = ground arith
  dispatch-ne-none e (policy_updated agent version hash (some v)) db h =
      let id = g.to_hex_string agent in
      let (t, done) = rebuild_allowlist-total id v.recipients v.caps db.recipient_caps h in
      rw (done, Registry.handle_policy_updated) (ground arith)
  dispatch-ne-none e p db h = ground arith

  -- The replay of a log returns from every database, if each policy view in the log has a cap for
  -- each of its recipients.
  pub replay-total :
      (events : List Event) (db : Db g)
      → All (λ (e : Event). HasCaps e.params) events
      → (db' : Db g) × (replay events db ≡ some db')
  unfolding replay
  replay-total [] db h = (db, refl)
  replay-total (e ∷ es) db h =
      let (next, done) =
        returned (dispatch e.header e.params db) (dispatch-ne-none e.header e.params db h.0) in
      let (db', rest) = replay-total es next h.1 in (db', rw (done, replay) rest)
