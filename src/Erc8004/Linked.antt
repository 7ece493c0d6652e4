-- ===== src/Erc8004/Linked.antt =====
-- What the entities of packages/subgraph/erc8004 refer to, and what they say of each other.
use mathlib.Core.Path.{subst}
use repayd.Common.{
  is_some, str_eq_self, ℕ, ◌≡◌, refl, String, Bool, true, false, not, Option, none, some, List, [],
  ◌∷◌, str_eq, if◌then◌else◌, arith,
}
use repayd.Subgraph.Graph.{Graph}
use repayd.Subgraph.Every.{Sat, Every, Every-no_entities, Every-save}
use repayd.Erc8004.Entities.{
  Erc8004Agent, Erc8004Feedback, Erc8004Validation, ValidationResponse, Params, registered,
  uri_updated, metadata_set, new_feedback, feedback_revoked, validation_request,
  validation_response, Event, Db,
}
use repayd.Erc8004.Mapping.{
  posted_feedback, requested_validation, answered_validation, touch, touch_with, saved_agent,
  handle_registered, handle_uri_updated, handle_metadata_set, feedback_id, handle_new_feedback,
  revoke, handle_feedback_revoked, handle_validation_request, respond, handle_validation_response,
  handle, replay, genesis, wallet_from_metadata_value,
}

-- a feedback that is revoked has a time of it
abbrev pub IsDated : Erc8004Feedback → Type 0
IsDated fb = fb.is_revoked ≡ true → is_some fb.revoked_at ≡ true

-- a validation that has a time of its response has a response
abbrev pub IsAnswered : Erc8004Validation → Type 0
IsAnswered v = is_some v.responded_at ≡ true → is_some v.response ≡ true

module _ ⦃g : Graph⦄ where
  open g use {Table, load, save, load-save, no_entities, load-no_entities, to_hex_string, to_string}

  -- there is an agent of an id
  abbrev pub Known : Table Erc8004Agent → String → Type 0
  Known agents id = is_some (load agents id) ≡ true

  Known-save :
      (agents : Table Erc8004Agent) (id : String) (agent : Erc8004Agent) (other : String)
      → Known agents other
      → Known (save agents id agent) other
  Known-save agents id agent other h = rw (load-save agents id other agent) (go (str_eq id other))
    where
      go : (b : Bool) → is_some (if b then some agent else load agents other) ≡ true
      go true = refl
      go false = h

  Known-saved :
      (agents : Table Erc8004Agent) (id : String) (agent : Erc8004Agent)
      → Known (save agents id agent) id
  Known-saved agents id agent = rw (load-save agents id id agent, str_eq_self id) refl

  abbrev pub LinkedFeedback : Table Erc8004Agent → Erc8004Feedback → Type 0
  LinkedFeedback agents fb = Known agents fb.agent × IsDated fb

  abbrev pub LinkedValidation : Table Erc8004Agent → Erc8004Validation → Type 0
  LinkedValidation agents v = Known agents v.agent × IsAnswered v

  -- every feedback and every validation refers to an agent that is there
  abbrev pub IsLinked : Db g → Type 0
  IsLinked db =
      Every (LinkedFeedback db.agents) db.feedbacks
      × Every (LinkedValidation db.agents) db.validations

  -- more agents are no harm
  abbrev Grows : Table Erc8004Agent → Table Erc8004Agent → Type 0
  Grows agents new = (id : String) → Known agents id → Known new id

  Every-Grows :
      (agents new : Table Erc8004Agent) (db : Db g)
      → Grows agents new
      → Every (LinkedFeedback agents) db.feedbacks × Every (LinkedValidation agents) db.validations
      → Every (LinkedFeedback new) db.feedbacks × Every (LinkedValidation new) db.validations
  Every-Grows agents new db grows (fs, vs) = (
    λ id. feedback (load db.feedbacks id) (fs id),
    λ id. validation (load db.validations id) (vs id),
  )
    where
      feedback :
          (o : Option Erc8004Feedback) → Sat (LinkedFeedback agents) o → Sat (LinkedFeedback new) o
      feedback none h = tt
      feedback (some fb) (k, d) = (grows fb.agent k, d)

      validation :
          (o : Option Erc8004Validation)
          → Sat (LinkedValidation agents) o
          → Sat (LinkedValidation new) o
      validation none h = tt
      validation (some v) (k, d) = (grows v.agent k, d)

  touch_with-Grows :
      (change : Erc8004Agent → Erc8004Agent) (id : String) (now : ℕ) (o : Option Erc8004Agent)
      (agents : Table Erc8004Agent)
      → Grows agents (touch_with change id now o agents)
  unfolding touch
  touch_with-Grows change id now none agents other h = h
  touch_with-Grows change id now (some agent) agents other h =
      Known-save agents id (record (change agent) { last_activity_at = now }) other h

  saved_agent-Grows :
      (id now : ℕ) (agents : Table Erc8004Agent) → Grows agents (saved_agent id now agents)
  unfolding touch
  saved_agent-Grows id now agents other h =
      Known-save _ (to_string id) _ other (Known-save agents (to_string id) _ other h)

  saved_agent-Known :
      (id now : ℕ) (agents : Table Erc8004Agent) → Known (saved_agent id now agents) (to_string id)
  unfolding touch
  saved_agent-Known id now agents = Known-saved _ (to_string id) _

  -- each handler keeps every reference
  revoke-IsLinked :
      (now : ℕ) (id : String) (o : Option Erc8004Feedback) (db : Db g)
      → load db.feedbacks id ≡ o
      → IsLinked db
      → IsLinked (revoke now id o db)
  revoke-IsLinked now id none db e h = h
  revoke-IsLinked now id (some fb) db e h =
      let grows =
        touch_with-Grows (λ agent. agent) fb.agent now (load db.agents fb.agent) db.agents in
      let (fs, vs) = Every-Grows db.agents _ db grows h in
      (
        Every-save _ db.feedbacks id (record fb { is_revoked = true; revoked_at = some now }) fs
            ((subst (Sat (LinkedFeedback _)) e (fs id)).0, λ _. refl),
        vs,
      )

  respond-IsLinked :
      (now : ℕ) (e : ValidationResponse) (o : Option Erc8004Validation) (db : Db g)
      → load db.validations (to_hex_string e.request_hash) ≡ o
      → IsLinked db
      → IsLinked (respond now e o db)
  respond-IsLinked now e none db found h =
      let (fs, vs) = Every-Grows db.agents _ db (saved_agent-Grows e.agent_id now db.agents) h in
      (
        fs,
        Every-save _ db.validations (to_hex_string e.request_hash) (answered_validation now e) vs
            (saved_agent-Known e.agent_id now db.agents, λ _. refl),
      )
  respond-IsLinked now e (some v) db found h =
      let grows =
        touch_with-Grows (λ agent. agent) v.agent now (load db.agents v.agent) db.agents in
      let (fs, vs) = Every-Grows db.agents _ db grows h in
      (
        fs,
        Every-save _ db.validations (to_hex_string e.request_hash)
            (record v {
              response = some e.response;
              response_uri = e.response_uri;
              response_hash = e.response_hash;
              tag = e.tag;
              responded_at = some now;
            })
            vs
            (
              (subst (Sat (LinkedValidation _)) found (vs (to_hex_string e.request_hash))).0,
              λ _. refl,
            ),
      )

  handle-IsLinked : (event : Event) (db : Db g) → IsLinked db → IsLinked (handle event db)
  unfolding handle handle_registered handle_uri_updated handle_metadata_set handle_new_feedback
      handle_feedback_revoked handle_validation_request handle_validation_response
  handle-IsLinked event db h = go event.timestamp event.params
    where
      go : (now : ℕ) (p : Params) → IsLinked (handle (record { timestamp = now; params = p }) db)
      go now (registered id uri owner) =
          Every-Grows db.agents _ db (λ other k. Known-save db.agents (to_string id) _ other k) h
      go now (uri_updated id uri) =
          Every-Grows db.agents _ db
            (touch_with-Grows (λ agent. record agent { agent_uri = uri }) (to_string id) now
              (load db.agents (to_string id)) db.agents)
            h
      go now (metadata_set id key value) = other_key (not (str_eq key "agentWallet"))
        where
          changed : Db g
          changed = record db {
            agents =
                touch_with (λ agent. record agent { wallet = wallet_from_metadata_value value })
                  (to_string id) now (load db.agents (to_string id)) db.agents;
          }

          other_key : (b : Bool) → IsLinked (if b then db else changed)
          other_key true = h
          other_key false =
              Every-Grows db.agents _ db
                (touch_with-Grows
                  (λ agent. record agent { wallet = wallet_from_metadata_value value })
                  (to_string id) now (load db.agents (to_string id)) db.agents)
                h
      go now (new_feedback e) =
          let (fs, vs) =
            Every-Grows db.agents _ db (saved_agent-Grows e.agent_id now db.agents) h in
          (
            Every-save _ db.feedbacks (feedback_id e.agent_id e.client_address e.feedback_index)
                (posted_feedback now e
                  (load db.feedbacks (feedback_id e.agent_id e.client_address e.feedback_index)))
                fs (saved_agent-Known e.agent_id now db.agents, λ h. absurd (ground arith)),
            vs,
          )
      go now (feedback_revoked id client index) =
          revoke-IsLinked now (feedback_id id client index) _ db refl h
      go now (validation_request e) =
          let (fs, vs) =
            Every-Grows db.agents _ db (saved_agent-Grows e.agent_id now db.agents) h in
          (
            fs,
            Every-save _ db.validations (to_hex_string e.request_hash)
                (requested_validation now e (load db.validations (to_hex_string e.request_hash))) vs
                (saved_agent-Known e.agent_id now db.agents, λ h. absurd (ground arith)),
          )
      go now (validation_response e) = respond-IsLinked now e _ db refl h

  replay-from : (events : List Event) (db : Db g) → IsLinked db → IsLinked (replay events db)
  unfolding replay
  replay-from [] db h = h
  replay-from (e ∷ es) db h = replay-from es (handle e db) (handle-IsLinked e db h)

  -- After the replay of any log of the three registries, every feedback and every validation refers to
  -- an agent that is there, a feedback that is revoked has the time of it, and a validation that has the
  -- time of a response has the response; also when the log posts one feedback or requests one
  -- validation again.
  pub replay-IsLinked : (events : List Event) → IsLinked (replay events genesis)
  replay-IsLinked events = replay-from events genesis (
    Every-no_entities (LinkedFeedback no_entities),
    Every-no_entities (LinkedValidation no_entities),
  )
