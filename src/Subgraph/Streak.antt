-- ===== src/Subgraph/Streak.antt =====
-- What the agents of packages/subgraph/src/mapping.ts count, against the event log.
pub mod Replay
use mathlib.Core.List.{foldl}
use repayd.Common.{
  ℕ, ◌+◌, String, ◌≡◌, refl, ◌∙◌, Bool, true, false, ◌||◌, ◌&&◌, Option, none, some, List, [], ◌∷◌,
  arith, ◌==◌, if◌then◌else◌, str_eq, str_eq_iff, Option-cases, Bool-cases, inl, inr, ap,
}
use repayd.Subgraph.Graph.{Graph, Bytes}
use repayd.Subgraph.Entities.{Agent, Db, Meta}
use repayd.Subgraph.Agents.{
  load_agent, agent_of, note_incident, incident, load-load_agent, load-save_agent,
}
use repayd.Subgraph.Guard.{note_routine}
use repayd.Subgraph.Guard
use repayd.Subgraph.Court
use repayd.Subgraph.Pool
use repayd.Subgraph.Events.{
  Event, Params, dispatch, replay, policy_updated, held, agent_key_rotated, withdrawn, received,
  executed_routine, classified, violation_blocked, guard_attempted_breach, authority_revoked,
  verdict_accepted, attempted_breach_signal,
}

-- the clean streak, the routine transfers and the incidents of one agent
pub record Tally : Type 0 where
  pub streak : ℕ
  pub routine : ℕ
  pub attempts : ℕ

abbrev pub no_tally : Tally
no_tally = record { streak = 0; routine = 0; attempts = 0 }

abbrev pub tally_of : Option Agent → Tally
tally_of none = no_tally
tally_of (some a) = record {
  streak = a.streak;
  routine = a.total_routine_tx;
  attempts = a.total_attempts;
}

-- A routine transfer lengthens the streak; an incident ends it.
abbrev pub one_routine : Tally → Tally
one_routine t = record t { streak = t.streak + 1; routine = t.routine + 1 }

abbrev pub one_incident : Tally → Tally
one_incident t = record t { streak = 0; attempts = t.attempts + 1 }

-- what an event says of an agent: a routine transfer, or an incident
pub data Mark : Type 0 where
  unmarked : Mark
  routine_at : Bytes → Mark
  incident_at : Bytes → Mark

abbrev pub mark_of : Meta → Params → Mark
mark_of e (executed_routine to amount) = routine_at e.address
mark_of e (classified tier to amount tag) = if tier == 2 then incident_at e.address else unmarked
mark_of e (violation_blocked tag to amount) = incident_at e.address
mark_of e guard_attempted_breach = incident_at e.address
mark_of e authority_revoked = incident_at e.address
mark_of e (verdict_accepted agent digest outcome payout alibi) =
    if outcome == 3 || outcome == 1 then incident_at agent else unmarked
mark_of e (attempted_breach_signal agent tx_hash) = incident_at agent
mark_of e _ = unmarked

module _ ⦃g : Graph⦄ where
  open g use {Table, load, save, load-save, to_hex_string}

  abbrev pub count_mark : String → Mark → Tally → Tally
  count_mark id unmarked t = t
  count_mark id (routine_at address) t =
      if str_eq (to_hex_string address) id then one_routine t else t
  count_mark id (incident_at address) t =
      if str_eq (to_hex_string address) id then one_incident t else t

  abbrev pub count_events : String → List Event → Tally → Tally
  count_events id [] t = t
  count_events id (e ∷ es) t = count_events id es (count_mark id (mark_of e.header e.params) t)

  tally-agent_of :
      (address : Bytes) (agents : Table Agent)
      → tally_of (some (agent_of address agents)) ≡ tally_of (load agents (to_hex_string address))
  unfolding agent_of
  tally-agent_of address agents = elim (Option-cases (load agents (to_hex_string address))) [
    | inl e ↦ rw (e, agent_of)
    | inr (a, e) ↦ rw (e, agent_of)
  ]

  tally-if :
      (address : Bytes) (agents : Table Agent) (id : String) (a : Agent) (counted : Tally → Tally)
      → tally_of (some a) ≡ counted (tally_of (some (agent_of address agents)))
      → tally_of (if str_eq (to_hex_string address) id then some a else load agents id) ≡ (
          if str_eq (to_hex_string address) id
          then counted (tally_of (load agents id))
          else tally_of (load agents id))
  tally-if address agents id a counted h =
      let key = to_hex_string address in
      elim (Bool-cases (str_eq key id)) [
        | inl same ↦ rw same (
            h
            ∙ ap counted (
                tally-agent_of address agents
                ∙ ap (λ k. tally_of (load agents k)) ((str_eq_iff key id).0 same)))
        | inr other ↦ rw other
      ]

  tally-load_agent :
      (address : Bytes) (agents : Table Agent) (id : String)
      → tally_of (load (load_agent address agents) id) ≡ tally_of (load agents id)
  tally-load_agent address agents id =
      ap tally_of (load-load_agent address agents id)
      ∙ tally-if address agents id (agent_of address agents) (λ t. t) refl
      ∙ ground arith

  tally-note_routine :
      (address : Bytes) (timestamp : ℕ) (agents : Table Agent) (id : String)
      → tally_of (load (note_routine address timestamp agents) id)
        ≡ count_mark id (routine_at address) (tally_of (load agents id))
  unfolding note_routine
  tally-note_routine address timestamp agents id =
      ap tally_of (load-save_agent address agents id _)
      ∙ tally-if address agents id _ one_routine refl

  tally-note_incident :
      (address : Bytes) (timestamp : ℕ) (agents : Table Agent) (id : String)
      → tally_of (load (note_incident address timestamp agents) id)
        ≡ count_mark id (incident_at address) (tally_of (load agents id))
  unfolding note_incident incident
  tally-note_incident address timestamp agents id =
      ap tally_of (load-save_agent address agents id _)
      ∙ tally-if address agents id _ one_incident refl

  -- the agents after an event that does not trap
  pub agents_after : Meta → Params → Table Agent → Table Agent
  agents_after e (policy_updated agent version hash view) agents = load_agent agent agents
  agents_after e (executed_routine to amount) agents = note_routine e.address e.timestamp agents
  agents_after e (classified tier to amount tag) agents =
      if tier == 0
      then agents
      else if tier == 2
      then note_incident e.address e.timestamp agents
      else load_agent e.address agents
  agents_after e (held hold_id to amount release_at) agents = load_agent e.address agents
  agents_after e (violation_blocked tag to amount) agents =
      note_incident e.address e.timestamp agents
  agents_after e guard_attempted_breach agents = note_incident e.address e.timestamp agents
  agents_after e authority_revoked agents = note_incident e.address e.timestamp agents
  agents_after e agent_key_rotated agents =
      save (load_agent e.address agents) (to_hex_string e.address) (agent_of e.address agents)
  agents_after e (withdrawn to amount) agents = load_agent e.address agents
  agents_after e (received from value) agents = load_agent e.address agents
  agents_after e (verdict_accepted agent digest outcome payout alibi) agents =
      if outcome == 3 || outcome == 1
      then note_incident agent e.timestamp agents
      else load_agent agent agents
  agents_after e (attempted_breach_signal agent tx_hash) agents =
      note_incident agent e.timestamp agents
  agents_after e _ agents = agents

  pub tally-agents_after :
      (e : Meta) (p : Params) (agents : Table Agent) (id : String)
      → tally_of (load (agents_after e p agents) id)
        ≡ count_mark id (mark_of e p) (tally_of (load agents id))
  unfolding agents_after
  tally-agents_after e (policy_updated agent version hash view) agents id =
      tally-load_agent agent agents id
  tally-agents_after e (executed_routine to amount) agents id =
      tally-note_routine e.address e.timestamp agents id
  tally-agents_after e (classified tier to amount tag) agents id = ground (
    arith,
    tally-note_incident e.address e.timestamp agents id,
    tally-load_agent e.address agents id,
  )
  tally-agents_after e (held hold_id to amount release_at) agents id =
      tally-load_agent e.address agents id
  tally-agents_after e (violation_blocked tag to amount) agents id =
      tally-note_incident e.address e.timestamp agents id
  tally-agents_after e guard_attempted_breach agents id =
      tally-note_incident e.address e.timestamp agents id
  tally-agents_after e authority_revoked agents id =
      tally-note_incident e.address e.timestamp agents id
  tally-agents_after e agent_key_rotated agents id =
      ap tally_of (load-save_agent e.address agents id _)
      ∙ tally-if e.address agents id _ (λ t. t) refl
      ∙ ground arith
  tally-agents_after e (withdrawn to amount) agents id = tally-load_agent e.address agents id
  tally-agents_after e (received from value) agents id = tally-load_agent e.address agents id
  tally-agents_after e (verdict_accepted agent digest outcome payout alibi) agents id =
      ground
        (arith, tally-note_incident agent e.timestamp agents id, tally-load_agent agent agents id)
  tally-agents_after e (attempted_breach_signal agent tx_hash) agents id =
      tally-note_incident agent e.timestamp agents id
  tally-agents_after e _ agents id = refl
