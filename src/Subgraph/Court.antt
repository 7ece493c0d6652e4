-- ===== src/Subgraph/Court.antt =====
-- The handlers of packages/subgraph/src/mapping.ts for the VerdictContract and the Blocklist.
use repayd.Common.{
  ℕ, ◌+◌, String, Bool, true, false, ◌||◌, Option, none, some, ◌==◌, leb, if◌then◌else◌,
}
use repayd.Subgraph.Graph.{Graph, Bytes}
use repayd.Subgraph.Entities.{Policy, Verdict, Claim, BlocklistEntry, Db, Meta}
use repayd.Subgraph.Agents.{event_id, load_agent, agent_of, note_incident}
use repayd.Subgraph.Guard.{hold_frozen, resolve}

abbrev pub outcome_covered : ℕ
outcome_covered = 1

abbrev pub outcome_denied_owner_origin : ℕ
outcome_denied_owner_origin = 2

abbrev pub outcome_attempted_breach : ℕ
outcome_attempted_breach = 3

abbrev pub outcome_dismissed : ℕ
outcome_dismissed = 4

-- the id of the agent's policy, or null
abbrev policy_id : Option Policy → String → Option String
policy_id none id = none
policy_id (some policy) id = some id

-- the entry that is loaded, or a new one before its strikes are set
abbrev pub entry_of : Option BlocklistEntry → Bytes → BlocklistEntry
entry_of (some entry) destination = entry
entry_of none destination = record {
  destination = destination;
  strikes = 0;
  flagged = false;
  cleared = false;
  evidence = none;
}

module _ ⦃g : Graph⦄ where
  open g use {Table, load, save, to_hex_string, to_string}

  -- const v = new Verdict(id), filled
  abbrev pub new_verdict : Meta → Bytes → Bytes → ℕ → ℕ → ℕ → Table Policy → Verdict
  new_verdict event agent digest outcome payout alibi policies = record {
    agent = to_hex_string agent;
    policy = policy_id (load policies (to_hex_string agent)) (to_hex_string agent);
    outcome = outcome;
    payout = payout;
    alibi = alibi;
    digest = digest;
    accepted_at = event.timestamp;
    reopen_count = 0;
  }

  -- the claim of a covered or a denied verdict
  abbrev pub new_claim : Meta → Bytes → Bytes → ℕ → ℕ → Bytes → Claim
  new_claim event agent digest outcome payout guard_address = record {
    verdict = to_hex_string digest;
    agent = to_hex_string agent;
    claimant = guard_address;
    payout = if outcome == outcome_covered then payout else 0;
    covered = outcome == outcome_covered;
    denied = outcome == outcome_denied_owner_origin;
    paid_at = if outcome == outcome_covered then some event.timestamp else none;
    block_timestamp = event.timestamp;
  }

  unfoldable pub handle_verdict_accepted : Meta → Bytes → Bytes → ℕ → ℕ → ℕ → Db g → Db g
  handle_verdict_accepted event agent digest outcome payout alibi db = record db {
    agents =
        if outcome == outcome_attempted_breach || outcome == outcome_covered
        then note_incident agent event.timestamp db.agents
        else load_agent agent db.agents;
    verdicts =
        save db.verdicts (to_hex_string digest)
          (new_verdict event agent digest outcome payout alibi db.policies);
    claims =
        if outcome == outcome_covered || outcome == outcome_denied_owner_origin
        then save db.claims (to_hex_string digest)
            (new_claim event agent digest outcome payout (agent_of agent db.agents).guard_address)
        else db.claims;
  }

  unfoldable pub handle_attempted_breach_signal : Meta → Bytes → Bytes → Db g → Db g
  handle_attempted_breach_signal event agent tx_hash db = record db {
    agents = note_incident agent event.timestamp db.agents;
    verdicts =
        save db.verdicts (to_hex_string tx_hash)
          (new_verdict event agent tx_hash outcome_attempted_breach 0 0 db.policies);
  }

  unfoldable pub handle_hold_verdict_routed : Meta → ℕ → Bool → Db g → Db g
  handle_hold_verdict_routed event hold_id clean db =
      let id = to_string hold_id in
      elim (load db.holds id) [
        | none ↦ db
        | some h ↦ record db {
          holds =
              if clean
              then db.holds
              else save db.holds id (resolve hold_frozen event.timestamp event.address h);
        }
      ]

  unfoldable pub handle_reopened : Bytes → Db g → Db g
  handle_reopened digest db =
      let id = to_hex_string digest in
      elim (load db.verdicts id) [
        | none ↦ db
        | some v ↦ record db {
          verdicts = save db.verdicts id (record v { reopen_count = v.reopen_count + 1 });
        }
      ]

  unfoldable pub handle_arbitration_concluded : Bytes → Bool → Db g → Db g
  handle_arbitration_concluded digest overturned db =
      let id = to_hex_string digest in
      elim (load db.verdicts id) [
        | none ↦ db
        | some v ↦ record db {
          verdicts =
              if overturned
              then save db.verdicts id (record v { outcome = outcome_dismissed })
              else db.verdicts;
        }
      ]

  unfoldable pub handle_strike_recorded : Bytes → ℕ → Db g → Db g
  handle_strike_recorded destination strikes db =
      let id = to_hex_string destination in
      record db {
        blocklist = save db.blocklist id (record (entry_of (load db.blocklist id) destination) {
          strikes = strikes;
          flagged = leb 3 strikes;
        });
      }

  unfoldable pub handle_reported : Meta → Bytes → ℕ → Bytes → Db g → Db g
  handle_reported event destination strikes evidence db =
      let id = to_hex_string destination in
      record db {
        blocklist = save db.blocklist id (record (entry_of (load db.blocklist id) destination) {
          strikes = strikes;
          flagged = leb 3 strikes;
          evidence = some evidence;
        });
        reports = save db.reports (event_id event) (record {
          entry = id;
          evidence = evidence;
          reporter = event.address;
          block_timestamp = event.timestamp;
        });
      }

  unfoldable pub handle_cleared : Bytes → Db g → Db g
  handle_cleared destination db =
      let id = to_hex_string destination in
      elim (load db.blocklist id) [
        | none ↦ db
        | some entry ↦ record db {
          blocklist =
              save db.blocklist id (record entry { strikes = 0; flagged = false; cleared = true });
        }
      ]
