-- ===== src/Erc8004/Examples.antt =====
-- Tests of packages/subgraph/erc8004/src/mapping.ts and of the SDK's encodings.
use repayd.Common.{◌≡◌, refl, some, List, [], ◌∷◌, negsuc}
use repayd.Subgraph.Graph.{Bytes}
use repayd.Subgraph.Memory.{memory}
use repayd.Erc8004.Entities.{Event, registered, new_feedback, feedback_revoked, validation_response}
use repayd.Erc8004.Mapping.{replay, genesis}
use repayd.Erc8004.Linked.{IsLinked, replay-IsLinked}
use repayd.Erc8004.Signals.{covered, value_by_outcome}
use repayd.Erc8004.Encoding.{Encodes, to_feedback_int128, to_feedback_int128-Encodes}

abbrev client : Bytes
client = 1 ∷ []

abbrev log : List Event
log =
    record { timestamp = 10; params = registered 7 "ipfs://agent" client }
    ∷ record {
      timestamp = 20;
      params = new_feedback (record {
        agent_id = 7;
        client_address = client;
        feedback_index = 1;
        value = negsuc 2499;
        value_decimals = 2;
        tag1 = "bulwark-verdict";
        tag2 = "covered";
        endpoint = "";
        feedback_uri = "";
        feedback_hash = [];
      });
    }
    ∷ record { timestamp = 30; params = feedback_revoked 7 client 1 }
    ∷ record {
      timestamp = 40;
      params = validation_response (record {
        validator_address = client;
        agent_id = 8;
        request_hash = 5 ∷ [];
        response = 25;
        response_uri = "";
        response_hash = [];
        tag = "";
      });
    }
    ∷ []

replay-IsLinked_example : IsLinked (replay log (genesis ⦃g = memory⦄))
replay-IsLinked_example = replay-IsLinked log

covered_value :
    to_feedback_int128 (value_by_outcome covered) ≡ some 340282366920938463463374607431768208956
unfolding to_feedback_int128
covered_value = refl

to_feedback_int128-Encodes_example : Encodes (negsuc 2499) (to_feedback_int128 (negsuc 2499))
to_feedback_int128-Encodes_example = to_feedback_int128-Encodes (negsuc 2499)
