-- ===== src/Coverage/Server.antt =====
-- packages/api/src/server.ts: POST /v1/coverage, and what it leaves in the store.
use Prim.Native.String.{◌++◌ as str_append}
use repayd.Common.{ℕ, String, Option, none, some}
use repayd.Coverage.Store.{CoverageRequest, CoverageResponse, CoverageStore, create}
use repayd.Coverage.Schema.{Value, Parse, fail, ok, parse_coverage_request}
use repayd.Coverage.Bridge.{
  BridgeConfig, Node, Ownership, not_owned, owned, AttachResult, Attached, unsent, sent,
  bridge_from_env, verify_guard_ownership, attach_on_chain,
}

pub data Body : Type 0 where
  error : String → Body
  created : CoverageResponse → Body
  on_chain : CoverageResponse → AttachResult → Body

pub record Reply : Type 0 where
  pub status : ℕ
  pub body : Body

abbrev pub bad_request : String → Reply
bad_request message = record { status = 400; body = error message }

abbrev pub reply_attached : CoverageResponse → Attached → Reply
reply_attached response (unsent e) = bad_request e
reply_attached response (sent tx (fail e)) = bad_request e
reply_attached response (sent tx (ok attach)) = record {
  status = 201;
  body = on_chain response attach;
}

abbrev pub reply_checked :
    Node → BridgeConfig → CoverageRequest → CoverageResponse → Parse Ownership → Reply
reply_checked node bridge req response (fail e) = bad_request e
reply_checked node bridge req response (ok (not_owned reason)) = record {
  status = 422;
  body = error (str_append "guard precheck failed: " reason);
}
reply_checked node bridge req response (ok (owned owner)) =
    reply_attached response (attach_on_chain node bridge req.policy req.agent_wallet)

abbrev pub reply_bridged :
    Node → CoverageRequest → CoverageResponse → Parse (Option BridgeConfig) → Reply
reply_bridged node req response (fail e) = bad_request e
reply_bridged node req response (ok none) = record { status = 201; body = created response }
reply_bridged node req response (ok (some bridge)) =
    reply_checked node bridge req response (verify_guard_ownership node bridge req.agent_wallet)

module _ (env : String → Option String) (node : Node) where
  abbrev pub reply_created :
      CoverageRequest
      → CoverageStore
      → Option (CoverageResponse × CoverageStore)
      → Reply × CoverageStore
  reply_created req s none = (
    bad_request (str_append "agent " (str_append req.agent_wallet " already has active coverage")),
    s,
  )
  reply_created req s (some (response, stored)) =
      (reply_bridged node req response (bridge_from_env env), stored)

  abbrev pub reply_parsed : ℕ → CoverageStore → Parse CoverageRequest → Reply × CoverageStore
  reply_parsed now s (fail e) = (bad_request e, s)
  reply_parsed now s (ok req) = reply_created req s (create req now s)

  -- the body is none where it is no JSON
  unfoldable pub post_coverage : Option Value → ℕ → CoverageStore → Reply × CoverageStore
  unfolding create parse_coverage_request bridge_from_env verify_guard_ownership attach_on_chain
  post_coverage none now s = (bad_request "invalid JSON", s)
  post_coverage (some body) now s = reply_parsed now s (parse_coverage_request body)
