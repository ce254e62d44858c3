-- ===== src/LaneTurn/Events/Dispatch.antt =====
-- DispatchIntent and BeginDispatch of lib/ask_herdr_lane_turn.py.
use native.Mathlib.Decide.{ℕ_discrete}
use ask_herdr.Base.{◌≡◌, String, Option, Result, ok, ◌>>◌, Eq, eq_of_discrete, String-discrete}
use ask_herdr.LaneTurn.Guards.{
  require_optional_digest, require_token, validate_common_operation, construct,
}

pub record DispatchIntent : Type 0 where
  pub operation_id : String
  pub canonical_request_digest : String
  pub attempt_id : String
  pub dispatch_nonce : String
  pub project_topology_digest : Option String

unfoldable pub validate_dispatch_intent : DispatchIntent → Result (Unit {0})
validate_dispatch_intent e = do
  validate_common_operation e.operation_id e.canonical_request_digest e.attempt_id
  require_token 256 e.dispatch_nonce "lane_turn.dispatch_nonce_invalid"
  require_optional_digest e.project_topology_digest "lane_turn.project_topology_digest_invalid"

pub record BeginDispatch : Type 0 where
  pub operation_id : String
  pub canonical_request_digest : String
  pub attempt_id : String
  pub dispatch_nonce : String
  pub project_topology_digest : Option String

unfoldable pub validate_begin_dispatch : BeginDispatch → Result (Unit {0})
validate_begin_dispatch e = do
  validate_common_operation e.operation_id e.canonical_request_digest e.attempt_id
  require_token 256 e.dispatch_nonce "lane_turn.dispatch_nonce_invalid"
  require_optional_digest e.project_topology_digest "lane_turn.project_topology_digest_invalid"

unfoldable pub DispatchIntent-discrete : Discrete DispatchIntent
DispatchIntent-discrete = hlevel (String-discrete, ℕ_discrete)

instance abbrev pub dispatch_intent_eq : Eq DispatchIntent
dispatch_intent_eq = eq_of_discrete DispatchIntent-discrete

-- The record that `BeginDispatch.intent` constructs.
abbrev pub intent_record : BeginDispatch → DispatchIntent
intent_record e = record {
  operation_id = e.operation_id;
  canonical_request_digest = e.canonical_request_digest;
  attempt_id = e.attempt_id;
  dispatch_nonce = e.dispatch_nonce;
  project_topology_digest = e.project_topology_digest;
}

-- `BeginDispatch.intent`; the construction runs the validator of `DispatchIntent`.
unfoldable pub intent : BeginDispatch → Result DispatchIntent
unfolding validate_dispatch_intent
intent e = construct validate_dispatch_intent (intent_record e)

-- The validators of an event and of its intent are the same, so the construction never raises.
pub intent_of_valid :
    (e : BeginDispatch) → validate_begin_dispatch e ≡ ok tt → intent e ≡ ok (intent_record e)
unfolding intent validate_begin_dispatch
intent_of_valid e h = rw h
