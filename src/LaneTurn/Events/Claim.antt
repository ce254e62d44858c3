-- ===== src/LaneTurn/Events/Claim.antt =====
-- ClaimTopologyProvisioning and RecordTopologyProvisioned of lib/ask_herdr_lane_turn.py.
use native.Mathlib.Decide.{ℕ_discrete}
use ask_herdr.Base.{ℕ, String, Option, Result, ◌>>◌, Eq, eq_of_discrete, String-discrete}
use ask_herdr.LaneTurn.Guards.{
  require_uuid, require_digest, require_optional_digest, require_token, require_positive_integer,
  validate_common_operation,
}

pub record ClaimTopologyProvisioning : Type 0 where
  pub operation_id : String
  pub canonical_request_digest : String
  pub attempt_id : String
  pub lane_id : String
  pub lane_generation : ℕ
  pub policy_record_digest : String
  pub prepared_lane_record_digest : String
  pub topology_mutation_id : String
  pub topology_nonce : String
  pub topology_store_incarnation_digest : Option String

unfoldable pub validate_claim_topology_provisioning : ClaimTopologyProvisioning → Result (Unit {0})
validate_claim_topology_provisioning e = do
  validate_common_operation e.operation_id e.canonical_request_digest e.attempt_id
  require_uuid e.lane_id "lane_turn.lane_id_invalid"
  require_positive_integer e.lane_generation "lane_turn.lane_generation_invalid"
  require_digest e.policy_record_digest "lane_turn.policy_record_digest_invalid"
  require_digest e.prepared_lane_record_digest "lane_turn.prepared_lane_record_digest_invalid"
  require_uuid e.topology_mutation_id "lane_turn.topology_mutation_id_invalid"
  require_token 256 e.topology_nonce "lane_turn.topology_nonce_invalid"
  require_optional_digest e.topology_store_incarnation_digest
      "lane_turn.topology_store_incarnation_digest_invalid"

pub record RecordTopologyProvisioned : Type 0 where
  pub operation_id : String
  pub canonical_request_digest : String
  pub attempt_id : String
  pub lane_id : String
  pub lane_generation : ℕ
  pub policy_record_digest : String
  pub prepared_lane_record_digest : String
  pub topology_mutation_id : String
  pub topology_nonce : String
  pub topology_claim_record_digest : String
  pub topology_settlement_record_digest : String
  pub project_topology_digest : String
  pub topology_effect_started_record_digest : Option String
  pub topology_last_command_effect_started_record_digest : Option String
  pub recovery_state_digest : Option String
  pub recovery_result_store_binding_digest : Option String

unfoldable pub validate_record_topology_provisioned : RecordTopologyProvisioned → Result (Unit {0})
validate_record_topology_provisioned e = do
  validate_common_operation e.operation_id e.canonical_request_digest e.attempt_id
  require_uuid e.lane_id "lane_turn.lane_id_invalid"
  require_positive_integer e.lane_generation "lane_turn.lane_generation_invalid"
  require_digest e.policy_record_digest "lane_turn.policy_record_digest_invalid"
  require_digest e.prepared_lane_record_digest "lane_turn.prepared_lane_record_digest_invalid"
  require_digest e.topology_claim_record_digest "lane_turn.topology_claim_record_digest_invalid"
  require_digest e.topology_settlement_record_digest
      "lane_turn.topology_settlement_record_digest_invalid"
  require_digest e.project_topology_digest "lane_turn.project_topology_digest_invalid"
  require_uuid e.topology_mutation_id "lane_turn.topology_mutation_id_invalid"
  require_token 256 e.topology_nonce "lane_turn.topology_nonce_invalid"
  require_optional_digest e.topology_effect_started_record_digest
      "lane_turn.topology_effect_started_record_digest_invalid"
  require_optional_digest e.topology_last_command_effect_started_record_digest
      "lane_turn.topology_last_command_effect_started_record_digest_invalid"
  require_optional_digest e.recovery_state_digest "lane_turn.recovery_state_digest_invalid"
  require_optional_digest e.recovery_result_store_binding_digest
      "lane_turn.recovery_result_store_binding_digest_invalid"

unfoldable pub ClaimTopologyProvisioning-discrete : Discrete ClaimTopologyProvisioning
ClaimTopologyProvisioning-discrete = hlevel (String-discrete, ℕ_discrete)

instance abbrev pub claim_topology_provisioning_eq : Eq ClaimTopologyProvisioning
claim_topology_provisioning_eq = eq_of_discrete ClaimTopologyProvisioning-discrete

unfoldable pub RecordTopologyProvisioned-discrete : Discrete RecordTopologyProvisioned
RecordTopologyProvisioned-discrete = hlevel (String-discrete, ℕ_discrete)

instance abbrev pub record_topology_provisioned_eq : Eq RecordTopologyProvisioned
record_topology_provisioned_eq = eq_of_discrete RecordTopologyProvisioned-discrete
