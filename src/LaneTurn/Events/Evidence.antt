-- ===== src/LaneTurn/Events/Evidence.antt =====
-- RecordRecoveryResultEvidenceAnchor of lib/ask_herdr_lane_turn.py.
use native.Mathlib.Decide.{ℕ_discrete}
use ask_herdr.Base.{ℕ, String, Result, ◌>>◌, Eq, eq_of_discrete, String-discrete}
use ask_herdr.LaneTurn.Guards.{
  require_uuid, require_digest, require_positive_integer, validate_common_operation,
}

pub record RecordRecoveryResultEvidenceAnchor : Type 0 where
  pub project_authority_id : String
  pub recovery_operation_id : String
  pub recovery_canonical_request_digest : String
  pub source_lane_operation_id : String
  pub source_lane_canonical_request_digest : String
  pub attempt_id : String
  pub lane_id : String
  pub lane_generation : ℕ
  pub topology_mutation_id : String
  pub expected_lane_head_record_digest : String
  pub topology_provisioned_record_digest : String
  pub source_result_record_digest : String
  pub recovery_result_store_binding_digest : String
  pub evidence_registry_binding_digest : String
  pub source_relationship_digest : String
  pub evidence_link_record_digest : String

unfoldable pub validate_record_recovery_result_evidence_anchor :
    RecordRecoveryResultEvidenceAnchor → Result (Unit {0})
validate_record_recovery_result_evidence_anchor e = do
  require_uuid e.project_authority_id "lane_turn.project_authority_id_invalid"
  require_uuid e.recovery_operation_id "lane_turn.recovery_operation_id_invalid"
  require_digest e.recovery_canonical_request_digest "lane_turn.recovery_request_digest_invalid"
  validate_common_operation e.source_lane_operation_id e.source_lane_canonical_request_digest
      e.attempt_id
  require_uuid e.lane_id "lane_turn.lane_id_invalid"
  require_positive_integer e.lane_generation "lane_turn.lane_generation_invalid"
  require_uuid e.topology_mutation_id "lane_turn.topology_mutation_id_invalid"
  require_digest e.expected_lane_head_record_digest
      "lane_turn.expected_lane_head_record_digest_invalid"
  require_digest e.topology_provisioned_record_digest
      "lane_turn.topology_provisioned_record_digest_invalid"
  require_digest e.source_result_record_digest "lane_turn.source_result_record_digest_invalid"
  require_digest e.recovery_result_store_binding_digest
      "lane_turn.recovery_result_store_binding_digest_invalid"
  require_digest e.evidence_registry_binding_digest
      "lane_turn.evidence_registry_binding_digest_invalid"
  require_digest e.source_relationship_digest "lane_turn.source_relationship_digest_invalid"
  require_digest e.evidence_link_record_digest "lane_turn.evidence_link_record_digest_invalid"

unfoldable pub RecordRecoveryResultEvidenceAnchor-discrete :
    Discrete RecordRecoveryResultEvidenceAnchor
RecordRecoveryResultEvidenceAnchor-discrete = hlevel (String-discrete, ℕ_discrete)

instance abbrev pub record_recovery_result_evidence_anchor_eq :
    Eq RecordRecoveryResultEvidenceAnchor
record_recovery_result_evidence_anchor_eq =
    eq_of_discrete RecordRecoveryResultEvidenceAnchor-discrete
