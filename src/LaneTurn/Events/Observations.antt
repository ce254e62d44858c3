-- ===== src/LaneTurn/Events/Observations.antt =====
-- What a run observes of one dispatched attempt, in lib/ask_herdr_lane_turn.py.
use ask_herdr.Base.{ℕ, String, Option, Result, ◌>>◌}
use ask_herdr.LaneTurn.Kinds.{DefiniteNonStartProof}
use ask_herdr.LaneTurn.Guards.{
  require_uuid, require_digest, require_optional_digest, require_token, require_positive_integer,
  validate_common_operation,
}

pub record RecordDeliveryUncertain : Type 0 where
  pub operation_id : String
  pub canonical_request_digest : String
  pub attempt_id : String
  pub evidence_ref_id : String

unfoldable pub validate_record_delivery_uncertain : RecordDeliveryUncertain → Result (Unit {0})
validate_record_delivery_uncertain e = do
  validate_common_operation e.operation_id e.canonical_request_digest e.attempt_id
  require_uuid e.evidence_ref_id "lane_turn.evidence_ref_id_invalid"

pub record RecordResponseValidationConflict : Type 0 where
  pub operation_id : String
  pub canonical_request_digest : String
  pub attempt_id : String
  pub evidence_ref_id : String
  pub detail_code : String

unfoldable pub validate_record_response_validation_conflict :
    RecordResponseValidationConflict → Result (Unit {0})
validate_record_response_validation_conflict e = do
  validate_common_operation e.operation_id e.canonical_request_digest e.attempt_id
  require_uuid e.evidence_ref_id "lane_turn.evidence_ref_id_invalid"
  require_token 256 e.detail_code "lane_turn.response_conflict_detail_code_invalid"

pub record RecordDefiniteNonStart : Type 0 where
  pub operation_id : String
  pub canonical_request_digest : String
  pub attempt_id : String
  pub proof : DefiniteNonStartProof
  pub evidence_ref_id : String

unfoldable pub validate_record_definite_non_start : RecordDefiniteNonStart → Result (Unit {0})
validate_record_definite_non_start e = do
  validate_common_operation e.operation_id e.canonical_request_digest e.attempt_id
  require_uuid e.evidence_ref_id "lane_turn.evidence_ref_id_invalid"

pub record RecordProviderStarted : Type 0 where
  pub operation_id : String
  pub canonical_request_digest : String
  pub lane_id : String
  pub lane_generation : ℕ
  pub attempt_id : String
  pub turn_id : String
  pub turn_sequence : ℕ
  pub native_correlation_digest : String
  pub source_native_correlation_digest : Option String
  pub evidence_ref_id : String

unfoldable pub validate_record_provider_started : RecordProviderStarted → Result (Unit {0})
validate_record_provider_started e = do
  validate_common_operation e.operation_id e.canonical_request_digest e.attempt_id
  require_uuid e.lane_id "lane_turn.lane_id_invalid"
  require_positive_integer e.lane_generation "lane_turn.lane_generation_invalid"
  require_uuid e.turn_id "lane_turn.turn_id_invalid"
  require_positive_integer e.turn_sequence "lane_turn.turn_sequence_invalid"
  require_digest e.native_correlation_digest "lane_turn.native_correlation_digest_invalid"
  require_optional_digest e.source_native_correlation_digest
      "lane_turn.source_native_correlation_digest_invalid"
  require_uuid e.evidence_ref_id "lane_turn.evidence_ref_id_invalid"

pub record RecordAdvisoryWaitTimeout : Type 0 where
  pub operation_id : String
  pub canonical_request_digest : String
  pub attempt_id : String
  pub evidence_ref_id : String

unfoldable pub validate_record_advisory_wait_timeout : RecordAdvisoryWaitTimeout → Result (Unit {0})
validate_record_advisory_wait_timeout e = do
  validate_common_operation e.operation_id e.canonical_request_digest e.attempt_id
  require_uuid e.evidence_ref_id "lane_turn.evidence_ref_id_invalid"
