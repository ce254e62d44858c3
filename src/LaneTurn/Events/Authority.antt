-- ===== src/LaneTurn/Events/Authority.antt =====
-- FinalTurnAuthority of lib/ask_herdr_lane_turn.py: the proof of one final response.
use ask_herdr.Base.{ℕ, String, Bool, Option, Result, ◌>>◌}
use ask_herdr.LaneTurn.Guards.{
  require_uuid, require_digest, require_optional_digest, require_optional_token,
  require_positive_integer, require_operation, validate_common_operation,
}

pub record FinalTurnAuthority : Type 0 where
  pub response_present : Bool
  pub response_fresh : Bool
  pub response_stable : Bool
  pub eof_validated : Bool
  pub terminal_envelope_valid : Bool
  pub completion_marker : Option String
  pub marker_is_final_line : Bool
  pub operation : String
  pub operation_id : String
  pub canonical_request_digest : String
  pub lane_id : String
  pub lane_generation : ℕ
  pub attempt_id : String
  pub expected_head_digest : String
  pub native_correlation_digest : String
  pub source_native_correlation_digest : Option String
  pub turn_id : String
  pub turn_sequence : ℕ
  pub response_digest : String
  pub new_head_digest : String
  pub evidence_ref_id : String

unfoldable pub validate_final_turn_authority : FinalTurnAuthority → Result (Unit {0})
validate_final_turn_authority e = do
  require_optional_token 512 e.completion_marker "lane_turn.completion_marker_invalid"
  require_operation e.operation
  validate_common_operation e.operation_id e.canonical_request_digest e.attempt_id
  require_uuid e.lane_id "lane_turn.lane_id_invalid"
  require_positive_integer e.lane_generation "lane_turn.lane_generation_invalid"
  require_digest e.expected_head_digest "lane_turn.expected_head_digest_invalid"
  require_digest e.native_correlation_digest "lane_turn.native_correlation_digest_invalid"
  require_optional_digest e.source_native_correlation_digest
      "lane_turn.source_native_correlation_digest_invalid"
  require_uuid e.turn_id "lane_turn.turn_id_invalid"
  require_positive_integer e.turn_sequence "lane_turn.turn_sequence_invalid"
  require_digest e.response_digest "lane_turn.response_digest_invalid"
  require_digest e.new_head_digest "lane_turn.new_head_digest_invalid"
  require_uuid e.evidence_ref_id "lane_turn.evidence_ref_id_invalid"
