-- ===== src/LaneTurn/Events/Prepare.antt =====
-- PrepareAdmittedAttempt of lib/ask_herdr_lane_turn.py: the admission of one attempt.
use ask_herdr.Base.{
  ℕ, String, Option, none, some, Result, raised, value_error, guard, ◌>>◌, if◌then◌else◌, is_none,
}
use ask_herdr.LaneTurn.Kinds.{NativeIdentityMode, is_establish_new}
use ask_herdr.LaneTurn.Guards.{
  require_uuid, require_digest, require_optional_digest, require_token, require_optional_token,
  require_positive_integer, require_operation, validate_common_operation, mode_allowed,
}

-- `None` is no text, so `_require_digest` refuses it.
abbrev pub require_present_digest : Option String → Result (Unit {0})
require_present_digest none =
    raised (value_error "lane_turn.expected_native_correlation_digest_invalid")
require_present_digest (some value) =
    require_digest value "lane_turn.expected_native_correlation_digest_invalid"

-- The null rule of `establish_new` and the digest that every other mode needs.
abbrev pub require_native_identity : NativeIdentityMode → Option String → Result (Unit {0})
require_native_identity mode expected =
    if is_establish_new mode
    then guard (is_none expected)
        (value_error "lane_turn.establish_new_native_identity_must_be_null")
    else require_present_digest expected

pub record PrepareAdmittedAttempt : Type 0 where
  pub operation : String
  pub operation_id : String
  pub canonical_request_digest : String
  pub lane_id : String
  pub lane_generation : ℕ
  pub attempt_id : String
  pub expected_head_digest : String
  pub native_identity_mode : NativeIdentityMode
  pub expected_native_correlation_digest : Option String
  pub expected_turn_sequence : ℕ
  pub expected_completion_marker : String
  pub reservation_id : Option String
  pub direct_human_policy_record_digest : Option String

unfoldable pub validate_prepare_admitted_attempt : PrepareAdmittedAttempt → Result (Unit {0})
validate_prepare_admitted_attempt e = do
  require_operation e.operation
  validate_common_operation e.operation_id e.canonical_request_digest e.attempt_id
  require_uuid e.lane_id "lane_turn.lane_id_invalid"
  require_positive_integer e.lane_generation "lane_turn.lane_generation_invalid"
  require_digest e.expected_head_digest "lane_turn.expected_head_digest_invalid"
  guard (mode_allowed e.operation e.native_identity_mode)
      (value_error "lane_turn.native_identity_mode_not_allowed")
  require_native_identity e.native_identity_mode e.expected_native_correlation_digest
  require_positive_integer e.expected_turn_sequence "lane_turn.expected_turn_sequence_invalid"
  require_token 512 e.expected_completion_marker "lane_turn.expected_completion_marker_invalid"
  require_optional_token 256 e.reservation_id "lane_turn.reservation_id_invalid"
  require_optional_digest e.direct_human_policy_record_digest
      "lane_turn.direct_human_policy_record_digest_invalid"
