-- ===== src/LaneTurn/Correlation.antt =====
-- The tests that tie an event to the attempt, in lib/ask_herdr_lane_turn.py.
use ask_herdr.Base.{
  String, Bool, true, false, not, ◌&&◌, Option, none, some, is_none, ◌==◌, ◌/=◌, string_eq, nat_eq,
  option_eq, if◌then◌else◌, Result, guard, transition_error,
}
use ask_herdr.LaneTurn.Kinds.{
  NativeIdentityMode, establish_new, exact_resume, fork_from, mode_eq, is_consultant_turn,
  is_settled, is_turn_final,
}
use ask_herdr.LaneTurn.Events.Prepare.{PrepareAdmittedAttempt}
use ask_herdr.LaneTurn.Events.Authority.{FinalTurnAuthority}
use ask_herdr.LaneTurn.State.{LaneTurnState}

-- `_prepare_matches`
unfoldable pub prepare_matches : LaneTurnState → PrepareAdmittedAttempt → Bool
prepare_matches s e =
    s.operation == e.operation
    && s.operation_id == e.operation_id
    && s.canonical_request_digest == e.canonical_request_digest
    && s.lane_id == e.lane_id
    && s.lane_generation == e.lane_generation
    && s.attempt_id == e.attempt_id
    && s.expected_head_digest == e.expected_head_digest
    && s.native_identity_mode == e.native_identity_mode
    && s.expected_native_correlation_digest == e.expected_native_correlation_digest
    && s.expected_turn_sequence == e.expected_turn_sequence
    && s.expected_completion_marker == e.expected_completion_marker
    && s.reservation_id == e.reservation_id
    && s.direct_human_policy_record_digest == e.direct_human_policy_record_digest

-- `_common_correlates`
unfoldable pub common_correlates : LaneTurnState → String → String → String → Bool
common_correlates s operation_id canonical_request_digest attempt_id =
    s.operation_id == operation_id
    && s.canonical_request_digest == canonical_request_digest
    && s.attempt_id == attempt_id

-- `_require_common_correlation`
abbrev pub require_common_correlation : LaneTurnState → String → String → String → Result (Unit {0})
require_common_correlation s operation_id canonical_request_digest attempt_id =
    guard (common_correlates s operation_id canonical_request_digest attempt_id)
      (transition_error "lane_turn.event_correlation_conflict")

-- `established is None or established == native_correlation_digest`
abbrev pub established_allows : Option String → String → Bool
established_allows none native = true
established_allows (some established) native = established == native

-- The three rules of `_native_identity_correlates`, for the digests of the state and the event.
abbrev pub identity_rule :
    NativeIdentityMode → Option String → Option String → String → Option String → Bool
identity_rule establish_new admitted established native source =
    is_none source && established_allows established native
identity_rule exact_resume none established native source = false
identity_rule exact_resume (some admitted) established native source =
    source == some admitted && native == admitted && established_allows established native
identity_rule fork_from none established native source = false
identity_rule fork_from (some admitted) established native source =
    source == some admitted && native /= admitted && established_allows established native

-- `_native_identity_correlates`
unfoldable pub native_identity_correlates : LaneTurnState → String → Option String → Bool
native_identity_correlates s native source =
    identity_rule s.native_identity_mode s.expected_native_correlation_digest
      s.established_native_correlation_digest native source

-- The first test of `_authority_correlates`.
unfoldable pub authority_admitted : LaneTurnState → FinalTurnAuthority → Bool
unfolding common_correlates native_identity_correlates
authority_admitted s e =
    s.operation == e.operation
    && common_correlates s e.operation_id e.canonical_request_digest e.attempt_id
    && s.lane_id == e.lane_id
    && s.lane_generation == e.lane_generation
    && s.expected_head_digest == e.expected_head_digest
    && s.expected_turn_sequence == e.turn_sequence
    && native_identity_correlates s e.native_correlation_digest e.source_native_correlation_digest

-- `_authority_correlates`
unfoldable pub authority_correlates : LaneTurnState → FinalTurnAuthority → Bool
unfolding authority_admitted
authority_correlates s e =
    if not (authority_admitted s e)
    then false
    else if is_consultant_turn s.promotion
    then s.turn_id == some e.turn_id && s.turn_sequence == some e.turn_sequence
    else true

-- `_authority_complete`
unfoldable pub authority_complete : LaneTurnState → FinalTurnAuthority → Bool
authority_complete s e =
    e.response_present
    && e.response_fresh
    && e.response_stable
    && e.eof_validated
    && e.terminal_envelope_valid
    && e.completion_marker == some s.expected_completion_marker
    && e.marker_is_final_line

-- `_settled_authority_replay`
unfoldable pub settled_authority_replay : LaneTurnState → FinalTurnAuthority → Bool
unfolding authority_correlates authority_complete
settled_authority_replay s e =
    is_settled s.phase
    && is_turn_final s.outcome_kind
    && authority_correlates s e
    && authority_complete s e
    && s.turn_id == some e.turn_id
    && s.turn_sequence == some e.turn_sequence
    && s.response_digest == some e.response_digest
    && s.head_digest == e.new_head_digest
