-- ===== src/LaneTurn/State.antt =====
-- `LaneTurnState`, the union of events and `_prepare` of lib/ask_herdr_lane_turn.py.
use ask_herdr.Base.{ℕ, String, Bool, false, Option, none, List, [], is_some, if◌then◌else◌}
use ask_herdr.LaneTurn.Kinds.{
  TurnPhase, prepared, RecoveryState, clear, AttemptPromotion, attempt_only, ReservationState, held,
  not_counted, RetryDisposition, unset, TurnOutcomeKind, NativeIdentityMode,
}
use ask_herdr.LaneTurn.Events.Prepare.{PrepareAdmittedAttempt}
use ask_herdr.LaneTurn.Events.Claim.{ClaimTopologyProvisioning, RecordTopologyProvisioned}
use ask_herdr.LaneTurn.Events.Effects.{TopologyEffectStarted, TopologyCommandEffectStarted}
use ask_herdr.LaneTurn.Events.Evidence.{RecordRecoveryResultEvidenceAnchor}
use ask_herdr.LaneTurn.Events.Dispatch.{BeginDispatch, DispatchIntent}
use ask_herdr.LaneTurn.Events.Observations.{
  RecordDeliveryUncertain, RecordResponseValidationConflict, RecordDefiniteNonStart,
  RecordProviderStarted, RecordAdvisoryWaitTimeout,
}
use ask_herdr.LaneTurn.Events.Authority.{FinalTurnAuthority}

pub record LaneTurnState : Type 0 where
  pub operation : String
  pub operation_id : String
  pub canonical_request_digest : String
  pub lane_id : String
  pub lane_generation : ℕ
  pub attempt_id : String
  pub expected_head_digest : String
  pub native_identity_mode : NativeIdentityMode
  pub expected_native_correlation_digest : Option String
  pub established_native_correlation_digest : Option String
  pub expected_turn_sequence : ℕ
  pub expected_completion_marker : String
  pub reservation_id : Option String
  pub phase : TurnPhase
  pub recovery_state : RecoveryState
  pub promotion : AttemptPromotion
  pub reservation_state : ReservationState
  pub retry_disposition : RetryDisposition
  pub outcome_kind : Option TurnOutcomeKind
  pub head_digest : String
  pub response_digest : Option String
  pub turn_id : Option String
  pub turn_sequence : Option ℕ
  pub dispatch_intent : Option DispatchIntent
  pub advisory_wait_timed_out : Bool
  pub possible_provider_effect_observed : Bool
  pub resend_allowed : Bool
  pub release_allowed : Bool
  pub direct_human_policy_record_digest : Option String
  pub topology_provisioning_claim : Option ClaimTopologyProvisioning
  pub topology_provisioned : Option RecordTopologyProvisioned
  pub topology_effect_started : Option TopologyEffectStarted
  pub topology_command_effects_started : List TopologyCommandEffectStarted
  pub recovery_result_evidence_anchors : List RecordRecoveryResultEvidenceAnchor

pub data LaneTurnEvent : Type 0 where
  prepare : PrepareAdmittedAttempt → LaneTurnEvent
  claim : ClaimTopologyProvisioning → LaneTurnEvent
  effect_started : TopologyEffectStarted → LaneTurnEvent
  command_effect_started : TopologyCommandEffectStarted → LaneTurnEvent
  provisioned : RecordTopologyProvisioned → LaneTurnEvent
  evidence_anchor : RecordRecoveryResultEvidenceAnchor → LaneTurnEvent
  begin_dispatch : BeginDispatch → LaneTurnEvent
  delivery_uncertain : RecordDeliveryUncertain → LaneTurnEvent
  response_conflict : RecordResponseValidationConflict → LaneTurnEvent
  definite_non_start : RecordDefiniteNonStart → LaneTurnEvent
  provider_started : RecordProviderStarted → LaneTurnEvent
  wait_timeout : RecordAdvisoryWaitTimeout → LaneTurnEvent
  final_authority : FinalTurnAuthority → LaneTurnEvent

-- `_prepare`
unfoldable pub prepare_state : PrepareAdmittedAttempt → LaneTurnState
prepare_state e = record {
  operation = e.operation;
  operation_id = e.operation_id;
  canonical_request_digest = e.canonical_request_digest;
  lane_id = e.lane_id;
  lane_generation = e.lane_generation;
  attempt_id = e.attempt_id;
  expected_head_digest = e.expected_head_digest;
  native_identity_mode = e.native_identity_mode;
  expected_native_correlation_digest = e.expected_native_correlation_digest;
  established_native_correlation_digest = none;
  expected_turn_sequence = e.expected_turn_sequence;
  expected_completion_marker = e.expected_completion_marker;
  reservation_id = e.reservation_id;
  phase = prepared;
  recovery_state = clear;
  promotion = attempt_only;
  reservation_state = if is_some e.reservation_id then held else not_counted;
  retry_disposition = unset;
  outcome_kind = none;
  head_digest = e.expected_head_digest;
  response_digest = none;
  turn_id = none;
  turn_sequence = none;
  dispatch_intent = none;
  advisory_wait_timed_out = false;
  possible_provider_effect_observed = false;
  resend_allowed = false;
  release_allowed = false;
  direct_human_policy_record_digest = e.direct_human_policy_record_digest;
  topology_provisioning_claim = none;
  topology_provisioned = none;
  topology_effect_started = none;
  topology_command_effects_started = [];
  recovery_result_evidence_anchors = [];
}
