-- ===== src/LaneTurn/Delivery.antt =====
-- The dispatch, delivery and response reducers of lib/ask_herdr_lane_turn.py.
use ask_herdr.Base.{
  Bool, true, false, not, ◌&&◌, ◌||◌, Option, none, some, is_none, is_some, ◌==◌, string_eq, nat_eq,
  option_eq, if◌then◌else◌, Result, ok, raised, transition_error, ◌>>=◌, ◌>>◌, guard,
}
use ask_herdr.LaneTurn.Kinds.{
  TurnPhase, dispatching, in_flight, validating, settled, RecoveryState, clear,
  reconciliation_required, quarantined, AttemptPromotion, consultant_turn, RetryDisposition, unset,
  safe_retry_eligible, reconcile_first, TurnOutcomeKind, turn_definite_non_start, turn_final,
  turn_quarantined, turn_reconciliation_required, is_prepared, is_settled, is_clear, is_quarantined,
  is_attempt_only, is_consultant_turn, is_definite_non_start, monotonic_phase, reserve_started,
  reserve_non_start,
}
use ask_herdr.LaneTurn.Kinds
use ask_herdr.LaneTurn.Events.Dispatch.{BeginDispatch, DispatchIntent, dispatch_intent_eq, intent}
use ask_herdr.LaneTurn.Events.Observations.{
  RecordDeliveryUncertain, RecordResponseValidationConflict, RecordDefiniteNonStart,
  RecordProviderStarted, RecordAdvisoryWaitTimeout,
}
use ask_herdr.LaneTurn.State.{LaneTurnState}
use ask_herdr.LaneTurn.Correlation.{
  common_correlates, require_common_correlation, native_identity_correlates,
}

-- `_quarantine`
abbrev pub quarantine : LaneTurnState → LaneTurnState
quarantine s = record s {
  phase = if is_settled s.phase then settled else validating;
  recovery_state = quarantined;
  outcome_kind = some turn_quarantined;
  retry_disposition = unset;
  resend_allowed = false;
  release_allowed = false;
}

-- The topology test of `_reduce_dispatch`.
abbrev pub require_dispatch_topology : LaneTurnState → BeginDispatch → Result (Unit {0})
require_dispatch_topology s e =
    if is_some s.direct_human_policy_record_digest
    then elim s.topology_provisioned [
      | none ↦ raised (transition_error "lane_turn.topology_provisioning_not_settled")
      | some p ↦
          guard (e.project_topology_digest == some p.project_topology_digest)
            (transition_error "lane_turn.topology_provisioning_digest_mismatch")
    ]
    else guard (is_none e.project_topology_digest)
        (transition_error "lane_turn.project_topology_digest_not_admissible")

-- The rest of `_reduce_dispatch`, once the intent is built.
abbrev pub record_intent : LaneTurnState → DispatchIntent → Result LaneTurnState
record_intent s intended = elim s.dispatch_intent [
  | some existing ↦
      if existing == intended
      then ok s
      else raised (transition_error "lane_turn.dispatch_intent_conflict")
  | none ↦
      if not (is_prepared s.phase) || (not (is_clear s.recovery_state) || is_some s.outcome_kind)
      then raised (transition_error "lane_turn.dispatch_not_admissible")
      else ok (record s {
        phase = monotonic_phase s.phase dispatching;
        dispatch_intent = some intended;
      })
]

-- `_reduce_dispatch`
unfoldable pub reduce_dispatch : LaneTurnState → BeginDispatch → Result LaneTurnState
reduce_dispatch s e = do
  require_common_correlation s e.operation_id e.canonical_request_digest e.attempt_id
  require_dispatch_topology s e
  intended ← intent e
  record_intent s intended

-- `_reduce_uncertain`
unfoldable pub reduce_uncertain : LaneTurnState → RecordDeliveryUncertain → Result LaneTurnState
reduce_uncertain s e = do
  require_common_correlation s e.operation_id e.canonical_request_digest e.attempt_id
  (if is_quarantined s.recovery_state
      then ok s
      else if is_none s.dispatch_intent || is_settled s.phase
      then raised (transition_error "lane_turn.delivery_observation_not_admissible")
      else if is_consultant_turn s.promotion
      then raised (transition_error "lane_turn.delivery_already_started")
      else ok (record s {
        phase = monotonic_phase s.phase dispatching;
        recovery_state = reconciliation_required;
        outcome_kind = some Kinds.delivery_uncertain;
        retry_disposition = reconcile_first;
        resend_allowed = false;
        release_allowed = false;
      }))

-- `_reduce_non_start`
unfoldable pub reduce_non_start : LaneTurnState → RecordDefiniteNonStart → Result LaneTurnState
reduce_non_start s e = do
  require_common_correlation s e.operation_id e.canonical_request_digest e.attempt_id
  (if is_none s.dispatch_intent
      then raised (transition_error "lane_turn.non_start_without_dispatch_intent")
      else if s.possible_provider_effect_observed
      then ok (quarantine s)
      else if not (is_attempt_only s.promotion)
      then ok (quarantine s)
      else if is_settled s.phase
      then (if is_definite_non_start s.outcome_kind then ok s else ok (quarantine s))
      else ok (record s {
        phase = settled;
        recovery_state = clear;
        reservation_state = reserve_non_start s.reservation_state;
        outcome_kind = some turn_definite_non_start;
        retry_disposition = safe_retry_eligible;
        resend_allowed = false;
        release_allowed = true;
      }))

-- `_reduce_response_conflict`
unfoldable pub reduce_response_conflict :
    LaneTurnState → RecordResponseValidationConflict → Result LaneTurnState
reduce_response_conflict s e = do
  require_common_correlation s e.operation_id e.canonical_request_digest e.attempt_id
  (if is_none s.dispatch_intent
      then raised (transition_error "lane_turn.response_conflict_without_dispatch_intent")
      else if is_quarantined s.recovery_state
      then ok s
      else ok (record (quarantine s) { possible_provider_effect_observed = true }))

-- The correlation test of `_reduce_started`.
unfoldable pub start_correlates : LaneTurnState → RecordProviderStarted → Bool
unfolding common_correlates native_identity_correlates
start_correlates s e =
    common_correlates s e.operation_id e.canonical_request_digest e.attempt_id
    && s.lane_id == e.lane_id
    && s.lane_generation == e.lane_generation
    && s.expected_turn_sequence == e.turn_sequence
    && native_identity_correlates s e.native_correlation_digest e.source_native_correlation_digest

-- The `outcome` and the `retry` that `_reduce_started` computes.
abbrev pub started_outcome : RecoveryState → Option TurnOutcomeKind → Option TurnOutcomeKind
started_outcome clear outcome = none
started_outcome reconciliation_required outcome = some Kinds.turn_reconciliation_required
started_outcome quarantined outcome = outcome

abbrev pub started_retry : RecoveryState → RetryDisposition → RetryDisposition
started_retry clear retry = unset
started_retry reconciliation_required retry = reconcile_first
started_retry quarantined retry = retry

-- `_reduce_started`
unfoldable pub reduce_started : LaneTurnState → RecordProviderStarted → Result LaneTurnState
reduce_started s e =
    if is_quarantined s.recovery_state
    then ok s
    else if not (start_correlates s e)
    then ok (record (quarantine s) { possible_provider_effect_observed = true })
    else if is_none s.dispatch_intent
    then raised (transition_error "lane_turn.provider_start_without_dispatch_intent")
    else if is_consultant_turn s.promotion
    then (if s.turn_id == some e.turn_id
          && s.turn_sequence == some e.turn_sequence
          && s.established_native_correlation_digest == some e.native_correlation_digest
        then ok s
        else ok (quarantine s))
    else if is_settled s.phase
    then ok (quarantine s)
    else ok (record s {
      phase = monotonic_phase s.phase in_flight;
      promotion = consultant_turn;
      reservation_state = reserve_started s.reservation_state;
      outcome_kind = started_outcome s.recovery_state s.outcome_kind;
      retry_disposition = started_retry s.recovery_state s.retry_disposition;
      turn_id = some e.turn_id;
      turn_sequence = some e.turn_sequence;
      established_native_correlation_digest = some e.native_correlation_digest;
      possible_provider_effect_observed = true;
      resend_allowed = false;
      release_allowed = false;
    })

-- `_reduce_wait_timeout`
unfoldable pub reduce_wait_timeout :
    LaneTurnState → RecordAdvisoryWaitTimeout → Result LaneTurnState
reduce_wait_timeout s e = do
  require_common_correlation s e.operation_id e.canonical_request_digest e.attempt_id
  (if is_quarantined s.recovery_state
      then ok s
      else if is_none s.dispatch_intent || is_settled s.phase
      then raised (transition_error "lane_turn.wait_observation_not_admissible")
      else ok (record s {
        recovery_state = reconciliation_required;
        outcome_kind = some Kinds.turn_reconciliation_required;
        retry_disposition = reconcile_first;
        advisory_wait_timed_out = true;
        resend_allowed = false;
        release_allowed = false;
      }))
