-- ===== src/LaneTurn/Response.antt =====
-- The reducer of a final response in lib/ask_herdr_lane_turn.py.
use ask_herdr.Base.{
  true, false, not, ◌&&◌, ◌||◌, some, is_none, ◌==◌, string_eq, nat_eq, option_eq, if◌then◌else◌,
  Result, ok, raised, transition_error,
}
use ask_herdr.LaneTurn.Kinds.{
  TurnPhase, dispatching, in_flight, validating, settled, RecoveryState, clear,
  reconciliation_required, quarantined, AttemptPromotion, consultant_turn, RetryDisposition, unset,
  safe_retry_eligible, reconcile_first, TurnOutcomeKind, turn_definite_non_start, turn_final,
  turn_quarantined, turn_reconciliation_required, is_prepared, is_settled, is_clear, is_quarantined,
  is_attempt_only, is_consultant_turn, is_definite_non_start, monotonic_phase, reserve_started,
  reserve_non_start,
}
use ask_herdr.LaneTurn.Kinds
use ask_herdr.LaneTurn.Events.Dispatch.{dispatch_intent_eq}
use ask_herdr.LaneTurn.Events.Authority.{FinalTurnAuthority}
use ask_herdr.LaneTurn.State.{LaneTurnState}
use ask_herdr.LaneTurn.Correlation.{
  authority_correlates, authority_complete, settled_authority_replay,
}
use ask_herdr.LaneTurn.Delivery.{quarantine}

-- The branch of `_reduce_final` for an authority that is not complete.
abbrev pub incomplete_final : LaneTurnState → FinalTurnAuthority → LaneTurnState
incomplete_final s e = record s {
  phase = validating;
  recovery_state = reconciliation_required;
  outcome_kind = some Kinds.turn_reconciliation_required;
  retry_disposition = reconcile_first;
  possible_provider_effect_observed =
      s.possible_provider_effect_observed || (e.response_present && e.response_fresh);
  resend_allowed = false;
  release_allowed = false;
}

-- The last branch of `_reduce_final`.
abbrev pub accept_final : LaneTurnState → FinalTurnAuthority → LaneTurnState
accept_final s e = record s {
  phase = settled;
  recovery_state = clear;
  promotion = consultant_turn;
  reservation_state = reserve_started s.reservation_state;
  retry_disposition = unset;
  outcome_kind = some turn_final;
  head_digest = e.new_head_digest;
  response_digest = some e.response_digest;
  turn_id = some e.turn_id;
  turn_sequence = some e.turn_sequence;
  established_native_correlation_digest = some e.native_correlation_digest;
  possible_provider_effect_observed = true;
  resend_allowed = false;
  release_allowed = true;
}

-- `_reduce_final`
unfoldable pub reduce_final : LaneTurnState → FinalTurnAuthority → Result LaneTurnState
reduce_final s e =
    if is_none s.dispatch_intent
    then raised (transition_error "lane_turn.authority_without_dispatch_intent")
    else if is_quarantined s.recovery_state
    then ok s
    else if settled_authority_replay s e
    then ok s
    else if not (authority_correlates s e)
    then ok (quarantine s)
    else if not (authority_complete s e)
    then (if is_settled s.phase then ok (quarantine s) else ok (incomplete_final s e))
    else if e.new_head_digest == s.expected_head_digest
    then ok (quarantine s)
    else if is_settled s.phase
    then ok (quarantine s)
    else ok (accept_final s e)
