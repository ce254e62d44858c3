-- ===== src/LaneTurn/Idempotence.antt =====
-- A repeated event changes nothing: the events of lib/ask_herdr_lane_turn.py may be delivered more
-- than once.
pub mod Topology
pub mod Delivery
use ask_herdr.Base.{
  String, ◌≡◌, refl, true, false, Option, some, none, arith, ok, ==_refl, string_eq, nat_eq,
  option_eq, inl, inr, get_last?-append_one,
}
use ask_herdr.LaneTurn.Kinds.{NativeIdentityMode, establish_new, exact_resume, fork_from, mode_eq}
use ask_herdr.LaneTurn.Events.Claim.{
  ClaimTopologyProvisioning, RecordTopologyProvisioned, claim_topology_provisioning_eq,
  record_topology_provisioned_eq,
}
use ask_herdr.LaneTurn.Events.Effects.{
  TopologyEffectStarted, TopologyCommandEffectStarted, topology_effect_started_eq,
  topology_command_effect_started_eq,
}
use ask_herdr.LaneTurn.Events.Evidence.{RecordRecoveryResultEvidenceAnchor}
use ask_herdr.LaneTurn.Events.Dispatch.{BeginDispatch, dispatch_intent_eq}
use ask_herdr.LaneTurn.Events.Observations.{
  RecordDeliveryUncertain, RecordResponseValidationConflict, RecordDefiniteNonStart,
  RecordProviderStarted, RecordAdvisoryWaitTimeout,
}
use ask_herdr.LaneTurn.Events.Authority.{FinalTurnAuthority}
use ask_herdr.LaneTurn.Events.Prepare.{PrepareAdmittedAttempt}
use ask_herdr.LaneTurn.State.{
  LaneTurnState, LaneTurnEvent, prepare, claim, effect_started, command_effect_started, provisioned,
  evidence_anchor, begin_dispatch, delivery_uncertain, response_conflict, definite_non_start,
  provider_started, wait_timeout, final_authority, prepare_state,
}
use ask_herdr.LaneTurn.Reducer.{reduce_turn}
use ask_herdr.LaneTurn.Correlation.{
  prepare_matches, common_correlates, authority_correlates, authority_complete,
  settled_authority_replay, identity_rule,
}
use ask_herdr.LaneTurn.Topology.{
  reduce_topology_claim, reduce_topology_effect_started, reduce_topology_command_effect_started,
}
use ask_herdr.LaneTurn.Settlement.{
  reduce_topology_provisioned, reduce_recovery_result_evidence_link,
}
use ask_herdr.LaneTurn.Steps.{with_start}
use ask_herdr.LaneTurn.Delivery.{
  start_correlates, reduce_dispatch, reduce_uncertain, reduce_response_conflict, reduce_non_start,
  reduce_started, reduce_wait_timeout,
}
use ask_herdr.LaneTurn.Response.{accept_final, incomplete_final, reduce_final}
use ask_herdr.LaneTurn.Steps.Handlers.{
  reduce_dispatch_cases, reduce_started_cases, reduce_final_cases,
}
use ask_herdr.LaneTurn.Anchors.{scan_anchors-append}
use ask_herdr.LaneTurn.Idempotence.Topology.{
  claim_again, effect_again, command_again, provisioned_again, anchor_again,
}
use ask_herdr.LaneTurn.Idempotence.Delivery.{
  dispatch_again, uncertain_again, non_start_again, conflict_again, timeout_again, started_again,
  final_again,
}

-- A prepared attempt matches the event that prepared it.
prepare_matches_self : (e : PrepareAdmittedAttempt) → prepare_matches (prepare_state e) e ≡ true
unfolding prepare_matches prepare_state
prepare_matches_self e = ground (
  arith,
  ==_refl e.operation,
  ==_refl e.operation_id,
  ==_refl e.canonical_request_digest,
  ==_refl e.lane_id,
  ==_refl e.attempt_id,
  ==_refl e.expected_head_digest,
  ==_refl e.native_identity_mode,
  ==_refl e.expected_native_correlation_digest,
  ==_refl e.expected_completion_marker,
  ==_refl e.reservation_id,
  ==_refl e.direct_human_policy_record_digest,
)

-- An event that was accepted is accepted again, and the second time it changes nothing.
pub reduce_turn_again :
    (state : Option LaneTurnState) (t : LaneTurnState) (event : LaneTurnEvent)
    → reduce_turn state event ≡ ok t
    → reduce_turn (some t) event ≡ ok t
unfolding reduce_turn
reduce_turn_again none t (prepare e) h =
    let same : prepare_state e ≡ t = ground arith in rw (← same) (rw (prepare_matches_self e))
reduce_turn_again none t _ h = cc
reduce_turn_again (some s) t (prepare e) h = ground arith
reduce_turn_again (some s) t (claim e) h = claim_again s t e h
reduce_turn_again (some s) t (effect_started e) h = effect_again s t e h
reduce_turn_again (some s) t (command_effect_started e) h = command_again s t e h
reduce_turn_again (some s) t (provisioned e) h = provisioned_again s t e h
reduce_turn_again (some s) t (evidence_anchor e) h = anchor_again s t e h
reduce_turn_again (some s) t (begin_dispatch e) h = dispatch_again s t e h
reduce_turn_again (some s) t (delivery_uncertain e) h = uncertain_again s t e h
reduce_turn_again (some s) t (response_conflict e) h = conflict_again s t e h
reduce_turn_again (some s) t (definite_non_start e) h = non_start_again s t e h
reduce_turn_again (some s) t (provider_started e) h = started_again s t e h
reduce_turn_again (some s) t (wait_timeout e) h = timeout_again s t e h
reduce_turn_again (some s) t (final_authority e) h = final_again s t e h
