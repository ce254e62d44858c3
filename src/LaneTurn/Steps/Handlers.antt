-- ===== src/LaneTurn/Steps/Handlers.antt =====
-- What each reducer of lib/ask_herdr_lane_turn.py has checked and written when it accepts an event.
use ask_herdr.Base.{
  ◌≡◌, ◌≢◌, ◌⊎◌, true, false, none, some, is_some, arith, ok, ==_iff, string_eq, get_last?,
}
use ask_herdr.LaneTurn.Kinds.{settled, prepared, clear, quarantined, attempt_only}
use ask_herdr.LaneTurn.Events.Claim.{ClaimTopologyProvisioning, RecordTopologyProvisioned}
use ask_herdr.LaneTurn.Events.Effects.{TopologyEffectStarted, TopologyCommandEffectStarted}
use ask_herdr.LaneTurn.Events.Evidence.{RecordRecoveryResultEvidenceAnchor}
use ask_herdr.LaneTurn.Events.Dispatch.{BeginDispatch, DispatchIntent, intent}
use ask_herdr.LaneTurn.Events.Observations.{
  RecordDeliveryUncertain, RecordResponseValidationConflict, RecordDefiniteNonStart,
  RecordProviderStarted, RecordAdvisoryWaitTimeout,
}
use ask_herdr.LaneTurn.Events.Authority.{FinalTurnAuthority}
use ask_herdr.LaneTurn.State.{LaneTurnState}
use ask_herdr.LaneTurn.Correlation.{common_correlates, authority_correlates, authority_complete}
use ask_herdr.LaneTurn.Topology.{
  claim_is_admissible, claim_matches_provisioned, effect_is_admissible, command_is_admissible,
  command_link, reduce_topology_claim, reduce_topology_effect_started,
  reduce_topology_command_effect_started,
}
use ask_herdr.LaneTurn.Settlement.{
  fresh, check_effect_records, scan_anchors, anchor_is_admissible, reduce_topology_provisioned,
  reduce_recovery_result_evidence_link,
}
use ask_herdr.LaneTurn.Delivery.{
  quarantine, require_dispatch_topology, start_correlates, reduce_dispatch, reduce_uncertain,
  reduce_response_conflict, reduce_non_start, reduce_started, reduce_wait_timeout,
}
use ask_herdr.LaneTurn.Response.{incomplete_final, accept_final, reduce_final}
use ask_herdr.LaneTurn.Steps.{
  with_claim, with_effect, with_command, with_provisioned, with_anchor, with_intent,
  with_uncertainty, with_non_start, with_provider_effect, with_start, with_timeout,
}

-- A claim is recorded once, before any proof, by an admissible event.
pub reduce_topology_claim_cases :
    (s t : LaneTurnState) (e : ClaimTopologyProvisioning)
    → reduce_topology_claim s e ≡ ok t
    → (t ≡ s)
      ⊎ ((s.topology_provisioned ≡ none)
          × (s.topology_provisioning_claim ≡ none)
          × (claim_is_admissible s e ≡ true)
          × (t ≡ with_claim s e))
unfolding reduce_topology_claim
reduce_topology_claim_cases s t e h = ground arith

-- The first effect is recorded once, under a matching claim.
pub reduce_topology_effect_started_cases :
    (s t : LaneTurnState) (e : TopologyEffectStarted)
    → reduce_topology_effect_started s e ≡ ok t
    → (t ≡ s)
      ⊎ ((s.topology_effect_started ≡ none)
          × (effect_is_admissible s e ≡ true)
          × (t ≡ with_effect s e))
unfolding reduce_topology_effect_started
reduce_topology_effect_started_cases s t e h = ground arith

-- A later effect is appended by an admissible event that is linked.
pub reduce_topology_command_effect_started_cases :
    (s t : LaneTurnState) (e : TopologyCommandEffectStarted)
    → reduce_topology_command_effect_started s e ≡ ok t
    → (t ≡ s)
      ⊎ ((command_is_admissible s e ≡ true)
          × (command_link (get_last? s.topology_command_effects_started) e ≡ true)
          × (t ≡ with_command s e))
unfolding reduce_topology_command_effect_started
reduce_topology_command_effect_started_cases s t e h = ground arith

-- A proof takes the place of the claim that it matches.
pub reduce_topology_provisioned_cases :
    (s t : LaneTurnState) (e : RecordTopologyProvisioned)
    → reduce_topology_provisioned s e ≡ ok t
    → (t ≡ s)
      ⊎ ((c : ClaimTopologyProvisioning) × (s.topology_provisioned ≡ none)
          × (s.topology_provisioning_claim ≡ some c)
          × (claim_matches_provisioned c e ≡ true)
          × (check_effect_records s c e ≡ ok tt)
          × (t ≡ with_provisioned s e))
unfolding reduce_topology_provisioned
reduce_topology_provisioned_cases s t e h = ground arith

-- An anchor is appended when no earlier one clashes.
pub reduce_recovery_result_evidence_link_cases :
    (s t : LaneTurnState) (e : RecordRecoveryResultEvidenceAnchor)
    → reduce_recovery_result_evidence_link s e ≡ ok t
    → (t ≡ s)
      ⊎ ((scan_anchors s.recovery_result_evidence_anchors e ≡ fresh)
          × (anchor_is_admissible s e ≡ true)
          × (t ≡ with_anchor s e))
unfolding reduce_recovery_result_evidence_link
reduce_recovery_result_evidence_link_cases s t e h = ground arith

-- An intent is recorded once, in a clear, prepared attempt.
pub reduce_dispatch_cases :
    (s t : LaneTurnState) (e : BeginDispatch)
    → reduce_dispatch s e ≡ ok t
    → (t ≡ s)
      ⊎ ((i : DispatchIntent) × (common_correlates s e.operation_id e.canonical_request_digest
              e.attempt_id
            ≡ true)
          × (require_dispatch_topology s e ≡ ok tt)
          × (intent e ≡ ok i)
          × (s.dispatch_intent ≡ none)
          × (s.phase ≡ prepared)
          × (s.recovery_state ≡ clear)
          × (s.outcome_kind ≡ none)
          × (t ≡ with_intent s i))
unfolding reduce_dispatch
reduce_dispatch_cases s t e h = ground arith

-- Lost delivery is recorded of an open attempt that has not started.
pub reduce_uncertain_cases :
    (s t : LaneTurnState) (e : RecordDeliveryUncertain)
    → reduce_uncertain s e ≡ ok t
    → (t ≡ s)
      ⊎ ((is_some s.dispatch_intent ≡ true)
          × (s.phase ≢ settled)
          × (s.recovery_state ≢ quarantined)
          × (s.promotion ≡ attempt_only)
          × (t ≡ with_uncertainty s))
unfolding reduce_uncertain
reduce_uncertain_cases s t e h = ground arith

-- A proof of non-start settles an open attempt with no observed effect, and isolates any other.
pub reduce_non_start_cases :
    (s t : LaneTurnState) (e : RecordDefiniteNonStart)
    → reduce_non_start s e ≡ ok t
    → (t ≡ s)
      ⊎ ((is_some s.dispatch_intent ≡ true) × (t ≡ quarantine s))
      ⊎ ((is_some s.dispatch_intent ≡ true)
          × (s.phase ≢ settled)
          × (s.possible_provider_effect_observed ≡ false)
          × (s.promotion ≡ attempt_only)
          × (t ≡ with_non_start s))
unfolding reduce_non_start
reduce_non_start_cases s t e h = ground arith

-- A conflict isolates the turn and records a possible effect.
pub reduce_response_conflict_cases :
    (s t : LaneTurnState) (e : RecordResponseValidationConflict)
    → reduce_response_conflict s e ≡ ok t
    → (t ≡ s) ⊎ ((s.recovery_state ≢ quarantined) × (t ≡ with_provider_effect s))
unfolding reduce_response_conflict
reduce_response_conflict_cases s t e h = ground arith

-- A start promotes an open attempt that it correlates with, and isolates any other.
pub reduce_started_cases :
    (s t : LaneTurnState) (e : RecordProviderStarted)
    → reduce_started s e ≡ ok t
    → (t ≡ s)
      ⊎ ((s.recovery_state ≢ quarantined) × (t ≡ with_provider_effect s))
      ⊎ ((is_some s.dispatch_intent ≡ true) × (t ≡ quarantine s))
      ⊎ ((is_some s.dispatch_intent ≡ true)
          × (s.phase ≢ settled)
          × (s.recovery_state ≢ quarantined)
          × (s.promotion ≡ attempt_only)
          × (start_correlates s e ≡ true)
          × (t ≡ with_start s e))
unfolding reduce_started
reduce_started_cases s t e h = ground arith

-- A timeout asks for reconciliation of an open attempt.
pub reduce_wait_timeout_cases :
    (s t : LaneTurnState) (e : RecordAdvisoryWaitTimeout)
    → reduce_wait_timeout s e ≡ ok t
    → (t ≡ s)
      ⊎ ((is_some s.dispatch_intent ≡ true)
          × (s.phase ≢ settled)
          × (s.recovery_state ≢ quarantined)
          × (t ≡ with_timeout s))
unfolding reduce_wait_timeout
reduce_wait_timeout_cases s t e h = ground arith

-- An authority concludes an open attempt only if it correlates and is complete.
pub reduce_final_cases :
    (s t : LaneTurnState) (e : FinalTurnAuthority)
    → reduce_final s e ≡ ok t
    → (t ≡ s)
      ⊎ ((is_some s.dispatch_intent ≡ true) × (t ≡ quarantine s))
      ⊎ ((is_some s.dispatch_intent ≡ true)
          × (s.phase ≢ settled)
          × (s.recovery_state ≢ quarantined)
          × (authority_correlates s e ≡ true)
          × (authority_complete s e ≡ false)
          × (t ≡ incomplete_final s e))
      ⊎ ((is_some s.dispatch_intent ≡ true)
          × (s.phase ≢ settled)
          × (s.recovery_state ≢ quarantined)
          × (authority_correlates s e ≡ true)
          × (authority_complete s e ≡ true)
          × (e.new_head_digest ≢ s.expected_head_digest)
          × (t ≡ accept_final s e))
unfolding reduce_final
reduce_final_cases s t e h = ground (arith, ==_iff e.new_head_digest s.expected_head_digest)
