-- ===== src/LaneTurn/Steps.antt =====
-- The steps of a lane turn: each way in which an accepted event changes the state, with
-- the facts that the reducers of lib/ask_herdr_lane_turn.py check before they change it.
pub mod Handlers
pub mod Refinement
use ask_herdr.Base.{
  ◌≡◌, ◌≢◌, Bool, true, false, Option, none, some, List, [], ◌∷◌, ◌++◌, is_none, is_some, Result,
  ok, get_last?,
}
use ask_herdr.LaneTurn.Kinds.{
  dispatching, in_flight, prepared, settled, clear, reconciliation_required, quarantined,
  consultant_turn, attempt_only, reconcile_first, safe_retry_eligible, turn_definite_non_start,
  turn_reconciliation_required, delivery_uncertain, monotonic_phase, reserve_started,
  reserve_non_start,
}
use ask_herdr.LaneTurn.Events.Claim.{ClaimTopologyProvisioning, RecordTopologyProvisioned}
use ask_herdr.LaneTurn.Events.Effects.{TopologyEffectStarted, TopologyCommandEffectStarted}
use ask_herdr.LaneTurn.Events.Evidence.{RecordRecoveryResultEvidenceAnchor}
use ask_herdr.LaneTurn.Events.Dispatch.{BeginDispatch, DispatchIntent, intent}
use ask_herdr.LaneTurn.Events.Observations.{RecordProviderStarted}
use ask_herdr.LaneTurn.Events.Authority.{FinalTurnAuthority}
use ask_herdr.LaneTurn.State.{LaneTurnState}
use ask_herdr.LaneTurn.Correlation.{common_correlates, authority_correlates, authority_complete}
use ask_herdr.LaneTurn.Topology.{
  claim_is_admissible, claim_matches_provisioned, effect_is_admissible, command_is_admissible,
  command_link,
}
use ask_herdr.LaneTurn.Settlement.{
  AnchorScan, fresh, check_effect_records, scan_anchors, anchor_is_admissible,
}
use ask_herdr.LaneTurn.Delivery.{
  quarantine, require_dispatch_topology, start_correlates, started_outcome, started_retry,
}
use ask_herdr.LaneTurn.Response.{incomplete_final, accept_final}

-- The writes that the reducers make.
abbrev pub with_claim : LaneTurnState → ClaimTopologyProvisioning → LaneTurnState
with_claim s e = record s {
  topology_provisioning_claim = some e;
  resend_allowed = false;
  release_allowed = false;
}

abbrev pub with_effect : LaneTurnState → TopologyEffectStarted → LaneTurnState
with_effect s e = record s {
  topology_effect_started = some e;
  resend_allowed = false;
  release_allowed = false;
}

abbrev pub with_command : LaneTurnState → TopologyCommandEffectStarted → LaneTurnState
with_command s e = record s {
  topology_command_effects_started = s.topology_command_effects_started ++ e ∷ [];
  resend_allowed = false;
  release_allowed = false;
}

abbrev pub with_provisioned : LaneTurnState → RecordTopologyProvisioned → LaneTurnState
with_provisioned s e = record s {
  topology_provisioning_claim = none;
  topology_provisioned = some e;
  resend_allowed = false;
  release_allowed = false;
}

abbrev pub with_anchor : LaneTurnState → RecordRecoveryResultEvidenceAnchor → LaneTurnState
with_anchor s e = record s {
  recovery_result_evidence_anchors = s.recovery_result_evidence_anchors ++ e ∷ [];
}

abbrev pub with_intent : LaneTurnState → DispatchIntent → LaneTurnState
with_intent s i = record s { phase = monotonic_phase s.phase dispatching; dispatch_intent = some i }

abbrev pub with_uncertainty : LaneTurnState → LaneTurnState
with_uncertainty s = record s {
  phase = monotonic_phase s.phase dispatching;
  recovery_state = reconciliation_required;
  outcome_kind = some delivery_uncertain;
  retry_disposition = reconcile_first;
  resend_allowed = false;
  release_allowed = false;
}

abbrev pub with_non_start : LaneTurnState → LaneTurnState
with_non_start s = record s {
  phase = settled;
  recovery_state = clear;
  reservation_state = reserve_non_start s.reservation_state;
  outcome_kind = some turn_definite_non_start;
  retry_disposition = safe_retry_eligible;
  resend_allowed = false;
  release_allowed = true;
}

abbrev pub with_provider_effect : LaneTurnState → LaneTurnState
with_provider_effect s = record (quarantine s) { possible_provider_effect_observed = true }

abbrev pub with_start : LaneTurnState → RecordProviderStarted → LaneTurnState
with_start s e = record s {
  phase = monotonic_phase s.phase in_flight;
  promotion = consultant_turn;
  reservation_state = reserve_started s.reservation_state;
  outcome_kind = started_outcome s.recovery_state s.outcome_kind;
  retry_disposition = started_retry s.recovery_state s.retry_disposition;
  turn_id = some e.turn_id;
  turn_sequence = some e.turn_sequence;
  established_native_correlation_digest = some e.native_correlation_digest;
  possible_provider_effect_observed = true;
  resend_allowed = false;
  release_allowed = false;
}

abbrev pub with_timeout : LaneTurnState → LaneTurnState
with_timeout s = record s {
  recovery_state = reconciliation_required;
  outcome_kind = some turn_reconciliation_required;
  retry_disposition = reconcile_first;
  advisory_wait_timed_out = true;
  resend_allowed = false;
  release_allowed = false;
}

-- What the reducers have checked of a dispatched attempt that is still open.
pub record IsOpen (s : LaneTurnState) : Type 0 where
  pub dispatched : is_some s.dispatch_intent ≡ true
  pub unsettled : s.phase ≢ settled

pub data Step (s t : LaneTurnState) : Type 0 where
  stays : t ≡ s → Step s t
  claims :
      (e : ClaimTopologyProvisioning)
      → s.topology_provisioned ≡ none
      → s.topology_provisioning_claim ≡ none
      → claim_is_admissible s e ≡ true
      → t ≡ with_claim s e
      → Step s t
  starts_effect :
      (e : TopologyEffectStarted)
      → s.topology_effect_started ≡ none
      → effect_is_admissible s e ≡ true
      → t ≡ with_effect s e
      → Step s t
  starts_command :
      (e : TopologyCommandEffectStarted)
      → command_is_admissible s e ≡ true
      → command_link (get_last? s.topology_command_effects_started) e ≡ true
      → t ≡ with_command s e
      → Step s t
  settles_topology :
      (c : ClaimTopologyProvisioning) (e : RecordTopologyProvisioned)
      → s.topology_provisioned ≡ none
      → s.topology_provisioning_claim ≡ some c
      → claim_matches_provisioned c e ≡ true
      → check_effect_records s c e ≡ ok tt
      → t ≡ with_provisioned s e
      → Step s t
  anchors :
      (e : RecordRecoveryResultEvidenceAnchor)
      → scan_anchors s.recovery_result_evidence_anchors e ≡ fresh
      → anchor_is_admissible s e ≡ true
      → t ≡ with_anchor s e
      → Step s t
  dispatches :
      (e : BeginDispatch) (i : DispatchIntent)
      → common_correlates s e.operation_id e.canonical_request_digest e.attempt_id ≡ true
      → require_dispatch_topology s e ≡ ok tt
      → intent e ≡ ok i
      → s.dispatch_intent ≡ none
      → s.phase ≡ prepared
      → s.recovery_state ≡ clear
      → s.outcome_kind ≡ none
      → t ≡ with_intent s i
      → Step s t
  loses_delivery :
      IsOpen s
      → s.recovery_state ≢ quarantined
      → s.promotion ≡ attempt_only
      → t ≡ with_uncertainty s
      → Step s t
  settles_non_start :
      IsOpen s
      → s.possible_provider_effect_observed ≡ false
      → s.promotion ≡ attempt_only
      → t ≡ with_non_start s
      → Step s t
  isolates : is_some s.dispatch_intent ≡ true → t ≡ quarantine s → Step s t
  isolates_effect : s.recovery_state ≢ quarantined → t ≡ with_provider_effect s → Step s t
  starts_turn :
      (e : RecordProviderStarted)
      → IsOpen s
      → s.recovery_state ≢ quarantined
      → s.promotion ≡ attempt_only
      → start_correlates s e ≡ true
      → t ≡ with_start s e
      → Step s t
  times_out : IsOpen s → s.recovery_state ≢ quarantined → t ≡ with_timeout s → Step s t
  withholds :
      (e : FinalTurnAuthority)
      → IsOpen s
      → s.recovery_state ≢ quarantined
      → authority_correlates s e ≡ true
      → authority_complete s e ≡ false
      → t ≡ incomplete_final s e
      → Step s t
  concludes :
      (e : FinalTurnAuthority)
      → IsOpen s
      → s.recovery_state ≢ quarantined
      → authority_correlates s e ≡ true
      → authority_complete s e ≡ true
      → e.new_head_digest ≢ s.expected_head_digest
      → t ≡ accept_final s e
      → Step s t
