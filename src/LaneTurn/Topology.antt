-- ===== src/LaneTurn/Topology.antt =====
-- The topology reducers of lib/ask_herdr_lane_turn.py: claim, effects, settlement, evidence.
use ask_herdr.Base.{
  ◌+◌, Bool, false, not, ◌&&◌, Option, none, some, is_none, is_some, [], ◌∷◌, ◌++◌, length,
  get_last?, any, ◌==◌, string_eq, nat_eq, option_eq, if◌then◌else◌, Result, ok, raised,
  transition_error,
}
use ask_herdr.LaneTurn.Kinds.{
  is_establish_new, is_prepared, is_clear, is_attempt_only, is_not_counted,
}
use ask_herdr.LaneTurn.Events.Claim.{
  ClaimTopologyProvisioning, RecordTopologyProvisioned, claim_topology_provisioning_eq,
  record_topology_provisioned_eq,
}
use ask_herdr.LaneTurn.Events.Effects.{
  TopologyEffectStarted, TopologyCommandEffectStarted, topology_effect_started_eq,
  topology_command_effect_started_eq,
}
use ask_herdr.LaneTurn.Events.Evidence.{record_recovery_result_evidence_anchor_eq}
use ask_herdr.LaneTurn.State.{LaneTurnState}
use ask_herdr.LaneTurn.Correlation.{common_correlates}

-- `_claim_matches_provisioned`
unfoldable pub claim_matches_provisioned :
    ClaimTopologyProvisioning → RecordTopologyProvisioned → Bool
claim_matches_provisioned c p =
    c.operation_id == p.operation_id
    && c.canonical_request_digest == p.canonical_request_digest
    && c.attempt_id == p.attempt_id
    && c.lane_id == p.lane_id
    && c.lane_generation == p.lane_generation
    && c.policy_record_digest == p.policy_record_digest
    && c.prepared_lane_record_digest == p.prepared_lane_record_digest
    && c.topology_mutation_id == p.topology_mutation_id
    && c.topology_nonce == p.topology_nonce

-- `_claim_matches_effect_started`, at the first effect and at a later one.
unfoldable pub claim_matches_effect_started :
    ClaimTopologyProvisioning → TopologyEffectStarted → Bool
claim_matches_effect_started c e =
    c.operation_id == e.operation_id
    && c.canonical_request_digest == e.canonical_request_digest
    && c.attempt_id == e.attempt_id
    && c.lane_id == e.lane_id
    && c.lane_generation == e.lane_generation
    && c.policy_record_digest == e.policy_record_digest
    && c.prepared_lane_record_digest == e.prepared_lane_record_digest
    && c.topology_mutation_id == e.topology_mutation_id
    && c.topology_nonce == e.topology_nonce
    && c.topology_store_incarnation_digest == some e.topology_store_incarnation_digest

unfoldable pub claim_matches_command_effect_started :
    ClaimTopologyProvisioning → TopologyCommandEffectStarted → Bool
claim_matches_command_effect_started c e =
    c.operation_id == e.operation_id
    && c.canonical_request_digest == e.canonical_request_digest
    && c.attempt_id == e.attempt_id
    && c.lane_id == e.lane_id
    && c.lane_generation == e.lane_generation
    && c.policy_record_digest == e.policy_record_digest
    && c.prepared_lane_record_digest == e.prepared_lane_record_digest
    && c.topology_mutation_id == e.topology_mutation_id
    && c.topology_nonce == e.topology_nonce
    && c.topology_store_incarnation_digest == some e.topology_store_incarnation_digest

-- `_claim_is_admissible`
unfoldable pub claim_is_admissible : LaneTurnState → ClaimTopologyProvisioning → Bool
unfolding common_correlates
claim_is_admissible s e =
    s.operation == "turn.consult"
    && is_establish_new s.native_identity_mode
    && s.expected_turn_sequence == 1
    && is_prepared s.phase
    && is_clear s.recovery_state
    && is_attempt_only s.promotion
    && is_none s.reservation_id
    && is_not_counted s.reservation_state
    && is_none s.dispatch_intent
    && is_none s.outcome_kind
    && not s.possible_provider_effect_observed
    && not s.resend_allowed
    && not s.release_allowed
    && s.direct_human_policy_record_digest == some e.policy_record_digest
    && common_correlates s e.operation_id e.canonical_request_digest e.attempt_id
    && s.lane_id == e.lane_id
    && s.lane_generation == e.lane_generation

-- `_reduce_topology_claim`
unfoldable pub reduce_topology_claim :
    LaneTurnState → ClaimTopologyProvisioning → Result LaneTurnState
reduce_topology_claim s e = elim s.topology_provisioned [
  | some p ↦
      if claim_matches_provisioned e p
      then ok s
      else raised (transition_error "lane_turn.topology_provisioning_claim_conflict")
  | none ↦ elim s.topology_provisioning_claim [
    | some c ↦
        if c == e
        then ok s
        else raised (transition_error "lane_turn.topology_provisioning_claim_conflict")
    | none ↦
        if not (claim_is_admissible s e)
        then raised (transition_error "lane_turn.topology_provisioning_claim_not_admissible")
        else ok (record s {
          topology_provisioning_claim = some e;
          resend_allowed = false;
          release_allowed = false;
        })
  ]
]

-- The negation of the last test of `_reduce_topology_effect_started`.
unfoldable pub effect_is_admissible : LaneTurnState → TopologyEffectStarted → Bool
effect_is_admissible s e = elim s.topology_provisioning_claim [
  | none ↦ false
  | some c ↦
      is_none s.topology_provisioned
      && is_some c.topology_store_incarnation_digest
      && claim_matches_effect_started c e
]

-- `_reduce_topology_effect_started`
unfoldable pub reduce_topology_effect_started :
    LaneTurnState → TopologyEffectStarted → Result LaneTurnState
reduce_topology_effect_started s e = elim s.topology_effect_started [
  | some existing ↦
      if existing == e
      then ok s
      else raised (transition_error "lane_turn.topology_effect_started_conflict")
  | none ↦
      if effect_is_admissible s e
      then ok (record s {
        topology_effect_started = some e;
        resend_allowed = false;
        release_allowed = false;
      })
      else raised (transition_error "lane_turn.topology_effect_started_not_admissible")
]

-- `_command_effect_correlates`
unfoldable pub command_effect_correlates :
    TopologyEffectStarted → TopologyCommandEffectStarted → Bool
command_effect_correlates first e =
    first.operation_id == e.operation_id
    && first.canonical_request_digest == e.canonical_request_digest
    && first.attempt_id == e.attempt_id
    && first.lane_id == e.lane_id
    && first.lane_generation == e.lane_generation
    && first.policy_record_digest == e.policy_record_digest
    && first.prepared_lane_record_digest == e.prepared_lane_record_digest
    && first.topology_mutation_id == e.topology_mutation_id
    && first.topology_nonce == e.topology_nonce
    && first.topology_store_incarnation_digest == e.topology_store_incarnation_digest
    && first.topology_claim_record_digest == e.topology_claim_record_digest
    && first.topology_mutation_record_digest == e.topology_mutation_record_digest

-- `any(prior.topology_command_step_id == event.topology_command_step_id for prior in existing)`
abbrev pub same_step : TopologyCommandEffectStarted → TopologyCommandEffectStarted → Bool
same_step e prior = prior.topology_command_step_id == e.topology_command_step_id

-- The negation of the long test of `_reduce_topology_command_effect_started`.
unfoldable pub command_is_admissible : LaneTurnState → TopologyCommandEffectStarted → Bool
command_is_admissible s e = elim s.topology_provisioning_claim [
  | none ↦ false
  | some c ↦ elim s.topology_effect_started [
    | none ↦ false
    | some first ↦
        is_none s.topology_provisioned
        && claim_matches_command_effect_started c e
        && command_effect_correlates first e
        && e.command_sequence == length s.topology_command_effects_started + 2
        && not (any (same_step e) s.topology_command_effects_started)
  ]
]

-- The link to the last effect, or to the first effect's record where there is no later one.
abbrev pub command_link : Option TopologyCommandEffectStarted → TopologyCommandEffectStarted → Bool
command_link (some prior) e =
    e.topology_effect_started_record_digest == prior.topology_effect_started_record_digest
command_link none e =
    e.previous_topology_effect_record_digest == e.topology_effect_started_record_digest

abbrev pub append_command_effect :
    LaneTurnState → TopologyCommandEffectStarted → Result LaneTurnState
append_command_effect s e =
    if not (command_is_admissible s e)
    then raised (transition_error "lane_turn.topology_command_effect_started_not_admissible")
    else if not (command_link (get_last? s.topology_command_effects_started) e)
    then raised (transition_error "lane_turn.topology_command_effect_started_not_admissible")
    else ok (record s {
      topology_command_effects_started = s.topology_command_effects_started ++ e ∷ [];
      resend_allowed = false;
      release_allowed = false;
    })

-- `_reduce_topology_command_effect_started`
unfoldable pub reduce_topology_command_effect_started :
    LaneTurnState → TopologyCommandEffectStarted → Result LaneTurnState
reduce_topology_command_effect_started s e = elim (get_last? s.topology_command_effects_started) [
  | none ↦ append_command_effect s e
  | some prior ↦ if prior == e then ok s else append_command_effect s e
]
