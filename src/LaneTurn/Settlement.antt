-- ===== src/LaneTurn/Settlement.antt =====
-- The settlement of a topology claim, and the anchors of recovery evidence, in
-- lib/ask_herdr_lane_turn.py.
use ask_herdr.Base.{
  Bool, true, false, not, ◌&&◌, ◌||◌, none, some, is_none, is_some, List, [], ◌∷◌, ◌++◌, ◌==◌, ◌/=◌,
  string_eq, nat_eq, option_eq, if◌then◌else◌, Result, ok, raised, transition_error, ◌>>◌, guard,
}
use ask_herdr.LaneTurn.Events.Claim.{
  ClaimTopologyProvisioning, RecordTopologyProvisioned, record_topology_provisioned_eq,
}
use ask_herdr.LaneTurn.Events.Effects.{TopologyCommandEffectStarted}
use ask_herdr.LaneTurn.Events.Evidence.{
  RecordRecoveryResultEvidenceAnchor, record_recovery_result_evidence_anchor_eq,
}
use ask_herdr.LaneTurn.State.{LaneTurnState}
use ask_herdr.LaneTurn.Topology.{claim_matches_provisioned}

-- A tuple as a Python condition.
abbrev pub is_nonempty {ℓ} : {A : Type ℓ} → List A → Bool
is_nonempty [] = false
is_nonempty (_ ∷ _) = true

-- What a claim that names a store incarnation asks of the proof.
abbrev pub check_last_command :
    List TopologyCommandEffectStarted → RecordTopologyProvisioned → Result (Unit {0})
check_last_command [] p =
    guard (is_none p.topology_last_command_effect_started_record_digest)
      (transition_error "lane_turn.topology_provisioning_proof_conflict")
check_last_command (_ ∷ _) p =
    guard (is_some p.topology_last_command_effect_started_record_digest)
      (transition_error "lane_turn.topology_command_effect_started_record_required")

abbrev pub check_effect_records :
    LaneTurnState → ClaimTopologyProvisioning → RecordTopologyProvisioned → Result (Unit {0})
check_effect_records s c p =
    if is_some c.topology_store_incarnation_digest
    then (do
      guard (is_some s.topology_effect_started && is_some p.topology_effect_started_record_digest)
          (transition_error "lane_turn.topology_effect_started_record_required")
      check_last_command s.topology_command_effects_started p)
    else guard
        (is_none s.topology_effect_started
          && is_none p.topology_effect_started_record_digest
          && not (is_nonempty s.topology_command_effects_started)
          && is_none p.topology_last_command_effect_started_record_digest)
        (transition_error "lane_turn.topology_provisioning_proof_conflict")

-- `_reduce_topology_provisioned`
unfoldable pub reduce_topology_provisioned :
    LaneTurnState → RecordTopologyProvisioned → Result LaneTurnState
reduce_topology_provisioned s e = elim s.topology_provisioned [
  | some p ↦
      if p == e
      then ok s
      else raised (transition_error "lane_turn.topology_provisioning_proof_conflict")
  | none ↦ elim s.topology_provisioning_claim [
    | none ↦ raised (transition_error "lane_turn.topology_provisioning_proof_conflict")
    | some c ↦
        if not (claim_matches_provisioned c e)
        then raised (transition_error "lane_turn.topology_provisioning_proof_conflict")
        else (do
          check_effect_records s c e
          ok (record s {
            topology_provisioning_claim = none;
            topology_provisioned = some e;
            resend_allowed = false;
            release_allowed = false;
          }))
  ]
]

-- What the loop over the anchors of `_reduce_recovery_result_evidence_link` finds.
pub data AnchorScan : Type 0 where
  replayed conflicting fresh : AnchorScan

unfoldable pub scan_anchors :
    List RecordRecoveryResultEvidenceAnchor → RecordRecoveryResultEvidenceAnchor → AnchorScan
scan_anchors [] e = fresh
scan_anchors (prior ∷ rest) e =
    let later = scan_anchors rest e in
    if prior.recovery_operation_id == e.recovery_operation_id
    then (if prior == e then replayed else conflicting)
    else if prior.evidence_link_record_digest == e.evidence_link_record_digest
    then conflicting
    else if prior.source_relationship_digest == e.source_relationship_digest
        || prior.evidence_registry_binding_digest /= e.evidence_registry_binding_digest
    then conflicting
    else later

-- The negation of the last test of `_reduce_recovery_result_evidence_link`.
unfoldable pub anchor_is_admissible : LaneTurnState → RecordRecoveryResultEvidenceAnchor → Bool
anchor_is_admissible s e = elim s.topology_provisioned [
  | none ↦ false
  | some p ↦
      is_some p.recovery_result_store_binding_digest
      && e.source_lane_operation_id == s.operation_id
      && e.source_lane_canonical_request_digest == s.canonical_request_digest
      && e.attempt_id == s.attempt_id
      && e.lane_id == s.lane_id
      && e.lane_generation == s.lane_generation
      && e.topology_mutation_id == p.topology_mutation_id
      && some e.recovery_result_store_binding_digest == p.recovery_result_store_binding_digest
]

-- `_reduce_recovery_result_evidence_link`
unfoldable pub reduce_recovery_result_evidence_link :
    LaneTurnState → RecordRecoveryResultEvidenceAnchor → Result LaneTurnState
reduce_recovery_result_evidence_link s e =
    elim (scan_anchors s.recovery_result_evidence_anchors e) [
      | replayed ↦ ok s
      | conflicting ↦ raised (transition_error "lane_turn.recovery_result_evidence_link_conflict")
      | fresh ↦
          if anchor_is_admissible s e
          then ok (record s {
            recovery_result_evidence_anchors = s.recovery_result_evidence_anchors ++ e ∷ [];
          })
          else raised (transition_error "lane_turn.recovery_result_evidence_link_not_admissible")
    ]
