-- ===== src/LaneTurn/Idempotence/Topology.antt =====
-- A topology event of lib/ask_herdr_lane_turn.py that is repeated changes nothing.
use ask_herdr.Base.{◌≡◌, arith, ok, ==_refl, string_eq, nat_eq, option_eq, get_last?-append_one}
use ask_herdr.LaneTurn.Kinds.{mode_eq}
use ask_herdr.LaneTurn.Events.Claim.{
  ClaimTopologyProvisioning, RecordTopologyProvisioned, claim_topology_provisioning_eq,
  record_topology_provisioned_eq,
}
use ask_herdr.LaneTurn.Events.Effects.{
  TopologyEffectStarted, TopologyCommandEffectStarted, topology_effect_started_eq,
  topology_command_effect_started_eq,
}
use ask_herdr.LaneTurn.Events.Evidence.{RecordRecoveryResultEvidenceAnchor}
use ask_herdr.LaneTurn.Events.Dispatch.{dispatch_intent_eq}
use ask_herdr.LaneTurn.State.{LaneTurnState}
use ask_herdr.LaneTurn.Topology.{
  reduce_topology_claim, reduce_topology_effect_started, reduce_topology_command_effect_started,
}
use ask_herdr.LaneTurn.Settlement.{
  reduce_topology_provisioned, reduce_recovery_result_evidence_link,
}
use ask_herdr.LaneTurn.Anchors.{scan_anchors-append}

pub claim_again :
    (s t : LaneTurnState) (e : ClaimTopologyProvisioning)
    → reduce_topology_claim s e ≡ ok t
    → reduce_topology_claim t e ≡ ok t
unfolding reduce_topology_claim
claim_again s t e h = ground (arith, ==_refl e)

pub effect_again :
    (s t : LaneTurnState) (e : TopologyEffectStarted)
    → reduce_topology_effect_started s e ≡ ok t
    → reduce_topology_effect_started t e ≡ ok t
unfolding reduce_topology_effect_started
effect_again s t e h = ground (arith, ==_refl e)

pub command_again :
    (s t : LaneTurnState) (e : TopologyCommandEffectStarted)
    → reduce_topology_command_effect_started s e ≡ ok t
    → reduce_topology_command_effect_started t e ≡ ok t
unfolding reduce_topology_command_effect_started
command_again s t e h =
    ground (arith, ==_refl e, get_last?-append_one s.topology_command_effects_started e)

pub provisioned_again :
    (s t : LaneTurnState) (e : RecordTopologyProvisioned)
    → reduce_topology_provisioned s e ≡ ok t
    → reduce_topology_provisioned t e ≡ ok t
unfolding reduce_topology_provisioned
provisioned_again s t e h = ground (arith, ==_refl e)

pub anchor_again :
    (s t : LaneTurnState) (e : RecordRecoveryResultEvidenceAnchor)
    → reduce_recovery_result_evidence_link s e ≡ ok t
    → reduce_recovery_result_evidence_link t e ≡ ok t
unfolding reduce_recovery_result_evidence_link
anchor_again s t e h = ground (arith, scan_anchors-append s.recovery_result_evidence_anchors e)
