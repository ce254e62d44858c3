-- ===== src/LaneTurn/Tests/Policy.antt =====
-- An attempt under a direct-human policy: its admission, its topology and its delivery.
use ask_herdr.Base.{
  String, Result, ◌≡◌, ◌≢◌, refl, some, none, Option, List, [], ◌∷◌, arith, ok, ==_iff, string_eq,
}
use ask_herdr.LaneTurn.Guards.{require_positive_integer}
use ask_herdr.LaneTurn.Events.Prepare.{PrepareAdmittedAttempt}
use ask_herdr.LaneTurn.Events.Claim.{
  ClaimTopologyProvisioning, RecordTopologyProvisioned, validate_claim_topology_provisioning,
  validate_record_topology_provisioned,
}
use ask_herdr.LaneTurn.Events.Effects.{TopologyEffectStarted, validate_topology_effect_started}
use ask_herdr.LaneTurn.Events.Dispatch.{BeginDispatch, intent_record}
use ask_herdr.LaneTurn.State.{
  LaneTurnState, LaneTurnEvent, prepare, claim, effect_started, provisioned, begin_dispatch,
  prepare_state,
}
use ask_herdr.LaneTurn.Topology.{
  claim_matches_provisioned, claim_matches_effect_started, claim_is_admissible,
  reduce_topology_claim, effect_is_admissible, reduce_topology_effect_started,
}
use ask_herdr.LaneTurn.Settlement.{reduce_topology_provisioned}
use ask_herdr.LaneTurn.Reducer.{replay}
use ask_herdr.LaneTurn.Steps.{with_intent}
use ask_herdr.LaneTurn.Delivered.{Awaits, Dispatches, Starts, Concludes}
use ask_herdr.LaneTurn.Tests.Samples.{
  sample_prepare, sample_dispatch, sample_start, sample_final, operation_uuid, attempt_uuid,
  lane_uuid, turn_uuid, request_digest, native_digest, head_digest, response_digest, moved_digest,
}
use ask_herdr.LaneTurn.Tests.Runs.{run}

abbrev pub policy_prepare : PrepareAdmittedAttempt
policy_prepare = record sample_prepare {
  reservation_id = none;
  direct_human_policy_record_digest = some native_digest;
}

abbrev pub policy_claim : ClaimTopologyProvisioning
policy_claim = record {
  operation_id = operation_uuid;
  canonical_request_digest = request_digest;
  attempt_id = attempt_uuid;
  lane_id = lane_uuid;
  lane_generation = 1;
  policy_record_digest = native_digest;
  prepared_lane_record_digest = head_digest;
  topology_mutation_id = turn_uuid;
  topology_nonce = "nonce-2";
  topology_store_incarnation_digest = some response_digest;
}

abbrev pub policy_effect : TopologyEffectStarted
policy_effect = record {
  operation_id = operation_uuid;
  canonical_request_digest = request_digest;
  attempt_id = attempt_uuid;
  lane_id = lane_uuid;
  lane_generation = 1;
  policy_record_digest = native_digest;
  prepared_lane_record_digest = head_digest;
  topology_mutation_id = turn_uuid;
  topology_nonce = "nonce-2";
  topology_store_incarnation_digest = response_digest;
  topology_claim_record_digest = request_digest;
  topology_mutation_record_digest = moved_digest;
  first_topology_command_record_digest = head_digest;
}

abbrev pub policy_proof : RecordTopologyProvisioned
policy_proof = record {
  operation_id = operation_uuid;
  canonical_request_digest = request_digest;
  attempt_id = attempt_uuid;
  lane_id = lane_uuid;
  lane_generation = 1;
  policy_record_digest = native_digest;
  prepared_lane_record_digest = head_digest;
  topology_mutation_id = turn_uuid;
  topology_nonce = "nonce-2";
  topology_claim_record_digest = request_digest;
  topology_settlement_record_digest = response_digest;
  project_topology_digest = moved_digest;
  topology_effect_started_record_digest = some head_digest;
  topology_last_command_effect_started_record_digest = none;
  recovery_state_digest = none;
  recovery_result_store_binding_digest = none;
}

abbrev pub policy_dispatch : BeginDispatch
policy_dispatch = record sample_dispatch { project_topology_digest = some moved_digest }

abbrev pub topology : List LaneTurnEvent
topology = claim policy_claim ∷ effect_started policy_effect ∷ provisioned policy_proof ∷ []

-- The attempt whose topology is settled.
abbrev pub provided : LaneTurnState
provided = record (prepare_state policy_prepare) {
  topology_provisioned = some policy_proof;
  topology_effect_started = some policy_effect;
}

-- Opens the topology reducers as well.
unfoldable pub policy_run : List LaneTurnEvent → Result (Option LaneTurnState)
unfolding run reduce_topology_claim claim_is_admissible reduce_topology_effect_started
    effect_is_admissible claim_matches_effect_started reduce_topology_provisioned
    claim_matches_provisioned validate_claim_topology_provisioning
    validate_record_topology_provisioned validate_topology_effect_started
policy_run events = run events

pub topology_run : replay none (prepare policy_prepare ∷ topology) ≡ ok (some provided)
unfolding policy_run
topology_run = refl

topology_is_valid :
    (validate_claim_topology_provisioning policy_claim ≡ ok tt)
    × (validate_topology_effect_started policy_effect ≡ ok tt)
    × (validate_record_topology_provisioned policy_proof ≡ ok tt)
unfolding policy_run require_positive_integer
topology_is_valid = (refl, refl, refl)

-- The same attempt, with its intent recorded.
abbrev pub policy_dispatched : LaneTurnState
policy_dispatched = with_intent provided (intent_record policy_dispatch)

abbrev pub policy_history : List LaneTurnEvent
policy_history =
    claim policy_claim
    ∷ effect_started policy_effect
    ∷ provisioned policy_proof
    ∷ begin_dispatch policy_dispatch
    ∷ []

pub dispatch_run :
    replay none (prepare policy_prepare ∷ policy_history) ≡ ok (some policy_dispatched)
unfolding policy_run
dispatch_run = refl

pub provided-Awaits : Awaits provided
unfolding prepare_state
provided-Awaits = record { phase = refl; recovery = refl; outcome = refl }

pub policy-Dispatches : Dispatches policy_prepare provided policy_dispatch
unfolding run
policy-Dispatches = record {
  valid = refl;
  operation_id = refl;
  request = refl;
  attempt = refl;
  settled_topology = λ given. refl;
  topology = refl;
}

pub policy-Starts : Starts policy_prepare sample_start
policy-Starts = record {
  operation_id = refl;
  request = refl;
  attempt = refl;
  lane = refl;
  generation = refl;
  sequence = refl;
  identity = refl;
}

pub digests_differ : ◌≢◌ {A = String} moved_digest head_digest
digests_differ = ground (arith, ==_iff moved_digest head_digest)

pub policy-Concludes : Concludes policy_prepare sample_start sample_final
policy-Concludes = record {
  operation = refl;
  operation_id = refl;
  request = refl;
  attempt = refl;
  lane = refl;
  generation = refl;
  head = refl;
  turn = refl;
  sequence = refl;
  native = refl;
  source = refl;
  present = refl;
  fresh = refl;
  stable = refl;
  eof = refl;
  envelope = refl;
  marker = refl;
  final_line = refl;
  moves = digests_differ;
}
