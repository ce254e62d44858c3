-- ===== src/LaneTurn/Events/Effects.antt =====
-- TopologyEffectStarted and TopologyCommandEffectStarted of lib/ask_herdr_lane_turn.py.
use native.Mathlib.Decide.{ℕ_discrete}
use ask_herdr.Base.{
  ℕ, String, not, ltb, Result, value_error, guard, ◌>>◌, Eq, eq_of_discrete, String-discrete,
}
use ask_herdr.LaneTurn.Guards.{
  require_uuid, require_digest, require_token, require_positive_integer, validate_common_operation,
}

pub record TopologyEffectStarted : Type 0 where
  pub operation_id : String
  pub canonical_request_digest : String
  pub attempt_id : String
  pub lane_id : String
  pub lane_generation : ℕ
  pub policy_record_digest : String
  pub prepared_lane_record_digest : String
  pub topology_mutation_id : String
  pub topology_nonce : String
  pub topology_store_incarnation_digest : String
  pub topology_claim_record_digest : String
  pub topology_mutation_record_digest : String
  pub first_topology_command_record_digest : String

unfoldable pub validate_topology_effect_started : TopologyEffectStarted → Result (Unit {0})
validate_topology_effect_started e = do
  validate_common_operation e.operation_id e.canonical_request_digest e.attempt_id
  require_uuid e.lane_id "lane_turn.lane_id_invalid"
  require_positive_integer e.lane_generation "lane_turn.lane_generation_invalid"
  require_digest e.policy_record_digest "lane_turn.policy_record_digest_invalid"
  require_digest e.prepared_lane_record_digest "lane_turn.prepared_lane_record_digest_invalid"
  require_digest e.topology_store_incarnation_digest
      "lane_turn.topology_store_incarnation_digest_invalid"
  require_digest e.topology_claim_record_digest "lane_turn.topology_claim_record_digest_invalid"
  require_digest e.topology_mutation_record_digest
      "lane_turn.topology_mutation_record_digest_invalid"
  require_digest e.first_topology_command_record_digest
      "lane_turn.first_topology_command_record_digest_invalid"
  require_uuid e.topology_mutation_id "lane_turn.topology_mutation_id_invalid"
  require_token 256 e.topology_nonce "lane_turn.topology_nonce_invalid"

pub record TopologyCommandEffectStarted : Type 0 where
  pub operation_id : String
  pub canonical_request_digest : String
  pub attempt_id : String
  pub lane_id : String
  pub lane_generation : ℕ
  pub policy_record_digest : String
  pub prepared_lane_record_digest : String
  pub topology_mutation_id : String
  pub topology_nonce : String
  pub topology_store_incarnation_digest : String
  pub topology_claim_record_digest : String
  pub topology_mutation_record_digest : String
  pub topology_effect_started_record_digest : String
  pub command_sequence : ℕ
  pub topology_command_step_id : String
  pub topology_command_record_digest : String
  pub previous_topology_effect_record_digest : String

unfoldable pub validate_topology_command_effect_started :
    TopologyCommandEffectStarted → Result (Unit {0})
validate_topology_command_effect_started e = do
  validate_common_operation e.operation_id e.canonical_request_digest e.attempt_id
  require_uuid e.lane_id "lane_turn.lane_id_invalid"
  require_positive_integer e.lane_generation "lane_turn.lane_generation_invalid"
  guard (not (ltb e.command_sequence 2)) (value_error "lane_turn.topology_command_sequence_invalid")
  require_uuid e.topology_command_step_id "lane_turn.topology_command_step_id_invalid"
  require_digest e.policy_record_digest "lane_turn.policy_record_digest_invalid"
  require_digest e.prepared_lane_record_digest "lane_turn.prepared_lane_record_digest_invalid"
  require_digest e.topology_store_incarnation_digest
      "lane_turn.topology_store_incarnation_digest_invalid"
  require_digest e.topology_claim_record_digest "lane_turn.topology_claim_record_digest_invalid"
  require_digest e.topology_mutation_record_digest
      "lane_turn.topology_mutation_record_digest_invalid"
  require_digest e.topology_effect_started_record_digest
      "lane_turn.topology_effect_started_record_digest_invalid"
  require_digest e.topology_command_record_digest "lane_turn.topology_command_record_digest_invalid"
  require_digest e.previous_topology_effect_record_digest
      "lane_turn.previous_topology_effect_record_digest_invalid"
  require_uuid e.topology_mutation_id "lane_turn.topology_mutation_id_invalid"
  require_token 256 e.topology_nonce "lane_turn.topology_nonce_invalid"

unfoldable pub TopologyEffectStarted-discrete : Discrete TopologyEffectStarted
TopologyEffectStarted-discrete = hlevel (String-discrete, ℕ_discrete)

instance abbrev pub topology_effect_started_eq : Eq TopologyEffectStarted
topology_effect_started_eq = eq_of_discrete TopologyEffectStarted-discrete

unfoldable pub TopologyCommandEffectStarted-discrete : Discrete TopologyCommandEffectStarted
TopologyCommandEffectStarted-discrete = hlevel (String-discrete, ℕ_discrete)

instance abbrev pub topology_command_effect_started_eq : Eq TopologyCommandEffectStarted
topology_command_effect_started_eq = eq_of_discrete TopologyCommandEffectStarted-discrete
