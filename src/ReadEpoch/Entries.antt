-- ===== src/ReadEpoch/Entries.antt =====
-- The path-free entries that the inspected stores return: of the lane index
-- (lib/ask_herdr_lane_index.py), of the topology store (lib/ask_herdr_topology_store.py) and of the
-- authority store (lib/ask_herdr_authority_store.py).
use native.Mathlib.Decide.{ℕ_discrete}
use ask_herdr.Base.{ℕ, String, Option, String-discrete}

pub record LaneIndexEntry : Type 0 where
  pub lane_id : String
  pub lane_generation : ℕ
  pub lane_binding_digest : String
  pub event_sequence : ℕ
  pub event_digest : String
  pub state_digest : String
  pub response_digest : Option String

pub record TopologyStatusKeyEntry : Type 0 where
  pub consultant_key : String
  pub lane_id : String
  pub lane_generation : ℕ
  pub lane_binding_digest : String

pub record TopologyStatusOperationEntry : Type 0 where
  pub operation_id : String
  pub canonical_request_digest : String
  pub policy_record_digest : String
  pub lane_id : String
  pub lane_generation : ℕ
  pub lane_binding_digest : String

pub record AuthorityStatusOperationEntry : Type 0 where
  pub operation_id : String
  pub operation : String
  pub canonical_request_digest : String
  pub authority_record_digest : String
  pub lane_scope : String
  pub lane_id : Option String
  pub lane_generation : Option ℕ

unfoldable pub LaneIndexEntry-discrete : Discrete LaneIndexEntry
LaneIndexEntry-discrete = hlevel (String-discrete, ℕ_discrete)

unfoldable pub TopologyStatusKeyEntry-discrete : Discrete TopologyStatusKeyEntry
TopologyStatusKeyEntry-discrete = hlevel (String-discrete, ℕ_discrete)

unfoldable pub TopologyStatusOperationEntry-discrete : Discrete TopologyStatusOperationEntry
TopologyStatusOperationEntry-discrete = hlevel (String-discrete, ℕ_discrete)

unfoldable pub AuthorityStatusOperationEntry-discrete : Discrete AuthorityStatusOperationEntry
AuthorityStatusOperationEntry-discrete = hlevel (String-discrete, ℕ_discrete)
