-- ===== src/ProjectStatus/Entries.antt =====
-- The closed entries of a snapshot that lib/ask_herdr_project_status.py joins, and their validators.
use ask_herdr.Base.{
  ℕ, String, Bool, false, ◌&&◌, ◌||◌, Option, none, some, is_none, ◌==◌, string_eq, option_eq,
  nat_eq, if◌then◌else◌, leb,
}
use ask_herdr.LaneTurn.Guards.{is_uuid, is_digest}
use ask_herdr.ReadEpoch.Entries.{
  LaneIndexEntry, TopologyStatusOperationEntry, AuthorityStatusOperationEntry,
}

pub record ProjectStatusLaneHead : Type 0 where
  pub lane_id : String
  pub lane_generation : ℕ
  pub lane_binding_digest : String
  pub event_sequence : ℕ
  pub event_digest : String
  pub state_digest : String
  pub response_digest : Option String

pub record ProjectStatusOperationMetadata : Type 0 where
  pub operation_id : String
  pub operation : String
  pub canonical_request_digest : String
  pub authority_record_digest : String
  pub lane_association : String

-- `_lane_head`
abbrev pub lane_head : LaneIndexEntry → ProjectStatusLaneHead
lane_head e = record {
  lane_id = e.lane_id;
  lane_generation = e.lane_generation;
  lane_binding_digest = e.lane_binding_digest;
  event_sequence = e.event_sequence;
  event_digest = e.event_digest;
  state_digest = e.state_digest;
  response_digest = e.response_digest;
}

abbrev pub is_human_operation : String → Bool
is_human_operation o = o == "turn.answer" || (o == "turn.consult" || o == "turn.review")

abbrev pub is_non_lane_operation : String → Bool
is_non_lane_operation o = o == "project.init" || o == "query.evidence"

-- `type(lane_id) is str and UUID4_PATTERN.fullmatch(lane_id) is not None`
abbrev pub is_lane_id : Option String → Bool
is_lane_id none = false
is_lane_id (some value) = is_uuid value

-- `type(lane_generation) is int and lane_generation >= 1`
abbrev pub is_lane_generation : Option ℕ → Bool
is_lane_generation none = false
is_lane_generation (some value) = leb 1 value

-- `_valid_authority_operation_entry`
unfoldable pub valid_authority_operation_entry : AuthorityStatusOperationEntry → Bool
valid_authority_operation_entry e =
    is_uuid e.operation_id
    && (is_digest e.canonical_request_digest
        && (is_digest e.authority_record_digest
            && (if is_non_lane_operation e.operation
                then e.lane_scope == "not_applicable"
                  && (is_none e.lane_id && is_none e.lane_generation)
                else if is_human_operation e.operation
                then e.lane_scope == "required" && (is_none e.lane_id && is_none e.lane_generation)
                else e.operation == "recovery.reconcile"
                  && (e.lane_scope == "required"
                      && (is_lane_id e.lane_id && is_lane_generation e.lane_generation)))))

-- `_valid_topology_operation_entry`
unfoldable pub valid_topology_operation_entry : TopologyStatusOperationEntry → Bool
valid_topology_operation_entry e =
    is_uuid e.operation_id
    && (is_digest e.canonical_request_digest
        && (is_digest e.policy_record_digest
            && (is_uuid e.lane_id && (leb 1 e.lane_generation && is_digest e.lane_binding_digest))))
