-- ===== src/ProjectStatus/Tests.antt =====
-- A snapshot with a bound consultation and an unresolved review, and the theorems at it.
use ask_herdr.Base.{length, ◌≤◌, String, ◌≡◌, false, ◌≢◌, ◌↔◌, refl, some, none, [], ◌∷◌, string_eq}
use ask_herdr.LaneTurn.Guards.{is_digest, is_uuid}
use ask_herdr.ReadEpoch.Entries.{
  LaneIndexEntry, TopologyStatusOperationEntry, AuthorityStatusOperationEntry,
}
use ask_herdr.ReadEpoch.Acquire.{ProjectReadEpochSnapshot}
use ask_herdr.ReadEpoch.Status.{distinct}
use ask_herdr.ProjectStatus.Entries.{
  ProjectStatusOperationMetadata, lane_head, valid_authority_operation_entry,
  valid_topology_operation_entry,
}
use ask_herdr.ProjectStatus.Operations.{
  find_mapping, find_lane, entries_invalid, mapping_invalid, maps_invalid, operation_metadata,
  required_lane, operation_selection,
}
use ask_herdr.ProjectStatus.Joins.{MetadataOf, selection-MetadataOf}
use ask_herdr.ProjectStatus.Bound.{
  BoundBy, selection-BoundBy, active_unresolved, bound_iff, mapped_operation_shown,
}

abbrev request_digest : String
request_digest = "sha256:aaaaaaaaaaaaaaaaaaaaaaaaaaaaaaaaaaaaaaaaaaaaaaaaaaaaaaaaaaaaaaaa"

abbrev policy_digest : String
policy_digest = "sha256:bbbbbbbbbbbbbbbbbbbbbbbbbbbbbbbbbbbbbbbbbbbbbbbbbbbbbbbbbbbbbbbb"

abbrev binding_digest : String
binding_digest = "sha256:cccccccccccccccccccccccccccccccccccccccccccccccccccccccccccccccc"

abbrev consult_id : String
consult_id = "00000000-0000-4000-8000-00000000000a"

abbrev review_id : String
review_id = "00000000-0000-4000-8000-00000000000b"

abbrev lane_uuid : String
lane_uuid = "00000000-0000-4000-8000-00000000000c"

abbrev lane : LaneIndexEntry
lane = record {
  lane_id = lane_uuid;
  lane_generation = 1;
  lane_binding_digest = binding_digest;
  event_sequence = 3;
  event_digest = request_digest;
  state_digest = policy_digest;
  response_digest = none;
}

abbrev mapping : TopologyStatusOperationEntry
mapping = record {
  operation_id = consult_id;
  canonical_request_digest = request_digest;
  policy_record_digest = policy_digest;
  lane_id = lane_uuid;
  lane_generation = 1;
  lane_binding_digest = binding_digest;
}

abbrev consultation : AuthorityStatusOperationEntry
consultation = record {
  operation_id = consult_id;
  operation = "turn.consult";
  canonical_request_digest = request_digest;
  authority_record_digest = policy_digest;
  lane_scope = "required";
  lane_id = none;
  lane_generation = none;
}

abbrev review : AuthorityStatusOperationEntry
review = record consultation { operation_id = review_id; operation = "turn.review" }

abbrev snapshot : ProjectReadEpochSnapshot
snapshot = record {
  inspection = record {
    status = "active";
    detail_code = "project_read_epoch.active";
    epoch = none;
  };
  lane_entries = lane ∷ [];
  topology_key_entries = [];
  authority_operation_entries = review ∷ consultation ∷ [];
  topology_operation_entries = mapping ∷ [];
}

abbrev bound : ProjectStatusOperationMetadata
bound = operation_metadata consult_id consultation "bound"

abbrev unresolved : ProjectStatusOperationMetadata
unresolved = operation_metadata review_id review "unresolved"

consultation_selected :
    operation_selection snapshot consult_id ≡ some (some bound, lane_head lane ∷ [])
unfolding operation_selection maps_invalid entries_invalid mapping_invalid required_lane
    valid_authority_operation_entry valid_topology_operation_entry is_digest is_uuid
consultation_selected = refl

review_selected : operation_selection snapshot review_id ≡ some (some unresolved, [])
unfolding operation_selection maps_invalid entries_invalid mapping_invalid required_lane
    valid_authority_operation_entry valid_topology_operation_entry is_digest is_uuid
review_selected = refl

selection-MetadataOf_example :
    (a : AuthorityStatusOperationEntry) × MetadataOf snapshot consult_id bound a
selection-MetadataOf_example =
    selection-MetadataOf snapshot consult_id bound (lane_head lane ∷ []) consultation_selected

no_recovery : bound.operation ≢ "recovery.reconcile"
no_recovery = distinct "turn.consult" "recovery.reconcile" refl

selection-BoundBy_example :
    (t : TopologyStatusOperationEntry) × BoundBy snapshot bound (lane_head lane) t
selection-BoundBy_example =
    selection-BoundBy snapshot consult_id bound (lane_head lane) [] consultation_selected
      no_recovery

active_unresolved_example :
    (unresolved.operation ≢ "recovery.reconcile") × (find_mapping review_id snapshot ≡ none)
active_unresolved_example =
    active_unresolved snapshot review_id unresolved [] refl review_selected refl

bound_iff_example :
    (length (lane_head lane ∷ []) ≤ 1)
    × ((bound.lane_association ≡ "bound") ↔ (length (lane_head lane ∷ []) ≡ 1))
bound_iff_example = bound_iff snapshot consult_id bound (lane_head lane ∷ []) consultation_selected

joins_valid : maps_invalid snapshot ≡ false
unfolding maps_invalid entries_invalid mapping_invalid valid_authority_operation_entry
    valid_topology_operation_entry is_digest is_uuid
joins_valid = refl

mapped_operation_shown_example :
    (shown : LaneIndexEntry) × (find_lane mapping.lane_id mapping.lane_generation snapshot
      ≡ some shown)
    × (operation_selection snapshot consult_id ≡ some (some bound, lane_head shown ∷ []))
mapped_operation_shown_example =
    mapped_operation_shown snapshot consult_id consultation mapping joins_valid refl refl refl
      no_recovery refl
