-- ===== src/ProjectStatus/Operations.antt =====
-- `_operation_snapshot_maps` and `_operation_selection` of lib/ask_herdr_project_status.py.
use ask_herdr.Base.{
  ℕ, String, Bool, true, false, not, ◌&&◌, ◌||◌, Option, none, some, is_some, List, [], ◌∷◌, any,
  ◌==◌, ◌/=◌, string_eq, option_eq, nat_eq, if◌then◌else◌,
}
use ask_herdr.ReadEpoch.Entries.{
  LaneIndexEntry, TopologyStatusOperationEntry, AuthorityStatusOperationEntry,
}
use ask_herdr.ReadEpoch.Acquire.{ProjectReadEpochSnapshot}
use ask_herdr.ProjectStatus.Find.{find, keys_repeat}
use ask_herdr.ProjectStatus.Entries.{
  ProjectStatusLaneHead, ProjectStatusOperationMetadata, lane_head, valid_authority_operation_entry,
  valid_topology_operation_entry,
}

abbrev pub find_authority : String → ProjectReadEpochSnapshot → Option AuthorityStatusOperationEntry
find_authority id s = find (λ e. e.operation_id == id) s.authority_operation_entries

abbrev pub find_mapping : String → ProjectReadEpochSnapshot → Option TopologyStatusOperationEntry
find_mapping id s = find (λ e. e.operation_id == id) s.topology_operation_entries

abbrev pub find_lane : String → ℕ → ProjectReadEpochSnapshot → Option LaneIndexEntry
find_lane id generation s =
    find (λ e. e.lane_id == id && e.lane_generation == generation) s.lane_entries

-- The lookup by the two fields of an authority entry, which no lane has as its key if one is absent.
abbrev pub find_recovery_lane :
    AuthorityStatusOperationEntry → ProjectReadEpochSnapshot → Option LaneIndexEntry
find_recovery_lane e s = elim e.lane_id [
  | none ↦ none
  | some id ↦ elim e.lane_generation [ none ↦ none | some generation ↦ find_lane id generation s ]
]

abbrev pub is_active : ProjectReadEpochSnapshot → Bool
is_active s = s.inspection.status == "active"

-- The first two tests of `_operation_snapshot_maps`.
unfoldable pub entries_invalid : ProjectReadEpochSnapshot → Bool
entries_invalid s =
    any (λ e. not (valid_authority_operation_entry e)) s.authority_operation_entries
    || (any (λ e. not (valid_topology_operation_entry e)) s.topology_operation_entries
        || (keys_repeat (λ a b. a.operation_id == b.operation_id) s.authority_operation_entries
            || (keys_repeat (λ a b. a.operation_id == b.operation_id) s.topology_operation_entries
                || keys_repeat
                    (λ a b. a.lane_id == b.lane_id && a.lane_generation == b.lane_generation)
                    s.lane_entries)))

-- A lane is there and its binding is not the one that was mapped.
abbrev pub binding_differs : Option LaneIndexEntry → TopologyStatusOperationEntry → Bool
binding_differs none m = false
binding_differs (some lane) m = lane.lane_binding_digest /= m.lane_binding_digest

-- What the loop tests of a mapping with an authority entry.
abbrev pub mapping_refused :
    Bool → Bool → TopologyStatusOperationEntry → AuthorityStatusOperationEntry → Bool
mapping_refused active lane_present m a =
    if m.canonical_request_digest /= a.canonical_request_digest
      || m.policy_record_digest /= a.authority_record_digest
    then true
    else if a.operation == "recovery.reconcile"
        && (some m.lane_id /= a.lane_id || some m.lane_generation /= a.lane_generation)
    then true
    else if a.lane_scope == "not_applicable"
    then active
    else active && not lane_present

-- One turn of the loop over the mappings; `true` where it returns `None`.
unfoldable pub mapping_invalid : ProjectReadEpochSnapshot → TopologyStatusOperationEntry → Bool
mapping_invalid s m =
    let lane = find_lane m.lane_id m.lane_generation s in
    if binding_differs lane m then true else elim (find_authority m.operation_id s) [
      | none ↦ is_active s
      | some a ↦ mapping_refused (is_active s) (is_some lane) m a
    ]

-- `_operation_snapshot_maps(snapshot) is None`
unfoldable pub maps_invalid : ProjectReadEpochSnapshot → Bool
maps_invalid s = entries_invalid s || any (mapping_invalid s) s.topology_operation_entries

abbrev pub operation_metadata :
    String → AuthorityStatusOperationEntry → String → ProjectStatusOperationMetadata
operation_metadata id a association = record {
  operation_id = id;
  operation = a.operation;
  canonical_request_digest = a.canonical_request_digest;
  authority_record_digest = a.authority_record_digest;
  lane_association = association;
}

-- The lane of a selected operation whose scope requires one.
unfoldable pub required_lane :
    ProjectReadEpochSnapshot
    → AuthorityStatusOperationEntry
    → Option TopologyStatusOperationEntry
    → Option LaneIndexEntry
required_lane s a mapping =
    if a.operation == "recovery.reconcile"
    then find_recovery_lane a s
    else elim mapping [ none ↦ none | some m ↦ find_lane m.lane_id m.lane_generation s ]

-- `_operation_selection`; the outer `none` is its `None`.
unfoldable pub operation_selection :
    ProjectReadEpochSnapshot
    → String
    → Option (Option ProjectStatusOperationMetadata × List ProjectStatusLaneHead)
operation_selection s id = if maps_invalid s then none else elim (find_authority id s) [
  | none ↦ some (none, [])
  | some a ↦
      if a.lane_scope == "required"
      then elim (required_lane s a (find_mapping id s)) [
        | some lane ↦ some (some (operation_metadata id a "bound"), lane_head lane ∷ [])
        | none ↦
            if is_active s && (a.operation == "recovery.reconcile" || is_some (find_mapping id s))
            then none
            else some (some (operation_metadata id a "unresolved"), [])
      ]
      else some (some (operation_metadata id a "not_applicable"), [])
]
