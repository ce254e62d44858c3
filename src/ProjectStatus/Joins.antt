-- ===== src/ProjectStatus/Joins.antt =====
-- What lib/ask_herdr_project_status.py joins when it selects one operation.
use ask_herdr.Base.{
  String, ◌≡◌, true, false, not, Option, some, List, arith, ◌==◌, ==_iff, string_eq, option_eq,
  nat_eq, Option-cases, inl, inr,
}
use ask_herdr.ReadEpoch.Entries.{TopologyStatusOperationEntry, AuthorityStatusOperationEntry}
use ask_herdr.ReadEpoch.Acquire.{ProjectReadEpochSnapshot}
use ask_herdr.ProjectStatus.Find.{find-true, find-any}
use ask_herdr.ProjectStatus.Entries.{
  ProjectStatusLaneHead, ProjectStatusOperationMetadata, valid_authority_operation_entry,
}
use ask_herdr.ProjectStatus.Operations.{
  find_authority, find_mapping, entries_invalid, mapping_invalid, maps_invalid, operation_selection,
}

-- What a selected operation's metadata says of its authority entry.
pub record MetadataOf (s : ProjectReadEpochSnapshot) (id : String)
    (m : ProjectStatusOperationMetadata) (a : AuthorityStatusOperationEntry) : Type 0 where
  pub found : find_authority id s ≡ some a
  pub named : a.operation_id ≡ id
  pub valid : valid_authority_operation_entry a ≡ true
  pub operation_id : m.operation_id ≡ a.operation_id
  pub operation : m.operation ≡ a.operation
  pub request : m.canonical_request_digest ≡ a.canonical_request_digest
  pub authority : m.authority_record_digest ≡ a.authority_record_digest

find_authority-named :
    (s : ProjectReadEpochSnapshot) (id : String) (a : AuthorityStatusOperationEntry)
    → find_authority id s ≡ some a
    → a.operation_id ≡ id
find_authority-named s id a h =
    (==_iff a.operation_id id).0
      (find-true (λ e. e.operation_id == id) s.authority_operation_entries a h)

pub find_mapping-named :
    (s : ProjectReadEpochSnapshot) (id : String) (m : TopologyStatusOperationEntry)
    → find_mapping id s ≡ some m
    → m.operation_id ≡ id
find_mapping-named s id m h =
    (==_iff m.operation_id id).0
      (find-true (λ e. e.operation_id == id) s.topology_operation_entries m h)

find_authority-valid :
    (s : ProjectReadEpochSnapshot) (id : String) (a : AuthorityStatusOperationEntry)
    → maps_invalid s ≡ false
    → find_authority id s ≡ some a
    → valid_authority_operation_entry a ≡ true
unfolding maps_invalid entries_invalid
find_authority-valid s id a v h =
    let bad =
      find-any (λ e. e.operation_id == id) (λ e. not (valid_authority_operation_entry e))
        s.authority_operation_entries a in
    ground arith

pub find_mapping-valid :
    (s : ProjectReadEpochSnapshot) (id : String) (m : TopologyStatusOperationEntry)
    → maps_invalid s ≡ false
    → find_mapping id s ≡ some m
    → mapping_invalid s m ≡ false
unfolding maps_invalid
find_mapping-valid s id m v h =
    let bad =
      find-any (λ e. e.operation_id == id) (mapping_invalid s) s.topology_operation_entries m in
    ground arith

-- A selection needs a snapshot whose joins are valid.
pub selection-valid :
    (s : ProjectReadEpochSnapshot) (id : String)
    (r : Option ProjectStatusOperationMetadata × List ProjectStatusLaneHead)
    → operation_selection s id ≡ some r
    → maps_invalid s ≡ false
unfolding operation_selection
selection-valid s id r h = ground arith

-- If an operation is selected with metadata, that metadata is of the first authority entry with the
-- operation's id, and that entry is valid.
pub selection-MetadataOf :
    (s : ProjectReadEpochSnapshot) (id : String) (m : ProjectStatusOperationMetadata)
    (heads : List ProjectStatusLaneHead)
    → operation_selection s id ≡ some (some m, heads)
    → (a : AuthorityStatusOperationEntry) × MetadataOf s id m a
unfolding operation_selection
selection-MetadataOf s id m heads h = elim (Option-cases (find_authority id s)) [
  | inl absent ↦ absurd (ground arith)
  | inr (a, found) ↦
      let named = find_authority-named s id a found in
      let valid = find_authority-valid s id a (selection-valid s id (some m, heads) h) found in
      (a, ground arith)
]
