-- ===== src/ProjectStatus/Readers.antt =====
-- The four readers of lib/ask_herdr_project_status.py.
use ask_herdr.Base.{
  ℕ, String, Bool, true, false, not, ◌&&◌, ◌||◌, Option, none, some, is_some, List, [], ◌∷◌, length,
  codes, in_range, leb, ◌==◌, string_eq, nat_eq, if◌then◌else◌, Result, ok, raised,
}
use ask_herdr.LaneTurn.Guards.{is_uuid}
use ask_herdr.StrictJson.Digest.{Encodings}
use ask_herdr.ReadEpoch.Acquire.{ProjectReadEpoch, ProjectReadEpochSnapshot}
use ask_herdr.ProjectStatus.Entries.{ProjectStatusLaneHead, ProjectStatusOperationMetadata}
use ask_herdr.ProjectStatus.Operations.{operation_selection}
use ask_herdr.ProjectStatus.Cursor.{Cursor}
use ask_herdr.ProjectStatus.Select.{StatusSelectorPlan}
use ask_herdr.ProjectStatus.Pages.{
  ProjectStatusInspection, bare, contract_invalid, cursor_stale, limit_valid, contract_of,
  read_status,
}

abbrev pub project_plan : StatusSelectorPlan
project_plan = record {
  kind = "project";
  value = none;
  active_detail = "query_status.active";
  absent_detail = none;
}

abbrev pub lane_plan : String → StatusSelectorPlan
lane_plan lane_id = record {
  kind = "lane";
  value = some lane_id;
  active_detail = "query_status.lane_active";
  absent_detail = some "query_status.lane_absent";
}

abbrev pub key_plan : String → StatusSelectorPlan
key_plan key = record {
  kind = "key";
  value = some key;
  active_detail = "query_status.key_active";
  absent_detail = some "query_status.key_absent";
}

abbrev pub operation_plan : String → StatusSelectorPlan
operation_plan id = record {
  kind = "operation";
  value = some id;
  active_detail = "query_status.operation_active";
  absent_detail = some "query_status.operation_absent";
}

-- `[a-z0-9]` and `[a-z0-9._-]`
abbrev pub is_key_start : ℕ → Bool
is_key_start c = in_range b'a' b'z' c || in_range b'0' b'9' c

abbrev pub is_key_char : ℕ → Bool
is_key_char c = is_key_start c || (c == b'.' || (c == b'_' || c == b'-'))

abbrev pub all_key_chars : List ℕ → Bool
all_key_chars [] = true
all_key_chars (c ∷ cs) = is_key_char c && all_key_chars cs

-- `_CONSULTANT_KEY_PATTERN.fullmatch`
abbrev pub matches_key : List ℕ → Bool
matches_key [] = false
matches_key (c ∷ cs) = is_key_start c && (leb (length cs) 63 && all_key_chars cs)

unfoldable pub is_consultant_key : String → Bool
is_consultant_key key = matches_key (codes key)

module _ (lib : Encodings) (limit : ℕ) (cursor : Option Cursor) (s : ProjectReadEpochSnapshot) where
  unfoldable pub read_project_status : Result ProjectStatusInspection
  read_project_status = read_status lib project_plan limit cursor s

  unfoldable pub read_lane_status : String → Result ProjectStatusInspection
  read_lane_status lane_id =
      if is_uuid lane_id
      then read_status lib (lane_plan lane_id) limit cursor s
      else ok contract_invalid

  unfoldable pub read_key_status : String → Result ProjectStatusInspection
  read_key_status key =
      if is_consultant_key key
      then read_status lib (key_plan key) limit cursor s
      else ok contract_invalid

  -- The tail of `read_operation_status`, behind the selection of the operation.
  abbrev pub operation_result :
      String
      → ProjectReadEpoch
      → Option (Option ProjectStatusOperationMetadata × List ProjectStatusLaneHead)
      → ProjectStatusInspection
  operation_result contract epoch none =
      bare "quarantined" "query_status.operation_mapping_invalid" (some contract)
  operation_result contract epoch (some (none, heads)) =
      if s.inspection.status == "active"
      then record (bare "absent" "query_status.operation_absent" (some contract)) {
        project_read_epoch = some epoch;
      }
      else record (bare s.inspection.status s.inspection.detail_code (some contract)) {
        project_read_epoch = some epoch;
      }
  operation_result contract epoch (some (some metadata, heads)) = record {
    status = s.inspection.status;
    detail_code =
        if s.inspection.status == "active"
        then "query_status.operation_active"
        else s.inspection.detail_code;
    normalized_read_contract_digest = some contract;
    project_read_epoch = some epoch;
    entries = heads;
    next_cursor = none;
    operation_metadata = some metadata;
  }

  unfoldable pub read_operation_status : String → ProjectStatusInspection
  read_operation_status id =
      if not (is_uuid id && limit_valid limit)
      then contract_invalid
      else elim (contract_of lib (operation_plan id) limit) [
        | raised _ ↦ contract_invalid
        | ok contract ↦ if is_some cursor then cursor_stale contract else elim s.inspection.epoch [
          | none ↦ bare s.inspection.status s.inspection.detail_code (some contract)
          | some epoch ↦
              if not (
                s.inspection.status == "active" || s.inspection.status == "reconciliation_required")
              then bare "quarantined" "query_status.epoch_status_invalid" (some contract)
              else operation_result contract epoch (operation_selection s id)
        ]
      ]
