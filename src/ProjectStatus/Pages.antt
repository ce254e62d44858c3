-- ===== src/ProjectStatus/Pages.antt =====
-- `_read_status` of lib/ask_herdr_project_status.py and the three readers that call it. The snapshot
-- that `_acquire_project_read_epoch_snapshot` returns is an argument.
use ask_herdr.Base.{
  ℕ, suc, ◌+◌, String, Bool, not, ◌&&◌, ◌||◌, Option, none, some, is_some, List, [], ◌∷◌, length,
  get_last?, ltb, leb, ◌==◌, ◌/=◌, string_eq, if◌then◌else◌, Result, ok, raised, index_error, ◌>>=◌,
}
use ask_herdr.Base.Slices.{take, drop}
use ask_herdr.StrictJson.Values.{pos, Json, integer, text, object, end_fields, field}
use ask_herdr.StrictJson.Digest.{Encodings, digest}
use ask_herdr.ReadEpoch.Entries.{LaneIndexEntry}
use ask_herdr.ReadEpoch.Acquire.{ProjectReadEpoch, ProjectReadEpochSnapshot}
use ask_herdr.ProjectStatus.Entries.{
  ProjectStatusLaneHead, ProjectStatusOperationMetadata, lane_head,
}
use ask_herdr.ProjectStatus.Cursor.{Cursor, CursorPayload, encode_cursor, decode_cursor}
use ask_herdr.ProjectStatus.Select.{StatusSelectorPlan, plan_identity, select_entries}

pub record ProjectStatusInspection : Type 0 where
  pub status : String
  pub detail_code : String
  pub normalized_read_contract_digest : Option String
  pub project_read_epoch : Option ProjectReadEpoch
  pub entries : List ProjectStatusLaneHead
  pub next_cursor : Option Cursor
  pub operation_metadata : Option ProjectStatusOperationMetadata

-- An inspection with no epoch and no entries.
abbrev pub bare : String → String → Option String → ProjectStatusInspection
bare status detail contract = record {
  status = status;
  detail_code = detail;
  normalized_read_contract_digest = contract;
  project_read_epoch = none;
  entries = [];
  next_cursor = none;
  operation_metadata = none;
}

abbrev pub contract_invalid : ProjectStatusInspection
contract_invalid = bare "quarantined" "query_status.read_contract_invalid" none

abbrev pub cursor_stale : String → ProjectStatusInspection
cursor_stale contract = bare "cursor_stale" "query_status.cursor_stale" (some contract)

abbrev pub heads : List LaneIndexEntry → List ProjectStatusLaneHead
heads [] = []
heads (e ∷ es) = lane_head e ∷ heads es

abbrev pub limit_valid : ℕ → Bool
limit_valid limit = leb 1 limit && leb limit 200

module _ (lib : Encodings) where
  -- `_read_contract_digest`
  unfoldable pub read_contract_digest : Json → ℕ → Result String
  read_contract_digest selector limit = digest lib (
      object (
        field "advisory" (text "none") (
          field "limit" (integer (pos limit)) (
            field "schema" (text "ask_herdr.query.status.read_contract.identity.v1")
              (field "selector" selector end_fields)))))

  -- The contract of a plan and a limit.
  unfoldable pub contract_of : StatusSelectorPlan → ℕ → Result String
  contract_of plan limit = plan_identity plan >>= λ selector. read_contract_digest selector limit

  -- `_lane_identity_digest`
  unfoldable pub lane_identity_digest : LaneIndexEntry → Result String
  lane_identity_digest e = digest lib (
      object (
        field "lane_binding_digest" (text e.lane_binding_digest) (
          field "lane_generation" (integer (pos e.lane_generation)) (
            field "lane_id" (text e.lane_id)
              (field "schema" (text "ask_herdr.query.status.lane_identity.v1") end_fields)))))

  -- The indices, from the given one on, of the entries that have the identity.
  abbrev pub positions : String → ℕ → List LaneIndexEntry → Result (List ℕ)
  positions target index [] = ok []
  positions target index (e ∷ es) =
      let rest = positions target (suc index) es in
      lane_identity_digest e >>= λ identity.
      rest >>= λ later. ok (if identity == target then index ∷ later else later)

  -- Where the page starts; `none` where the cursor is stale.
  unfoldable pub page_start :
      ProjectReadEpoch → Option CursorPayload → List LaneIndexEntry → Result (Option ℕ)
  page_start epoch none ordered = ok (some 0)
  page_start epoch (some cursor) ordered =
      if cursor.project_read_epoch_digest /= epoch.epoch_digest
      then ok none
      else positions cursor.last_identity_digest 0 ordered >>= λ found.
          ok (elim found [ [] ↦ none | (i ∷ is) ↦ elim is [ [] ↦ some (suc i) | _ ↦ none ] ])

  -- The cursor behind a page that starts at the given index.
  unfoldable pub next_cursor_of :
      String → String → ℕ → List LaneIndexEntry → List LaneIndexEntry → Result (Option Cursor)
  next_cursor_of epoch_digest contract start page ordered =
      if ltb (start + length page) (length ordered)
      then elim (get_last? page) [
        | none ↦ raised index_error
        | some last ↦ lane_identity_digest last >>= λ identity.
            encode_cursor lib epoch_digest contract identity >>= λ cursor. ok (some cursor)
      ]
      else ok none

  -- What `_read_status` returns once it has its page and its next cursor.
  unfoldable pub page_result :
      StatusSelectorPlan
      → String
      → ProjectReadEpochSnapshot
      → ProjectReadEpoch
      → List LaneIndexEntry
      → List LaneIndexEntry
      → Option Cursor
      → ProjectStatusInspection
  page_result plan contract s epoch ordered page next =
      if is_some plan.absent_detail && (s.inspection.status == "active" && leb (length ordered) 0)
      then record (bare "absent" (elim plan.absent_detail [ none ↦ "" | some d ↦ d ])
          (some contract)) { project_read_epoch = some epoch }
      else if not
          (s.inspection.status == "active" || s.inspection.status == "reconciliation_required")
      then bare "quarantined" "query_status.epoch_status_invalid" (some contract)
      else record {
        status = s.inspection.status;
        detail_code =
            if s.inspection.status == "active"
            then plan.active_detail
            else s.inspection.detail_code;
        normalized_read_contract_digest = some contract;
        project_read_epoch = some epoch;
        entries = heads page;
        next_cursor = next;
        operation_metadata = none;
      }

  -- One page of the selected entries, from the decoded cursor on.
  unfoldable pub page_of :
      StatusSelectorPlan
      → ℕ
      → String
      → ProjectReadEpochSnapshot
      → ProjectReadEpoch
      → Option CursorPayload
      → List LaneIndexEntry
      → Result ProjectStatusInspection
  page_of plan limit contract s epoch decoded ordered =
      page_start epoch decoded ordered >>= λ found. elim found [
        | none ↦ ok (cursor_stale contract)
        | some start ↦
            let page = take limit (drop start ordered) in
            if is_some decoded
              && (leb (length page) 0
                  && (s.inspection.status == "active"
                      && (plan.kind == "lane" || plan.kind == "key")))
            then ok (cursor_stale contract)
            else next_cursor_of epoch.epoch_digest contract start page ordered >>= λ next.
                ok (page_result plan contract s epoch ordered page next)
      ]

  -- The part of `_read_status` behind the cursor.
  unfoldable pub read_snapshot :
      StatusSelectorPlan
      → ℕ
      → String
      → Option CursorPayload
      → ProjectReadEpochSnapshot
      → Result ProjectStatusInspection
  read_snapshot plan limit contract decoded s = elim s.inspection.epoch [
    | none ↦ ok (bare s.inspection.status s.inspection.detail_code (some contract))
    | some epoch ↦ elim (select_entries plan s) [
      | none ↦ ok (
          bare "quarantined"
            (if plan.kind == "key"
              then "query_status.key_mapping_invalid"
              else "query_status.read_contract_invalid")
            (some contract))
      | some ordered ↦ page_of plan limit contract s epoch decoded ordered
    ]
  ]

  -- `_read_status`
  unfoldable pub read_status :
      StatusSelectorPlan
      → ℕ
      → Option Cursor
      → ProjectReadEpochSnapshot
      → Result ProjectStatusInspection
  read_status plan limit cursor s =
      if not (limit_valid limit) then ok contract_invalid else elim (contract_of plan limit) [
        | raised _ ↦ ok contract_invalid
        | ok contract ↦ elim cursor [
          | none ↦ read_snapshot plan limit contract none s
          | some value ↦ decode_cursor lib value contract >>= λ decoded. elim decoded [
            | none ↦ ok (cursor_stale contract)
            | some payload ↦ read_snapshot plan limit contract (some payload) s
          ]
        ]
      ]
