-- ===== src/ProjectStatus/Select.antt =====
-- `_select_entries` of lib/ask_herdr_project_status.py: the lane entries of a plan, in their order.
use ask_herdr.Base.{
  ℕ, String, Bool, false, not, ◌&&◌, ◌||◌, Option, none, some, is_some, List, [], ◌∷◌, any, codes,
  ltb, ◌==◌, ◌/=◌, string_eq, option_eq, nat_eq, if◌then◌else◌, Result, ok, raised,
  strict_json_error,
}
use ask_herdr.Base.Sorting.{sorted}
use ask_herdr.StrictJson.Values.{Json, text, object, end_fields, field}
use ask_herdr.StrictJson.Canonical.{bytes_less}
use ask_herdr.ReadEpoch.Entries.{LaneIndexEntry, TopologyStatusKeyEntry}
use ask_herdr.ReadEpoch.Acquire.{ProjectReadEpochSnapshot}
use ask_herdr.ProjectStatus.Find.{find, keys_repeat}
use ask_herdr.ProjectStatus.Operations.{is_active}
use ask_herdr.ProjectStatus.Cursor.{codes_eq}

pub record StatusSelectorPlan : Type 0 where
  pub kind : String
  pub value : Option String
  pub active_detail : String
  pub absent_detail : Option String

-- A selector that names a value of its kind.
abbrev pub named_selector : String → String → String → Json
named_selector kind key value = object (
    field "schema" (text "ask_herdr.query.status.selector.v1")
      (field "kind" (text kind) (field key (text value) end_fields)))

-- `_StatusSelectorPlan.identity`
unfoldable pub plan_identity : StatusSelectorPlan → Result Json
plan_identity plan = elim plan.value [
  | none ↦
      if plan.kind == "project"
      then ok (
          object (
            field "schema" (text "ask_herdr.query.status.selector.v1")
              (field "kind" (text "project") end_fields)))
      else raised (strict_json_error "query_status.selector_plan_invalid")
  | some value ↦
      if plan.kind == "lane"
      then ok (named_selector "lane" "lane_id" value)
      else if plan.kind == "key"
      then ok (named_selector "key" "consultant_key" value)
      else if plan.kind == "operation"
      then ok (named_selector "operation" "operation_id" value)
      else raised (strict_json_error "query_status.selector_plan_invalid")
]

-- `<` of two pairs of a text and a number; texts compare by code points.
abbrev pub identity_less : String → ℕ → String → ℕ → Bool
identity_less a m b n = bytes_less (codes a) (codes b) || (codes a == codes b && ltb m n)

abbrev pub lane_less : LaneIndexEntry → LaneIndexEntry → Bool
lane_less a b = identity_less a.lane_id a.lane_generation b.lane_id b.lane_generation

abbrev pub mapping_less : TopologyStatusKeyEntry → TopologyStatusKeyEntry → Bool
mapping_less a b = identity_less a.lane_id a.lane_generation b.lane_id b.lane_generation

-- `project_entries`
abbrev pub project_entries : ProjectReadEpochSnapshot → List LaneIndexEntry
project_entries s = sorted lane_less s.lane_entries

abbrev pub keep {ℓ} : {A : Type ℓ} → (A → Bool) → List A → List A
keep test [] = []
keep test (x ∷ xs) = let rest = keep test xs in if test x then x ∷ rest else rest

-- `lanes.get(identity)` and `mappings.get(identity)`
abbrev pub lane_of : List LaneIndexEntry → String → ℕ → Option LaneIndexEntry
lane_of entries id generation =
    find (λ e. e.lane_id == id && e.lane_generation == generation) entries

abbrev pub mapping_of : List TopologyStatusKeyEntry → String → ℕ → Option TopologyStatusKeyEntry
mapping_of mappings id generation =
    find (λ m. m.lane_id == id && m.lane_generation == generation) mappings

abbrev pub binding_mismatch : List LaneIndexEntry → TopologyStatusKeyEntry → Bool
binding_mismatch entries m = elim (lane_of entries m.lane_id m.lane_generation) [
  | none ↦ false
  | some lane ↦ lane.lane_binding_digest /= m.lane_binding_digest
]

-- The three tests that make the mappings unusable.
unfoldable pub mappings_unusable : ProjectReadEpochSnapshot → Bool
mappings_unusable s =
    let lanes = project_entries s in
    keys_repeat (λ a b. a.lane_id == b.lane_id && a.lane_generation == b.lane_generation) lanes
    || (keys_repeat (λ a b. a.lane_id == b.lane_id && a.lane_generation == b.lane_generation)
          s.topology_key_entries
        || any (binding_mismatch lanes) s.topology_key_entries)

-- `set(lanes) != set(mappings)`
unfoldable pub identities_differ : ProjectReadEpochSnapshot → Bool
identities_differ s =
    any (λ e. not (is_some (mapping_of s.topology_key_entries e.lane_id e.lane_generation)))
      (project_entries s)
    || any (λ m. not (is_some (lane_of (project_entries s) m.lane_id m.lane_generation)))
        s.topology_key_entries

-- The lanes of the mappings that have the consultant key.
abbrev pub lanes_of_key :
    List LaneIndexEntry → Option String → List TopologyStatusKeyEntry → List LaneIndexEntry
lanes_of_key lanes value [] = []
lanes_of_key lanes value (m ∷ ms) =
    let rest = lanes_of_key lanes value ms in
    if some m.consultant_key == value
    then elim (lane_of lanes m.lane_id m.lane_generation) [ none ↦ rest | some lane ↦ lane ∷ rest ]
    else rest

-- `_select_entries`
unfoldable pub select_entries :
    StatusSelectorPlan → ProjectReadEpochSnapshot → Option (List LaneIndexEntry)
select_entries plan s =
    if plan.kind == "project"
    then some (project_entries s)
    else if plan.kind == "lane"
    then some (keep (λ e. some e.lane_id == plan.value) (project_entries s))
    else if plan.kind /= "key"
    then none
    else if mappings_unusable s
    then none
    else if is_active s && identities_differ s
    then none
    else some
        (lanes_of_key (project_entries s) plan.value (sorted mapping_less s.topology_key_entries))
