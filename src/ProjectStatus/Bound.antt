-- ===== src/ProjectStatus/Bound.antt =====
-- The lane that lib/ask_herdr_project_status.py shows with a selected operation.
use ask_herdr.Base.{
  ℕ, length, ◌≤◌, String, ◌≡◌, ◌≢◌, ◌↔◌, refl, sym, ap, ◌∙◌, false, ◌&&◌, none, some, List, ◌∷◌, [],
  arith, ◌==◌, ==_iff, string_eq, option_eq, nat_eq, Option-cases, inl, inr,
}
use ask_herdr.ReadEpoch.Entries.{
  LaneIndexEntry, TopologyStatusOperationEntry, AuthorityStatusOperationEntry,
}
use ask_herdr.ReadEpoch.Acquire.{ProjectReadEpochSnapshot}
use ask_herdr.ReadEpoch.Status.{distinct}
use ask_herdr.ProjectStatus.Find.{find-true}
use ask_herdr.ProjectStatus.Entries.{
  ProjectStatusLaneHead, ProjectStatusOperationMetadata, lane_head,
}
use ask_herdr.ProjectStatus.Operations.{
  find_authority, find_mapping, find_lane, mapping_invalid, maps_invalid, operation_metadata,
  required_lane, operation_selection,
}
use ask_herdr.ProjectStatus.Joins.{
  selection-MetadataOf, find_mapping-named, find_mapping-valid, selection-valid,
}

-- The topology mapping of a turn and the lane head that is shown with it.
pub record BoundBy (s : ProjectReadEpochSnapshot) (m : ProjectStatusOperationMetadata)
    (head : ProjectStatusLaneHead) (t : TopologyStatusOperationEntry) : Type 0 where
  pub mapped : find_mapping m.operation_id s ≡ some t
  pub lane_id : head.lane_id ≡ t.lane_id
  pub lane_generation : head.lane_generation ≡ t.lane_generation
  pub lane_binding : head.lane_binding_digest ≡ t.lane_binding_digest
  pub request : t.canonical_request_digest ≡ m.canonical_request_digest
  pub policy : t.policy_record_digest ≡ m.authority_record_digest

find_lane-key :
    (s : ProjectReadEpochSnapshot) (id : String) (generation : ℕ) (lane : LaneIndexEntry)
    → find_lane id generation s ≡ some lane
    → (lane.lane_id ≡ id) × (lane.lane_generation ≡ generation)
find_lane-key s id generation lane h =
    let key =
      find-true (λ e. e.lane_id == id && e.lane_generation == generation) s.lane_entries lane h in
    ground (arith, ==_iff lane.lane_id id, ==_iff lane.lane_generation generation)

-- A valid mapping that meets its lane and its authority entry agrees with both.
mapping-agrees :
    (s : ProjectReadEpochSnapshot) (t : TopologyStatusOperationEntry)
    (a : AuthorityStatusOperationEntry) (lane : LaneIndexEntry)
    → mapping_invalid s t ≡ false
    → find_lane t.lane_id t.lane_generation s ≡ some lane
    → find_authority t.operation_id s ≡ some a
    → (lane.lane_binding_digest ≡ t.lane_binding_digest)
      × (t.canonical_request_digest ≡ a.canonical_request_digest)
      × (t.policy_record_digest ≡ a.authority_record_digest)
unfolding mapping_invalid
mapping-agrees s t a lane v l f = ground (
  arith,
  ==_iff lane.lane_binding_digest t.lane_binding_digest,
  ==_iff t.canonical_request_digest a.canonical_request_digest,
  ==_iff t.policy_record_digest a.authority_record_digest,
)

-- A head that a selection shows is of the required lane.
selection-lane :
    (s : ProjectReadEpochSnapshot) (id : String) (m : ProjectStatusOperationMetadata)
    (head : ProjectStatusLaneHead) (heads : List ProjectStatusLaneHead)
    (a : AuthorityStatusOperationEntry)
    → operation_selection s id ≡ some (some m, head ∷ heads)
    → find_authority id s ≡ some a
    → (lane : LaneIndexEntry) × (required_lane s a (find_mapping id s) ≡ some lane)
      × (head ≡ lane_head lane)
      × (m ≡ operation_metadata id a "bound")
unfolding operation_selection
selection-lane s id m head heads a h f =
    elim (Option-cases (required_lane s a (find_mapping id s))) [
      | inl absent ↦ absurd (ground arith)
      | inr (lane, found) ↦
          let facts : (head ≡ lane_head lane) × (m ≡ operation_metadata id a "bound") =
            ground arith in
          (lane, found, facts.0, facts.1)
    ]

-- If a selected operation other than a recovery shows a lane head, then the topology mapping of the
-- operation names that lane, its generation and its binding digest, and the mapping and the metadata
-- name the same request and the same policy record.
pub selection-BoundBy :
    (s : ProjectReadEpochSnapshot) (id : String) (m : ProjectStatusOperationMetadata)
    (head : ProjectStatusLaneHead) (heads : List ProjectStatusLaneHead)
    → operation_selection s id ≡ some (some m, head ∷ heads)
    → m.operation ≢ "recovery.reconcile"
    → (t : TopologyStatusOperationEntry) × BoundBy s m head t
unfolding required_lane
selection-BoundBy s id m head heads h n =
    let (a, of) = selection-MetadataOf s id m (head ∷ heads) h in
    let (lane, required, shown, bound) = selection-lane s id m head heads a h of.found in
    elim (Option-cases (find_mapping id s)) [
      | inl absent ↦ absurd (ground (arith, ==_iff a.operation "recovery.reconcile"))
      | inr (t, mapped) ↦
          let named = find_mapping-named s id t mapped in
          let valid =
            find_mapping-valid s id t (selection-valid s id (some m, head ∷ heads) h) mapped in
          let there : find_lane t.lane_id t.lane_generation s ≡ some lane =
            ground (arith, ==_iff a.operation "recovery.reconcile") in
          let key = find_lane-key s t.lane_id t.lane_generation lane there in
          let agreed = mapping-agrees s t a lane valid there (rw named of.found) in
          (
            t,
            record {
              mapped = rw (of.operation_id ∙ of.named) mapped;
              lane_id = ap (λ x. x.lane_id) shown ∙ key.0;
              lane_generation = ap (λ x. x.lane_generation) shown ∙ key.1;
              lane_binding = ap (λ x. x.lane_binding_digest) shown ∙ agreed.0;
              request = agreed.1 ∙ sym of.request;
              policy = agreed.2 ∙ sym of.authority;
            },
          )
    ]

-- In an active snapshot, a selected operation is unresolved only if it is no recovery and the topology
-- has no mapping of it.
pub active_unresolved :
    (s : ProjectReadEpochSnapshot) (id : String) (m : ProjectStatusOperationMetadata)
    (heads : List ProjectStatusLaneHead)
    → s.inspection.status ≡ "active"
    → operation_selection s id ≡ some (some m, heads)
    → m.lane_association ≡ "unresolved"
    → (m.operation ≢ "recovery.reconcile") × (find_mapping id s ≡ none)
unfolding operation_selection
active_unresolved s id m heads p h u = elim (Option-cases (find_authority id s)) [
  | inl absent ↦ absurd (ground arith)
  | inr (a, found) ↦ ground (
    arith,
    ==_iff a.operation "recovery.reconcile",
    distinct "bound" "unresolved" refl,
    distinct "not_applicable" "unresolved" refl,
    ==_iff s.inspection.status "active",
    Option-cases (find_mapping id s),
    Option-cases (required_lane s a (find_mapping id s)),
  )
]

-- A selection shows at most one lane head, and shows one exactly if the association is bound.
pub bound_iff :
    (s : ProjectReadEpochSnapshot) (id : String) (m : ProjectStatusOperationMetadata)
    (heads : List ProjectStatusLaneHead)
    → operation_selection s id ≡ some (some m, heads)
    → (length heads ≤ 1) × ((m.lane_association ≡ "bound") ↔ (length heads ≡ 1))
unfolding operation_selection
bound_iff s id m heads h = elim (Option-cases (find_authority id s)) [
  | inl absent ↦ absurd (ground arith)
  | inr (a, found) ↦ elim (Option-cases (required_lane s a (find_mapping id s))) [
    | inl unresolved ↦
        ground (arith, distinct "unresolved" "bound" refl, distinct "not_applicable" "bound" refl)
    | inr (lane, bound) ↦ ground (arith, distinct "not_applicable" "bound" refl)
  ]
]

-- In a valid active snapshot, an operation other than a recovery that requires a lane and has a
-- topology mapping is selected with the head of a lane.
pub mapped_operation_shown :
    (s : ProjectReadEpochSnapshot) (id : String) (a : AuthorityStatusOperationEntry)
    (t : TopologyStatusOperationEntry)
    → maps_invalid s ≡ false
    → s.inspection.status ≡ "active"
    → find_authority id s ≡ some a
    → a.lane_scope ≡ "required"
    → a.operation ≢ "recovery.reconcile"
    → find_mapping id s ≡ some t
    → (lane : LaneIndexEntry) × (find_lane t.lane_id t.lane_generation s ≡ some lane)
      × (operation_selection s id
          ≡ some (some (operation_metadata id a "bound"), lane_head lane ∷ []))
unfolding operation_selection required_lane mapping_invalid
mapped_operation_shown s id a t v active found scope n mapped =
    let valid = find_mapping-valid s id t v mapped in
    let here : find_authority t.operation_id s ≡ some a =
      rw (find_mapping-named s id t mapped) found in
    let apart = distinct "required" "not_applicable" refl in
    elim (Option-cases (find_lane t.lane_id t.lane_generation s)) [
      | inl absent ↦ absurd (
          ground (arith, ==_iff s.inspection.status "active", ==_iff a.lane_scope "not_applicable"))
      | inr (lane, there) ↦ (
        lane,
        there,
        ground (arith, ==_iff a.lane_scope "required", ==_iff a.operation "recovery.reconcile"),
      )
    ]
