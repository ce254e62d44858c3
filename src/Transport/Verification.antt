-- ===== src/Transport/Verification.antt =====
-- `_verify_project` and `_verify_snapshot` of lib/ask_herdr_herdr_transport.py.
use ask_herdr.Base.{
  String, ◌<>◌, Bool, false, not, ◌||◌, Option, none, some, List, [], ◌∷◌, ◌++◌, any, ◌==◌, ◌/=◌,
  string_eq, option_eq, if◌then◌else◌,
}
use ask_herdr.Base.Sorting.{sorted}
use ask_herdr.ProjectStatus.Cursor.{same_names}
use ask_herdr.ProjectStatus.Find.{find, keys_repeat}
use ask_herdr.Transport.Proofs.{
  ReceiptKind, session_start, workspace_create, workspace_close, is_kind, WorkspaceProof,
  workspace_proof_eq, LaneTopologyProof, TopologySideEffectProof, ProjectTopologyProof, Fingerprint,
  workspace_fingerprint, side_effect_fingerprint, texts_less, topology_ownership_mismatch,
  session_namespace, ProvisionIntent,
}
use ask_herdr.Transport.Actions.{Outcome, done, ◌>?>◌, require_not, TransportState, Herdr}
use ask_herdr.Transport.Commands.{Snapshot}
use ask_herdr.Transport.Workspaces.{observed_workspace, id_set, binding_of, fingerprints_eq}

-- `_lane_label`
unfoldable pub lane_label : Herdr → String → String → String → String → String
lane_label herdr project_id lane_id consultant_key nonce =
    session_namespace
    <> ":"
    <> consultant_key
    <> ":"
    <> herdr.short_digest (project_id <> "\0" <> lane_id <> "\0" <> nonce)

abbrev pub workspaces_of : List LaneTopologyProof → List WorkspaceProof
workspaces_of [] = []
workspaces_of (l ∷ ls) = l.workspace ∷ workspaces_of ls

abbrev pub workspace_of_effect : TopologySideEffectProof → WorkspaceProof
workspace_of_effect e = record {
  workspace_id = e.workspace_id;
  tab_id = e.tab_id;
  pane_id = e.pane_id;
  label = e.label;
  cwd = e.cwd;
  creation_receipt_digest = e.creation_receipt_digest;
}

abbrev pub effects_as_workspaces : List TopologySideEffectProof → List WorkspaceProof
effects_as_workspaces [] = []
effects_as_workspaces (e ∷ es) = workspace_of_effect e ∷ effects_as_workspaces es

-- The resources that a project proof expects to be live.
abbrev pub expected_workspaces : ProjectTopologyProof → List WorkspaceProof
expected_workspaces p = workspaces_of p.lanes ++ effects_as_workspaces p.side_effects

abbrev pub each : (WorkspaceProof → String) → List WorkspaceProof → List String
each f [] = []
each f (p ∷ ps) = f p ∷ each f ps

-- Every expected workspace is observed as its proof says.
abbrev pub all_observed : Snapshot → List WorkspaceProof → Outcome (Unit {0})
all_observed s [] = done tt
all_observed s (p ∷ ps) =
    let rest = all_observed s ps in
    observed_workspace s p.workspace_id p.creation_receipt_digest >?> λ observed.
    require_not (observed /= p) topology_ownership_mismatch >?> λ _. rest

-- `_verify_snapshot`
unfoldable pub verify_snapshot : ProjectTopologyProof → Snapshot → Outcome (Unit {0})
verify_snapshot project s =
    let expected = expected_workspaces project in
    id_set "workspace_id" s.workspaces >?> λ workspaces. id_set "tab_id" s.tabs >?> λ tabs.
    id_set "pane_id" s.panes >?> λ panes.
    require_not
      (not (same_names workspaces (each (λ p. p.workspace_id) expected))
        || (not (same_names tabs (each (λ p. p.tab_id) expected))
            || not (same_names panes (each (λ p. p.pane_id) expected))))
      topology_ownership_mismatch
    >?> λ _. all_observed s expected

-- `self._trusted_receipt_kinds.get(digest)`
abbrev pub trusted_kind : String → List (String × ReceiptKind) → Option ReceiptKind
trusted_kind digest [] = none
trusted_kind digest ((d, k) ∷ rest) =
    let later = trusted_kind digest rest in if d == digest then some k else later

abbrev pub is_trusted : TransportState → String → (ReceiptKind → Bool) → Bool
is_trusted t digest test = elim (trusted_kind digest t.trusted_receipt_kinds) [
  | none ↦ false
  | some k ↦ test k
]

-- The tests of one lane.
abbrev pub lane_foreign : Herdr → TransportState → ProjectTopologyProof → LaneTopologyProof → Bool
lane_foreign herdr t project lane =
    lane.project_id /= project.project_id
    || (lane.project_root /= project.project_root
        || (lane.workspace.label
              /= lane_label herdr lane.project_id lane.lane_id lane.consultant_key
                  lane.topology_nonce
            || not
                (is_trusted t lane.workspace.creation_receipt_digest (is_kind workspace_create))))

-- The tests of one side effect.
abbrev pub effect_foreign : TransportState → ProjectTopologyProof → TopologySideEffectProof → Bool
effect_foreign t project e =
    e.project_id /= project.project_id
    || (e.project_root /= project.project_root
        || not (
            is_trusted t e.creation_receipt_digest
              (λ k. is_kind session_start k || is_kind workspace_close k)))

-- The resources of one receipt, as fingerprints.
abbrev pub lane_resources : String → List LaneTopologyProof → List Fingerprint
lane_resources digest [] = []
lane_resources digest (l ∷ ls) =
    let rest = lane_resources digest ls in
    if l.workspace.creation_receipt_digest == digest
    then workspace_fingerprint l.workspace ∷ rest
    else rest

abbrev pub effect_resources : String → List TopologySideEffectProof → List Fingerprint
effect_resources digest [] = []
effect_resources digest (e ∷ es) =
    let rest = effect_resources digest es in
    if e.creation_receipt_digest == digest then side_effect_fingerprint e ∷ rest else rest

-- The resources of a receipt are not exactly those that it was bound to.
abbrev pub rebound : TransportState → ProjectTopologyProof → String → Bool
rebound t project digest =
    binding_of digest t.resource_receipt_bindings
    /= some (
        sorted texts_less
          (lane_resources digest project.lanes ++ effect_resources digest project.side_effects))

-- `_verify_project`; each of its refusals has the same kind.
unfoldable pub verify_project :
    Herdr → TransportState → ProjectTopologyProof → Snapshot → Outcome (Unit {0})
verify_project herdr t project s =
    require_not
      (project.namespace /= session_namespace
        || (keys_repeat (λ a b. a.lane_id == b.lane_id) project.lanes
            || (keys_repeat (λ a b. a.consultant_key == b.consultant_key) project.lanes
                || (any (lane_foreign herdr t project) project.lanes
                    || (any (effect_foreign t project) project.side_effects
                        || any (λ p. rebound t project p.creation_receipt_digest)
                            (expected_workspaces project))))))
      topology_ownership_mismatch
    >?> λ _. verify_snapshot project s

-- `_validate_project_identity`
unfoldable pub validate_project_identity :
    ProjectTopologyProof → ProvisionIntent → Outcome (Unit {0})
validate_project_identity known intent =
    require_not
      (known.namespace /= session_namespace
        || (known.project_id /= intent.project_id || known.project_root /= intent.project_root))
      topology_ownership_mismatch

-- `_lane_for_key`
abbrev pub lane_for_key : ProjectTopologyProof → String → Option LaneTopologyProof
lane_for_key project key = find (λ l. l.consultant_key == key) project.lanes
