-- ===== src/Transport/Workspaces.antt =====
-- The workspaces of lib/ask_herdr_herdr_transport.py: their proofs, and the receipts that they are bound to.
use ask_herdr.Base.{
  String, Bool, false, not, ◌&&◌, ◌||◌, Option, none, some, is_some, List, [], ◌∷◌, codes, ◌==◌,
  ◌/=◌, string_eq, option_eq, if◌then◌else◌, Eq, eq_of_discrete, String-discrete,
}
use ask_herdr.Base.Sorting.{sorted}
use ask_herdr.StrictJson.Values.{object, Fields, get_field, value_of}
use ask_herdr.StrictJson.Canonical.{bytes_less}
use ask_herdr.ProjectStatus.Select.{keep}
use ask_herdr.ProjectStatus.Find.{keys_repeat}
use ask_herdr.Transport.Proofs.{
  CommandReceipt, WorkspaceProof, TopologySideEffectProof, Fingerprint, workspace_fingerprint,
  side_effect_fingerprint, texts_less, ProvisionIntent, invalid_receipt,
  topology_ownership_mismatch,
}
use ask_herdr.Transport.Actions.{
  Outcome, done, failed, World, Action, return, ◌>=>◌, ◌>?>◌, refused, require_not, lift,
  transport_error,
}
use ask_herdr.Transport.Commands.{Snapshot}
use ask_herdr.Transport.Sessions.{is_text, filled_text}

unfoldable pub fingerprints-discrete : Discrete (List Fingerprint)
fingerprints-discrete = hlevel String-discrete

instance abbrev pub fingerprints_eq : Eq (List Fingerprint)
fingerprints_eq = eq_of_discrete fingerprints-discrete

-- A field that is there and holds another text.
abbrev pub differs_if_present : String → Fields → String → Bool
differs_if_present name fields expected =
    is_some (get_field name fields) && not (is_text expected (value_of name fields))

-- `_workspace_proof`
unfoldable pub workspace_proof : Fields → Fields → Fields → String → Outcome WorkspaceProof
workspace_proof workspace tab pane digest = elim (filled_text (value_of "workspace_id" workspace)) [
  | none ↦ refused invalid_receipt
  | some workspace_id ↦ elim (filled_text (value_of "tab_id" tab)) [
    | none ↦ refused invalid_receipt
    | some tab_id ↦ elim (filled_text (value_of "pane_id" pane)) [
      | none ↦ refused invalid_receipt
      | some pane_id ↦ elim (filled_text (value_of "label" workspace)) [
        | none ↦ refused invalid_receipt
        | some label ↦ elim (filled_text (value_of "cwd" workspace)) [
          | none ↦ refused invalid_receipt
          | some cwd ↦
              require_not
                (not (is_text workspace_id (value_of "workspace_id" tab))
                  || (not (is_text workspace_id (value_of "workspace_id" pane))
                      || (not (is_text tab_id (value_of "tab_id" pane))
                          || (differs_if_present "cwd" pane cwd
                              || differs_if_present "label" pane label))))
                topology_ownership_mismatch
              >?> λ _. done (record {
                workspace_id = workspace_id;
                tab_id = tab_id;
                pane_id = pane_id;
                label = label;
                cwd = cwd;
                creation_receipt_digest = digest;
              })
        ]
      ]
    ]
  ]
]

abbrev pub only : {A : Type 0} → List A → Option A
only [] = none
only (a ∷ rest) = elim rest [ [] ↦ some a | _ ↦ none ]

-- `_observed_workspace`
unfoldable pub observed_workspace : Snapshot → String → String → Outcome WorkspaceProof
observed_workspace s id digest =
    elim (only (keep (λ f. is_text id (value_of "workspace_id" f)) s.workspaces)) [
      | none ↦ refused topology_ownership_mismatch
      | some workspace ↦ elim (only (keep (λ f. is_text id (value_of "workspace_id" f)) s.tabs)) [
        | none ↦ refused topology_ownership_mismatch
        | some tab ↦ elim (only (keep (λ f. is_text id (value_of "workspace_id" f)) s.panes)) [
          | none ↦ refused topology_ownership_mismatch
          | some pane ↦ workspace_proof workspace tab pane digest
        ]
      ]
    ]

-- `_id_set`: the texts of a field, none empty and none twice.
abbrev pub texts_of : String → List Fields → Option (List String)
texts_of name [] = some []
texts_of name (f ∷ fs) =
    let later = texts_of name fs in
    elim (filled_text (value_of name f)) [
      | none ↦ none
      | some t ↦ elim later [ none ↦ none | some ts ↦ some (t ∷ ts) ]
    ]

unfoldable pub id_set : String → List Fields → Outcome (List String)
id_set name records = elim (texts_of name records) [
  | none ↦ refused invalid_receipt
  | some ids ↦
      require_not (keys_repeat (λ a b. a == b) ids) topology_ownership_mismatch >?> λ _. done ids
]

-- `_workspace_ids`
unfoldable pub workspace_ids : Snapshot → Outcome (List String)
workspace_ids s = id_set "workspace_id" s.workspaces >?> λ ids.
    done (sorted (λ a b. bytes_less (codes a) (codes b)) ids)

-- `self._resource_receipt_bindings.get(digest)`
abbrev pub binding_of : String → List (String × List Fingerprint) → Option (List Fingerprint)
binding_of digest [] = none
binding_of digest ((d, b) ∷ rest) =
    let later = binding_of digest rest in if d == digest then some b else later

-- `_record_resource_receipt_binding`
unfoldable pub record_binding : String → List Fingerprint → Action (Unit {0})
record_binding digest fingerprints w =
    let binding = sorted texts_less fingerprints in
    let stored : Outcome (Unit {0}) × World = (
      done tt,
      record w {
        transport = record w.transport {
          resource_receipt_bindings = (digest, binding) ∷ w.transport.resource_receipt_bindings;
        };
      },
    ) in
    elim (binding_of digest w.transport.resource_receipt_bindings) [
      | none ↦ stored
      | some existing ↦
          if existing == binding
          then stored
          else (failed (transport_error topology_ownership_mismatch false), w)
    ]

-- The objects that a created workspace's receipt names.
unfoldable pub created_proof : CommandReceipt → Outcome WorkspaceProof
created_proof receipt = elim (value_of "result" receipt.payload) [
  | object result ↦
      require_not (not (is_text "workspace_created" (value_of "type" result))) invalid_receipt
      >?> λ _. elim (value_of "workspace" result) [
        | object workspace ↦ elim (value_of "tab" result) [
          | object tab ↦ elim (value_of "root_pane" result) [
            | object pane ↦ workspace_proof workspace tab pane receipt.receipt_digest
            | _ ↦ refused invalid_receipt
          ]
          | _ ↦ refused invalid_receipt
        ]
        | _ ↦ refused invalid_receipt
      ]
  | _ ↦ refused invalid_receipt
]

-- They are where, and named as, the command asked for.
unfoldable pub fitting_proof : CommandReceipt → String → String → Outcome WorkspaceProof
fitting_proof receipt cwd label = created_proof receipt >?> λ proof.
    require_not (proof.cwd /= cwd || proof.label /= label) topology_ownership_mismatch >?> λ _.
    done proof

-- `_workspace_from_create`
unfoldable pub workspace_from_create : CommandReceipt → String → String → Action WorkspaceProof
workspace_from_create receipt cwd label = lift (fitting_proof receipt cwd label) >=> λ proof.
    record_binding receipt.receipt_digest (workspace_fingerprint proof ∷ []) >=> λ _. return proof

-- `_side_effect_from_snapshot`
abbrev pub side_effect_of : ProvisionIntent → WorkspaceProof → TopologySideEffectProof
side_effect_of intent p = record {
  project_id = intent.project_id;
  project_root = intent.project_root;
  workspace_id = p.workspace_id;
  tab_id = p.tab_id;
  pane_id = p.pane_id;
  label = p.label;
  cwd = p.cwd;
  creation_receipt_digest = p.creation_receipt_digest;
}

-- The one side effect that a start may have.
unfoldable pub startup_side_effect :
    ProvisionIntent → Snapshot → String → String → Outcome TopologySideEffectProof
startup_side_effect intent s digest id = observed_workspace s id digest >?> λ proof.
    require_not (proof.label /= "Workspace 1" || proof.cwd /= intent.project_root)
      topology_ownership_mismatch
    >?> λ _. done (side_effect_of intent proof)

-- `_startup_side_effects`: none, or the one workspace that is there.
unfoldable pub bind_side_effects :
    ProvisionIntent → Snapshot → String → List String → Action (List TopologySideEffectProof)
bind_side_effects intent s digest [] = record_binding digest [] >=> λ _. return []
bind_side_effects intent s digest (id ∷ []) =
    lift (startup_side_effect intent s digest id) >=> λ effect.
    record_binding digest (side_effect_fingerprint effect ∷ []) >=> λ _. return (effect ∷ [])
bind_side_effects intent s digest (id ∷ (other ∷ more)) = lift (refused topology_ownership_mismatch)

unfoldable pub startup_side_effects :
    ProvisionIntent → Snapshot → String → Action (List TopologySideEffectProof)
startup_side_effects intent s digest = lift (workspace_ids s) >=> bind_side_effects intent s digest
