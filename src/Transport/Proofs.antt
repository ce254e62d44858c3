-- ===== src/Transport/Proofs.antt =====
-- The proofs of lib/ask_herdr_topology_contract.py and the data of the provision in
-- lib/ask_herdr_herdr_transport.py.
use ask_herdr.Base.{
  String, Bool, true, false, ◌&&◌, ◌||◌, Option, List, [], ◌∷◌, codes, ◌==◌, string_eq, Eq,
  eq_of_discrete, String-discrete,
}
use ask_herdr.StrictJson.Values.{ℤ, Fields}
use ask_herdr.StrictJson.Canonical.{bytes_less}
use mathlib.Core.Bool.{Bool-discrete}

pub record SessionBinding : Type 0 where
  pub name : String
  pub default : Bool
  pub session_dir : String
  pub socket_path : String
  pub generation_id : String

pub record WorkspaceProof : Type 0 where
  pub workspace_id : String
  pub tab_id : String
  pub pane_id : String
  pub label : String
  pub cwd : String
  pub creation_receipt_digest : String

pub record LaneTopologyProof : Type 0 where
  pub project_id : String
  pub lane_id : String
  pub consultant_key : String
  pub project_root : String
  pub topology_nonce : String
  pub workspace : WorkspaceProof

pub record TopologySideEffectProof : Type 0 where
  pub project_id : String
  pub project_root : String
  pub workspace_id : String
  pub tab_id : String
  pub pane_id : String
  pub label : String
  pub cwd : String
  pub creation_receipt_digest : String

pub record ProjectTopologyProof : Type 0 where
  pub project_id : String
  pub project_root : String
  pub namespace : String
  pub topology_epoch_id : String
  pub session_binding : SessionBinding
  pub lanes : List LaneTopologyProof
  pub side_effects : List TopologySideEffectProof

unfoldable pub SessionBinding-discrete : Discrete SessionBinding
SessionBinding-discrete = hlevel (String-discrete, Bool-discrete)

instance abbrev pub session_binding_eq : Eq SessionBinding
session_binding_eq = eq_of_discrete SessionBinding-discrete

unfoldable pub WorkspaceProof-discrete : Discrete WorkspaceProof
WorkspaceProof-discrete = hlevel String-discrete

instance abbrev pub workspace_proof_eq : Eq WorkspaceProof
workspace_proof_eq = eq_of_discrete WorkspaceProof-discrete

unfoldable pub LaneTopologyProof-discrete : Discrete LaneTopologyProof
LaneTopologyProof-discrete = hlevel (String-discrete, WorkspaceProof-discrete)

unfoldable pub TopologySideEffectProof-discrete : Discrete TopologySideEffectProof
TopologySideEffectProof-discrete = hlevel String-discrete

unfoldable pub ProjectTopologyProof-discrete : Discrete ProjectTopologyProof
ProjectTopologyProof-discrete = hlevel (
  String-discrete, SessionBinding-discrete, LaneTopologyProof-discrete,
  TopologySideEffectProof-discrete,
)

instance abbrev pub project_topology_eq : Eq ProjectTopologyProof
project_topology_eq = eq_of_discrete ProjectTopologyProof-discrete

pub data ReceiptKind : Type 0 where
  session_list : ReceiptKind
  session_start : ReceiptKind
  session_stop : ReceiptKind
  session_delete : ReceiptKind
  snapshot : ReceiptKind
  workspace_create : ReceiptKind
  workspace_close : ReceiptKind
  pane_run : ReceiptKind

-- The values of the enumeration.
abbrev pub kind_value : ReceiptKind → String
kind_value session_list = "session_list"
kind_value session_start = "session_start"
kind_value session_stop = "session_stop"
kind_value session_delete = "session_delete"
kind_value snapshot = "snapshot"
kind_value workspace_create = "workspace_create"
kind_value workspace_close = "workspace_close"
kind_value pane_run = "pane_run"

abbrev pub is_kind : ReceiptKind → ReceiptKind → Bool
is_kind a b = kind_value a == kind_value b

abbrev pub Argv : Type 0
Argv = List String

pub record CommandResponse : Type 0 where
  pub exit_code : ℤ
  pub stdout : String
  pub stderr : String

-- `authority` is determined by the kind, and left out.
pub record CommandReceipt : Type 0 where
  pub kind : ReceiptKind
  pub argv : Argv
  pub exit_code : ℤ
  pub request_id : Option String
  pub result_type : Option String
  pub payload : Fields
  pub error_code : Option String
  pub stderr : String
  pub receipt_digest : String

pub record ProvisionIntent : Type 0 where
  pub project_id : String
  pub lane_id : String
  pub consultant_key : String
  pub project_root : String
  pub topology_nonce : String
  pub lane_workspace_cwd : Option String

pub data ProvisionOutcome : Type 0 where
  created : ProvisionOutcome
  adopted : ProvisionOutcome

-- The receipts that a result or an error carries stand in the log of the world.
pub record ProvisionResult : Type 0 where
  pub outcome : ProvisionOutcome
  pub project : ProjectTopologyProof
  pub lane : LaneTopologyProof

pub record PlannedTopologyCommand : Type 0 where
  pub kind : ReceiptKind
  pub argv : Argv

pub data TransportErrorKind : Type 0 where
  invalid_intent : TransportErrorKind
  invalid_receipt : TransportErrorKind
  namespace_unowned : TransportErrorKind
  topology_mutation_ambiguous : TransportErrorKind
  topology_ownership_mismatch : TransportErrorKind
  release_ownership_mismatch : TransportErrorKind
  release_ambiguous : TransportErrorKind

abbrev pub session_namespace : String
session_namespace = "ask-pipeline"

-- `topology_resource_fingerprint`: workspace, tab, pane, label and working directory. No proof that the
-- transport makes has an empty one, for which the code raises.
abbrev pub Fingerprint : Type 0
Fingerprint = List String

abbrev pub workspace_fingerprint : WorkspaceProof → Fingerprint
workspace_fingerprint p = p.workspace_id ∷ p.tab_id ∷ p.pane_id ∷ p.label ∷ p.cwd ∷ []

abbrev pub side_effect_fingerprint : TopologySideEffectProof → Fingerprint
side_effect_fingerprint p = p.workspace_id ∷ p.tab_id ∷ p.pane_id ∷ p.label ∷ p.cwd ∷ []

-- `<` of two tuples of texts
abbrev pub texts_less : List String → List String → Bool
texts_less [] [] = false
texts_less [] (b ∷ bs) = true
texts_less (a ∷ as') [] = false
texts_less (a ∷ as') (b ∷ bs) = bytes_less (codes a) (codes b) || (a == b && texts_less as' bs)
