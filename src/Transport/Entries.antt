-- ===== src/Transport/Entries.antt =====
-- The journal entries of lib/ask_herdr_journaled_provision.py with their digests and their checks in
-- lib/ask_herdr_topology_store.py, and the store and the file system that answer.
use ask_herdr.Base.{
  String, Bool, true, false, ◌&&◌, Option, none, some, List, [], ◌∷◌, any, codes, leb, ◌==◌, ◌/=◌,
  string_eq, option_eq, nat_eq, if◌then◌else◌, Result, ok, raised, Eq, eq_of_discrete,
  String-discrete,
}
use native.Mathlib.Decide.{ℕ_discrete}
use ask_herdr.StrictJson.Values.{array, object, text, Items, item, end_items, field, end_fields}
use ask_herdr.StrictJson.Digest.{Encodings, digest}
use ask_herdr.Transport.Proofs.{
  ReceiptKind, Argv, session_binding_eq, ProvisionIntent, Fingerprint, session_namespace,
}
use ask_herdr.Transport.Actions.{
  Exception, provision_error, other_exception, Outcome, done, failed, TopologyCommandIntent,
  TopologyCommandReceipt, StoreResult, Event, CommandTicket, ◌>?>◌,
}
use ask_herdr.Transport.Sessions.{starts_alphanumeric, is_identifier_char}
use ask_herdr.LaneTurn.Guards.{is_uuid, is_digest}

-- What the port reads of `TopologyMutationIntent`.
pub record TopologyMutationIntent : Type 0 where
  pub mutation_id : String
  pub expected_postcondition_digest : String
  pub lane_workspace_binding_digest : String
  pub topology_store_incarnation_digest : Option String

pub record JournaledProvisionRequest : Type 0 where
  pub mutation_intent : TopologyMutationIntent
  pub provision_intent : ProvisionIntent
  pub session_start_step_id : String
  pub workspace_create_step_id : String

-- What is answered to a claimed intent: the lease is refused with a detail code, the store answers under
-- it, or the store answers and the lease then raises as it is given back.
pub data ClaimedAnswer : Type 0 where
  lease_refused : String → ClaimedAnswer
  answered : StoreResult → ClaimedAnswer
  lease_lost : StoreResult → String → ClaimedAnswer

-- The operations of the topology store and of the lease that the port calls, and the binding digest of the
-- lane workspace in the file system, which is not there when it cannot be bound.
pub record Surroundings : Type 0 where
  pub workspace_digest : List Event → Option String
  pub commit_command_intent : List Event → TopologyCommandIntent → StoreResult
  pub commit_claimed_intent : List Event → TopologyCommandIntent → ClaimedAnswer
  pub commit_command_receipt : List Event → TopologyCommandReceipt → StoreResult

unfoldable pub ReceiptKind-discrete : Discrete ReceiptKind
ReceiptKind-discrete = hlevel String-discrete

unfoldable pub CommandTicket-discrete : Discrete CommandTicket
CommandTicket-discrete = hlevel (String-discrete, ℕ_discrete, ReceiptKind-discrete)

instance abbrev pub ticket_eq : Eq CommandTicket
ticket_eq = eq_of_discrete CommandTicket-discrete

unfoldable pub Argv-discrete : Discrete Argv
Argv-discrete = hlevel String-discrete

instance abbrev pub argv_eq : Eq Argv
argv_eq = eq_of_discrete Argv-discrete

abbrev pub texts : List String → Items
texts [] = end_items
texts (s ∷ ss) = item (text s) (texts ss)

-- A value error is no transport error.
abbrev pub check_values : Bool → Outcome (Unit {0})
check_values true = done tt
check_values false = failed other_exception

-- `TOKEN.fullmatch`
abbrev pub is_store_token : String → Bool
is_store_token s = starts_alphanumeric is_identifier_char 255 (codes s)

-- `TopologyCommandIntent.__post_init__`
unfoldable pub check_intent : TopologyCommandIntent → Outcome (Unit {0})
check_intent i = check_values (
    is_uuid i.mutation_id
    && (is_uuid i.step_id
        && (is_store_token i.command_kind
            && (is_digest i.command_argv_digest
                && (is_digest i.expected_postcondition_digest
                    && (leb 1 i.step_sequence
                        && elim i.prior_step_id [ none ↦ true | some step ↦ is_uuid step ]))))))

-- A digest that raises is no transport error.
abbrev pub written : Result String → Outcome String
written (raised failure) = failed other_exception
written (ok d) = done d

-- `_digest(list(argv))`
abbrev pub argv_digest : Encodings → Argv → Outcome String
argv_digest lib argv = written (digest lib (array (texts argv)))

-- `_session_postcondition_digest`
abbrev pub session_postcondition_digest : Encodings → ProvisionIntent → Outcome String
session_postcondition_digest lib i = written (
    digest lib (
      object (
        field "schema" (text "ask_herdr.session_start_postcondition.v1") (
          field "namespace" (text session_namespace) (
            field "project_id" (text i.project_id) (
              field "project_root" (text i.project_root) (
                field "topology_nonce" (text i.topology_nonce) (
                  field "startup_side_effect" (text "zero_or_exact_documented_default")
                    end_fields))))))))

-- `resource_binding_digest` of a fingerprint.
abbrev pub resource_digest : Encodings → Fingerprint → Outcome String
resource_digest lib (workspace ∷ (tab ∷ (pane ∷ (label ∷ (cwd ∷ []))))) = written (
    digest lib (
      object (
        field "schema" (text "ask_herdr.topology_resource_binding.v1") (
          field "workspace_id" (text workspace) (
            field "tab_id" (text tab) (
              field "pane_id" (text pane)
                (field "label" (text label) (field "cwd" (text cwd) end_fields))))))))
resource_digest lib other = failed other_exception

abbrev pub resource_digests : Encodings → List Fingerprint → Outcome (List String)
resource_digests lib [] = done []
resource_digests lib (f ∷ fs) =
    let rest = resource_digests lib fs in
    resource_digest lib f >?> λ d. rest >?> λ ds. done (if any (λ x. x == d) ds then ds else d ∷ ds)

-- `_raise_store_failure`
abbrev pub store_failure : StoreResult → Exception
store_failure r = provision_error r.detail_code (r.outcome_kind /= "durability_not_supported")
