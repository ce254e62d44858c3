-- ===== src/Transport/Actions.antt =====
-- What a call does to the world: the transport's own state, the commands and journal entries so far, and
-- an outcome that may be an exception.
use ask_herdr.Base.{ℕ, String, Bool, true, false, Option, List}
use ask_herdr.StrictJson.Values.{ℤ, Json}
use ask_herdr.Transport.Proofs.{
  ReceiptKind, Argv, CommandResponse, TransportErrorKind, Fingerprint, ProjectTopologyProof,
}

-- `TransportError` and `JournaledProvisionError` with what callers read of them; other exceptions are one.
pub data Exception : Type 0 where
  transport_error : TransportErrorKind → Bool → Exception
  provision_error : String → Bool → Exception
  other_exception : Exception

pub data Outcome (A : Type 0) : Type 0 where
  done : A → Outcome A
  failed : Exception → Outcome A

-- `TopologyCommandIntent`
pub record TopologyCommandIntent : Type 0 where
  pub mutation_id : String
  pub step_id : String
  pub command_kind : String
  pub command_argv_digest : String
  pub expected_postcondition_digest : String
  pub step_sequence : ℕ
  pub prior_step_id : Option String

-- `TopologyCommandReceipt`; its disposition is always CONFIRMED here.
pub record TopologyCommandReceipt : Type 0 where
  pub mutation_id : String
  pub step_id : String
  pub command_kind : String
  pub command_argv_digest : String
  pub command_receipt_digest : String
  pub request_id : String
  pub exit_code : ℤ
  pub observed_postcondition_digest : String
  pub session_dir : String
  pub socket_path : String
  pub session_generation_id : String
  pub resource_binding_digests : List String

-- `TopologyStoreMutationResult`
pub record StoreResult : Type 0 where
  pub outcome_kind : String
  pub detail_code : String

-- What has happened: a command given to the runner, and what the store answered to a journal entry.
pub data Event : Type 0 where
  ran : ReceiptKind → Argv → Event
  intent_answered : TopologyCommandIntent → StoreResult → Event
  receipt_answered : TopologyCommandReceipt → StoreResult → Event

-- The private dictionaries of `HerdrTransport` that are read, the newest entry first. `_receipts_by_digest`
-- and `_session_generations` are written and never read.
pub record TransportState : Type 0 where
  pub trusted_receipt_kinds : List (String × ReceiptKind)
  pub seen_request_ids : List String
  pub resource_receipt_bindings : List (String × List Fingerprint)

-- `_CommandTicket`
pub record CommandTicket : Type 0 where
  pub step_id : String
  pub step_sequence : ℕ
  pub prior_step_id : Option String
  pub kind : ReceiptKind
  pub argv : Argv
  pub argv_digest : String
  pub expected_postcondition_digest : String

-- The fields of `_JournalPort` that change.
pub record PortState : Type 0 where
  pub next_index : ℕ
  pub pending : Option CommandTicket
  pub receipts : List TopologyCommandReceipt
  pub final_project : Option ProjectTopologyProof

pub record World : Type 0 where
  pub transport : TransportState
  pub port : PortState
  pub log : List Event

abbrev pub Action : Type 0 → Type 0
Action A = World → Outcome A × World

module _ {A : Type 0} where
  abbrev pub return : A → Action A
  return a w = (done a, w)

  abbrev pub throw : Exception → Action A
  throw e w = (failed e, w)

  -- `_fail`
  abbrev pub fail : TransportErrorKind → Action A
  fail kind = throw (transport_error kind false)

  abbrev pub and_then : {B : Type 0} → Outcome A × World → (A → Action B) → Outcome B × World
  and_then (done a, w) next = next a w
  and_then (failed e, w) next = (failed e, w)

  infixl 5 ◌>=>◌
  abbrev pub ◌>=>◌ : {B : Type 0} → Action A → (A → Action B) → Action B
  (act >=> next) w = and_then (act w) next

-- Checks that touch no state.
infixl 5 ◌>?>◌
abbrev pub ◌>?>◌ : {A B : Type 0} → Outcome A → (A → Outcome B) → Outcome B
done a >?> next = next a
failed e >?> next = failed e

abbrev pub refused : {A : Type 0} → TransportErrorKind → Outcome A
refused kind = failed (transport_error kind false)

-- `if test: self._fail(kind, ...)`
abbrev pub require_not : Bool → TransportErrorKind → Outcome (Unit {0})
require_not true kind = refused kind
require_not false kind = done tt

abbrev pub lift : {A : Type 0} → Outcome A → Action A
lift o w = (o, w)

abbrev pub get_world : Action World
get_world w = (done w, w)

abbrev pub set_transport : TransportState → Action Unit
set_transport t w = (done tt, record w { transport = t })

-- What the injected runner does when it is called: it raises, it returns no response object, or it
-- responds.
pub data RunnerAnswer : Type 0 where
  raises : RunnerAnswer
  unsupported : RunnerAnswer
  responds : CommandResponse → RunnerAnswer

-- The runner that the caller injects, and what the standard library does: `json.loads` with the hook that
-- refuses repeated keys (`none` where it raises), the SHA-256 digest of `json.dumps` of a response, the
-- first sixteen hexadecimal digits of the SHA-256 of a text, and `posixpath.normpath`. What the runner does
-- may depend on all that happened before.
pub record Herdr : Type 0 where
  pub runner : List Event → Argv → RunnerAnswer
  pub loads : String → Option Json
  pub receipt_digest : Argv → CommandResponse → String
  pub short_digest : String → String
  pub normpath : String → String
