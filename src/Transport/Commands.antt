-- ===== src/Transport/Commands.antt =====
-- `_command` of lib/ask_herdr_herdr_transport.py and the two readers of the live topology.
use ask_herdr.Base.{
  String, Bool, true, false, not, ◌&&◌, ◌||◌, Option, none, some, is_some, List, [], ◌∷◌, any, ◌==◌,
  string_eq, if◌then◌else◌,
}
use ask_herdr.StrictJson.Values.{
  pos, same_integer, Json, null, text, array, object, Items, end_items, item, Fields, get_field,
  value_of,
}
use ask_herdr.Transport.Proofs.{
  ReceiptKind, session_list, session_start, snapshot, workspace_create, workspace_close, pane_run,
  Argv, CommandResponse, CommandReceipt, TransportErrorKind, invalid_receipt,
  topology_ownership_mismatch, session_namespace,
}
use ask_herdr.Transport.Actions.{
  transport_error, Outcome, done, failed, ran, TransportState, Action, ◌>=>◌, ◌>?>◌, refused,
  require_not, lift, Herdr, RunnerAnswer, raises, unsupported, responds,
}

abbrev pub is_object : Json → Bool
is_object (object f) = true
is_object _ = false

-- A field that is there holds an object.
abbrev pub object_or_absent : Option Json → Bool
object_or_absent none = true
object_or_absent (some value) = is_object value

abbrev pub text_of : Json → Option String
text_of (text value) = some value
text_of _ = none

abbrev pub is_null : Json → Bool
is_null null = true
is_null _ = false

-- `value.get(key)` of an object; `None` of anything else.
abbrev pub inner_text : Json → String → Option String
inner_text (object f) key = text_of (value_of key f)
inner_text _ key = none

-- `payload.get("result", payload)`
abbrev pub result_of : Fields → Json
result_of payload = elim (get_field "result" payload) [ none ↦ object payload | some r ↦ r ]

-- The kinds whose response must carry a request id.
abbrev pub needs_request_id : ReceiptKind → Bool
needs_request_id session_start = true
needs_request_id snapshot = true
needs_request_id workspace_create = true
needs_request_id workspace_close = true
needs_request_id pane_run = true
needs_request_id _ = false

-- The request id of a payload; refused where it is no text, empty or seen before, or is missing and needed.
abbrev pub request_id_in : ReceiptKind → List String → Json → Outcome (Option String)
request_id_in kind seen null = if needs_request_id kind then refused invalid_receipt else done none
request_id_in kind seen (text id) =
    if id == "" || any (λ s. s == id) seen then refused invalid_receipt else done (some id)
request_id_in kind seen other = refused invalid_receipt

abbrev pub request_id_of : ReceiptKind → List String → Fields → Outcome (Option String)
request_id_of kind seen payload = request_id_in kind seen (value_of "id" payload)

-- The tests of a parsed response, in their order, with its object and request id.
unfoldable pub read_payload :
    ReceiptKind → List String → Option Json → Outcome (Fields × Option String)
read_payload kind seen (some (object payload)) =
    require_not (is_some (get_field "result" payload) && is_some (get_field "error" payload))
      invalid_receipt
    >?> λ _.
        require_not (not (object_or_absent (get_field "result" payload))) invalid_receipt >?> λ _.
        require_not (not (object_or_absent (get_field "error" payload))) invalid_receipt >?> λ _.
        request_id_of kind seen payload >?> λ id. done (payload, id)
read_payload kind seen _ = refused invalid_receipt

pub record Snapshot : Type 0 where
  pub workspaces : List Fields
  pub tabs : List Fields
  pub panes : List Fields

-- `_require_success`
abbrev pub require_success : CommandReceipt → TransportErrorKind → Outcome (Unit {0})
require_success receipt kind =
    require_not (not (same_integer receipt.exit_code (pos 0)) || is_some receipt.error_code) kind

-- The objects of a list, if it is one and holds nothing else.
abbrev pub objects_of_items : Items → Option (List Fields)
objects_of_items end_items = some []
objects_of_items (item value rest) =
    let later = objects_of_items rest in
    elim value [ object f ↦ elim later [ none ↦ none | some fs ↦ some (f ∷ fs) ] | _ ↦ none ]

abbrev pub objects_of : Json → Option (List Fields)
objects_of (array items) = objects_of_items items
objects_of _ = none

abbrev pub given : {A : Type 0} → Option A → TransportErrorKind → Outcome A
given none kind = refused kind
given (some a) kind = done a

-- The tests of a snapshot's receipt.
unfoldable pub snapshot_of : CommandReceipt → Outcome Snapshot
snapshot_of receipt = require_success receipt topology_ownership_mismatch >?> λ _.
    elim (result_of receipt.payload) [
      | object result ↦ elim (value_of "snapshot" result) [
        | object found ↦
            given (objects_of (value_of "workspaces" found)) invalid_receipt >?> λ workspaces.
            given (objects_of (value_of "tabs" found)) invalid_receipt >?> λ tabs.
            given (objects_of (value_of "panes" found)) invalid_receipt >?> λ panes.
            done (record { workspaces = workspaces; tabs = tabs; panes = panes })
        | _ ↦ refused invalid_receipt
      ]
      | _ ↦ refused invalid_receipt
    ]

module _ (herdr : Herdr) where
  abbrev pub receipt_of :
      ReceiptKind → Argv → CommandResponse → Fields → Option String → CommandReceipt
  receipt_of kind argv r payload id = record {
    kind = kind;
    argv = argv;
    exit_code = r.exit_code;
    request_id = id;
    result_type = inner_text (result_of payload) "type";
    payload = payload;
    error_code = inner_text (value_of "error" payload) "code";
    stderr = r.stderr;
    receipt_digest = herdr.receipt_digest argv r;
  }

  -- The state behind an accepted receipt.
  abbrev pub remember : TransportState → CommandReceipt → TransportState
  remember t receipt = record t {
    seen_request_ids = elim receipt.request_id [
      | none ↦ t.seen_request_ids
      | some id ↦ id ∷ t.seen_request_ids
    ];
    trusted_receipt_kinds = (receipt.receipt_digest, receipt.kind) ∷ t.trusted_receipt_kinds;
  }

  -- The receipt of a parsed response, and the state behind it.
  abbrev pub accept_payload :
      ReceiptKind
      → Argv
      → CommandResponse
      → Outcome (Fields × Option String)
      → Action CommandReceipt
  accept_payload kind argv r (failed e) w = (failed e, w)
  accept_payload kind argv r (done (payload, id)) w =
      let receipt = receipt_of kind argv r payload id in
      (done receipt, record w { transport = remember w.transport receipt })

  -- What is made of the runner's answer.
  unfoldable pub accept_answer : ReceiptKind → Argv → RunnerAnswer → Action CommandReceipt
  accept_answer kind argv raises w = (failed (transport_error invalid_receipt true), w)
  accept_answer kind argv unsupported w = (failed (transport_error invalid_receipt false), w)
  accept_answer kind argv (responds r) w =
      accept_payload kind argv r
        (read_payload kind w.transport.seen_request_ids (herdr.loads r.stdout)) w

  -- `_command`
  unfoldable pub command : ReceiptKind → Argv → Action CommandReceipt
  command kind argv w =
      accept_answer kind argv (herdr.runner w.log argv) (record w { log = ran kind argv ∷ w.log })

  -- `_session_list`
  unfoldable pub list_sessions : Action (List Fields)
  list_sessions = command session_list ("session" ∷ "list" ∷ "--json" ∷ []) >=> λ receipt. lift (
      require_success receipt invalid_receipt >?> λ _.
      given (objects_of (value_of "sessions" receipt.payload)) invalid_receipt)

  -- `_snapshot`
  unfoldable pub take_snapshot : Action Snapshot
  take_snapshot =
      command snapshot ("--session" ∷ session_namespace ∷ "api" ∷ "snapshot" ∷ []) >=> λ receipt.
      lift (snapshot_of receipt)
