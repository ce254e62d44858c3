-- ===== src/Transport/Tests.antt =====
-- A provision of a first lane, run against a runner and a store that answer as they should, and the theorems
-- at it.
use ask_herdr.Base.{
  ℕ, String, true, false, Option, none, some, [], ◌∷◌, ◌++◌, codes, length, nat_eq, string_eq, ◌==◌,
  ◌≡◌, refl, if◌then◌else◌, String-discrete,
}
use ask_herdr.StrictJson.Values.{
  pos, Json, boolean, text, object, array, Items, item, end_items, field, end_fields, same_json,
}
use ask_herdr.StrictJson.Digest.{Encodings, digest}
use ask_herdr.Transport.Proofs.{
  ProvisionIntent, created, LaneTopologyProof, ProvisionResult, adopted, snapshot, Argv,
  CommandReceipt, SessionBinding-discrete, WorkspaceProof-discrete,
}
use ask_herdr.Transport.Actions.{done, World, Herdr, responds, ran}
use ask_herdr.Transport.Provision.{
  check_known, provision, validate_intent, effect_command, started_session, prove_start,
  prove_create, prove_known, start_session, create_lane, provision_lane,
}
use ask_herdr.Transport.Entries.{
  JournaledProvisionRequest, Surroundings, answered, check_intent, CommandTicket-discrete,
  ReceiptKind-discrete, Argv-discrete,
}
use ask_herdr.Transport.Journal.{
  journal_port, provision_command_intents, check_receipt, assert_workspace_binding, commit_intent,
  due_intent, before_command, ticket_receipt, commit_receipt, after_command,
}
use ask_herdr.Transport.Commands.{
  read_payload, snapshot_of, accept_answer, command, list_sessions, take_snapshot,
}
use ask_herdr.Transport.Sessions.{
  is_identifier, is_intent_key, named_session, generation_of, session_binding,
  started_session_binding,
}
use ask_herdr.Transport.Workspaces.{
  fingerprints-discrete, workspace_proof, observed_workspace, id_set, workspace_ids, record_binding,
  created_proof, fitting_proof, workspace_from_create, startup_side_effect, bind_side_effects,
  startup_side_effects,
}
use ask_herdr.Transport.Verification.{
  lane_for_key, lane_label, verify_snapshot, verify_project, validate_project_identity,
}
use ask_herdr.StrictJson.Canonical.{canonical_json, joined}
use ask_herdr.Base.Sorting.{sorted}
use mathlib.Core.Bool.{decide}
use native.Mathlib.Decide.{ℕ_discrete}
use ask_herdr.LaneTurn.Guards.{is_uuid, is_digest}
use ask_herdr.Transport.Triples.{Ends}
use ask_herdr.Transport.WriteAhead.{standing, idle}
use ask_herdr.Transport.Stages.{IsIdle, IsKept, At}
use ask_herdr.Transport.Results.{IsProvisionOf, provision-IsProvisionOf}
use ask_herdr.Transport.Adoption.{provision_adopts}
use ask_herdr.Transport.WriteAhead.{effects}
use ask_herdr.ProjectStatus.Find.{keys_repeat}
use ask_herdr.Transport.RequestIds.{same_id, is_fresh, command_ids}
use ask_herdr.Transport.Discipline.{provision_writes_ahead}

abbrev lib : Encodings
lib = record {
  encoder = record { quote = λ s. b'"' ∷ (codes s ++ b'"' ∷ []); decimal = λ n. b'0' ∷ [] };
  hexdigest = λ b. "0123456789abcdef0123456789abcdef0123456789abcdef0123456789abcdef";
  parse_object = λ b. none;
  b64encode = λ b. b;
  b64decode = λ b. some b;
}

abbrev session : Json
session = object (
    field "name" (text "ask-pipeline") (
      field "default" (boolean false) (
        field "running" (boolean true) (
          field "session_dir" (text "/run/s") (
            field "socket_path" (text "/run/s/socket")
              (field "generation_id" (text "g1") end_fields))))))

abbrev sessions : Items → Json
sessions found = object (field "sessions" (array found) end_fields)

abbrev workspace : Json
workspace = object (
    field "workspace_id" (text "w1") (
      field "label" (text "ask-pipeline:claude:0123456789abcdef")
        (field "cwd" (text "/project") end_fields)))

abbrev tab : Json
tab = object (field "workspace_id" (text "w1") (field "tab_id" (text "t1") end_fields))

abbrev pane : Json
pane = object (
    field "workspace_id" (text "w1")
      (field "tab_id" (text "t1") (field "pane_id" (text "p1") end_fields)))

abbrev topology : String → Items → Items → Items → Json
topology id workspaces tabs panes = object (
    field "id" (text id) (
      field "result"
        (object (
          field "snapshot"
            (object (
              field "workspaces" (array workspaces)
                (field "tabs" (array tabs) (field "panes" (array panes) end_fields))))
            end_fields))
        end_fields))

abbrev started : Json
started = object (
    field "id" (text "r1") (
      field "result"
        (object (field "type" (text "server_started") (field "session" session end_fields)))
        end_fields))

abbrev workspace_created : Json
workspace_created = object (
    field "id" (text "r3") (
      field "result"
        (object (
          field "type" (text "workspace_created")
            (field "workspace" workspace (field "tab" tab (field "root_pane" pane end_fields)))))
        end_fields))

-- The response that stands for a text.
abbrev parsed_response : String → Option Json
parsed_response s =
    if s == "no sessions"
    then some (sessions end_items)
    else if s == "started"
    then some started
    else if s == "one session"
    then some (sessions (item session end_items))
    else if s == "empty"
    then some (topology "r2" end_items end_items end_items)
    else if s == "created"
    then some workspace_created
    else if s == "one workspace"
    then some (topology "r4" (item workspace end_items) (item tab end_items) (item pane end_items))
    else if s == "again"
    then some (topology "r5" (item workspace end_items) (item tab end_items) (item pane end_items))
    else none

-- What the runner prints after so many events.
abbrev printed : ℕ → String
printed n =
    if n == 0
    then "no sessions"
    else if n == 2
    then "started"
    else if n == 3
    then "one session"
    else if n == 4
    then "empty"
    else if n == 7
    then "created"
    else if n == 10
    then "one session"
    else if n == 11
    then "again"
    else "one workspace"

abbrev start_digest : String
start_digest = "sha256:0123456789abcdef0123456789abcdef0123456789abcdefaaaaaaaaaaaaaaaa"

abbrev create_digest : String
create_digest = "sha256:0123456789abcdef0123456789abcdef0123456789abcdefbbbbbbbbbbbbbbbb"

abbrev read_digest : String
read_digest = "sha256:0123456789abcdef0123456789abcdef0123456789abcdefcccccccccccccccc"

abbrev herdr : Herdr
herdr = record {
  runner = λ log argv.
      responds (record { exit_code = pos 0; stdout = printed (length log); stderr = "" });
  loads = parsed_response;
  receipt_digest = λ argv r.
      if r.stdout == "started"
      then start_digest
      else if r.stdout == "created"
      then create_digest
      else read_digest;
  short_digest = λ s. "0123456789abcdef";
  normpath = λ s. s;
}

abbrev store : Surroundings
store = record {
  workspace_digest = λ log. some "workspace";
  commit_command_intent =
      λ log i. record { outcome_kind = "topology_command_prepared"; detail_code = "" };
  commit_claimed_intent =
      λ log i. answered (record { outcome_kind = "topology_command_prepared"; detail_code = "" });
  commit_command_receipt =
      λ log r. record { outcome_kind = "topology_command_receipt_recorded"; detail_code = "" };
}

abbrev first_intent : ProvisionIntent
first_intent = record {
  project_id = "project";
  lane_id = "lane";
  consultant_key = "claude";
  project_root = "/project";
  topology_nonce = "nonce";
  lane_workspace_cwd = none;
}

abbrev request : JournaledProvisionRequest
request = record {
  mutation_intent = record {
    mutation_id = "11111111-1111-4111-8111-111111111111";
    expected_postcondition_digest = read_digest;
    lane_workspace_binding_digest = "workspace";
    topology_store_incarnation_digest = none;
  };
  provision_intent = first_intent;
  session_start_step_id = "22222222-2222-4222-8222-222222222222";
  workspace_create_step_id = "33333333-3333-4333-8333-333333333333";
}

abbrev nothing : World
nothing = record {
  transport = record {
    trusted_receipt_kinds = [];
    seen_request_ids = [];
    resource_receipt_bindings = [];
  };
  port = record { next_index = 0; pending = none; receipts = []; final_project = none };
  log = [];
}

nothing_open : standing lib [] ≡ some idle
unfolding standing
nothing_open = refl

provision_writes_ahead_example :
    Ends
      (At lib IsKept)
      (λ result. At lib IsIdle)
      (provision herdr first_intent (some (journal_port lib herdr store request)) none nothing)
provision_writes_ahead_example =
    provision_writes_ahead lib herdr store request first_intent none nothing
      (record { stands = nothing_open; free = refl })

-- What the run returns.
abbrev first_lane : LaneTopologyProof
first_lane = record {
  project_id = "project";
  lane_id = "lane";
  consultant_key = "claude";
  project_root = "/project";
  topology_nonce = "nonce";
  workspace = record {
    workspace_id = "w1";
    tab_id = "t1";
    pane_id = "p1";
    label = "ask-pipeline:claude:0123456789abcdef";
    cwd = "/project";
    creation_receipt_digest = create_digest;
  };
}

abbrev first_result : ProvisionResult
first_result = record {
  outcome = created;
  project = record {
    project_id = "project";
    project_root = "/project";
    namespace = "ask-pipeline";
    topology_epoch_id = "nonce";
    session_binding = record {
      name = "ask-pipeline";
      default = false;
      session_dir = "/run/s";
      socket_path = "/run/s/socket";
      generation_id = "g1";
    };
    lanes = first_lane ∷ [];
    side_effects = [];
  };
  lane = first_lane;
}

first_run :
    (provision herdr first_intent (some (journal_port lib herdr store request)) none nothing).0
    ≡ done first_result
unfolding read_payload snapshot_of accept_answer command list_sessions take_snapshot is_identifier
    is_intent_key named_session generation_of session_binding started_session_binding
    fingerprints-discrete workspace_proof observed_workspace id_set workspace_ids record_binding
    created_proof fitting_proof workspace_from_create startup_side_effect bind_side_effects
    startup_side_effects lane_label verify_snapshot verify_project validate_project_identity
    validate_intent effect_command started_session prove_start prove_create prove_known
    start_session create_lane provision_lane provision provision_command_intents check_intent
    check_receipt is_uuid is_digest assert_workspace_binding commit_intent due_intent before_command
    ticket_receipt commit_receipt after_command digest canonical_json joined sorted same_json decide
    CommandTicket-discrete String-discrete ℕ_discrete ReceiptKind-discrete Argv-discrete
    SessionBinding-discrete WorkspaceProof-discrete
first_run = refl

provision-IsProvisionOf_example : IsProvisionOf first_intent first_result
provision-IsProvisionOf_example =
    provision-IsProvisionOf herdr first_intent (some (journal_port lib herdr store request)) none
      nothing first_result first_run

-- The run has the ten events of a first lane.
first_run_log :
    length
      (provision herdr first_intent
        (some (journal_port lib herdr store request))
        none
        nothing).1.log
    ≡ 10
unfolding read_payload snapshot_of accept_answer command list_sessions take_snapshot is_identifier
    is_intent_key named_session generation_of session_binding started_session_binding
    fingerprints-discrete workspace_proof observed_workspace id_set workspace_ids record_binding
    created_proof fitting_proof workspace_from_create startup_side_effect bind_side_effects
    startup_side_effects lane_label verify_snapshot verify_project validate_project_identity
    validate_intent effect_command started_session prove_start prove_create prove_known
    start_session create_lane provision_lane provision provision_command_intents check_intent
    check_receipt is_uuid is_digest assert_workspace_binding commit_intent due_intent before_command
    ticket_receipt commit_receipt after_command digest canonical_json joined sorted same_json decide
    CommandTicket-discrete String-discrete ℕ_discrete ReceiptKind-discrete Argv-discrete
    SessionBinding-discrete WorkspaceProof-discrete
first_run_log = refl

-- The world behind the first run.
abbrev first_world : World
first_world =
    (provision herdr first_intent (some (journal_port lib herdr store request)) none nothing).1

-- The same intent again, with the project of the first run, finds its lane.
second_run :
    (provision herdr first_intent none (some first_result.project) first_world).0
    ≡ done (record { outcome = adopted; project = first_result.project; lane = first_lane })
unfolding check_known read_payload snapshot_of accept_answer command list_sessions take_snapshot
    is_identifier is_intent_key named_session generation_of session_binding started_session_binding
    fingerprints-discrete workspace_proof observed_workspace id_set workspace_ids record_binding
    created_proof fitting_proof workspace_from_create startup_side_effect bind_side_effects
    startup_side_effects lane_label verify_snapshot verify_project validate_project_identity
    validate_intent effect_command started_session prove_start prove_create prove_known
    start_session create_lane provision_lane provision provision_command_intents check_intent
    check_receipt is_uuid is_digest assert_workspace_binding commit_intent due_intent before_command
    ticket_receipt commit_receipt after_command digest canonical_json joined sorted same_json decide
    CommandTicket-discrete String-discrete ℕ_discrete ReceiptKind-discrete Argv-discrete
    SessionBinding-discrete WorkspaceProof-discrete
second_run = refl

first_lane_found : lane_for_key first_result.project "claude" ≡ some first_lane
first_lane_found = refl

provision_adopts_example :
    (effects (provision herdr first_intent none (some first_result.project) first_world).1.log
      ≡ effects first_world.log)
    × ((provision herdr first_intent none (some first_result.project) first_world).1.port
        ≡ first_world.port)
    × ((r : ProvisionResult)
        → (provision herdr first_intent none (some first_result.project) first_world).0 ≡ done r
        → r ≡ record { outcome = adopted; project = first_result.project; lane = first_lane })
provision_adopts_example =
    provision_adopts herdr first_intent none first_result.project first_lane first_world
      first_lane_found

abbrev read_argv : Argv
read_argv = "--session" ∷ "ask-pipeline" ∷ "api" ∷ "snapshot" ∷ []

-- Four commands have run, and the answer to one of them had an id.
abbrev four_commands : World
four_commands = record nothing {
  transport = record {
    trusted_receipt_kinds = [];
    seen_request_ids = "r1" ∷ [];
    resource_receipt_bindings = [];
  };
  log = ran snapshot [] ∷ ran snapshot [] ∷ ran snapshot [] ∷ ran snapshot [] ∷ [];
}

command_ids_example :
    (keys_repeat same_id
        (command herdr snapshot read_argv four_commands).1.transport.seen_request_ids
      ≡ false)
    × ((receipt : CommandReceipt)
        → (command herdr snapshot read_argv four_commands).0 ≡ done receipt
        → is_fresh snapshot ("r1" ∷ []) receipt.request_id ≡ true)
command_ids_example = command_ids herdr snapshot read_argv four_commands refl
