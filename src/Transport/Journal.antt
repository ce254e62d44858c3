-- ===== src/Transport/Journal.antt =====
-- `_JournalPort` of lib/ask_herdr_journaled_provision.py, the write-ahead port of a provision. What the
-- topology store and the file system answer may depend on all that happened before.
use ask_herdr.Base.{
  ℕ, ◌+◌, String, Bool, true, not, ◌&&◌, ◌||◌, Option, none, some, is_some, is_none, List, [], ◌∷◌,
  ◌++◌, any, codes, leb, ◌==◌, ◌/=◌, string_eq, option_eq, nat_eq, if◌then◌else◌,
}
use ask_herdr.Base.Sorting.{sorted}
use ask_herdr.StrictJson.Canonical.{bytes_less}
use ask_herdr.StrictJson.Digest.{Encodings, digest}
use ask_herdr.Transport.Proofs.{
  session_start, workspace_create, kind_value, is_kind, session_binding_eq, PlannedTopologyCommand,
}
use ask_herdr.Transport.Actions.{
  Exception, provision_error, Outcome, done, failed, TopologyCommandIntent, TopologyCommandReceipt,
  StoreResult, intent_answered, receipt_answered, CommandTicket, World, Action, ◌>=>◌, ◌>?>◌, lift,
  get_world, Herdr,
}
use ask_herdr.Transport.Provision.{
  ProvenTopologyCommand, JournalPort, start_plan, create_plan, validate_intent, is_canonical_path,
}
use ask_herdr.LaneTurn.Guards.{is_uuid, is_digest}
use ask_herdr.Transport.Entries.{
  JournaledProvisionRequest, ClaimedAnswer, Surroundings, ticket_eq, argv_eq, check_values,
  is_store_token, check_intent, argv_digest, session_postcondition_digest, resource_digests,
  store_failure, lease_refused, answered, lease_lost,
}

module _ (lib : Encodings) (herdr : Herdr) (world : Surroundings)
    (request : JournaledProvisionRequest) where
  abbrev pub start_intent : String → String → TopologyCommandIntent
  start_intent digest postcondition = record {
    mutation_id = request.mutation_intent.mutation_id;
    step_id = request.session_start_step_id;
    command_kind = kind_value session_start;
    command_argv_digest = digest;
    expected_postcondition_digest = postcondition;
    step_sequence = 1;
    prior_step_id = none;
  }

  abbrev pub create_intent : String → TopologyCommandIntent
  create_intent digest = record {
    mutation_id = request.mutation_intent.mutation_id;
    step_id = request.workspace_create_step_id;
    command_kind = kind_value workspace_create;
    command_argv_digest = digest;
    expected_postcondition_digest = request.mutation_intent.expected_postcondition_digest;
    step_sequence = 2;
    prior_step_id = some request.session_start_step_id;
  }

  -- `_provision_command_intents`, the start and the creation.
  unfoldable pub provision_command_intents : Outcome (TopologyCommandIntent × TopologyCommandIntent)
  provision_command_intents = validate_intent herdr request.provision_intent >?> λ _.
      session_postcondition_digest lib request.provision_intent >?> λ postcondition.
      argv_digest lib (start_plan herdr request.provision_intent).argv >?> λ start_digest.
      check_intent (start_intent start_digest postcondition) >?> λ _.
      argv_digest lib (create_plan herdr request.provision_intent).argv >?> λ create_digest.
      check_intent (create_intent create_digest) >?> λ _.
      done (start_intent start_digest postcondition, create_intent create_digest)

  -- The one at an index.
  abbrev pub command_intent : ℕ → Outcome TopologyCommandIntent
  command_intent index =
      provision_command_intents >?> λ intents. done (if index == 0 then intents.0 else intents.1)

  -- `_assert_workspace_binding`
  unfoldable pub assert_workspace_binding : Action (Unit {0})
  assert_workspace_binding w =
      if world.workspace_digest w.log == some request.mutation_intent.lane_workspace_binding_digest
      then (done tt, w)
      else (failed (provision_error "journaled_provision.lane_workspace_changed" true), w)

  abbrev pub ticket_of : PlannedTopologyCommand → TopologyCommandIntent → String → CommandTicket
  ticket_of command i digest = record {
    step_id = i.step_id;
    step_sequence = i.step_sequence;
    prior_step_id = i.prior_step_id;
    kind = command.kind;
    argv = command.argv;
    argv_digest = digest;
    expected_postcondition_digest = i.expected_postcondition_digest;
  }

  abbrev pub order_invalid : Exception
  order_invalid = provision_error "journaled_provision.command_order_invalid" true

  -- The store's answer to the intent: recorded, and the ticket pending, if it is the expected one.
  abbrev pub intent_settled :
      CommandTicket → TopologyCommandIntent → StoreResult → World → Outcome CommandTicket × World
  intent_settled ticket i result w =
      let told : World = record w { log = intent_answered i result ∷ w.log } in
      if result.outcome_kind == "topology_command_prepared"
      then (done ticket, record told { port = record w.port { pending = some ticket } })
      else (failed (store_failure result), told)

  -- The answer to a claimed intent.
  abbrev pub claim_settled :
      CommandTicket → TopologyCommandIntent → ClaimedAnswer → World → Outcome CommandTicket × World
  claim_settled ticket i (lease_refused detail) w = (failed (provision_error detail true), w)
  claim_settled ticket i (answered result) w = intent_settled ticket i result w
  claim_settled ticket i (lease_lost result detail) w =
      (failed (provision_error detail true), record w { log = intent_answered i result ∷ w.log })

  -- The write of the intent, claimed under the lease where the mutation names a store's incarnation.
  unfoldable pub commit_intent : CommandTicket → TopologyCommandIntent → Action CommandTicket
  commit_intent ticket i w = elim request.mutation_intent.topology_store_incarnation_digest [
    | none ↦ intent_settled ticket i (world.commit_command_intent w.log i) w
    | some incarnation ↦ claim_settled ticket i (world.commit_claimed_intent w.log i) w
  ]

  -- The intent that is due, if the command is the planned one.
  unfoldable pub due_intent :
      PlannedTopologyCommand → World → Outcome (CommandTicket × TopologyCommandIntent)
  due_intent command w =
      if is_some w.port.pending || leb 2 w.port.next_index
      then failed order_invalid
      else command_intent w.port.next_index >?> λ i. argv_digest lib command.argv >?> λ digest.
          if kind_value command.kind /= i.command_kind || digest /= i.command_argv_digest
          then failed order_invalid
          else done (ticket_of command i digest, i)

  -- `before_command`
  unfoldable pub before_command : PlannedTopologyCommand → Action CommandTicket
  before_command command = assert_workspace_binding >=> λ _.
      get_world >=> λ w. lift (due_intent command w) >=> λ due. commit_intent due.0 due.1

  abbrev pub proof_mismatch : ProvenTopologyCommand → CommandTicket → Bool
  proof_mismatch p ticket =
      p.ticket /= ticket
      || (not (is_kind p.planned.kind ticket.kind)
          || (p.planned.argv /= ticket.argv
              || (not (is_kind p.receipt.kind ticket.kind)
                  || (p.receipt.argv /= ticket.argv
                      || (is_none p.receipt.request_id
                          || p.project.session_binding /= p.session_binding)))))

  abbrev pub receipt_record :
      ProvenTopologyCommand → CommandTicket → String → List String → TopologyCommandReceipt
  receipt_record p ticket id digests = record {
    mutation_id = request.mutation_intent.mutation_id;
    step_id = ticket.step_id;
    command_kind = kind_value ticket.kind;
    command_argv_digest = ticket.argv_digest;
    command_receipt_digest = p.receipt.receipt_digest;
    request_id = id;
    exit_code = p.receipt.exit_code;
    observed_postcondition_digest = ticket.expected_postcondition_digest;
    session_dir = p.session_binding.session_dir;
    socket_path = p.session_binding.socket_path;
    session_generation_id = p.session_binding.generation_id;
    resource_binding_digests = sorted (λ a b. bytes_less (codes a) (codes b)) digests;
  }

  abbrev pub command_mismatch : Exception
  command_mismatch = provision_error "journaled_provision.proven_command_mismatch" true

  -- `TopologyCommandReceipt.__post_init__`; the digests of the resources are sorted and stand once each.
  unfoldable pub check_receipt : TopologyCommandReceipt → Outcome (Unit {0})
  check_receipt r = check_values (
      is_uuid r.mutation_id
      && (is_uuid r.step_id
          && (is_store_token r.command_kind
              && (is_digest r.command_argv_digest
                  && (is_digest r.command_receipt_digest
                      && (is_store_token r.request_id
                          && (is_digest r.observed_postcondition_digest
                              && (is_canonical_path herdr r.session_dir
                                  && (is_canonical_path herdr r.socket_path
                                      && (is_store_token r.session_generation_id
                                          && not (
                                              any (λ d. not (is_digest d))
                                                r.resource_binding_digests)))))))))))

  abbrev pub identified_receipt :
      ProvenTopologyCommand
      → CommandTicket
      → List String
      → Option String
      → Outcome TopologyCommandReceipt
  identified_receipt p ticket digests none = failed command_mismatch
  identified_receipt p ticket digests (some id) =
      check_receipt (receipt_record p ticket id digests) >?> λ _.
      done (receipt_record p ticket id digests)

  -- The receipt of a ticket, if the proof is of its command.
  unfoldable pub ticket_receipt :
      ProvenTopologyCommand → CommandTicket → Outcome TopologyCommandReceipt
  ticket_receipt p ticket =
      if proof_mismatch p ticket
      then failed command_mismatch
      else resource_digests lib p.resources >?> λ digests.
          identified_receipt p ticket digests p.receipt.request_id

  -- The receipt that is due for the pending ticket.
  abbrev pub due_receipt :
      ProvenTopologyCommand → Option CommandTicket → Outcome TopologyCommandReceipt
  due_receipt p none = failed command_mismatch
  due_receipt p (some ticket) = ticket_receipt p ticket

  -- The write of the receipt; the ticket is settled if the store records it.
  unfoldable pub commit_receipt : ProvenTopologyCommand → TopologyCommandReceipt → Action (Unit {0})
  commit_receipt p receipt w =
      let result = world.commit_command_receipt w.log receipt in
      let told : World = record w { log = receipt_answered receipt result ∷ w.log } in
      if result.outcome_kind == "topology_command_receipt_recorded"
      then (
        done tt,
        record told {
          port = record {
            next_index = w.port.next_index + 1;
            pending = none;
            receipts = w.port.receipts ++ receipt ∷ [];
            final_project = some p.project;
          };
        },
      )
      else (failed (store_failure result), told)

  -- `after_command`
  unfoldable pub after_command : ProvenTopologyCommand → Action (Unit {0})
  after_command p = assert_workspace_binding >=> λ _.
      get_world >=> λ w. lift (due_receipt p w.port.pending) >=> λ receipt. commit_receipt p receipt

  -- `_JournalPort`
  abbrev pub journal_port : JournalPort
  journal_port = record { before_command = before_command; after_command = after_command }
