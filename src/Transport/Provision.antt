-- ===== src/Transport/Provision.antt =====
-- `HerdrTransport.provision` of lib/ask_herdr_herdr_transport.py. The checks that its helpers make of the
-- same observation are `Outcome`s, what touches the runner or the transport's state are `Action`s.
use ask_herdr.Base.{
  String, Bool, false, not, ◌&&◌, ◌||◌, Option, none, some, is_some, List, [], ◌∷◌, ◌++◌, any,
  codes, ◌==◌, ◌/=◌, string_eq, nat_eq, if◌then◌else◌,
}
use ask_herdr.StrictJson.Values.{object, Fields, value_of}
use ask_herdr.Transport.Proofs.{
  session_start, workspace_create, CommandReceipt, SessionBinding, session_binding_eq,
  WorkspaceProof, LaneTopologyProof, TopologySideEffectProof, ProjectTopologyProof, ProvisionIntent,
  Fingerprint, workspace_fingerprint, side_effect_fingerprint, ProvisionResult, created, adopted,
  PlannedTopologyCommand, TransportErrorKind, invalid_intent, namespace_unowned,
  topology_mutation_ambiguous, topology_ownership_mismatch, session_namespace,
}
use ask_herdr.Transport.Actions.{
  Exception, transport_error, Outcome, done, failed, CommandTicket, World, Action, return, ◌>=>◌,
  ◌>?>◌, refused, require_not, lift, get_world, Herdr,
}
use ask_herdr.Transport.Commands.{command, require_success, list_sessions, take_snapshot}
use ask_herdr.Transport.Sessions.{
  is_identifier, is_intent_key, is_text, named_session, session_binding, started_session_binding,
}
use ask_herdr.Transport.Workspaces.{workspace_from_create, startup_side_effects}
use ask_herdr.Transport.Verification.{
  lane_label, verify_snapshot, verify_project, validate_project_identity, lane_for_key,
}

-- `ProvenTopologyCommand`; a resource is its fingerprint, from which its digest is made.
pub record ProvenTopologyCommand : Type 0 where
  pub ticket : CommandTicket
  pub planned : PlannedTopologyCommand
  pub receipt : CommandReceipt
  pub session_binding : SessionBinding
  pub resources : List Fingerprint
  pub project : ProjectTopologyProof

-- `ProvisionJournalPort`
pub record JournalPort : Type 0 where
  pub before_command : PlannedTopologyCommand → Action CommandTicket
  pub after_command : ProvenTopologyCommand → Action (Unit {0})

-- The text begins with a slash, holds no NUL and is normal.
abbrev pub is_canonical_path : Herdr → String → Bool
is_canonical_path herdr path =
    elim (codes path) [ [] ↦ false | (c ∷ cs) ↦ c == b'/' ]
    && (not (any (λ c. c == 0) (codes path)) && herdr.normpath path == path)

-- `_validate_intent`
unfoldable pub validate_intent : Herdr → ProvisionIntent → Outcome (Unit {0})
validate_intent herdr i =
    require_not
      (not (is_identifier i.project_id)
        || (not (is_identifier i.lane_id)
            || (not (is_identifier i.topology_nonce)
                || (not (is_intent_key i.consultant_key)
                    || (not (is_canonical_path herdr i.project_root) || elim i.lane_workspace_cwd [
                      | none ↦ false
                      | some cwd ↦ not (is_canonical_path herdr cwd) || cwd == i.project_root
                    ])))))
      invalid_intent

abbrev pub effect_fingerprints : List TopologySideEffectProof → List Fingerprint
effect_fingerprints [] = []
effect_fingerprints (e ∷ es) = side_effect_fingerprint e ∷ effect_fingerprints es

-- `intent.lane_workspace_cwd or intent.project_root`
abbrev pub workspace_cwd : ProvisionIntent → String
workspace_cwd i = elim i.lane_workspace_cwd [
  | none ↦ i.project_root
  | some cwd ↦ if cwd == "" then i.project_root else cwd
]

module _ (herdr : Herdr) (intent : ProvisionIntent) where
  abbrev pub intent_label : String
  intent_label =
      lane_label herdr intent.project_id intent.lane_id intent.consultant_key intent.topology_nonce

  -- `provision_planned_commands`
  abbrev pub start_plan : PlannedTopologyCommand
  start_plan = record {
    kind = session_start;
    argv = "--session" ∷ session_namespace ∷ "server" ∷ [];
  }

  abbrev pub create_plan : PlannedTopologyCommand
  create_plan = record {
    kind = workspace_create;
    argv =
        "--session"
        ∷ session_namespace
        ∷ "workspace"
        ∷ "create"
        ∷ "--cwd"
        ∷ workspace_cwd intent
        ∷ "--label"
        ∷ intent_label
        ∷ "--no-focus"
        ∷ [];
  }

  -- An error of the receipt leaves the effect uncertain.
  abbrev pub ambiguous : Exception → Exception
  ambiguous (transport_error kind uncertain) = transport_error topology_mutation_ambiguous false
  ambiguous other = other

  abbrev pub effect_end : Outcome CommandReceipt × World → Outcome CommandReceipt × World
  effect_end (done receipt, w) = (done receipt, w)
  effect_end (failed e, w) = (failed (ambiguous e), w)

  -- A command with an effect.
  unfoldable pub effect_command : PlannedTopologyCommand → Action CommandReceipt
  effect_command plan w = effect_end (command herdr plan.kind plan.argv w)

  -- `start_result["session"]` of a start that is confirmed.
  unfoldable pub started_session : CommandReceipt → Outcome Fields
  started_session start = require_success start topology_mutation_ambiguous >?> λ _.
      elim (value_of "result" start.payload) [
        | object result ↦
            require_not (not (is_text "server_started" (value_of "type" result)))
              topology_mutation_ambiguous
            >?> λ _. elim (value_of "session" result) [
              | object session ↦ done session
              | _ ↦ refused topology_mutation_ambiguous
            ]
        | _ ↦ refused topology_mutation_ambiguous
      ]

  abbrev pub started_project : SessionBinding → List TopologySideEffectProof → ProjectTopologyProof
  started_project binding effects = record {
    project_id = intent.project_id;
    project_root = intent.project_root;
    namespace = session_namespace;
    topology_epoch_id = intent.topology_nonce;
    session_binding = binding;
    lanes = [];
    side_effects = effects;
  }

  abbrev pub live_session : Option Fields → TransportErrorKind → Outcome Fields
  live_session none kind = refused kind
  live_session (some s) kind = done s

  -- What proves a start: the live session, its binding, its side effects and a first project proof.
  unfoldable pub prove_start : CommandReceipt → Action (SessionBinding × ProjectTopologyProof)
  prove_start start = lift (started_session start) >=> λ session.
      list_sessions herdr >=> λ sessions.
      lift (
        named_session sessions >?> λ found.
        live_session found topology_mutation_ambiguous >?> λ live.
        started_session_binding start session live)
      >=> λ binding. take_snapshot herdr >=> λ snapshot.
          startup_side_effects intent snapshot start.receipt_digest >=> λ effects.
          lift (verify_snapshot (started_project binding effects) snapshot) >=> λ _.
          return (binding, started_project binding effects)

  abbrev pub with_lane : ProjectTopologyProof → LaneTopologyProof → ProjectTopologyProof
  with_lane known lane = record known { lanes = known.lanes ++ lane ∷ [] }

  abbrev pub lane_of_workspace : WorkspaceProof → LaneTopologyProof
  lane_of_workspace workspace = record {
    project_id = intent.project_id;
    lane_id = intent.lane_id;
    consultant_key = intent.consultant_key;
    project_root = intent.project_root;
    topology_nonce = intent.topology_nonce;
    workspace = workspace;
  }

  -- What proves a created workspace: its receipt and the whole live topology with it.
  unfoldable pub prove_create :
      ProjectTopologyProof → CommandReceipt → Action (LaneTopologyProof × ProjectTopologyProof)
  prove_create known create = lift (require_success create topology_mutation_ambiguous) >=> λ _.
      workspace_from_create create (workspace_cwd intent) intent_label >=> λ workspace.
      take_snapshot herdr >=> λ snapshot. get_world >=> λ w.
      lift
        (verify_project herdr w.transport (with_lane known (lane_of_workspace workspace)) snapshot)
      >=> λ _. return (lane_of_workspace workspace, with_lane known (lane_of_workspace workspace))

  -- The recorded project is of the intent, and the live session is its own.
  unfoldable pub check_known : ProjectTopologyProof → Option Fields → Outcome (Unit {0})
  check_known known live = validate_project_identity known intent >?> λ _.
      live_session live topology_ownership_mismatch >?> λ session.
      session_binding session none >?> λ binding.
      require_not (binding /= known.session_binding) topology_ownership_mismatch

  -- The recorded project is live as its proof says.
  unfoldable pub prove_known : ProjectTopologyProof → Option Fields → Action (Unit {0})
  prove_known known live = lift (check_known known live) >=> λ _.
      take_snapshot herdr >=> λ snapshot.
      get_world >=> λ w. lift (verify_project herdr w.transport known snapshot)

  abbrev pub lane_differs : LaneTopologyProof → Bool
  lane_differs lane =
      lane.project_id /= intent.project_id
      || (lane.project_root /= intent.project_root
          || (lane.lane_id /= intent.lane_id
              || (lane.topology_nonce /= intent.topology_nonce
                  || lane.workspace.cwd /= workspace_cwd intent)))

  module _ (port : Option JournalPort) where
    -- The journal's entry before a command; no ticket without a journal.
    abbrev pub before : PlannedTopologyCommand → Action (Option CommandTicket)
    before plan = elim port [
      | none ↦ return none
      | some p ↦ p.before_command plan >=> λ ticket. return (some ticket)
    ]

    abbrev pub after :
        Option CommandTicket
        → PlannedTopologyCommand
        → CommandReceipt
        → SessionBinding
        → List Fingerprint
        → ProjectTopologyProof
        → Action (Unit {0})
    after none plan receipt binding resources project = return tt
    after (some ticket) plan receipt binding resources project = elim port [
      | none ↦ return tt
      | some p ↦ p.after_command (record {
        ticket = ticket;
        planned = plan;
        receipt = receipt;
        session_binding = binding;
        resources = resources;
        project = project;
      })
    ]

    -- The start of the session of a project with no proof.
    unfoldable pub start_session : Option Fields → Action ProjectTopologyProof
    start_session live = lift (require_not (is_some live) namespace_unowned) >=> λ _.
        before start_plan >=> λ ticket. effect_command start_plan >=> λ start.
        prove_start start >=> λ proven.
        after ticket start_plan start proven.0 (effect_fingerprints proven.1.side_effects) proven.1
        >=> λ _. return proven.1

    -- The creation of a lane's workspace.
    unfoldable pub create_lane : ProjectTopologyProof → Action ProvisionResult
    create_lane known =
        lift (
          require_not (any (λ l. l.lane_id == intent.lane_id) known.lanes)
            topology_ownership_mismatch)
        >=> λ _. before create_plan >=> λ ticket. effect_command create_plan >=> λ create.
            prove_create known create >=> λ proven.
            after ticket create_plan create proven.1.session_binding
              (workspace_fingerprint proven.0.workspace ∷ []) proven.1
            >=> λ _. return (record { outcome = created; project = proven.1; lane = proven.0 })

    -- The lane that is there, if the intent is its own, or a new one.
    abbrev pub lane_or_new :
        ProjectTopologyProof → Option LaneTopologyProof → Action ProvisionResult
    lane_or_new known none = create_lane known
    lane_or_new known (some lane) =
        lift (require_not (lane_differs lane) topology_ownership_mismatch) >=> λ _.
        return (record { outcome = adopted; project = known; lane = lane })

    unfoldable pub provision_lane : ProjectTopologyProof → Action ProvisionResult
    provision_lane known = lane_or_new known (lane_for_key known intent.consultant_key)

    -- The session of a project with no proof is started; that of another is proven.
    abbrev pub start_or_prove :
        Option ProjectTopologyProof → Option Fields → Action ProjectTopologyProof
    start_or_prove none live = start_session live
    start_or_prove (some project) live = prove_known project live >=> λ _. return project

    -- `provision`
    unfoldable pub provision : Option ProjectTopologyProof → Action ProvisionResult
    provision known = lift (validate_intent herdr intent) >=> λ _.
        list_sessions herdr >=> λ sessions. lift (named_session sessions) >=> λ live.
        start_or_prove known live >=> λ project. provision_lane project
