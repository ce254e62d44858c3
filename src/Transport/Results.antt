-- ===== src/Transport/Results.antt =====
-- What `provision` of lib/ask_herdr_herdr_transport.py returns.
use ask_herdr.Base.{
  String, Bool, true, false, ◌||◌, Option, none, some, List, [], ◌∷◌, ◌++◌, ◌≡◌, refl, sym, subst,
  ◌==◌, ◌/=◌, string_eq, ==_iff, arith,
}
use ask_herdr.StrictJson.Values.{Fields}
use ask_herdr.ProjectStatus.Find.{find, find-true}
use ask_herdr.Transport.Proofs.{
  CommandReceipt, WorkspaceProof, LaneTopologyProof, ProjectTopologyProof, ProvisionIntent,
  ProvisionResult, created, TransportErrorKind, topology_ownership_mismatch, session_namespace,
}
use ask_herdr.Transport.Actions.{
  Outcome, done, failed, World, Action, return, and_then, ◌>=>◌, ◌>?>◌, lift, get_world,
  require_not, Herdr,
}
use ask_herdr.Transport.Commands.{list_sessions, take_snapshot}
use ask_herdr.Transport.Sessions.{named_session}
use ask_herdr.Transport.Workspaces.{
  created_proof, fitting_proof, startup_side_effects, record_binding, workspace_from_create,
}
use ask_herdr.Transport.Verification.{validate_project_identity, lane_for_key}
use ask_herdr.Transport.Provision.{
  effect_command, workspace_cwd, lane_of_workspace, with_lane, lane_differs, prove_start,
  prove_create, check_known, prove_known, JournalPort, before, after, start_session, create_lane,
  lane_or_new, provision_lane, start_or_prove, provision,
}
use ask_herdr.Transport.Triples.{Ends, >?>-eq-done, done_inj}

-- The project is that of the intent.
pub record IsProjectOf (intent : ProvisionIntent) (p : ProjectTopologyProof) : Type 0 where
  pub same_project : p.project_id ≡ intent.project_id
  pub same_root : p.project_root ≡ intent.project_root
  pub same_namespace : p.namespace ≡ session_namespace

-- The lane is what the intent asks for, and stands under its key in the project.
pub record IsProvisionOf (intent : ProvisionIntent) (r : ProvisionResult) : Type 0 where
  pub of_project : IsProjectOf intent r.project
  pub found : lane_for_key r.project intent.consultant_key ≡ some r.lane
  pub same_key : r.lane.consultant_key ≡ intent.consultant_key
  pub same_lane : r.lane.lane_id ≡ intent.lane_id
  pub same_project : r.lane.project_id ≡ intent.project_id
  pub same_root : r.lane.project_root ≡ intent.project_root
  pub same_nonce : r.lane.topology_nonce ≡ intent.topology_nonce
  pub same_cwd : r.lane.workspace.cwd ≡ workspace_cwd intent

-- What a result has, whatever the world is.
pub record Returns {A : Type 0} (act : Action A) (P : A → Type 0) : Type 0 where
  pub returned : (w : World) → Ends (λ u. Unit {0}) (λ a u. P a) (act w)

pub Returns_bind :
    {A B : Type 0} {P : A → Type 0} {Q : B → Type 0} {act : Action A} {next : A → Action B}
    → Returns act P
    → ((a : A) → P a → Returns (next a) Q)
    → Returns (act >=> next) Q
Returns_bind {A = A} {P = P} {Q = Q} {act = act} {next = next} first later = record {
  returned = λ w. bound (act w) (first.returned w);
}
  where
    bound :
        (end : Outcome A × World)
        → Ends (λ u. Unit {0}) (λ a u. P a) end
        → Ends (λ u. Unit {0}) (λ b u. Q b) (and_then end next)
    bound (done a, w) h = (later a h).returned w
    bound (failed e, w) h = tt

-- Whatever the first action returns.
pub Returns_skip :
    {A B : Type 0} {Q : B → Type 0} (act : Action A) {next : A → Action B}
    → ((a : A) → Returns (next a) Q)
    → Returns (act >=> next) Q
Returns_skip {A = A} {Q = Q} act {next = next} later = record { returned = λ w. bound (act w) }
  where
    bound : (end : Outcome A × World) → Ends (λ u. Unit {0}) (λ b u. Q b) (and_then end next)
    bound (done a, w) = (later a).returned w
    bound (failed e, w) = tt

pub Returns-lift : {A : Type 0} (o : Outcome A) → Returns (lift o) (λ a. o ≡ done a)
Returns-lift {A = A} o = record { returned = λ w. lifted o w }
  where
    lifted : (o : Outcome A) (w : World) → Ends (λ u. Unit {0}) (λ a u. o ≡ done a) (o, w)
    lifted (done a) w = refl
    lifted (failed e) w = tt

pub Returns_always : {A : Type 0} {P : Type 0} (act : Action A) → P → Returns act (λ a. P)
Returns_always {A = A} {P = P} act h = record { returned = λ w. always (act w) }
  where
    always : (end : Outcome A × World) → Ends (λ u. Unit {0}) (λ a u. P) end
    always (done a, w) = h
    always (failed e, w) = tt

pub Returns-return : {A : Type 0} {P : A → Type 0} (a : A) → P a → Returns (return a) P
Returns-return a h = record { returned = λ w. h }

-- What a result that is returned has.
pub Returns-eq-done :
    {A : Type 0} {P : A → Type 0} {act : Action A}
    → Returns act P
    → (w : World) (a : A) → (act w).0 ≡ done a
    → P a
Returns-eq-done {A = A} {P = P} {act = act} returns w a h = at_end (act w) h (returns.returned w)
  where
    at_end :
        (end : Outcome A × World) → end.0 ≡ done a → Ends (λ u. Unit {0}) (λ b u. P b) end → P a
    at_end (done b, u) h ends = subst P (done_inj h) ends
    at_end (failed e, u) h ends = absurd (ground arith)

require_not-eq-done :
    (b : Bool) (kind : TransportErrorKind) {u : Unit {0}} → require_not b kind ≡ done u → b ≡ false
require_not-eq-done true kind h = cc
require_not-eq-done false kind h = refl

module _ (herdr : Herdr) (intent : ProvisionIntent) where
  prove_start-IsProjectOf :
      (start : CommandReceipt)
      → Returns (prove_start herdr intent start) (λ proven. IsProjectOf intent proven.1)
  unfolding prove_start
  prove_start-IsProjectOf start = Returns_skip (lift _) (λ session.
      Returns_skip (list_sessions herdr) (λ sessions. Returns_skip (lift _) (λ binding.
        Returns_skip (take_snapshot herdr) (λ found.
          Returns_skip (startup_side_effects intent found _) (λ effects. Returns_skip (lift _) (λ u.
            Returns-return _
              (record { same_project = refl; same_root = refl; same_namespace = refl })))))))

  start_session-IsProjectOf :
      (port : Option JournalPort) (live : Option Fields)
      → Returns (start_session herdr intent port live) (IsProjectOf intent)
  unfolding start_session
  start_session-IsProjectOf port live = Returns_skip (lift _) (λ u.
      Returns_skip (before herdr intent port _) (λ ticket.
        Returns_skip (effect_command herdr intent _) (λ start.
          Returns_bind (prove_start-IsProjectOf start) (λ proven proves.
            Returns_skip (after herdr intent port ticket _ start _ _ _)
              (λ v. Returns-return _ proves)))))

  validate_project_identity-IsProjectOf :
      (known : ProjectTopologyProof) (u : Unit {0})
      → validate_project_identity known intent ≡ done u
      → IsProjectOf intent known
  unfolding validate_project_identity
  validate_project_identity-IsProjectOf known u h =
      let same = require_not-eq-done _ _ h in
      record {
        same_project = ground (arith, ==_iff known.project_id intent.project_id);
        same_root = ground (arith, ==_iff known.project_root intent.project_root);
        same_namespace = ground (arith, ==_iff known.namespace session_namespace);
      }

  check_known-IsProjectOf :
      (known : ProjectTopologyProof) (live : Option Fields) (u : Unit {0})
      → check_known herdr intent known live ≡ done u
      → IsProjectOf intent known
  unfolding check_known
  check_known-IsProjectOf known live u h =
      let (v, same, rest) = >?>-eq-done (validate_project_identity known intent) _ h in
      validate_project_identity-IsProjectOf known v same

  prove_known-IsProjectOf :
      (known : ProjectTopologyProof) (live : Option Fields)
      → Returns (prove_known herdr intent known live) (λ u. IsProjectOf intent known)
  unfolding prove_known
  prove_known-IsProjectOf known live =
      Returns_bind (Returns-lift (check_known herdr intent known live))
        (λ u h. Returns_always _ (check_known-IsProjectOf known live u h))

  start_or_prove-IsProjectOf :
      (port : Option JournalPort) (known : Option ProjectTopologyProof) (live : Option Fields)
      → Returns (start_or_prove herdr intent port known live) (IsProjectOf intent)
  start_or_prove-IsProjectOf port none live = start_session-IsProjectOf port live
  start_or_prove-IsProjectOf port (some known) live =
      Returns_bind (prove_known-IsProjectOf known live) (λ u proves. Returns-return known proves)

  fitting_proof_cwd :
      (receipt : CommandReceipt) (cwd label : String) (proof : WorkspaceProof)
      → fitting_proof receipt cwd label ≡ done proof
      → proof.cwd ≡ cwd
  unfolding fitting_proof
  fitting_proof_cwd receipt cwd label proof h =
      let (made, told, chain) = >?>-eq-done (created_proof receipt) _ h in fits made chain
    where
      fits :
          (made : WorkspaceProof)
          → (require_not (made.cwd /= cwd || made.label /= label) topology_ownership_mismatch
              >?> λ _. done made)
            ≡ done proof
          → proof.cwd ≡ cwd
      fits made chain =
          let (u, right, given) =
            >?>-eq-done
              (require_not (made.cwd /= cwd || made.label /= label) topology_ownership_mismatch)
              (λ _. done made) chain in
          let same = require_not-eq-done _ _ right in
          let there : made.cwd ≡ cwd = ground (arith, ==_iff made.cwd cwd) in
          subst (λ p. p.cwd ≡ cwd) (done_inj given) there

  -- The proof that a receipt of a creation gives has the working directory that was asked for.
  workspace_from_create_cwd :
      (receipt : CommandReceipt) (cwd label : String)
      → Returns (workspace_from_create receipt cwd label) (λ p. p.cwd ≡ cwd)
  unfolding workspace_from_create
  workspace_from_create_cwd receipt cwd label =
      Returns_bind (Returns-lift (fitting_proof receipt cwd label)) (λ proof h.
        Returns_skip (record_binding _ _)
          (λ v. Returns-return proof (fitting_proof_cwd receipt cwd label proof h)))

  prove_create_lane :
      (known : ProjectTopologyProof) (create : CommandReceipt)
      → Returns (prove_create herdr intent known create) (λ proven.
        (workspace : WorkspaceProof) × (workspace.cwd ≡ workspace_cwd intent)
        × (proven ≡ (
          lane_of_workspace herdr intent workspace,
          with_lane herdr intent known (lane_of_workspace herdr intent workspace),
        )))
  unfolding prove_create
  prove_create_lane known create = Returns_skip (lift _) (λ u.
      Returns_bind (workspace_from_create_cwd create _ _) (λ workspace same.
        Returns_skip (take_snapshot herdr) (λ found.
          Returns_skip get_world
            (λ w. Returns_skip (lift _) (λ v. Returns-return _ (workspace, same, refl))))))

  -- A lane that is appended where none has its key is found under it.
  find-append :
      (test : LaneTopologyProof → Bool) (lanes : List LaneTopologyProof) (lane : LaneTopologyProof)
      → find test lanes ≡ none
      → test lane ≡ true
      → find test (lanes ++ lane ∷ []) ≡ some lane
  find-append test [] lane absent same = rw same refl
  find-append test (l ∷ ls) lane absent same = let later = find-append test ls lane in ground arith

  with_lane-IsProvisionOf :
      (known : ProjectTopologyProof) (workspace : WorkspaceProof)
      (proven : LaneTopologyProof × ProjectTopologyProof)
      → IsProjectOf intent known
      → lane_for_key known intent.consultant_key ≡ none
      → workspace.cwd ≡ workspace_cwd intent
      → proven ≡ (
        lane_of_workspace herdr intent workspace,
        with_lane herdr intent known (lane_of_workspace herdr intent workspace),
      )
      → IsProvisionOf intent (record { outcome = created; project = proven.1; lane = proven.0 })
  with_lane-IsProvisionOf known workspace proven of_project absent same_cwd same =
      subst (λ q. IsProvisionOf intent (record { outcome = created; project = q.1; lane = q.0 }))
        (sym same)
        (record {
          of_project = record {
            same_project = of_project.same_project;
            same_root = of_project.same_root;
            same_namespace = of_project.same_namespace;
          };
          found =
              find-append (λ l. l.consultant_key == intent.consultant_key) known.lanes _ absent
                ((==_iff intent.consultant_key intent.consultant_key).1 refl);
          same_key = refl;
          same_lane = refl;
          same_project = refl;
          same_root = refl;
          same_nonce = refl;
          same_cwd = same_cwd;
        })

  create_lane-IsProvisionOf :
      (port : Option JournalPort) (known : ProjectTopologyProof)
      → IsProjectOf intent known
      → lane_for_key known intent.consultant_key ≡ none
      → Returns (create_lane herdr intent port known) (IsProvisionOf intent)
  unfolding create_lane
  create_lane-IsProvisionOf port known of_project absent = Returns_skip (lift _) (λ u.
      Returns_skip (before herdr intent port _) (λ ticket.
        Returns_skip (effect_command herdr intent _) (λ create.
          Returns_bind (prove_create_lane known create) (λ proven proves.
            Returns_skip (after herdr intent port ticket _ create _ _ _) (λ v.
              let (workspace, same_cwd, same) = proves in
              Returns-return _ (
                with_lane-IsProvisionOf known workspace proven of_project absent same_cwd same))))))

  lane_or_new-IsProvisionOf :
      (port : Option JournalPort) (known : ProjectTopologyProof) (found : Option LaneTopologyProof)
      → IsProjectOf intent known
      → lane_for_key known intent.consultant_key ≡ found
      → Returns (lane_or_new herdr intent port known found) (IsProvisionOf intent)
  lane_or_new-IsProvisionOf port known none of_project absent =
      create_lane-IsProvisionOf port known of_project absent
  lane_or_new-IsProvisionOf port known (some lane) of_project there =
      Returns_bind
        (Returns-lift (require_not (lane_differs herdr intent lane) topology_ownership_mismatch))
        (λ u h.
          let same = require_not-eq-done _ _ h in
          Returns-return _ (record {
            of_project = of_project;
            found = there;
            same_key =
                (==_iff lane.consultant_key intent.consultant_key).0 (
                  find-true (λ l. l.consultant_key == intent.consultant_key) known.lanes lane
                    there);
            same_lane = ground (arith, ==_iff lane.lane_id intent.lane_id);
            same_project = ground (arith, ==_iff lane.project_id intent.project_id);
            same_root = ground (arith, ==_iff lane.project_root intent.project_root);
            same_nonce = ground (arith, ==_iff lane.topology_nonce intent.topology_nonce);
            same_cwd = ground (arith, ==_iff lane.workspace.cwd (workspace_cwd intent));
          }))

  provision-Returns :
      (port : Option JournalPort) (known : Option ProjectTopologyProof)
      → Returns (provision herdr intent port known) (IsProvisionOf intent)
  unfolding provision provision_lane
  provision-Returns port known = Returns_skip (lift _) (λ u.
      Returns_skip (list_sessions herdr) (λ sessions.
        Returns_bind (Returns-lift (named_session sessions)) (λ live h.
          Returns_bind (start_or_prove-IsProjectOf port known live)
            (λ project of_project. lane_or_new-IsProvisionOf port project _ of_project refl))))

  -- A result of `provision`, adopted or created, with a journal or without, whatever the runner answers: its
  -- project is that of the intent, and its lane, which stands under the intent's key in that project, has the
  -- key, the identity, the project, the nonce and the working directory that the intent asks for.
  pub provision-IsProvisionOf :
      (port : Option JournalPort) (known : Option ProjectTopologyProof) (w : World)
      (r : ProvisionResult)
      → (provision herdr intent port known w).0 ≡ done r
      → IsProvisionOf intent r
  provision-IsProvisionOf port known w r h = Returns-eq-done (provision-Returns port known) w r h
