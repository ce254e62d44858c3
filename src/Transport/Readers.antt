-- ===== src/Transport/Readers.antt =====
-- The actions of lib/ask_herdr_herdr_transport.py that are no part of the journal.
use ask_herdr.Base.{String, false, Option, none, some, List, [], ◌∷◌, ◌≡◌, refl, ◌∙◌, ap, arith}
use ask_herdr.StrictJson.Values.{Fields}
use ask_herdr.StrictJson.Digest.{Encodings}
use ask_herdr.Transport.Proofs.{
  ReceiptKind, Argv, CommandReceipt, ProvisionIntent, ProjectTopologyProof, Fingerprint,
}
use ask_herdr.Transport.Actions.{
  Outcome, done, failed, Event, ran, World, Action, return, ◌>=>◌, and_then, lift, get_world, Herdr,
  RunnerAnswer, raises, unsupported, responds,
}
use ask_herdr.Transport.Commands.{accept_answer, command, list_sessions, Snapshot, take_snapshot}
use ask_herdr.Transport.Workspaces.{
  record_binding, workspace_from_create, bind_side_effects, startup_side_effects,
}
use ask_herdr.Transport.Provision.{prove_start, prove_create, prove_known}
use ask_herdr.Transport.WriteAhead.{Standing, has_effect, after_events, standing, effects, IsReader}

module _ (lib : Encodings) where
  after_events_harmless :
      (kind : ReceiptKind) (argv : Argv) (s : Option Standing)
      → has_effect kind ≡ false
      → after_events lib s (ran kind argv) ≡ s
  after_events_harmless kind argv none h = refl
  after_events_harmless kind argv (some s) h = ground arith

  pub standing-harmless :
      (kind : ReceiptKind) (argv : Argv) (log : List Event)
      → has_effect kind ≡ false
      → standing lib (ran kind argv ∷ log) ≡ standing lib log
  unfolding standing
  standing-harmless kind argv log h = after_events_harmless kind argv (standing lib log) h

pub effects-harmless :
    (kind : ReceiptKind) (argv : Argv) (log : List Event)
    → has_effect kind ≡ false
    → effects (ran kind argv ∷ log) ≡ effects log
unfolding effects
effects-harmless kind argv log h = rw h refl

module _ {B : Type 0} (view : List Event → B) where
  pub IsReader-and_then :
      {A C : Type 0} {act : Action A} {next : A → Action C}
      → IsReader view act
      → ((a : A) → IsReader view (next a))
      → IsReader view (act >=> next)
  IsReader-and_then {A = A} {C = C} {act = act} {next = next} first later = record {
    log_kept = λ w. log_end (act w) ∙ first.log_kept w;
    port_kept = λ w. port_end (act w) ∙ first.port_kept w;
  }
    where
      log_end : (end : Outcome A × World) → view (and_then end next).1.log ≡ view end.1.log
      log_end (done a, w) = (later a).log_kept w
      log_end (failed e, w) = refl

      port_end : (end : Outcome A × World) → (and_then end next).1.port ≡ end.1.port
      port_end (done a, w) = (later a).port_kept w
      port_end (failed e, w) = refl

  pub lift-IsReader : {A : Type 0} (o : Outcome A) → IsReader view (lift o)
  lift-IsReader o = record { log_kept = λ w. refl; port_kept = λ w. refl }

  pub return-IsReader : {A : Type 0} (a : A) → IsReader view (return a)
  return-IsReader a = record { log_kept = λ w. refl; port_kept = λ w. refl }

  pub get_world-IsReader : IsReader view get_world
  get_world-IsReader = record { log_kept = λ w. refl; port_kept = λ w. refl }

  accept_answer-log :
      (herdr : Herdr) (kind : ReceiptKind) (argv : Argv) (answer : RunnerAnswer) (w : World)
      → ((accept_answer herdr kind argv answer w).1.log ≡ w.log)
        × ((accept_answer herdr kind argv answer w).1.port ≡ w.port)
  unfolding accept_answer
  accept_answer-log herdr kind argv raises w = (refl, refl)
  accept_answer-log herdr kind argv unsupported w = (refl, refl)
  accept_answer-log herdr kind argv (responds r) w = (ground arith, ground arith)

  -- What a command adds to the log, and that it leaves the port.
  pub command-log :
      (herdr : Herdr) (kind : ReceiptKind) (argv : Argv) (w : World)
      → ((command herdr kind argv w).1.log ≡ ran kind argv ∷ w.log)
        × ((command herdr kind argv w).1.port ≡ w.port)
  unfolding command
  command-log herdr kind argv w =
      accept_answer-log herdr kind argv (herdr.runner w.log argv)
        (record w { log = ran kind argv ∷ w.log })

  module _
      (harmless : (kind : ReceiptKind) (argv : Argv) (log : List Event)
        → has_effect kind ≡ false
        → view (ran kind argv ∷ log) ≡ view log) where
    command-IsReader :
        (herdr : Herdr) (kind : ReceiptKind) (argv : Argv)
        → has_effect kind ≡ false
        → IsReader view (command herdr kind argv)
    command-IsReader herdr kind argv h = record {
      log_kept = λ w. ap view (command-log herdr kind argv w).0 ∙ harmless kind argv w.log h;
      port_kept = λ w. (command-log herdr kind argv w).1;
    }

    pub list_sessions-IsReader : (herdr : Herdr) → IsReader view (list_sessions herdr)
    unfolding list_sessions
    list_sessions-IsReader herdr =
        IsReader-and_then (command-IsReader herdr _ _ refl) (λ receipt. lift-IsReader _)

    take_snapshot-IsReader : (herdr : Herdr) → IsReader view (take_snapshot herdr)
    unfolding take_snapshot
    take_snapshot-IsReader herdr =
        IsReader-and_then (command-IsReader herdr _ _ refl) (λ receipt. lift-IsReader _)

    record_binding-IsReader :
        (digest : String) (fingerprints : List Fingerprint)
        → IsReader view (record_binding digest fingerprints)
    unfolding record_binding
    record_binding-IsReader digest fingerprints = record {
      log_kept = λ w. ground arith;
      port_kept = λ w. ground arith;
    }

    workspace_from_create-IsReader :
        (receipt : CommandReceipt) (cwd label : String)
        → IsReader view (workspace_from_create receipt cwd label)
    unfolding workspace_from_create
    workspace_from_create-IsReader receipt cwd label =
        IsReader-and_then (lift-IsReader _)
          (λ proof. IsReader-and_then (record_binding-IsReader _ _) (λ u. return-IsReader proof))

    bind_side_effects-IsReader :
        (intent : ProvisionIntent) (s : Snapshot) (digest : String) (ids : List String)
        → IsReader view (bind_side_effects intent s digest ids)
    unfolding bind_side_effects
    bind_side_effects-IsReader intent s digest [] =
        IsReader-and_then (record_binding-IsReader digest []) (λ u. return-IsReader [])
    bind_side_effects-IsReader intent s digest (id ∷ []) =
        IsReader-and_then (lift-IsReader _) (λ effect.
          IsReader-and_then (record_binding-IsReader digest _) (λ u. return-IsReader (effect ∷ [])))
    bind_side_effects-IsReader intent s digest (id ∷ (other ∷ more)) = lift-IsReader _

    startup_side_effects-IsReader :
        (intent : ProvisionIntent) (s : Snapshot) (digest : String)
        → IsReader view (startup_side_effects intent s digest)
    unfolding startup_side_effects
    startup_side_effects-IsReader intent s digest =
        IsReader-and_then (lift-IsReader _) (bind_side_effects-IsReader intent s digest)

    pub prove_start-IsReader :
        (herdr : Herdr) (intent : ProvisionIntent) (start : CommandReceipt)
        → IsReader view (prove_start herdr intent start)
    unfolding prove_start
    prove_start-IsReader herdr intent start = IsReader-and_then (lift-IsReader _) (λ session.
        IsReader-and_then (list_sessions-IsReader herdr) (λ sessions.
          IsReader-and_then (lift-IsReader _) (λ binding.
            IsReader-and_then (take_snapshot-IsReader herdr) (λ found.
              IsReader-and_then (startup_side_effects-IsReader intent found _)
                (λ effects. IsReader-and_then (lift-IsReader _) (λ u. return-IsReader _))))))

    pub prove_create-IsReader :
        (herdr : Herdr) (intent : ProvisionIntent) (known : ProjectTopologyProof)
        (create : CommandReceipt)
        → IsReader view (prove_create herdr intent known create)
    unfolding prove_create
    prove_create-IsReader herdr intent known create = IsReader-and_then (lift-IsReader _) (λ u.
        IsReader-and_then (workspace_from_create-IsReader create _ _) (λ workspace.
          IsReader-and_then (take_snapshot-IsReader herdr) (λ found.
            IsReader-and_then get_world-IsReader
              (λ w. IsReader-and_then (lift-IsReader _) (λ v. return-IsReader _)))))

    pub prove_known-IsReader :
        (herdr : Herdr) (intent : ProvisionIntent) (known : ProjectTopologyProof)
        (live : Option Fields)
        → IsReader view (prove_known herdr intent known live)
    unfolding prove_known
    prove_known-IsReader herdr intent known live = IsReader-and_then (lift-IsReader _) (λ u.
        IsReader-and_then (take_snapshot-IsReader herdr)
          (λ found. IsReader-and_then get_world-IsReader (λ w. lift-IsReader _)))
