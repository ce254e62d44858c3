-- ===== src/Transport/Discipline.antt =====
-- The order of journal and commands in a journaled provision: `provision` of
-- lib/ask_herdr_herdr_transport.py with the port of lib/ask_herdr_journaled_provision.py.
use ask_herdr.Base.{true, Option, none, some, ◌≡◌, refl, sym, subst}
use ask_herdr.StrictJson.Values.{Fields}
use ask_herdr.StrictJson.Digest.{Encodings}
use ask_herdr.Transport.Proofs.{
  ProvisionIntent, ProjectTopologyProof, PlannedTopologyCommand, CommandReceipt, LaneTopologyProof,
}
use ask_herdr.Transport.Actions.{CommandTicket, World, Action, Herdr, ◌>=>◌}
use ask_herdr.Transport.Provision.{
  start_plan, create_plan, effect_command, prove_start, prove_create, before, start_session,
  create_lane, provision_lane, provision, JournalPort, lane_or_new, start_or_prove,
}
use ask_herdr.Transport.Entries.{Surroundings, JournaledProvisionRequest}
use ask_herdr.Transport.Journal.{journal_port}
use ask_herdr.Transport.Triples.{Ends, Triple, Triple_bind}
use ask_herdr.Transport.WriteAhead.{standing, has_effect, IsReader}
use ask_herdr.Transport.Readers.{
  standing-harmless, lift-IsReader, list_sessions-IsReader, prove_start-IsReader,
  prove_create-IsReader, prove_known-IsReader,
}
use ask_herdr.Transport.Stages.{
  IsIdle, IsPrepared, IsEffected, IsKept, At, IsIdle-IsKept, IsEffected-IsKept, Triple-IsReader,
  Triple-return,
}
use ask_herdr.Transport.Steps.{
  before_command-IsPrepared, effect_command-IsEffected, after_command-IsIdle,
}

module _ (lib : Encodings) (herdr : Herdr) (world : Surroundings)
    (request : JournaledProvisionRequest) where
  abbrev port : Option JournalPort
  port = some (journal_port lib herdr world request)

  abbrev Kept : World → Type 0
  Kept = At lib IsKept

  abbrev Idle : World → Type 0
  Idle = At lib IsIdle

  before-IsPrepared :
      (intent : ProvisionIntent) (plan : PlannedTopologyCommand)
      → Triple Kept Idle (before herdr intent port plan) (λ t w.
        (ticket : CommandTicket) × (t ≡ some ticket) × At lib (IsPrepared lib plan ticket) w)
  before-IsPrepared intent plan =
      Triple_bind (before_command-IsPrepared lib herdr world request plan)
        (λ ticket. record { ends = λ w h. (ticket, refl, h) })

  -- A command with its journal: the intent, the effect, what proves it, and the receipt.
  journaled-Idle :
      {A B : Type 0} (intent : ProvisionIntent) (plan : PlannedTopologyCommand)
      (prove : CommandReceipt → Action B)
      (finish : Option CommandTicket → CommandReceipt → B → Action A)
      → has_effect plan.kind ≡ true
      → ((r : CommandReceipt) → IsReader (standing lib) (prove r))
      → ((ticket : CommandTicket) (r : CommandReceipt) (b : B)
          → Triple Kept (At lib (IsEffected ticket)) (finish (some ticket) r b) (λ a. Idle))
      → Triple Kept Idle
          (before herdr intent port plan >=> λ t.
            effect_command herdr intent plan >=> λ r. prove r >=> λ b. finish t r b)
          (λ a. Idle)
  journaled-Idle {A = A} intent plan prove finish effect reader finished =
      Triple_bind (before-IsPrepared intent plan) (λ t. record {
        ends = λ w h.
            let (ticket, same, at_stage) = h in
            (subst (λ t. Triple Kept (At lib (IsPrepared lib plan ticket)) (rest t) (λ a. Idle))
                (sym same) (on_ticket ticket)).ends
              w at_stage;
      })
    where
      rest : Option CommandTicket → Action A
      rest t = effect_command herdr intent plan >=> λ r. prove r >=> λ b. finish t r b

      on_ticket :
          (ticket : CommandTicket)
          → Triple Kept (At lib (IsPrepared lib plan ticket)) (rest (some ticket)) (λ a. Idle)
      on_ticket ticket =
          Triple_bind (effect_command-IsEffected lib herdr world request intent plan ticket effect)
            (λ r.
              Triple_bind (Triple-IsReader lib (reader r) IsEffected-IsKept)
                (λ b. finished ticket r b))

  start_session-Idle :
      (intent : ProvisionIntent) (live : Option Fields)
      → Triple Kept Idle (start_session herdr intent port live) (λ project. Idle)
  unfolding start_session
  start_session-Idle intent live =
      Triple_bind (Triple-IsReader lib (lift-IsReader (standing lib) _) IsIdle-IsKept) (λ u.
        journaled-Idle intent (start_plan herdr intent) (prove_start herdr intent) _ refl
          (prove_start-IsReader (standing lib) (standing-harmless lib) herdr intent)
          (λ ticket r b.
            Triple_bind (after_command-IsIdle lib herdr world request _ ticket)
              (λ v. Triple-return _)))

  create_lane-Idle :
      (intent : ProvisionIntent) (known : ProjectTopologyProof)
      → Triple Kept Idle (create_lane herdr intent port known) (λ r. Idle)
  unfolding create_lane
  create_lane-Idle intent known =
      Triple_bind (Triple-IsReader lib (lift-IsReader (standing lib) _) IsIdle-IsKept) (λ u.
        journaled-Idle intent (create_plan herdr intent) (prove_create herdr intent known) _ refl
          (prove_create-IsReader (standing lib) (standing-harmless lib) herdr intent known)
          (λ ticket r b.
            Triple_bind (after_command-IsIdle lib herdr world request _ ticket)
              (λ v. Triple-return _)))

  lane_or_new-Idle :
      (intent : ProvisionIntent) (known : ProjectTopologyProof) (found : Option LaneTopologyProof)
      → Triple Kept Idle (lane_or_new herdr intent port known found) (λ r. Idle)
  lane_or_new-Idle intent known none = create_lane-Idle intent known
  lane_or_new-Idle intent known (some lane) =
      Triple_bind (Triple-IsReader lib (lift-IsReader (standing lib) _) IsIdle-IsKept)
        (λ u. Triple-return _)

  provision_lane-Idle :
      (intent : ProvisionIntent) (known : ProjectTopologyProof)
      → Triple Kept Idle (provision_lane herdr intent port known) (λ r. Idle)
  unfolding provision_lane
  provision_lane-Idle intent known = lane_or_new-Idle intent known _

  start_or_prove-Idle :
      (intent : ProvisionIntent) (known : Option ProjectTopologyProof) (live : Option Fields)
      → Triple Kept Idle (start_or_prove herdr intent port known live) (λ p. Idle)
  start_or_prove-Idle intent none live = start_session-Idle intent live
  start_or_prove-Idle intent (some project) live =
      Triple_bind
        (Triple-IsReader lib
          (prove_known-IsReader (standing lib) (standing-harmless lib) herdr intent project live)
          IsIdle-IsKept)
        (λ u. Triple-return _)

  provision-Idle :
      (intent : ProvisionIntent) (known : Option ProjectTopologyProof)
      → Triple Kept Idle (provision herdr intent port known) (λ result. Idle)
  unfolding provision
  provision-Idle intent known =
      Triple_bind (Triple-IsReader lib (lift-IsReader (standing lib) _) IsIdle-IsKept) (λ u.
        Triple_bind
          (Triple-IsReader lib (list_sessions-IsReader (standing lib) (standing-harmless lib) herdr)
            IsIdle-IsKept)
          (λ sessions.
            Triple_bind (Triple-IsReader lib (lift-IsReader (standing lib) _) IsIdle-IsKept)
              (λ live.
                Triple_bind (start_or_prove-Idle intent known live)
                  (λ project. provision_lane-Idle intent project))))

  -- Each command that changes what is outside runs only while an intent that the store recorded names it, no
  -- second intent is recorded while one is open, and a receipt is recorded only of the command that ran: from
  -- a log and a port with nothing open, whatever the runner, the store, the lease and the file system answer,
  -- `provision` under the journal's port ends with a log of that form. If it returns a result, nothing is open.
  pub provision_writes_ahead :
      (intent : ProvisionIntent) (known : Option ProjectTopologyProof) (w : World)
      → IsIdle (standing lib w.log) w.port
      → Ends
          (At lib IsKept)
          (λ result. At lib IsIdle)
          (provision herdr intent (some (journal_port lib herdr world request)) known w)
  provision_writes_ahead intent known w h = (provision-Idle intent known).ends w h
