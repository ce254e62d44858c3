-- ===== src/Transport/Steps.antt =====
-- `before_command` and `after_command` of lib/ask_herdr_journaled_provision.py.
use ask_herdr.Base.{
  String, true, false, ◌&&◌, ◌||◌, Option, none, some, List, ◌∷◌, ◌≡◌, inl, inr, Bool-cases,
  Option-cases, refl, sym, ap, ◌∙◌, subst, ◌==◌, ◌/=◌, string_eq, ==_iff, if◌then◌else◌, arith,
}
use ask_herdr.StrictJson.Digest.{Encodings}
use ask_herdr.Transport.Proofs.{kind_value, CommandReceipt, PlannedTopologyCommand, ProvisionIntent}
use ask_herdr.Transport.Actions.{
  provision_error, Outcome, done, failed, TopologyCommandIntent, TopologyCommandReceipt,
  StoreResult, Event, ran, CommandTicket, World, and_then, Herdr, intent_answered,
}
use ask_herdr.Transport.Provision.{ProvenTopologyCommand, effect_end, effect_command}
use ask_herdr.Transport.Entries.{
  Surroundings, JournaledProvisionRequest, argv_digest, resource_digests, lease_refused, answered,
  lease_lost, ClaimedAnswer,
}
use ask_herdr.Transport.Journal.{
  command_intent, ticket_of, due_intent, intent_settled, claim_settled, commit_intent,
  before_command, assert_workspace_binding, check_receipt, identified_receipt, ticket_receipt,
  due_receipt, commit_receipt, after_command, receipt_record,
}
use ask_herdr.Transport.Commands.{command}
use ask_herdr.Transport.Readers.{command-log}
use ask_herdr.Transport.Triples.{>?>-eq-done, if_failed, done_inj, Ends, Triple, Triple_bind}
use ask_herdr.Transport.WriteAhead.{
  Standing, idle, effected, has_effect, names_command, settles, after_event, after_events, standing,
  IsReader, prepared,
}
use ask_herdr.Transport.Stages.{
  IsTicketOf, IsIdle, IsPrepared, IsEffected, IsKept, At, IsIdle-IsKept, IsEffected-IsKept,
  Triple-IsReader,
}

module _ (lib : Encodings) (herdr : Herdr) (world : Surroundings)
    (request : JournaledProvisionRequest) where
  assert_workspace_binding-IsReader :
      IsReader (standing lib) (assert_workspace_binding lib herdr world request)
  unfolding assert_workspace_binding
  assert_workspace_binding-IsReader = record {
    log_kept = λ w. ground arith;
    port_kept = λ w. ground arith;
  }

  agrees :
      (kind digest : String) (i : TopologyCommandIntent)
      → (kind /= i.command_kind || digest /= i.command_argv_digest) ≡ false
      → (i.command_kind ≡ kind) × (i.command_argv_digest ≡ digest)
  agrees kind digest i h = (
    ground (arith, ==_iff kind i.command_kind),
    ground (arith, ==_iff digest i.command_argv_digest),
  )

  names_it :
      (kind digest : String) (i : TopologyCommandIntent)
      → i.command_kind ≡ kind
      → i.command_argv_digest ≡ digest
      → (i.command_kind == kind && digest == i.command_argv_digest) ≡ true
  names_it kind digest i h k =
      ground (arith, ==_iff i.command_kind kind, ==_iff digest i.command_argv_digest)

  -- The intent that is due names the command, and the ticket is of it.
  due_intent-names :
      (plan : PlannedTopologyCommand) (w : World) (due : CommandTicket × TopologyCommandIntent)
      → due_intent lib herdr world request plan w ≡ done due
      → (names_command lib due.1 plan.kind plan.argv ≡ true) × IsTicketOf due.1 due.0
  unfolding due_intent
  due_intent-names plan w due h =
      let (free, chain) = if_failed _ _ h in
      let (i, told, rest) =
        >?>-eq-done (command_intent lib herdr world request w.port.next_index) _ chain in
      let (digest, made, last) = >?>-eq-done (argv_digest lib plan.argv) _ rest in
      named i digest made last
    where
      named :
          (i : TopologyCommandIntent) (digest : String)
          → argv_digest lib plan.argv ≡ done digest
          → (if kind_value plan.kind /= i.command_kind || digest /= i.command_argv_digest
              then failed (provision_error "journaled_provision.command_order_invalid" true)
              else done (ticket_of lib herdr world request plan i digest, i))
            ≡ done due
          → (names_command lib due.1 plan.kind plan.argv ≡ true) × IsTicketOf due.1 due.0
      named i digest made last =
          let (same, given) = if_failed _ _ last in
          let (same_kind, same_digest) = agrees _ digest i same in
          subst (λ d. (names_command lib d.1 plan.kind plan.argv ≡ true) × IsTicketOf d.1 d.0)
            (done_inj given)
            (
              rw made (names_it _ digest i same_kind same_digest),
              record { same_step = refl; same_kind = same_kind; same_digest = same_digest },
            )

  -- The log after one more event.
  standing-next :
      {s : Standing} (e : Event) (log : List Event)
      → standing lib log ≡ some s
      → standing lib (e ∷ log) ≡ after_event lib s e
  unfolding standing
  standing-next e log h = ap (λ s. after_events lib s e) h

  intent_settled-IsPrepared :
      (plan : PlannedTopologyCommand) (ticket : CommandTicket) (i : TopologyCommandIntent)
      (result : StoreResult) (w : World)
      → At lib IsIdle w
      → names_command lib i plan.kind plan.argv ≡ true
      → IsTicketOf i ticket
      → Ends
          (At lib IsKept)
          (λ t. At lib (IsPrepared lib plan t))
          (intent_settled lib herdr world request ticket i result w)
  intent_settled-IsPrepared plan ticket i result w h names of_intent =
      elim (Bool-cases (result.outcome_kind == "topology_command_prepared")) [
        | inl recorded ↦ rw recorded (record {
          intent = i;
          stands = standing-next _ w.log h.stands ∙ rw recorded refl;
          held = refl;
          names = names;
          of_intent = of_intent;
        })
        | inr refused ↦
            rw refused
              (record { now = idle; stands = standing-next _ w.log h.stands ∙ rw refused refl })
      ]

  -- An answer that is logged and not acted upon breaks nothing.
  intent_answered-IsKept :
      (i : TopologyCommandIntent) (result : StoreResult) (w : World)
      → At lib IsIdle w
      → IsKept (standing lib (intent_answered i result ∷ w.log)) w.port
  intent_answered-IsKept i result w h =
      elim (Bool-cases (result.outcome_kind == "topology_command_prepared")) [
        | inl recorded ↦ record {
          now = prepared i;
          stands = standing-next _ w.log h.stands ∙ rw recorded refl;
        }
        | inr refused ↦ record {
          now = idle;
          stands = standing-next _ w.log h.stands ∙ rw refused refl;
        }
      ]

  claim_settled-IsPrepared :
      (plan : PlannedTopologyCommand) (ticket : CommandTicket) (i : TopologyCommandIntent)
      (answer : ClaimedAnswer) (w : World)
      → At lib IsIdle w
      → names_command lib i plan.kind plan.argv ≡ true
      → IsTicketOf i ticket
      → Ends
          (At lib IsKept)
          (λ t. At lib (IsPrepared lib plan t))
          (claim_settled lib herdr world request ticket i answer w)
  claim_settled-IsPrepared plan ticket i (lease_refused detail) w h names of_intent =
      IsIdle-IsKept _ _ h
  claim_settled-IsPrepared plan ticket i (answered result) w h names of_intent =
      intent_settled-IsPrepared plan ticket i result w h names of_intent
  claim_settled-IsPrepared plan ticket i (lease_lost result detail) w h names of_intent =
      intent_answered-IsKept i result w h

  commit_intent-IsPrepared :
      (plan : PlannedTopologyCommand) (ticket : CommandTicket) (i : TopologyCommandIntent)
      (w : World)
      → At lib IsIdle w
      → names_command lib i plan.kind plan.argv ≡ true
      → IsTicketOf i ticket
      → Ends
          (At lib IsKept)
          (λ t. At lib (IsPrepared lib plan t))
          (commit_intent lib herdr world request ticket i w)
  unfolding commit_intent
  commit_intent-IsPrepared plan ticket i w h names of_intent =
      elim (Option-cases request.mutation_intent.topology_store_incarnation_digest) [
        | inl unclaimed ↦
            rw unclaimed (intent_settled-IsPrepared plan ticket i _ w h names of_intent)
        | inr (d, claimed) ↦ rw claimed (
            claim_settled-IsPrepared plan ticket i (world.commit_claimed_intent w.log i) w h names
              of_intent)
      ]

  due_intent-IsPrepared :
      (plan : PlannedTopologyCommand) (w : World)
      (o : Outcome (CommandTicket × TopologyCommandIntent))
      → due_intent lib herdr world request plan w ≡ o
      → At lib IsIdle w
      → Ends
          (At lib IsKept)
          (λ t. At lib (IsPrepared lib plan t))
          (and_then (o, w) (λ due. commit_intent lib herdr world request due.0 due.1))
  due_intent-IsPrepared plan w (failed e) due h = IsIdle-IsKept _ _ h
  due_intent-IsPrepared plan w (done d) due h =
      let (names, of_intent) = due_intent-names plan w d due in
      commit_intent-IsPrepared plan d.0 d.1 w h names of_intent

  -- Before a command, its intent is recorded or it is refused.
  pub before_command-IsPrepared :
      (plan : PlannedTopologyCommand)
      → Triple
          (At lib IsKept)
          (At lib IsIdle)
          (before_command lib herdr world request plan)
          (λ ticket. At lib (IsPrepared lib plan ticket))
  unfolding before_command
  before_command-IsPrepared plan =
      Triple_bind (Triple-IsReader lib assert_workspace_binding-IsReader IsIdle-IsKept)
        (λ u. record { ends = λ w h. due_intent-IsPrepared plan w _ refl h })

  identified_receipt-settles :
      (p : ProvenTopologyCommand) (ticket : CommandTicket) (i : TopologyCommandIntent)
      (digests : List String) (id : Option String) (receipt : TopologyCommandReceipt)
      → IsTicketOf i ticket
      → identified_receipt lib herdr world request p ticket digests id ≡ done receipt
      → settles lib i receipt ≡ true
  identified_receipt-settles p ticket i digests none receipt of_intent h = cc
  identified_receipt-settles p ticket i digests (some id) receipt of_intent h =
      let (u, valid, made) =
        >?>-eq-done
          (check_receipt lib herdr world request
            (receipt_record lib herdr world request p ticket id digests))
          (λ _. done (receipt_record lib herdr world request p ticket id digests)) h in
      subst (λ r. settles lib i r ≡ true) (done_inj made)
        (ground (
          arith,
          ==_iff i.step_id ticket.step_id,
          ==_iff i.command_kind (kind_value ticket.kind),
          ==_iff i.command_argv_digest ticket.argv_digest,
          of_intent.same_step,
          of_intent.same_kind,
          of_intent.same_digest,
        ))

  ticket_receipt-settles :
      (p : ProvenTopologyCommand) (ticket : CommandTicket) (i : TopologyCommandIntent)
      (receipt : TopologyCommandReceipt)
      → IsTicketOf i ticket
      → ticket_receipt lib herdr world request p ticket ≡ done receipt
      → settles lib i receipt ≡ true
  unfolding ticket_receipt
  ticket_receipt-settles p ticket i receipt of_intent h =
      let (right, chain) = if_failed _ _ h in
      let (digests, told, last) = >?>-eq-done (resource_digests lib p.resources) _ chain in
      identified_receipt-settles p ticket i digests p.receipt.request_id receipt of_intent last

  commit_receipt-IsIdle :
      (p : ProvenTopologyCommand) (receipt : TopologyCommandReceipt) (w : World)
      (i : TopologyCommandIntent)
      → standing lib w.log ≡ some (effected i)
      → settles lib i receipt ≡ true
      → Ends
          (At lib IsKept)
          (λ u. At lib IsIdle)
          (commit_receipt lib herdr world request p receipt w)
  unfolding commit_receipt
  commit_receipt-IsIdle p receipt w i stands settled =
      let result = world.commit_command_receipt w.log receipt in
      elim (Bool-cases (result.outcome_kind == "topology_command_receipt_recorded")) [
        | inl recorded ↦ rw recorded (record {
          stands = standing-next _ w.log stands ∙ rw recorded (rw settled refl);
          free = refl;
        })
        | inr refused ↦
            rw refused
              (record { now = effected i; stands = standing-next _ w.log stands ∙ rw refused refl })
      ]

  effect_end-log :
      (intent : ProvisionIntent) (w : World) (e : Event) (end : Outcome CommandReceipt × World)
      → (end.1.log ≡ e ∷ w.log) × (end.1.port ≡ w.port)
      → ((effect_end herdr intent end).1.log ≡ e ∷ w.log)
        × ((effect_end herdr intent end).1.port ≡ w.port)
  effect_end-log intent w e (done receipt, u) h = h
  effect_end-log intent w e (failed x, u) h = h

  -- A command with an effect, whatever comes of it, runs the one that its intent names.
  effect_command-log :
      (intent : ProvisionIntent) (plan : PlannedTopologyCommand) (w : World)
      → ((effect_command herdr intent plan w).1.log ≡ ran plan.kind plan.argv ∷ w.log)
        × ((effect_command herdr intent plan w).1.port ≡ w.port)
  unfolding effect_command
  effect_command-log intent plan w =
      effect_end-log intent w _ (command herdr plan.kind plan.argv w)
        (command-log (standing lib) herdr plan.kind plan.argv w)

  IsEffected-end :
      (i : TopologyCommandIntent) (plan : PlannedTopologyCommand) (ticket : CommandTicket)
      (end : Outcome CommandReceipt × World) (w : World)
      → (end.1.log ≡ ran plan.kind plan.argv ∷ w.log) × (end.1.port ≡ w.port)
      → IsEffected ticket (standing lib end.1.log) end.1.port
      → Ends (At lib IsKept) (λ r. At lib (IsEffected ticket)) end
  IsEffected-end i plan ticket (done receipt, u) w told h = h
  IsEffected-end i plan ticket (failed e, u) w told h = IsEffected-IsKept _ _ h

  -- A command whose intent is recorded leaves it as the one that has run.
  pub effect_command-IsEffected :
      (intent : ProvisionIntent) (plan : PlannedTopologyCommand) (ticket : CommandTicket)
      → has_effect plan.kind ≡ true
      → Triple
          (At lib IsKept)
          (At lib (IsPrepared lib plan ticket))
          (effect_command herdr intent plan)
          (λ r. At lib (IsEffected ticket))
  effect_command-IsEffected intent plan ticket effect = record {
    ends = λ w h.
        let (told, same) = effect_command-log intent plan w in
        IsEffected-end h.intent plan ticket (effect_command herdr intent plan w) w (told, same)
          (record {
            intent = h.intent;
            stands =
                ap (standing lib) told
                ∙ standing-next _ w.log h.stands
                ∙ rw effect (rw h.names refl);
            held = ap (λ p. p.pending) same ∙ h.held;
            of_intent = h.of_intent;
          });
  }

  due_receipt-IsIdle :
      (p : ProvenTopologyCommand) (ticket : CommandTicket) (w : World)
      (o : Outcome TopologyCommandReceipt)
      → due_receipt lib herdr world request p w.port.pending ≡ o
      → At lib (IsEffected ticket) w
      → Ends
          (At lib IsKept)
          (λ u. At lib IsIdle)
          (and_then (o, w) (commit_receipt lib herdr world request p))
  due_receipt-IsIdle p ticket w (failed e) due h = IsEffected-IsKept _ _ h
  due_receipt-IsIdle p ticket w (done receipt) due h =
      commit_receipt-IsIdle p receipt w h.intent h.stands (
        ticket_receipt-settles p ticket h.intent receipt h.of_intent
          (sym (ap (due_receipt lib herdr world request p) h.held) ∙ due))

  -- After a command, its receipt is recorded or the failure is told.
  pub after_command-IsIdle :
      (p : ProvenTopologyCommand) (ticket : CommandTicket)
      → Triple
          (At lib IsKept)
          (At lib (IsEffected ticket))
          (after_command lib herdr world request p)
          (λ u. At lib IsIdle)
  unfolding after_command
  after_command-IsIdle p ticket =
      Triple_bind (Triple-IsReader lib assert_workspace_binding-IsReader IsEffected-IsKept)
        (λ u. record { ends = λ w h. due_receipt-IsIdle p ticket w _ refl h })
