-- ===== src/Transport/Stages.antt =====
-- Where the journal of a provision stands and what its port holds: lib/ask_herdr_journaled_provision.py.
use ask_herdr.Base.{true, Option, none, some, ◌≡◌, refl, sym, subst}
use ask_herdr.StrictJson.Digest.{Encodings}
use ask_herdr.Transport.Proofs.{kind_value, PlannedTopologyCommand}
use ask_herdr.Transport.Actions.{
  Outcome, done, failed, TopologyCommandIntent, CommandTicket, PortState, World, Action, return,
  get_world,
}
use ask_herdr.Transport.Triples.{Ends, Triple}
use ask_herdr.Transport.WriteAhead.{
  Standing, idle, prepared, effected, names_command, standing, IsReader,
}

-- The ticket is of the intent.
pub record IsTicketOf (i : TopologyCommandIntent) (ticket : CommandTicket) : Type 0 where
  pub same_step : i.step_id ≡ ticket.step_id
  pub same_kind : i.command_kind ≡ kind_value ticket.kind
  pub same_digest : i.command_argv_digest ≡ ticket.argv_digest

pub record IsIdle (s : Option Standing) (p : PortState) : Type 0 where
  pub stands : s ≡ some idle
  pub free : p.pending ≡ none

pub record IsPrepared (lib : Encodings) (plan : PlannedTopologyCommand) (ticket : CommandTicket)
    (s : Option Standing) (p : PortState) : Type 0 where
  pub intent : TopologyCommandIntent
  pub stands : s ≡ some (prepared intent)
  pub held : p.pending ≡ some ticket
  pub names : names_command lib intent plan.kind plan.argv ≡ true
  pub of_intent : IsTicketOf intent ticket

pub record IsEffected (ticket : CommandTicket) (s : Option Standing) (p : PortState) : Type 0 where
  pub intent : TopologyCommandIntent
  pub stands : s ≡ some (effected intent)
  pub held : p.pending ≡ some ticket
  pub of_intent : IsTicketOf intent ticket

-- The discipline is not broken.
pub record IsKept (s : Option Standing) (p : PortState) : Type 0 where
  pub now : Standing
  pub stands : s ≡ some now

abbrev pub At : Encodings → (Option Standing → PortState → Type 0) → World → Type 0
At lib P w = P (standing lib w.log) w.port

pub IsIdle-IsKept : (s : Option Standing) (p : PortState) → IsIdle s p → IsKept s p
IsIdle-IsKept s p h = record { now = idle; stands = h.stands }

pub IsPrepared-IsKept :
    {lib : Encodings} {plan : PlannedTopologyCommand} {ticket : CommandTicket} (s : Option Standing)
    (p : PortState)
    → IsPrepared lib plan ticket s p
    → IsKept s p
IsPrepared-IsKept s p h = record { now = prepared h.intent; stands = h.stands }

pub IsEffected-IsKept :
    {ticket : CommandTicket} (s : Option Standing) (p : PortState)
    → IsEffected ticket s p
    → IsKept s p
IsEffected-IsKept s p h = record { now = effected h.intent; stands = h.stands }

At-end :
    {A : Type 0} (lib : Encodings) (P : Option Standing → PortState → Type 0)
    (end : Outcome A × World)
    → ((s : Option Standing) (p : PortState) → P s p → IsKept s p)
    → At lib P end.1
    → Ends (At lib IsKept) (λ a. At lib P) end
At-end lib P (done a, w) kept h = h
At-end lib P (failed e, w) kept h = kept _ _ h

-- A reader keeps every stage.
pub Triple-IsReader :
    (lib : Encodings) {A : Type 0} {P : Option Standing → PortState → Type 0} {act : Action A}
    → IsReader (standing lib) act
    → ((s : Option Standing) (p : PortState) → P s p → IsKept s p)
    → Triple (At lib IsKept) (At lib P) act (λ a. At lib P)
Triple-IsReader lib {P = P} {act = act} reader kept = record {
  ends = λ w h. At-end lib P (act w) kept (
      subst (λ s. P s (act w).1.port) (sym (reader.log_kept w))
        (subst (λ p. P (standing lib w.log) p) (sym (reader.port_kept w)) h));
}

pub Triple-get_world :
    {Broken Before : World → Type 0} → Triple Broken Before get_world (λ a w. Before w × (a ≡ w))
Triple-get_world = record { ends = λ w h. (h, refl) }

pub Triple-return :
    {A : Type 0} {Broken Before : World → Type 0} (a : A)
    → Triple Broken Before (return a) (λ b. Before)
Triple-return a = record { ends = λ w h. h }
