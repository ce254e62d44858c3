-- ===== src/Transport/WriteAhead.antt =====
-- The journal of a provision as its reader sees it: the entries of the store and the commands of the log,
-- of lib/ask_herdr_journaled_provision.py and lib/ask_herdr_herdr_transport.py.
use ask_herdr.Base.{
  String, Bool, true, false, ◌&&◌, Option, none, some, List, [], ◌∷◌, ◌≡◌, ◌==◌, string_eq,
  if◌then◌else◌,
}
use ask_herdr.StrictJson.Digest.{Encodings}
use ask_herdr.Transport.Proofs.{ReceiptKind, session_list, snapshot, kind_value, Argv}
use ask_herdr.Transport.Actions.{
  Outcome, done, failed, TopologyCommandIntent, TopologyCommandReceipt, Event, ran, intent_answered,
  receipt_answered, World, Action,
}
use ask_herdr.Transport.Entries.{argv_digest}

-- No command is open, one has its intent recorded, or one has run and its receipt is missing.
pub data Standing : Type 0 where
  idle : Standing
  prepared : TopologyCommandIntent → Standing
  effected : TopologyCommandIntent → Standing

-- The kinds of command that change what is outside.
abbrev pub has_effect : ReceiptKind → Bool
has_effect session_list = false
has_effect snapshot = false
has_effect _ = true

abbrev pub has_digest : Outcome String → String → Bool
has_digest (done d) e = d == e
has_digest (failed e) d = false

module _ (lib : Encodings) where
  -- The intent names the command.
  abbrev pub names_command : TopologyCommandIntent → ReceiptKind → Argv → Bool
  names_command i kind argv =
      i.command_kind == kind_value kind && has_digest (argv_digest lib argv) i.command_argv_digest

  abbrev pub after_run : Standing → ReceiptKind → Argv → Option Standing
  after_run idle kind argv = none
  after_run (prepared i) kind argv = if names_command i kind argv then some (effected i) else none
  after_run (effected i) kind argv = none

  abbrev pub after_intent : Standing → TopologyCommandIntent → Option Standing
  after_intent idle i = some (prepared i)
  after_intent _ i = none

  -- The receipt is of the command that ran.
  abbrev pub settles : TopologyCommandIntent → TopologyCommandReceipt → Bool
  settles i r =
      i.step_id == r.step_id
      && (i.command_kind == r.command_kind && i.command_argv_digest == r.command_argv_digest)

  abbrev pub after_receipt : Standing → TopologyCommandReceipt → Option Standing
  after_receipt (effected i) r = if settles i r then some idle else none
  after_receipt _ r = none

  -- One event; `none` where the discipline is broken. What the store does not record changes nothing.
  abbrev pub after_event : Standing → Event → Option Standing
  after_event s (ran kind argv) = if has_effect kind then after_run s kind argv else some s
  after_event s (intent_answered i result) =
      if result.outcome_kind == "topology_command_prepared" then after_intent s i else some s
  after_event s (receipt_answered r result) =
      if result.outcome_kind == "topology_command_receipt_recorded"
      then after_receipt s r
      else some s

  abbrev pub after_events : Option Standing → Event → Option Standing
  after_events none e = none
  after_events (some s) e = after_event s e

  -- Where a log stands, its newest event first.
  unfoldable pub standing : List Event → Option Standing
  standing [] = some idle
  standing (e ∷ older) = after_events (standing older) e

-- The action is no part of the journal: it leaves what a reader sees of the log, and the port.
pub record IsReader {A B : Type 0} (view : List Event → B) (act : Action A) : Type 0 where
  pub log_kept : (w : World) → view (act w).1.log ≡ view w.log
  pub port_kept : (w : World) → (act w).1.port ≡ w.port

-- The commands of a log that have an effect, the newest first.
unfoldable pub effects : List Event → List Argv
effects [] = []
effects (ran kind argv ∷ older) =
    let before = effects older in if has_effect kind then argv ∷ before else before
effects (intent_answered i r ∷ older) = effects older
effects (receipt_answered i r ∷ older) = effects older
