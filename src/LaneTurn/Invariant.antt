-- ===== src/LaneTurn/Invariant.antt =====
-- The invariant of a lane turn of lib/ask_herdr_lane_turn.py, over one event and over a history.
use ask_herdr.Base.{◌≡◌, some, none, List, [], ◌∷◌, arith, ok, >>=-eq-ok}
use ask_herdr.LaneTurn.Events.Prepare.{PrepareAdmittedAttempt}
use ask_herdr.LaneTurn.State.{LaneTurnState, LaneTurnEvent, prepare, prepare_state}
use ask_herdr.LaneTurn.Reducer.{reduce_turn, replay}
use ask_herdr.LaneTurn.Steps.{Step}
use ask_herdr.LaneTurn.Steps.Refinement.{reduce_turn-Step}
use ask_herdr.LaneTurn.Outcome.{OutcomeInv, Step-OutcomeInv}
use ask_herdr.LaneTurn.Promotion.{
  IdentityInv, ReservationInv, Step-IdentityInv, Step-ReservationInv,
}
use ask_herdr.LaneTurn.Provisioning.{TopologyInv, Step-TopologyInv}
use ask_herdr.LaneTurn.Commands.{CommandInv, Step-CommandInv}
use ask_herdr.LaneTurn.Anchors.{AnchorInv, Step-AnchorInv}
use ask_herdr.LaneTurn.NativeIdentity.{NativeInv, Step-NativeInv}
use ask_herdr.LaneTurn.Release.{ReleaseInv, Step-ReleaseInv}

pub record TurnInv (s : LaneTurnState) : Type 0 where
  pub outcome : OutcomeInv s
  pub identity : IdentityInv s
  pub reservation : ReservationInv s
  pub topology : TopologyInv s
  pub commands : CommandInv s
  pub anchors : AnchorInv s
  pub native : NativeInv s
  pub release : ReleaseInv s

pub Step-TurnInv : (s t : LaneTurnState) → Step s t → TurnInv s → TurnInv t
Step-TurnInv s t st v = record {
  outcome = Step-OutcomeInv s t st v.outcome;
  identity = Step-IdentityInv s t st v.identity;
  reservation = Step-ReservationInv s t st v.reservation;
  topology = Step-TopologyInv s t st v.topology;
  commands = Step-CommandInv s t st v.commands;
  anchors = Step-AnchorInv s t st v.anchors;
  native = Step-NativeInv s t st v.native;
  release = Step-ReleaseInv s t st v.outcome v.topology v.release;
}

-- Every accepted event keeps the invariant of the turn.
pub reduce_turn-TurnInv :
    (s t : LaneTurnState) (event : LaneTurnEvent)
    → reduce_turn (some s) event ≡ ok t
    → TurnInv s
    → TurnInv t
reduce_turn-TurnInv s t event h v = Step-TurnInv s t (reduce_turn-Step s t event h) v

prepare_state-OutcomeInv : (e : PrepareAdmittedAttempt) → OutcomeInv (prepare_state e)
unfolding prepare_state
prepare_state-OutcomeInv e = ground arith

prepare_state-IdentityInv : (e : PrepareAdmittedAttempt) → IdentityInv (prepare_state e)
unfolding prepare_state
prepare_state-IdentityInv e = ground arith

prepare_state-ReservationInv : (e : PrepareAdmittedAttempt) → ReservationInv (prepare_state e)
unfolding prepare_state
prepare_state-ReservationInv e = ground arith

prepare_state-TopologyInv : (e : PrepareAdmittedAttempt) → TopologyInv (prepare_state e)
unfolding prepare_state
prepare_state-TopologyInv e = ground arith

-- An attempt that was just prepared satisfies the invariant.
pub prepare_state-TurnInv : (e : PrepareAdmittedAttempt) → TurnInv (prepare_state e)
unfolding prepare_state
prepare_state-TurnInv e = record {
  outcome = prepare_state-OutcomeInv e;
  identity = prepare_state-IdentityInv e;
  reservation = prepare_state-ReservationInv e;
  topology = prepare_state-TopologyInv e;
  commands = record { numbered = tt; distinct = tt; chained = tt };
  anchors = record { compatible = tt; bound = tt };
  native = record { fits = λ native h. cc };
  release = ground arith;
}

-- A relation that one event keeps, from a state in the invariant, is kept by a history.
module _ {R : LaneTurnState → LaneTurnState → Type 0} (reflexive : (s : LaneTurnState) → R s s)
    (compose : (s t u : LaneTurnState) → R s t → R t u → R s u)
    (step : (s t : LaneTurnState) → TurnInv s → Step s t → R s t) where
  pub replay_relation :
      (s t : LaneTurnState) (events : List LaneTurnEvent)
      → TurnInv s
      → replay (some s) events ≡ ok (some t)
      → R s t × TurnInv t
  unfolding replay
  replay_relation s t [] v h = let same : s ≡ t = ground arith in rw (← same) (reflexive s, v)
  replay_relation s t (event ∷ events) v h =
      let (u, first, rest) =
        >>=-eq-ok (reduce_turn (some s) event) (λ u. replay (some u) events) h in
      let st : Step s u = reduce_turn-Step s u event first in
      let (later, w) = replay_relation u t events (Step-TurnInv s u st v) rest in
      (compose s u t (step s u v st) later, w)

-- The state of every history that is accepted satisfies the invariant of the turn.
pub replay-TurnInv :
    (e : PrepareAdmittedAttempt) (t : LaneTurnState) (events : List LaneTurnEvent)
    → replay none (prepare e ∷ events) ≡ ok (some t)
    → TurnInv t
unfolding replay reduce_turn
replay-TurnInv e t events h =
    (replay_relation {R = λ s u. Unit {0}} (λ s. tt) (λ s u w p q. tt) (λ s u v st. tt)
      (prepare_state e) t events (prepare_state-TurnInv e) h).1
