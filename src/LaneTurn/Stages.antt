-- ===== src/LaneTurn/Stages.antt =====
-- The life of an attempt of lib/ask_herdr_lane_turn.py as its caller sees it, and the order of its stages.
use ask_herdr.Base.{
  ◌≡◌, refl, if◌then◌else◌, Bool, true, false, none, some, Option, List, ◌∷◌, ok, arith,
}
use ask_herdr.LaneTurn.Kinds.{
  TurnPhase, RecoveryState, clear, reconciliation_required, quarantined, TurnOutcomeKind,
  is_prepared, is_settled, is_turn_final,
}
use ask_herdr.LaneTurn.Events.Prepare.{PrepareAdmittedAttempt}
use ask_herdr.LaneTurn.State.{LaneTurnState, LaneTurnEvent, prepare}
use ask_herdr.LaneTurn.Reducer.{reduce_turn, replay}
use ask_herdr.LaneTurn.Steps.Refinement.{reduce_turn-Step}
use ask_herdr.LaneTurn.Steps.{
  Step, stays, claims, starts_effect, starts_command, settles_topology, anchors, dispatches,
  loses_delivery, settles_non_start, isolates, isolates_effect, starts_turn, times_out, withholds,
  concludes,
}
use ask_herdr.LaneTurn.Outcome.{OutcomeInv}
use ask_herdr.LaneTurn.Invariant.{TurnInv, replay-TurnInv}

-- An attempt awaits its dispatch, is underway, is in doubt, is isolated while open, was declined by a
-- proof of non-start, was answered, or is sealed: isolated after it had settled.
pub data Stage : Type 0 where
  awaiting underway doubtful isolated declined answered sealed : Stage

-- What the caller reads off the state.
abbrev pub stage_of : TurnPhase → RecoveryState → Option TurnOutcomeKind → Stage
stage_of phase quarantined outcome = if is_settled phase then sealed else isolated
stage_of phase reconciliation_required outcome = doubtful
stage_of phase clear outcome =
    if is_settled phase
    then (if is_turn_final outcome then answered else declined)
    else if is_prepared phase
    then awaiting
    else underway

abbrev pub stage : LaneTurnState → Stage
stage s = stage_of s.phase s.recovery_state s.outcome_kind

-- The moves of the abstract machine, one event long. No move leaves a sealed attempt, none leads from an
-- answered or a declined one but to its seal, and none back to an earlier stage.
abbrev pub follows : Stage → Stage → Bool
follows awaiting awaiting = true
follows awaiting underway = true
follows awaiting isolated = true
follows underway underway = true
follows underway doubtful = true
follows underway isolated = true
follows underway declined = true
follows underway answered = true
follows doubtful doubtful = true
follows doubtful isolated = true
follows doubtful declined = true
follows doubtful answered = true
follows isolated isolated = true
follows isolated declined = true
follows declined declined = true
follows declined sealed = true
follows answered answered = true
follows answered sealed = true
follows sealed sealed = true
follows _ _ = false

follows_refl : (u : Stage) → follows u u ≡ true
follows_refl awaiting = refl
follows_refl underway = refl
follows_refl doubtful = refl
follows_refl isolated = refl
follows_refl declined = refl
follows_refl answered = refl
follows_refl sealed = refl

Step-follows : (s t : LaneTurnState) → Step s t → OutcomeInv s → follows (stage s) (stage t) ≡ true
Step-follows s t (stays p) v = rw p (follows_refl (stage s))
Step-follows s t (claims e a b c p) v = rw p (follows_refl (stage s))
Step-follows s t (starts_effect e a b p) v = rw p (follows_refl (stage s))
Step-follows s t (starts_command e a b p) v = rw p (follows_refl (stage s))
Step-follows s t (settles_topology c e a b m r p) v = rw p (follows_refl (stage s))
Step-follows s t (anchors e a b p) v = rw p (follows_refl (stage s))
Step-follows s t (dispatches e i a b c d f g k p) v = ground arith
Step-follows s t (loses_delivery a b c p) v = ground arith
Step-follows s t (settles_non_start a b c p) v = ground arith
Step-follows s t (isolates a p) v = ground arith
Step-follows s t (isolates_effect a p) v = ground arith
Step-follows s t (starts_turn e a b c m p) v = ground arith
Step-follows s t (times_out a b p) v = ground arith
Step-follows s t (withholds e a b c m p) v = ground arith
Step-follows s t (concludes e a b c m n p) v = ground arith

-- Behind any accepted history, an event that is accepted either keeps the stage of the attempt or makes
-- one of the twelve moves between different stages: an answered or declined attempt moves only to its
-- seal, and a sealed one nowhere.
pub reduce_turn-follows :
    (e : PrepareAdmittedAttempt) (s t : LaneTurnState) (events : List LaneTurnEvent)
    (event : LaneTurnEvent)
    → replay none (prepare e ∷ events) ≡ ok (some s)
    → reduce_turn (some s) event ≡ ok t
    → follows (stage s) (stage t) ≡ true
reduce_turn-follows e s t events event h k =
    let v : TurnInv s = replay-TurnInv e s events h in
    Step-follows s t (reduce_turn-Step s t event k) v.outcome
