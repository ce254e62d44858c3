-- ===== src/LaneTurn/Outcome.antt =====
-- Which permissions and outcomes a lane turn of lib/ask_herdr_lane_turn.py may hold.
use ask_herdr.Base.{◌≡◌, ◌⊎◌, true, false, some, none, is_some, arith}
use ask_herdr.LaneTurn.Kinds.{
  prepared, settled, clear, quarantined, attempt_only, consultant_turn, unset, safe_retry_eligible,
  turn_final, turn_definite_non_start, turn_quarantined,
}
use ask_herdr.LaneTurn.State.{LaneTurnState}
use ask_herdr.LaneTurn.Steps.{
  Step, stays, claims, starts_effect, starts_command, settles_topology, anchors, dispatches,
  loses_delivery, settles_non_start, isolates, isolates_effect, starts_turn, times_out, withholds,
  concludes,
}

pub record OutcomeInv (s : LaneTurnState) : Type 0 where
  pub no_resend : s.resend_allowed ≡ false
  pub released : s.release_allowed ≡ true → (s.phase ≡ settled) × (s.recovery_state ≡ clear)
  pub settled_outcome :
      s.phase ≡ settled
      → (s.outcome_kind ≡ some turn_final)
        ⊎ (s.outcome_kind ≡ some turn_definite_non_start)
        ⊎ (s.outcome_kind ≡ some turn_quarantined)
  pub isolated :
      s.recovery_state ≡ quarantined
      → (s.outcome_kind ≡ some turn_quarantined)
        × (s.retry_disposition ≡ unset)
        × (s.release_allowed ≡ false)
  pub isolated_only : s.outcome_kind ≡ some turn_quarantined → s.recovery_state ≡ quarantined
  pub final :
      s.outcome_kind ≡ some turn_final
      → (s.phase ≡ settled)
        × (s.recovery_state ≡ clear)
        × (s.promotion ≡ consultant_turn)
        × (is_some s.response_digest ≡ true)
  pub retry :
      s.retry_disposition ≡ safe_retry_eligible → s.outcome_kind ≡ some turn_definite_non_start
  pub non_start :
      s.outcome_kind ≡ some turn_definite_non_start
      → (s.phase ≡ settled)
        × (s.recovery_state ≡ clear)
        × (s.promotion ≡ attempt_only)
        × (s.possible_provider_effect_observed ≡ false)
  pub dispatched :
      s.dispatch_intent ≡ none → (s.phase ≡ prepared) ⊎ (s.recovery_state ≡ quarantined)
  pub prepared_only : s.phase ≡ prepared → s.dispatch_intent ≡ none
  pub undispatched : s.dispatch_intent ≡ none → s.promotion ≡ attempt_only

pub Step-OutcomeInv : (s t : LaneTurnState) → Step s t → OutcomeInv s → OutcomeInv t
Step-OutcomeInv s t (stays p) v = ground arith
Step-OutcomeInv s t (claims e a b c p) v = ground arith
Step-OutcomeInv s t (starts_effect e a b p) v = ground arith
Step-OutcomeInv s t (starts_command e a b p) v = ground arith
Step-OutcomeInv s t (settles_topology c e a b m r p) v = ground arith
Step-OutcomeInv s t (anchors e a b p) v = ground arith
Step-OutcomeInv s t (dispatches e i a b c d f g k p) v = ground arith
Step-OutcomeInv s t (loses_delivery a b c p) v = ground arith
Step-OutcomeInv s t (settles_non_start a b c p) v = ground arith
Step-OutcomeInv s t (isolates a p) v = ground arith
Step-OutcomeInv s t (isolates_effect a p) v = ground arith
Step-OutcomeInv s t (starts_turn e a b c m p) v = ground arith
Step-OutcomeInv s t (times_out a b p) v = ground arith
Step-OutcomeInv s t (withholds e a b c m p) v = ground arith
Step-OutcomeInv s t (concludes e a b c m n p) v = ground arith
