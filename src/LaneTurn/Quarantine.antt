-- ===== src/LaneTurn/Quarantine.antt =====
-- How a lane turn of lib/ask_herdr_lane_turn.py leaves quarantine.
use ask_herdr.Base.{◌≡◌, ◌≢◌, ◌⊎◌, false, some, arith, ok, inr}
use ask_herdr.LaneTurn.Kinds.{settled, quarantined, clear, attempt_only, turn_definite_non_start}
use ask_herdr.LaneTurn.State.{LaneTurnState, LaneTurnEvent}
use ask_herdr.LaneTurn.Reducer.{reduce_turn}
use ask_herdr.LaneTurn.Steps.Refinement.{reduce_turn-Step}
use ask_herdr.LaneTurn.Steps.{
  Step, stays, claims, starts_effect, starts_command, settles_topology, anchors, dispatches,
  loses_delivery, settles_non_start, isolates, isolates_effect, starts_turn, times_out, withholds,
  concludes,
}

-- The one way out: a settlement as a definite non-start of an open attempt with no observed effect.
pub record Escapes (s t : LaneTurnState) : Type 0 where
  pub unsettled : s.phase ≢ settled
  pub unobserved : s.possible_provider_effect_observed ≡ false
  pub attempt : s.promotion ≡ attempt_only
  pub cleared : t.recovery_state ≡ clear
  pub non_start : t.outcome_kind ≡ some turn_definite_non_start

Step-quarantined :
    (s t : LaneTurnState)
    → Step s t
    → s.recovery_state ≡ quarantined
    → (t.recovery_state ≡ quarantined) ⊎ Escapes s t
Step-quarantined s t (stays p) q = ground arith
Step-quarantined s t (claims e a b c p) q = ground arith
Step-quarantined s t (starts_effect e a b p) q = ground arith
Step-quarantined s t (starts_command e a b p) q = ground arith
Step-quarantined s t (settles_topology c e a b m r p) q = ground arith
Step-quarantined s t (anchors e a b p) q = ground arith
Step-quarantined s t (dispatches e i a b c d f g k p) q = ground arith
Step-quarantined s t (loses_delivery a b c p) q = ground arith
Step-quarantined s t (settles_non_start a b c p) q = inr (ground arith)
Step-quarantined s t (isolates a p) q = ground arith
Step-quarantined s t (isolates_effect a p) q = ground arith
Step-quarantined s t (starts_turn e a b c m p) q = ground arith
Step-quarantined s t (times_out a b p) q = ground arith
Step-quarantined s t (withholds e a b c m p) q = ground arith
Step-quarantined s t (concludes e a b c m n p) q = ground arith

-- An event that a quarantined turn accepts leaves it quarantined, unless it settles an open attempt
-- with no observed provider effect as a definite non-start.
pub quarantine_kept :
    (s t : LaneTurnState) (event : LaneTurnEvent)
    → reduce_turn (some s) event ≡ ok t
    → s.recovery_state ≡ quarantined
    → (t.recovery_state ≡ quarantined) ⊎ Escapes s t
quarantine_kept s t event h q = Step-quarantined s t (reduce_turn-Step s t event h) q
