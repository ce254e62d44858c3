-- ===== src/LaneTurn/Frame.antt =====
-- What no event of lib/ask_herdr_lane_turn.py changes, and the order of phases.
use ask_herdr.Base.{◌≤◌, ◌≡◌, some, arith, ok}
use ask_herdr.LaneTurn.Kinds.{phase_rank}
use ask_herdr.LaneTurn.State.{LaneTurnState, LaneTurnEvent}
use ask_herdr.LaneTurn.Reducer.{reduce_turn}
use ask_herdr.LaneTurn.Steps.{
  Step, stays, claims, starts_effect, starts_command, settles_topology, anchors, dispatches,
  loses_delivery, settles_non_start, isolates, isolates_effect, starts_turn, times_out, withholds,
  concludes,
}
use ask_herdr.LaneTurn.Steps.Refinement.{reduce_turn-Step}

-- What the admission of the attempt fixed.
pub record SameAdmission (s t : LaneTurnState) : Type 0 where
  pub operation : t.operation ≡ s.operation
  pub operation_id : t.operation_id ≡ s.operation_id
  pub canonical_request_digest : t.canonical_request_digest ≡ s.canonical_request_digest
  pub lane_id : t.lane_id ≡ s.lane_id
  pub lane_generation : t.lane_generation ≡ s.lane_generation
  pub attempt_id : t.attempt_id ≡ s.attempt_id
  pub expected_head_digest : t.expected_head_digest ≡ s.expected_head_digest
  pub native_identity_mode : t.native_identity_mode ≡ s.native_identity_mode
  pub expected_native_correlation_digest :
      t.expected_native_correlation_digest ≡ s.expected_native_correlation_digest
  pub expected_turn_sequence : t.expected_turn_sequence ≡ s.expected_turn_sequence
  pub expected_completion_marker : t.expected_completion_marker ≡ s.expected_completion_marker
  pub reservation_id : t.reservation_id ≡ s.reservation_id
  pub direct_human_policy_record_digest :
      t.direct_human_policy_record_digest ≡ s.direct_human_policy_record_digest

pub Step-SameAdmission : (s t : LaneTurnState) → Step s t → SameAdmission s t
Step-SameAdmission s t (stays p) = ground arith
Step-SameAdmission s t (claims e a b c p) = ground arith
Step-SameAdmission s t (starts_effect e a b p) = ground arith
Step-SameAdmission s t (starts_command e a b p) = ground arith
Step-SameAdmission s t (settles_topology c e a b m r p) = ground arith
Step-SameAdmission s t (anchors e a b p) = ground arith
Step-SameAdmission s t (dispatches e i a b c d f g k p) = ground arith
Step-SameAdmission s t (loses_delivery a b c p) = ground arith
Step-SameAdmission s t (settles_non_start a b c p) = ground arith
Step-SameAdmission s t (isolates a p) = ground arith
Step-SameAdmission s t (isolates_effect a p) = ground arith
Step-SameAdmission s t (starts_turn e a b c m p) = ground arith
Step-SameAdmission s t (times_out a b p) = ground arith
Step-SameAdmission s t (withholds e a b c m p) = ground arith
Step-SameAdmission s t (concludes e a b c m n p) = ground arith

-- An accepted event leaves every fact that the admission of the attempt fixed as it was.
pub reduce_turn-SameAdmission :
    (s t : LaneTurnState) (event : LaneTurnEvent)
    → reduce_turn (some s) event ≡ ok t
    → SameAdmission s t
reduce_turn-SameAdmission s t event h = Step-SameAdmission s t (reduce_turn-Step s t event h)

phase_rank-Step : (s t : LaneTurnState) → Step s t → phase_rank s.phase ≤ phase_rank t.phase
phase_rank-Step s t (stays p) = ground arith
phase_rank-Step s t (claims e a b c p) = ground arith
phase_rank-Step s t (starts_effect e a b p) = ground arith
phase_rank-Step s t (starts_command e a b p) = ground arith
phase_rank-Step s t (settles_topology c e a b m r p) = ground arith
phase_rank-Step s t (anchors e a b p) = ground arith
phase_rank-Step s t (dispatches e i a b c d f g k p) = ground arith
phase_rank-Step s t (loses_delivery a b c p) = ground arith
phase_rank-Step s t (settles_non_start a b c p) = ground arith
phase_rank-Step s t (isolates a p) = ground arith
phase_rank-Step s t (isolates_effect a p) = ground arith
phase_rank-Step s t (starts_turn e a b c m p) = ground arith
phase_rank-Step s t (times_out a b p) = ground arith
phase_rank-Step s t (withholds e a b c m p) = ground arith
phase_rank-Step s t (concludes e a b c m n p) = ground arith

-- An accepted event never moves the phase back in the order of phases.
pub phase_rank-reduce_turn :
    (s t : LaneTurnState) (event : LaneTurnEvent)
    → reduce_turn (some s) event ≡ ok t
    → phase_rank s.phase ≤ phase_rank t.phase
phase_rank-reduce_turn s t event h = phase_rank-Step s t (reduce_turn-Step s t event h)
