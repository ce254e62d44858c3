-- ===== src/LaneTurn/Kinds.antt =====
-- The enumerations of lib/ask_herdr_lane_turn.py, their `is` tests and the order of phases.
use ask_herdr.Base.{ℕ, Bool, true, false, Option, some, leb, if◌then◌else◌, Eq, eq_of_discrete}

pub data TurnPhase : Type 0 where
  prepared dispatching in_flight validating settled : TurnPhase

pub data RecoveryState : Type 0 where
  clear reconciliation_required quarantined : RecoveryState

pub data AttemptPromotion : Type 0 where
  attempt_only consultant_turn : AttemptPromotion

pub data ReservationState : Type 0 where
  not_counted held counted released : ReservationState

-- `unset` is the source's NONE.
pub data RetryDisposition : Type 0 where
  unset safe_retry_eligible reconcile_first new_operation_required : RetryDisposition

pub data TurnOutcomeKind : Type 0 where
  delivery_uncertain turn_definite_non_start turn_final : TurnOutcomeKind
  turn_quarantined turn_reconciliation_required : TurnOutcomeKind

pub data DefiniteNonStartProof : Type 0 where
  stopped_before_dispatch_command runner_started_no_provider_child : DefiniteNonStartProof

pub data NativeIdentityMode : Type 0 where
  establish_new exact_resume fork_from : NativeIdentityMode

unfoldable pub NativeIdentityMode-discrete : Discrete NativeIdentityMode
NativeIdentityMode-discrete = hlevel

instance abbrev pub mode_eq : Eq NativeIdentityMode
mode_eq = eq_of_discrete NativeIdentityMode-discrete

abbrev pub is_establish_new : NativeIdentityMode → Bool
is_establish_new establish_new = true
is_establish_new _ = false

abbrev pub is_exact_resume : NativeIdentityMode → Bool
is_exact_resume exact_resume = true
is_exact_resume _ = false

abbrev pub is_fork_from : NativeIdentityMode → Bool
is_fork_from fork_from = true
is_fork_from _ = false

abbrev pub is_prepared : TurnPhase → Bool
is_prepared prepared = true
is_prepared _ = false

abbrev pub is_settled : TurnPhase → Bool
is_settled settled = true
is_settled _ = false

abbrev pub is_clear : RecoveryState → Bool
is_clear clear = true
is_clear _ = false

abbrev pub is_quarantined : RecoveryState → Bool
is_quarantined quarantined = true
is_quarantined _ = false

abbrev pub is_attempt_only : AttemptPromotion → Bool
is_attempt_only attempt_only = true
is_attempt_only consultant_turn = false

abbrev pub is_consultant_turn : AttemptPromotion → Bool
is_consultant_turn attempt_only = false
is_consultant_turn consultant_turn = true

abbrev pub is_not_counted : ReservationState → Bool
is_not_counted not_counted = true
is_not_counted _ = false

abbrev pub is_turn_final : Option TurnOutcomeKind → Bool
is_turn_final (some turn_final) = true
is_turn_final _ = false

abbrev pub is_definite_non_start : Option TurnOutcomeKind → Bool
is_definite_non_start (some turn_definite_non_start) = true
is_definite_non_start _ = false

-- `_PHASE_RANK`
abbrev pub phase_rank : TurnPhase → ℕ
phase_rank prepared = 0
phase_rank dispatching = 1
phase_rank in_flight = 2
phase_rank validating = 3
phase_rank settled = 4

-- `_monotonic_phase`
abbrev pub monotonic_phase : TurnPhase → TurnPhase → TurnPhase
monotonic_phase current candidate =
    if leb (phase_rank candidate) (phase_rank current) then current else candidate

-- `_reserve_started`
abbrev pub reserve_started : ReservationState → ReservationState
reserve_started held = counted
reserve_started state = state

-- `_reserve_non_start`
abbrev pub reserve_non_start : ReservationState → ReservationState
reserve_non_start held = released
reserve_non_start state = state
