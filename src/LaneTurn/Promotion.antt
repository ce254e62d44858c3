-- ===== src/LaneTurn/Promotion.antt =====
-- The promotion of an attempt to a turn, its identities and its head, and the reservation that it
-- holds, in lib/ask_herdr_lane_turn.py.
use ask_herdr.Base.{◌≡◌, ◌≢◌, true, some, none, is_some, arith, nat_eq, string_eq, option_eq}
use ask_herdr.LaneTurn.Kinds.{
  settled, attempt_only, consultant_turn, not_counted, held, counted, released,
}
use ask_herdr.LaneTurn.Events.Observations.{RecordProviderStarted}
use ask_herdr.LaneTurn.Events.Authority.{FinalTurnAuthority}
use ask_herdr.LaneTurn.State.{LaneTurnState}
use ask_herdr.LaneTurn.Correlation.{authority_correlates}
use ask_herdr.LaneTurn.Delivery.{start_correlates}
use ask_herdr.LaneTurn.Steps.{
  Step, stays, claims, starts_effect, starts_command, settles_topology, anchors, dispatches,
  loses_delivery, settles_non_start, isolates, isolates_effect, starts_turn, times_out, withholds,
  concludes,
}

-- A turn that started has its identities, and a mere attempt has none and leaves the head alone.
pub record IdentityInv (s : LaneTurnState) : Type 0 where
  pub turn :
      s.promotion ≡ consultant_turn
      → (is_some s.turn_id ≡ true)
        × (s.turn_sequence ≡ some s.expected_turn_sequence)
        × (is_some s.established_native_correlation_digest ≡ true)
        × (s.possible_provider_effect_observed ≡ true)
  pub attempt :
      s.promotion ≡ attempt_only
      → (s.turn_id ≡ none)
        × (s.turn_sequence ≡ none)
        × (s.established_native_correlation_digest ≡ none)
        × (s.response_digest ≡ none)
  pub head_kept : s.response_digest ≡ none → s.head_digest ≡ s.expected_head_digest
  pub head_moved : is_some s.response_digest ≡ true → s.head_digest ≢ s.expected_head_digest
  pub response_settled : is_some s.response_digest ≡ true → s.phase ≡ settled

pub record ReservationInv (s : LaneTurnState) : Type 0 where
  pub unreserved : s.reservation_id ≡ none → s.reservation_state ≡ not_counted
  pub reserved : is_some s.reservation_id ≡ true → s.reservation_state ≢ not_counted
  pub held_attempt : s.reservation_state ≡ held → s.promotion ≡ attempt_only
  pub counted_turn : s.reservation_state ≡ counted → s.promotion ≡ consultant_turn
  pub released_attempt :
      s.reservation_state ≡ released → (s.promotion ≡ attempt_only) × (s.phase ≡ settled)

start_correlates-sequence :
    (s : LaneTurnState) (e : RecordProviderStarted)
    → start_correlates s e ≡ true
    → s.expected_turn_sequence ≡ e.turn_sequence
unfolding start_correlates
start_correlates-sequence s e h = ground (arith)

authority_correlates-sequence :
    (s : LaneTurnState) (e : FinalTurnAuthority)
    → authority_correlates s e ≡ true
    → s.expected_turn_sequence ≡ e.turn_sequence
unfolding authority_correlates
authority_correlates-sequence s e h = ground (arith)

pub Step-IdentityInv : (s t : LaneTurnState) → Step s t → IdentityInv s → IdentityInv t
Step-IdentityInv s t (stays p) v = ground arith
Step-IdentityInv s t (claims e a b c p) v = ground arith
Step-IdentityInv s t (starts_effect e a b p) v = ground arith
Step-IdentityInv s t (starts_command e a b p) v = ground arith
Step-IdentityInv s t (settles_topology c e a b m r p) v = ground arith
Step-IdentityInv s t (anchors e a b p) v = ground arith
Step-IdentityInv s t (dispatches e i a b c d f g k p) v = ground arith
Step-IdentityInv s t (loses_delivery a b c p) v = ground arith
Step-IdentityInv s t (settles_non_start a b c p) v = ground arith
Step-IdentityInv s t (isolates a p) v = ground arith
Step-IdentityInv s t (isolates_effect a p) v = ground arith
Step-IdentityInv s t (starts_turn e a b c m p) v = ground (arith, start_correlates-sequence s e)
Step-IdentityInv s t (times_out a b p) v = ground arith
Step-IdentityInv s t (withholds e a b c m p) v = ground arith
Step-IdentityInv s t (concludes e a b c m n p) v = ground (arith, authority_correlates-sequence s e)

pub Step-ReservationInv : (s t : LaneTurnState) → Step s t → ReservationInv s → ReservationInv t
Step-ReservationInv s t (stays p) v = ground arith
Step-ReservationInv s t (claims e a b c p) v = ground arith
Step-ReservationInv s t (starts_effect e a b p) v = ground arith
Step-ReservationInv s t (starts_command e a b p) v = ground arith
Step-ReservationInv s t (settles_topology c e a b m r p) v = ground arith
Step-ReservationInv s t (anchors e a b p) v = ground arith
Step-ReservationInv s t (dispatches e i a b c d f g k p) v = ground arith
Step-ReservationInv s t (loses_delivery a b c p) v = ground arith
Step-ReservationInv s t (settles_non_start a b c p) v = ground arith
Step-ReservationInv s t (isolates a p) v = ground arith
Step-ReservationInv s t (isolates_effect a p) v = ground arith
Step-ReservationInv s t (starts_turn e a b c m p) v = ground arith
Step-ReservationInv s t (times_out a b p) v = ground arith
Step-ReservationInv s t (withholds e a b c m p) v = ground arith
Step-ReservationInv s t (concludes e a b c m n p) v = ground arith
