-- ===== src/LaneTurn/Steps/Refinement.antt =====
-- Every accepted event of lib/ask_herdr_lane_turn.py is one of the steps of LaneTurn/Steps.
use ask_herdr.Base.{◌≡◌, inl, inr, some, arith, ok}
use ask_herdr.LaneTurn.State.{
  LaneTurnState, LaneTurnEvent, prepare, claim, effect_started, command_effect_started, provisioned,
  evidence_anchor, begin_dispatch, delivery_uncertain, response_conflict, definite_non_start,
  provider_started, wait_timeout, final_authority,
}
use ask_herdr.LaneTurn.Reducer.{reduce_turn}
use ask_herdr.LaneTurn.Steps.{
  Step, stays, claims, starts_effect, starts_command, settles_topology, anchors, dispatches,
  loses_delivery, settles_non_start, isolates, isolates_effect, starts_turn, times_out, withholds,
  concludes,
}
use ask_herdr.LaneTurn.Steps.Handlers.{
  reduce_topology_claim_cases, reduce_topology_effect_started_cases,
  reduce_topology_command_effect_started_cases, reduce_topology_provisioned_cases,
  reduce_recovery_result_evidence_link_cases, reduce_dispatch_cases, reduce_uncertain_cases,
  reduce_non_start_cases, reduce_response_conflict_cases, reduce_started_cases,
  reduce_wait_timeout_cases, reduce_final_cases,
}

-- A prepare event is accepted of a prepared attempt only as a repetition.
prepare_again : (s t : LaneTurnState) (e : _) → reduce_turn (some s) (prepare e) ≡ ok t → t ≡ s
unfolding reduce_turn
prepare_again s t e h = ground arith

-- Every event that is accepted of an attempt takes a step: it changes nothing, or makes one of the
-- fourteen writes under the facts that its reducer checks.
pub reduce_turn-Step :
    (s t : LaneTurnState) (event : LaneTurnEvent) → reduce_turn (some s) event ≡ ok t → Step s t
unfolding reduce_turn
reduce_turn-Step s t (prepare e) h = stays (prepare_again s t e h)
reduce_turn-Step s t (claim e) h = elim (reduce_topology_claim_cases s t e h) [
  | inl p ↦ stays p
  | inr (a, b, c, p) ↦ claims e a b c p
]
reduce_turn-Step s t (effect_started e) h = elim (reduce_topology_effect_started_cases s t e h) [
  | inl p ↦ stays p
  | inr (a, b, p) ↦ starts_effect e a b p
]
reduce_turn-Step s t (command_effect_started e) h =
    elim (reduce_topology_command_effect_started_cases s t e h) [
      | inl p ↦ stays p
      | inr (a, b, p) ↦ starts_command e a b p
    ]
reduce_turn-Step s t (provisioned e) h = elim (reduce_topology_provisioned_cases s t e h) [
  | inl p ↦ stays p
  | inr (c, a, b, m, r, p) ↦ settles_topology c e a b m r p
]
reduce_turn-Step s t (evidence_anchor e) h =
    elim (reduce_recovery_result_evidence_link_cases s t e h) [
      | inl p ↦ stays p
      | inr (a, b, p) ↦ anchors e a b p
    ]
reduce_turn-Step s t (begin_dispatch e) h = elim (reduce_dispatch_cases s t e h) [
  | inl p ↦ stays p
  | inr (i, a, b, c, d, f, g, k, p) ↦ dispatches e i a b c d f g k p
]
reduce_turn-Step s t (delivery_uncertain e) h = elim (reduce_uncertain_cases s t e h) [
  | inl p ↦ stays p
  | inr (a, b, c, d, p) ↦ loses_delivery (record { dispatched = a; unsettled = b }) c d p
]
reduce_turn-Step s t (response_conflict e) h = elim (reduce_response_conflict_cases s t e h) [
  | inl p ↦ stays p
  | inr (a, p) ↦ isolates_effect a p
]
reduce_turn-Step s t (definite_non_start e) h = elim (reduce_non_start_cases s t e h) [
  | inl p ↦ stays p
  | inr (inl (a, p)) ↦ isolates a p
  | inr (inr (a, b, c, d, p)) ↦ settles_non_start (record { dispatched = a; unsettled = b }) c d p
]
reduce_turn-Step s t (provider_started e) h = elim (reduce_started_cases s t e h) [
  | inl p ↦ stays p
  | inr (inl (a, p)) ↦ isolates_effect a p
  | inr (inr (inl (a, p))) ↦ isolates a p
  | inr (inr (inr (a, b, c, d, m, p))) ↦
      starts_turn e (record { dispatched = a; unsettled = b }) c d m p
]
reduce_turn-Step s t (wait_timeout e) h = elim (reduce_wait_timeout_cases s t e h) [
  | inl p ↦ stays p
  | inr (a, b, c, p) ↦ times_out (record { dispatched = a; unsettled = b }) c p
]
reduce_turn-Step s t (final_authority e) h = elim (reduce_final_cases s t e h) [
  | inl p ↦ stays p
  | inr (inl (a, p)) ↦ isolates a p
  | inr (inr (inl (a, b, c, m, f, p))) ↦
      withholds e (record { dispatched = a; unsettled = b }) c m f p
  | inr (inr (inr (a, b, c, m, f, n, p))) ↦
      concludes e (record { dispatched = a; unsettled = b }) c m f n p
]
