-- ===== src/LaneTurn/Reducer.antt =====
-- `reduce_turn` of lib/ask_herdr_lane_turn.py, and the histories that it accepts.
use ask_herdr.Base.{
  Option, none, some, List, [], ◌∷◌, if◌then◌else◌, Result, ok, raised, transition_error, ◌>>=◌,
}
use ask_herdr.LaneTurn.State.{
  LaneTurnState, LaneTurnEvent, prepare, claim, effect_started, command_effect_started, provisioned,
  evidence_anchor, begin_dispatch, delivery_uncertain, response_conflict, definite_non_start,
  provider_started, wait_timeout, final_authority, prepare_state,
}
use ask_herdr.LaneTurn.Correlation.{prepare_matches}
use ask_herdr.LaneTurn.Topology.{
  reduce_topology_claim, reduce_topology_effect_started, reduce_topology_command_effect_started,
}
use ask_herdr.LaneTurn.Settlement.{
  reduce_topology_provisioned, reduce_recovery_result_evidence_link,
}
use ask_herdr.LaneTurn.Delivery.{
  reduce_dispatch, reduce_uncertain, reduce_response_conflict, reduce_non_start, reduce_started,
  reduce_wait_timeout,
}
use ask_herdr.LaneTurn.Response.{reduce_final}

-- The events that `reduce_turn` takes from a state that is there.
abbrev pub reduce_event : LaneTurnState → LaneTurnEvent → Result LaneTurnState
reduce_event s (prepare e) =
    if prepare_matches s e then ok s else raised (transition_error "lane_turn.prepare_conflict")
reduce_event s (claim e) = reduce_topology_claim s e
reduce_event s (effect_started e) = reduce_topology_effect_started s e
reduce_event s (command_effect_started e) = reduce_topology_command_effect_started s e
reduce_event s (provisioned e) = reduce_topology_provisioned s e
reduce_event s (evidence_anchor e) = reduce_recovery_result_evidence_link s e
reduce_event s (begin_dispatch e) = reduce_dispatch s e
reduce_event s (delivery_uncertain e) = reduce_uncertain s e
reduce_event s (response_conflict e) = reduce_response_conflict s e
reduce_event s (definite_non_start e) = reduce_non_start s e
reduce_event s (provider_started e) = reduce_started s e
reduce_event s (wait_timeout e) = reduce_wait_timeout s e
reduce_event s (final_authority e) = reduce_final s e

-- `reduce_turn`
unfoldable pub reduce_turn : Option LaneTurnState → LaneTurnEvent → Result LaneTurnState
reduce_turn none (prepare e) = ok (prepare_state e)
reduce_turn none _ = raised (transition_error "lane_turn.prepare_required")
reduce_turn (some s) event = reduce_event s event

-- A history: the events are reduced in order, and the first one that raises ends it.
unfoldable pub replay : Option LaneTurnState → List LaneTurnEvent → Result (Option LaneTurnState)
replay state [] = ok state
replay state (event ∷ events) = do s ← reduce_turn state event; replay (some s) events
