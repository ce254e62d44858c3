-- ===== src/LaneTurn/Tests/Runs.antt =====
-- Runs of the reducer on the sample events.
use ask_herdr.Base.{Result, ◌≡◌, refl, Option, some, none, List, [], ◌∷◌, ok, string_eq}
use ask_herdr.LaneTurn.Guards.{
  require_uuid, require_digest, require_token, validate_common_operation,
}
use ask_herdr.LaneTurn.Events.Dispatch.{intent, validate_begin_dispatch, validate_dispatch_intent}
use ask_herdr.LaneTurn.State.{
  LaneTurnState, LaneTurnEvent, prepare, begin_dispatch, provider_started, final_authority,
  definite_non_start, prepare_state,
}
use ask_herdr.LaneTurn.Correlation.{
  common_correlates, authority_correlates, authority_complete, settled_authority_replay,
}
use ask_herdr.LaneTurn.Delivery.{
  start_correlates, reduce_dispatch, reduce_started, reduce_non_start,
}
use ask_herdr.LaneTurn.Response.{reduce_final}
use ask_herdr.LaneTurn.Reducer.{reduce_turn, replay}
use ask_herdr.LaneTurn.Invariant.{TurnInv, replay-TurnInv}
use ask_herdr.LaneTurn.Tests.Samples.{
  sample_prepare, sample_dispatch, sample_start, sample_final, stray_final, sample_non_start,
  dispatched, started, concluded, strayed, escaped, not_started, delivery, refusal,
}

-- Opens the reducer for runs on closed events.
unfoldable pub run : List LaneTurnEvent → Result (Option LaneTurnState)
unfolding replay reduce_turn reduce_dispatch reduce_started reduce_final reduce_non_start intent
    require_uuid require_digest require_token validate_common_operation common_correlates
    start_correlates authority_correlates authority_complete settled_authority_replay prepare_state
    validate_dispatch_intent validate_begin_dispatch
run events = replay none events

pub delivery_run : replay none (prepare sample_prepare ∷ delivery) ≡ ok (some concluded)
unfolding run
delivery_run = refl

pub refusal_run : replay none (prepare sample_prepare ∷ refusal) ≡ ok (some not_started)
unfolding run
refusal_run = refl

-- A stray authority isolates the dispatched attempt.
pub stray_run : reduce_turn (some dispatched) (final_authority stray_final) ≡ ok strayed
unfolding run
stray_run = refl

pub final_run : reduce_turn (some started) (final_authority sample_final) ≡ ok concluded
unfolding run
final_run = refl

pub rest_run :
    replay (some dispatched) (provider_started sample_start ∷ final_authority sample_final ∷ [])
    ≡ ok (some concluded)
unfolding run
rest_run = refl

pub dispatched-TurnInv : TurnInv dispatched
unfolding run
dispatched-TurnInv =
    replay-TurnInv sample_prepare dispatched (begin_dispatch sample_dispatch ∷ []) refl

pub non_start_run : reduce_turn (some strayed) (definite_non_start sample_non_start) ≡ ok escaped
unfolding run
non_start_run = refl

-- A whole history from the admission reaches the attempt that left its isolation.
escape_run :
    replay none (
      prepare sample_prepare
      ∷ begin_dispatch sample_dispatch
      ∷ final_authority stray_final
      ∷ definite_non_start sample_non_start
      ∷ [])
    ≡ ok (some escaped)
unfolding run
escape_run = refl
