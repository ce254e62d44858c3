-- ===== src/LaneTurn/Tests/Modes.antt =====
-- A resumed and a forked turn, delivered.
use ask_herdr.Base.{◌≡◌, refl, some, none, List, [], ◌∷◌, ok}
use ask_herdr.LaneTurn.Kinds.{exact_resume, fork_from}
use ask_herdr.LaneTurn.Guards.{require_operation, require_positive_integer}
use ask_herdr.LaneTurn.Events.Prepare.{PrepareAdmittedAttempt, validate_prepare_admitted_attempt}
use ask_herdr.LaneTurn.Events.Dispatch.{intent_record}
use ask_herdr.LaneTurn.Events.Observations.{RecordProviderStarted}
use ask_herdr.LaneTurn.Events.Authority.{FinalTurnAuthority}
use ask_herdr.LaneTurn.State.{
  LaneTurnState, LaneTurnEvent, prepare, begin_dispatch, provider_started, final_authority,
  prepare_state,
}
use ask_herdr.LaneTurn.Response.{accept_final}
use ask_herdr.LaneTurn.Reducer.{replay}
use ask_herdr.LaneTurn.Steps.{with_intent, with_start}
use ask_herdr.LaneTurn.Tests.Samples.{
  sample_prepare, sample_dispatch, sample_start, sample_final, native_digest, response_digest,
}
use ask_herdr.LaneTurn.Tests.Runs.{run}

abbrev pub resumed_prepare : PrepareAdmittedAttempt
resumed_prepare = record sample_prepare {
  operation = "turn.answer";
  native_identity_mode = exact_resume;
  expected_native_correlation_digest = some native_digest;
}

abbrev resumed_start : RecordProviderStarted
resumed_start = record sample_start { source_native_correlation_digest = some native_digest }

abbrev resumed_final : FinalTurnAuthority
resumed_final = record sample_final {
  operation = "turn.answer";
  source_native_correlation_digest = some native_digest;
}

abbrev pub resumption : List LaneTurnEvent
resumption =
    begin_dispatch sample_dispatch
    ∷ provider_started resumed_start
    ∷ final_authority resumed_final
    ∷ []

abbrev pub resumed : LaneTurnState
resumed =
    let dispatched = with_intent (prepare_state resumed_prepare) (intent_record sample_dispatch) in
    accept_final (with_start dispatched resumed_start) resumed_final

pub resumption_run : replay none (prepare resumed_prepare ∷ resumption) ≡ ok (some resumed)
unfolding run
resumption_run = refl

-- A review forks from another identity than the one that it establishes.
abbrev pub forked_prepare : PrepareAdmittedAttempt
forked_prepare = record sample_prepare {
  operation = "turn.review";
  native_identity_mode = fork_from;
  expected_native_correlation_digest = some response_digest;
}

abbrev forked_start : RecordProviderStarted
forked_start = record sample_start { source_native_correlation_digest = some response_digest }

abbrev forked_final : FinalTurnAuthority
forked_final = record sample_final {
  operation = "turn.review";
  source_native_correlation_digest = some response_digest;
}

abbrev pub fork : List LaneTurnEvent
fork =
    begin_dispatch sample_dispatch
    ∷ provider_started forked_start
    ∷ final_authority forked_final
    ∷ []

abbrev pub forked : LaneTurnState
forked =
    let dispatched = with_intent (prepare_state forked_prepare) (intent_record sample_dispatch) in
    accept_final (with_start dispatched forked_start) forked_final

pub fork_run : replay none (prepare forked_prepare ∷ fork) ≡ ok (some forked)
unfolding run
fork_run = refl

admissions_are_valid :
    (validate_prepare_admitted_attempt resumed_prepare ≡ ok tt)
    × (validate_prepare_admitted_attempt forked_prepare ≡ ok tt)
unfolding run validate_prepare_admitted_attempt require_operation require_positive_integer
admissions_are_valid = (refl, refl)
