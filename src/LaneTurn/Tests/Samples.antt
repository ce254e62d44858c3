-- ===== src/LaneTurn/Tests/Samples.antt =====
-- One attempt, its events and the states that they reach.
use ask_herdr.Base.{String, true, some, none, List, [], ◌∷◌}
use ask_herdr.LaneTurn.Kinds.{establish_new, stopped_before_dispatch_command}
use ask_herdr.LaneTurn.Events.Prepare.{PrepareAdmittedAttempt}
use ask_herdr.LaneTurn.Events.Dispatch.{BeginDispatch, intent_record}
use ask_herdr.LaneTurn.Events.Observations.{RecordDefiniteNonStart, RecordProviderStarted}
use ask_herdr.LaneTurn.Events.Authority.{FinalTurnAuthority}
use ask_herdr.LaneTurn.State.{
  LaneTurnState, LaneTurnEvent, begin_dispatch, provider_started, final_authority,
  definite_non_start, prepare_state,
}
use ask_herdr.LaneTurn.Delivery.{quarantine}
use ask_herdr.LaneTurn.Response.{accept_final}
use ask_herdr.LaneTurn.Steps.{with_intent, with_start, with_non_start}

abbrev pub operation_uuid : String
operation_uuid = "00000000-0000-4000-8000-000000000001"

abbrev pub attempt_uuid : String
attempt_uuid = "00000000-0000-4000-8000-000000000002"

abbrev pub lane_uuid : String
lane_uuid = "00000000-0000-4000-8000-000000000003"

abbrev pub turn_uuid : String
turn_uuid = "00000000-0000-4000-8000-000000000004"

abbrev pub request_digest : String
request_digest = "sha256:aaaaaaaaaaaaaaaaaaaaaaaaaaaaaaaaaaaaaaaaaaaaaaaaaaaaaaaaaaaaaaaa"

abbrev pub head_digest : String
head_digest = "sha256:bbbbbbbbbbbbbbbbbbbbbbbbbbbbbbbbbbbbbbbbbbbbbbbbbbbbbbbbbbbbbbbb"

abbrev pub native_digest : String
native_digest = "sha256:cccccccccccccccccccccccccccccccccccccccccccccccccccccccccccccccc"

abbrev pub response_digest : String
response_digest = "sha256:dddddddddddddddddddddddddddddddddddddddddddddddddddddddddddddddd"

abbrev pub moved_digest : String
moved_digest = "sha256:eeeeeeeeeeeeeeeeeeeeeeeeeeeeeeeeeeeeeeeeeeeeeeeeeeeeeeeeeeeeeeee"

abbrev pub sample_prepare : PrepareAdmittedAttempt
sample_prepare = record {
  operation = "turn.consult";
  operation_id = operation_uuid;
  canonical_request_digest = request_digest;
  lane_id = lane_uuid;
  lane_generation = 1;
  attempt_id = attempt_uuid;
  expected_head_digest = head_digest;
  native_identity_mode = establish_new;
  expected_native_correlation_digest = none;
  expected_turn_sequence = 1;
  expected_completion_marker = "END-OF-TURN";
  reservation_id = some "slot-1";
  direct_human_policy_record_digest = none;
}

abbrev pub sample_dispatch : BeginDispatch
sample_dispatch = record {
  operation_id = operation_uuid;
  canonical_request_digest = request_digest;
  attempt_id = attempt_uuid;
  dispatch_nonce = "nonce-1";
  project_topology_digest = none;
}

abbrev pub sample_start : RecordProviderStarted
sample_start = record {
  operation_id = operation_uuid;
  canonical_request_digest = request_digest;
  lane_id = lane_uuid;
  lane_generation = 1;
  attempt_id = attempt_uuid;
  turn_id = turn_uuid;
  turn_sequence = 1;
  native_correlation_digest = native_digest;
  source_native_correlation_digest = none;
  evidence_ref_id = turn_uuid;
}

abbrev pub sample_final : FinalTurnAuthority
sample_final = record {
  response_present = true;
  response_fresh = true;
  response_stable = true;
  eof_validated = true;
  terminal_envelope_valid = true;
  completion_marker = some "END-OF-TURN";
  marker_is_final_line = true;
  operation = "turn.consult";
  operation_id = operation_uuid;
  canonical_request_digest = request_digest;
  lane_id = lane_uuid;
  lane_generation = 1;
  attempt_id = attempt_uuid;
  expected_head_digest = head_digest;
  native_correlation_digest = native_digest;
  source_native_correlation_digest = none;
  turn_id = turn_uuid;
  turn_sequence = 1;
  response_digest = response_digest;
  new_head_digest = moved_digest;
  evidence_ref_id = turn_uuid;
}

-- An authority for another lane generation.
abbrev pub stray_final : FinalTurnAuthority
stray_final = record sample_final { lane_generation = 2 }

abbrev pub sample_non_start : RecordDefiniteNonStart
sample_non_start = record {
  operation_id = operation_uuid;
  canonical_request_digest = request_digest;
  attempt_id = attempt_uuid;
  proof = stopped_before_dispatch_command;
  evidence_ref_id = turn_uuid;
}

abbrev pub dispatched : LaneTurnState
dispatched = with_intent (prepare_state sample_prepare) (intent_record sample_dispatch)

abbrev pub started : LaneTurnState
started = with_start dispatched sample_start

abbrev pub concluded : LaneTurnState
concluded = accept_final started sample_final

abbrev pub strayed : LaneTurnState
strayed = quarantine dispatched

-- A proof of non-start, taken from the isolated attempt.
abbrev pub escaped : LaneTurnState
escaped = with_non_start strayed

abbrev pub not_started : LaneTurnState
not_started = with_non_start dispatched

abbrev pub delivery : List LaneTurnEvent
delivery =
    begin_dispatch sample_dispatch
    ∷ provider_started sample_start
    ∷ final_authority sample_final
    ∷ []

abbrev pub refusal : List LaneTurnEvent
refusal = begin_dispatch sample_dispatch ∷ definite_non_start sample_non_start ∷ []
