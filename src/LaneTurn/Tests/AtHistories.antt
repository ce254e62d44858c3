-- ===== src/LaneTurn/Tests/AtHistories.antt =====
-- The theorems about histories at the sample attempt.
use ask_herdr.Base.{◌≡◌, ◌≢◌, refl, true, false, some, none, [], ◌∷◌, ok, ◌↔◌, string_eq, is_some}
use ask_herdr.LaneTurn.Kinds.{settled, clear, counted, turn_definite_non_start}
use ask_herdr.LaneTurn.Events.Dispatch.{intent_record}
use ask_herdr.LaneTurn.State.{
  prepare, begin_dispatch, provider_started, final_authority, prepare_state,
}
use ask_herdr.LaneTurn.Frame.{SameAdmission}
use ask_herdr.LaneTurn.Permanence.{WriteOnce}
use ask_herdr.LaneTurn.Invariant.{TurnInv, replay-TurnInv}
use ask_herdr.LaneTurn.Histories.{
  replay-SameAdmission, replay-WriteOnce, release_allowed_iff, safe_retry_facts, head_moved_iff,
  dispatch_bound, native_identity_fits,
}
use ask_herdr.LaneTurn.Reducer.{replay}
use ask_herdr.LaneTurn.Stages.{
  awaiting, underway, declined, answered, stage, follows, reduce_turn-follows,
}
use ask_herdr.LaneTurn.NativeIdentity.{FitsMode}
use ask_herdr.LaneTurn.Provisioning.{bound_digest}
use ask_herdr.LaneTurn.Tests.Policy.{
  policy_prepare, policy_dispatch, policy_history, policy_dispatched, dispatch_run,
}
use ask_herdr.LaneTurn.Tests.Modes.{
  resumed_prepare, resumption, resumed, resumption_run, forked_prepare, fork, forked, fork_run,
}
use ask_herdr.LaneTurn.Tests.Samples.{
  sample_prepare, sample_dispatch, sample_start, sample_final, dispatched, started, concluded,
  escaped, not_started, delivery, refusal, head_digest, native_digest,
}
use ask_herdr.LaneTurn.Tests.Runs.{
  run, delivery_run, refusal_run, rest_run, final_run, dispatched-TurnInv,
}

replay-TurnInv_example : TurnInv concluded
replay-TurnInv_example = replay-TurnInv sample_prepare concluded delivery delivery_run

release_allowed_iff_example :
    (concluded.release_allowed ≡ true)
    ↔ ((concluded.phase ≡ settled) × (concluded.recovery_state ≡ clear))
release_allowed_iff_example = release_allowed_iff sample_prepare concluded delivery delivery_run

safe_retry_facts_example :
    (not_started.outcome_kind ≡ some turn_definite_non_start)
    × (not_started.possible_provider_effect_observed ≡ false)
    × (not_started.turn_id ≡ none)
    × (not_started.response_digest ≡ none)
    × (not_started.head_digest ≡ head_digest)
    × (not_started.reservation_state ≢ counted)
    × (not_started.release_allowed ≡ true)
safe_retry_facts_example = safe_retry_facts sample_prepare not_started refusal refusal_run refl

head_moved_iff_example :
    ((concluded.head_digest ≢ head_digest) ↔ (is_some concluded.response_digest ≡ true))
    × (is_some concluded.response_digest ≡ true → concluded.phase ≡ settled)
head_moved_iff_example = head_moved_iff sample_prepare concluded delivery delivery_run

dispatch_bound_example :
    ((intent_record policy_dispatch).operation_id ≡ policy_prepare.operation_id)
    × ((intent_record policy_dispatch).attempt_id ≡ policy_prepare.attempt_id)
    × ((intent_record policy_dispatch).project_topology_digest
        ≡ bound_digest policy_prepare.direct_human_policy_record_digest
            policy_dispatched.topology_provisioned)
    × (is_some policy_prepare.direct_human_policy_record_digest ≡ true
        → is_some policy_dispatched.topology_provisioned ≡ true)
unfolding run
dispatch_bound_example =
    dispatch_bound policy_prepare policy_dispatched policy_history (intent_record policy_dispatch)
      dispatch_run refl

native_identity_fits_example :
    FitsMode resumed_prepare.native_identity_mode resumed_prepare.expected_native_correlation_digest
      native_digest
native_identity_fits_example =
    native_identity_fits resumed_prepare resumed resumption native_digest resumption_run refl

-- The admitted identity is the one that the resumed turn established.
resumed_identity : some native_digest ≡ resumed.established_native_correlation_digest
resumed_identity =
    native_identity_fits resumed_prepare resumed resumption native_digest resumption_run refl

-- The identity of the fork is not the one that it was forked from.
forked_identity : forked_prepare.expected_native_correlation_digest ≢ some native_digest
forked_identity = (native_identity_fits forked_prepare forked fork native_digest fork_run refl).1

replay-WriteOnce_example : WriteOnce dispatched concluded
replay-WriteOnce_example =
    replay-WriteOnce dispatched concluded
      (provider_started sample_start ∷ final_authority sample_final ∷ []) dispatched-TurnInv
      rest_run

replay-SameAdmission_example : SameAdmission (prepare_state sample_prepare) concluded
replay-SameAdmission_example = replay-SameAdmission sample_prepare concluded delivery delivery_run

underway_run :
    replay none
      (prepare sample_prepare ∷ begin_dispatch sample_dispatch ∷ provider_started sample_start ∷ [])
    ≡ ok (some started)
unfolding run
underway_run = refl

reduce_turn-follows_example : follows (stage started) (stage concluded) ≡ true
reduce_turn-follows_example =
    reduce_turn-follows sample_prepare started concluded
      (begin_dispatch sample_dispatch ∷ provider_started sample_start ∷ [])
      (final_authority sample_final) underway_run final_run

-- Stages of the sample attempt, and a move that the abstract machine has not.
stages :
    (stage (prepare_state sample_prepare) ≡ awaiting)
    × (stage started ≡ underway)
    × (stage concluded ≡ answered)
    × (stage escaped ≡ declined)
    × (follows answered declined ≡ false)
unfolding prepare_state
stages = (refl, refl, refl, refl, refl)
