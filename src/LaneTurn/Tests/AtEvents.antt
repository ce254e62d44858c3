-- ===== src/LaneTurn/Tests/AtEvents.antt =====
-- The theorems about single events and the delivery at the sample attempt.
use ask_herdr.Base.{◌≡◌, refl, true, some, none, [], ◌∷◌, ◌++◌, ok, ◌⊎◌, string_eq, ◌≤◌, is_some}
use ask_herdr.LaneTurn.Kinds.{settled, clear, quarantined, phase_rank, counted, turn_final}
use ask_herdr.LaneTurn.State.{
  LaneTurnState, prepare, begin_dispatch, provider_started, final_authority, definite_non_start,
}
use ask_herdr.LaneTurn.Reducer.{reduce_turn, replay}
use ask_herdr.LaneTurn.Frame.{phase_rank-reduce_turn}
use ask_herdr.LaneTurn.Idempotence.{reduce_turn_again}
use ask_herdr.LaneTurn.Quarantine.{Escapes, quarantine_kept}
use ask_herdr.LaneTurn.Delivered.{delivery_accepted}
use ask_herdr.LaneTurn.Tests.Policy.{
  policy_prepare, topology, provided, policy_dispatch, topology_run, provided-Awaits,
  policy-Dispatches, policy-Starts, policy-Concludes,
}
use ask_herdr.LaneTurn.Tests.Samples.{
  sample_start, sample_final, sample_non_start, started, concluded, strayed, escaped,
}
use ask_herdr.LaneTurn.Tests.Runs.{final_run, non_start_run}

reduce_turn_again_example :
    reduce_turn (some concluded) (final_authority sample_final) ≡ ok concluded
reduce_turn_again_example =
    reduce_turn_again (some started) concluded (final_authority sample_final) final_run

phase_rank-reduce_turn_example : phase_rank started.phase ≤ phase_rank concluded.phase
phase_rank-reduce_turn_example =
    phase_rank-reduce_turn started concluded (final_authority sample_final) final_run

quarantine_kept_example : (escaped.recovery_state ≡ quarantined) ⊎ Escapes strayed escaped
quarantine_kept_example =
    quarantine_kept strayed escaped (definite_non_start sample_non_start) non_start_run refl

delivery_accepted_example :
    (t : LaneTurnState) × (replay none (
        prepare policy_prepare ∷ topology
        ++ (begin_dispatch policy_dispatch
            ∷ provider_started sample_start
            ∷ final_authority sample_final
            ∷ []))
      ≡ ok (some t))
    × (t.phase ≡ settled)
    × (t.recovery_state ≡ clear)
    × (t.outcome_kind ≡ some turn_final)
    × (t.head_digest ≡ sample_final.new_head_digest)
    × (t.response_digest ≡ some sample_final.response_digest)
    × (t.release_allowed ≡ true)
    × (is_some policy_prepare.reservation_id ≡ true → t.reservation_state ≡ counted)
delivery_accepted_example =
    delivery_accepted policy_prepare topology provided policy_dispatch sample_start sample_final
      topology_run provided-Awaits policy-Dispatches policy-Starts policy-Concludes
