-- ===== src/LaneTurn/Idempotence/Delivery.antt =====
-- An event of delivery in lib/ask_herdr_lane_turn.py that is repeated changes nothing.
use ask_herdr.Base.{
  String, ◌≡◌, refl, true, false, Option, some, none, arith, ok, ==_refl, string_eq, nat_eq,
  option_eq, inl, inr,
}
use ask_herdr.LaneTurn.Kinds.{NativeIdentityMode, establish_new, exact_resume, fork_from, mode_eq}
use ask_herdr.LaneTurn.Events.Claim.{claim_topology_provisioning_eq, record_topology_provisioned_eq}
use ask_herdr.LaneTurn.Events.Effects.{
  topology_effect_started_eq, topology_command_effect_started_eq,
}
use ask_herdr.LaneTurn.Events.Dispatch.{BeginDispatch, dispatch_intent_eq}
use ask_herdr.LaneTurn.Events.Observations.{
  RecordDeliveryUncertain, RecordResponseValidationConflict, RecordDefiniteNonStart,
  RecordProviderStarted, RecordAdvisoryWaitTimeout,
}
use ask_herdr.LaneTurn.Events.Authority.{FinalTurnAuthority}
use ask_herdr.LaneTurn.State.{LaneTurnState}
use ask_herdr.LaneTurn.Correlation.{
  common_correlates, authority_correlates, authority_complete, settled_authority_replay,
  identity_rule,
}
use ask_herdr.LaneTurn.Steps.{with_start}
use ask_herdr.LaneTurn.Delivery.{
  start_correlates, reduce_dispatch, reduce_uncertain, reduce_response_conflict, reduce_non_start,
  reduce_started, reduce_wait_timeout,
}
use ask_herdr.LaneTurn.Response.{accept_final, incomplete_final, reduce_final}
use ask_herdr.LaneTurn.Steps.Handlers.{
  reduce_dispatch_cases, reduce_started_cases, reduce_final_cases,
}

pub dispatch_again :
    (s t : LaneTurnState) (e : BeginDispatch)
    → reduce_dispatch s e ≡ ok t
    → reduce_dispatch t e ≡ ok t
unfolding reduce_dispatch common_correlates
dispatch_again s t e h = elim (reduce_dispatch_cases s t e h) [
  | inl same ↦ rw same (rw same at h)
  | inr (i, a, b, c, d, f, g, k, p) ↦ ground (arith, ==_refl i)
]

pub uncertain_again :
    (s t : LaneTurnState) (e : RecordDeliveryUncertain)
    → reduce_uncertain s e ≡ ok t
    → reduce_uncertain t e ≡ ok t
unfolding reduce_uncertain common_correlates
uncertain_again s t e h = ground arith

pub non_start_again :
    (s t : LaneTurnState) (e : RecordDefiniteNonStart)
    → reduce_non_start s e ≡ ok t
    → reduce_non_start t e ≡ ok t
unfolding reduce_non_start common_correlates
non_start_again s t e h = ground arith

pub conflict_again :
    (s t : LaneTurnState) (e : RecordResponseValidationConflict)
    → reduce_response_conflict s e ≡ ok t
    → reduce_response_conflict t e ≡ ok t
unfolding reduce_response_conflict common_correlates
conflict_again s t e h = ground arith

pub timeout_again :
    (s t : LaneTurnState) (e : RecordAdvisoryWaitTimeout)
    → reduce_wait_timeout s e ≡ ok t
    → reduce_wait_timeout t e ≡ ok t
unfolding reduce_wait_timeout common_correlates
timeout_again s t e h = ground arith

-- Once established, the identity of the event passes the rule again.
pub identity_rule_again :
    (mode : NativeIdentityMode) (admitted established : Option String) (native : String)
    (source : Option String)
    → identity_rule mode admitted established native source ≡ true
    → identity_rule mode admitted (some native) native source ≡ true
identity_rule_again establish_new admitted established native source h =
    ground (arith, ==_refl native)
identity_rule_again exact_resume none established native source h = cc
identity_rule_again exact_resume (some a) established native source h =
    ground (arith, ==_refl native)
identity_rule_again fork_from none established native source h = cc
identity_rule_again fork_from (some a) established native source h = ground (arith, ==_refl native)

start_correlates_again :
    (s : LaneTurnState) (e : RecordProviderStarted)
    → start_correlates s e ≡ true
    → start_correlates (with_start s e) e ≡ true
unfolding start_correlates
start_correlates_again s e h = ground (
  arith,
  identity_rule_again s.native_identity_mode s.expected_native_correlation_digest
      s.established_native_correlation_digest e.native_correlation_digest
      e.source_native_correlation_digest,
)

pub started_again :
    (s t : LaneTurnState) (e : RecordProviderStarted)
    → reduce_started s e ≡ ok t
    → reduce_started t e ≡ ok t
unfolding reduce_started
started_again s t e h = elim (reduce_started_cases s t e h) [
  | inl same ↦ rw same (rw same at h)
  | inr (inl (a, p)) ↦ rw p
  | inr (inr (inl (a, p))) ↦ rw p
  | inr (inr (inr (a, b, c, d, m, p))) ↦ rw p (
      ground (
        arith,
        start_correlates_again s e m,
        ==_refl e.turn_id,
        ==_refl e.turn_sequence,
        ==_refl e.native_correlation_digest,
      ))
]

authority_correlates_again :
    (s : LaneTurnState) (e : FinalTurnAuthority)
    → authority_correlates s e ≡ true
    → authority_correlates (accept_final s e) e ≡ true
unfolding authority_correlates
authority_correlates_again s e h = ground (
  arith,
  ==_refl e.turn_id,
  ==_refl e.turn_sequence,
  identity_rule_again s.native_identity_mode s.expected_native_correlation_digest
      s.established_native_correlation_digest e.native_correlation_digest
      e.source_native_correlation_digest,
)

replay_again :
    (s : LaneTurnState) (e : FinalTurnAuthority)
    → authority_correlates s e ≡ true
    → authority_complete s e ≡ true
    → settled_authority_replay (accept_final s e) e ≡ true
unfolding settled_authority_replay
replay_again s e h k = ground (
  arith,
  authority_correlates_again s e h,
  ==_refl e.turn_id,
  ==_refl e.turn_sequence,
  ==_refl e.response_digest,
  ==_refl e.new_head_digest,
)

withheld_correlates :
    (s : LaneTurnState) (e : FinalTurnAuthority)
    → authority_correlates s e ≡ true
    → authority_correlates (incomplete_final s e) e ≡ true
unfolding authority_correlates
withheld_correlates s e h = h

withheld_incomplete :
    (s : LaneTurnState) (e : FinalTurnAuthority)
    → authority_complete s e ≡ false
    → authority_complete (incomplete_final s e) e ≡ false
unfolding authority_complete
withheld_incomplete s e h = h

not_replay :
    (s : LaneTurnState) (e : FinalTurnAuthority)
    → settled_authority_replay (incomplete_final s e) e ≡ false
unfolding settled_authority_replay
not_replay s e = refl

pub final_again :
    (s t : LaneTurnState) (e : FinalTurnAuthority)
    → reduce_final s e ≡ ok t
    → reduce_final t e ≡ ok t
unfolding reduce_final
final_again s t e h = elim (reduce_final_cases s t e h) [
  | inl same ↦ rw same (rw same at h)
  | inr (inl (a, p)) ↦ rw p (ground arith)
  | inr (inr (inl (a, b, c, m, f, p))) ↦
      rw p (ground (arith, not_replay s e, withheld_correlates s e m, withheld_incomplete s e f))
  | inr (inr (inr (a, b, c, m, f, n, p))) ↦ rw p (ground (arith, replay_again s e m f))
]
