-- ===== src/LaneTurn/Delivered.antt =====
-- The delivery of a turn of lib/ask_herdr_lane_turn.py from its admission to its final response.
use ask_herdr.Base.{
  Option, List, ◌++◌, ◌∙◌, ap, >>=-eq-ok, Option-cases, inl, inr, ◌≡◌, ◌≢◌, refl, true, some, none,
  is_some, [], ◌∷◌, arith, ok, ==_iff, string_eq, option_eq, nat_eq,
}
use ask_herdr.LaneTurn.Kinds.{
  prepared, settled, clear, held, counted, attempt_only, turn_final, reserve_started,
}
use ask_herdr.LaneTurn.Events.Prepare.{PrepareAdmittedAttempt}
use ask_herdr.LaneTurn.Events.Dispatch.{
  BeginDispatch, intent_record, intent_of_valid, validate_begin_dispatch,
}
use ask_herdr.LaneTurn.Events.Observations.{RecordProviderStarted}
use ask_herdr.LaneTurn.Events.Authority.{FinalTurnAuthority}
use ask_herdr.LaneTurn.State.{
  LaneTurnState, LaneTurnEvent, prepare, begin_dispatch, provider_started, final_authority,
  prepare_state,
}
use ask_herdr.LaneTurn.Correlation.{
  common_correlates, identity_rule, authority_correlates, authority_complete,
  settled_authority_replay,
}
use ask_herdr.LaneTurn.Delivery.{
  require_dispatch_topology, start_correlates, reduce_dispatch, reduce_started,
}
use ask_herdr.LaneTurn.Response.{accept_final, reduce_final}
use ask_herdr.LaneTurn.Reducer.{reduce_turn, replay}
use ask_herdr.LaneTurn.Steps.{with_intent, with_start}
use ask_herdr.LaneTurn.Provisioning.{bound_digest}
use ask_herdr.LaneTurn.Frame.{SameAdmission}
use ask_herdr.LaneTurn.Histories.{replay-SameAdmission}
use ask_herdr.LaneTurn.Invariant.{TurnInv, replay-TurnInv}
use ask_herdr.LaneTurn.Idempotence.Delivery.{identity_rule_again}

-- The attempt as its dispatch finds it, behind any accepted history: not dispatched, and not isolated.
pub record Awaits (s : LaneTurnState) : Type 0 where
  pub phase : s.phase ≡ prepared
  pub recovery : s.recovery_state ≡ clear
  pub outcome : s.outcome_kind ≡ none

-- A dispatch of the attempt. Under a direct-human policy it names the project of the settled topology
-- proof; without one it names none.
pub record Dispatches (p : PrepareAdmittedAttempt) (s : LaneTurnState) (d : BeginDispatch)
    : Type 0 where
  pub valid : validate_begin_dispatch d ≡ ok tt
  pub operation_id : d.operation_id ≡ p.operation_id
  pub request : d.canonical_request_digest ≡ p.canonical_request_digest
  pub attempt : d.attempt_id ≡ p.attempt_id
  pub settled_topology :
      is_some p.direct_human_policy_record_digest ≡ true → is_some s.topology_provisioned ≡ true
  pub topology :
      d.project_topology_digest
      ≡ bound_digest p.direct_human_policy_record_digest s.topology_provisioned

-- A start of the attempt, with an identity that its mode admits.
pub record Starts (p : PrepareAdmittedAttempt) (r : RecordProviderStarted) : Type 0 where
  pub operation_id : r.operation_id ≡ p.operation_id
  pub request : r.canonical_request_digest ≡ p.canonical_request_digest
  pub attempt : r.attempt_id ≡ p.attempt_id
  pub lane : r.lane_id ≡ p.lane_id
  pub generation : r.lane_generation ≡ p.lane_generation
  pub sequence : r.turn_sequence ≡ p.expected_turn_sequence
  pub identity :
      identity_rule p.native_identity_mode p.expected_native_correlation_digest none
        r.native_correlation_digest r.source_native_correlation_digest
      ≡ true

-- A complete authority over that turn, with a head that moves.
pub record Concludes (p : PrepareAdmittedAttempt) (r : RecordProviderStarted)
    (f : FinalTurnAuthority) : Type 0 where
  pub operation : f.operation ≡ p.operation
  pub operation_id : f.operation_id ≡ p.operation_id
  pub request : f.canonical_request_digest ≡ p.canonical_request_digest
  pub attempt : f.attempt_id ≡ p.attempt_id
  pub lane : f.lane_id ≡ p.lane_id
  pub generation : f.lane_generation ≡ p.lane_generation
  pub head : f.expected_head_digest ≡ p.expected_head_digest
  pub turn : f.turn_id ≡ r.turn_id
  pub sequence : f.turn_sequence ≡ r.turn_sequence
  pub native : f.native_correlation_digest ≡ r.native_correlation_digest
  pub source : f.source_native_correlation_digest ≡ r.source_native_correlation_digest
  pub present : f.response_present ≡ true
  pub fresh : f.response_fresh ≡ true
  pub stable : f.response_stable ≡ true
  pub eof : f.eof_validated ≡ true
  pub envelope : f.terminal_envelope_valid ≡ true
  pub marker : f.completion_marker ≡ some p.expected_completion_marker
  pub final_line : f.marker_is_final_line ≡ true
  pub moves : f.new_head_digest ≢ p.expected_head_digest

-- What an attempt that awaits its dispatch has besides.
record Fresh (s : LaneTurnState) : Type 0 where
  undispatched : s.dispatch_intent ≡ none
  attempt : s.promotion ≡ attempt_only
  established : s.established_native_correlation_digest ≡ none
  reserved : is_some s.reservation_id ≡ true → s.reservation_state ≡ held

Awaits-Fresh : (s : LaneTurnState) → TurnInv s → Awaits s → Fresh s
Awaits-Fresh s v a =
    let undispatched = v.outcome.prepared_only a.phase in
    let attempt = v.outcome.undispatched undispatched in
    let (turn, sequence, established, response) = v.identity.attempt attempt in
    record {
      undispatched = undispatched;
      attempt = attempt;
      established = established;
      reserved = λ given. ground (arith, v.reservation.reserved given);
    }

-- A history and what follows it.
replay-append :
    (state : Option LaneTurnState) (events later : List LaneTurnEvent) (s : LaneTurnState)
    → replay state events ≡ ok (some s)
    → replay state (events ++ later) ≡ replay (some s) later
unfolding replay
replay-append state [] later s h =
    let same : state ≡ some s = ground arith in ap (λ x. replay x later) same
replay-append state (event ∷ events) later s h =
    let (u, first, rest) = >>=-eq-ok (reduce_turn state event) (λ u. replay (some u) events) h in
    rw first (replay-append (some u) events later s rest)

module _ (p : PrepareAdmittedAttempt) (s : LaneTurnState) (d : BeginDispatch)
    (r : RecordProviderStarted) (same : SameAdmission (prepare_state p) s) (a : Awaits s)
    (new : Fresh s) where
  abbrev dispatched : LaneTurnState
  dispatched = with_intent s (intent_record d)

  topology_accepted : Dispatches p s d → require_dispatch_topology s d ≡ ok tt
  unfolding prepare_state
  topology_accepted h = elim (Option-cases s.topology_provisioned) [
    | inl n ↦ ground arith
    | inr (proof, q) ↦
        ground (arith, ==_iff d.project_topology_digest (some proof.project_topology_digest))
  ]

  dispatch_accepted : Dispatches p s d → reduce_dispatch s d ≡ ok dispatched
  unfolding reduce_dispatch common_correlates prepare_state
  dispatch_accepted h = ground (
    arith,
    intent_of_valid d h.valid,
    topology_accepted h,
    ==_iff s.operation_id d.operation_id,
    ==_iff s.canonical_request_digest d.canonical_request_digest,
    ==_iff s.attempt_id d.attempt_id,
  )

  reservation_counted :
      is_some p.reservation_id ≡ true
      → reserve_started (reserve_started s.reservation_state) ≡ counted
  unfolding prepare_state
  reservation_counted given =
      let reserved : is_some s.reservation_id ≡ true = rw same.reservation_id given in
      rw (new.reserved reserved) refl

  start_matches : Starts p r → start_correlates dispatched r ≡ true
  unfolding start_correlates prepare_state
  start_matches h = ground (
    arith,
    ==_iff s.operation_id r.operation_id,
    ==_iff s.canonical_request_digest r.canonical_request_digest,
    ==_iff s.attempt_id r.attempt_id,
    ==_iff s.lane_id r.lane_id,
  )

  start_accepted : Starts p r → reduce_started dispatched r ≡ ok (with_start dispatched r)
  unfolding reduce_started prepare_state
  start_accepted h = ground (arith, start_matches h)

  authority_matches :
      (f : FinalTurnAuthority)
      → Starts p r
      → Concludes p r f
      → authority_correlates (with_start dispatched r) f ≡ true
  unfolding authority_correlates prepare_state
  authority_matches f h k = ground (
    arith,
    ==_iff s.operation f.operation,
    ==_iff s.operation_id f.operation_id,
    ==_iff s.canonical_request_digest f.canonical_request_digest,
    ==_iff s.attempt_id f.attempt_id,
    ==_iff s.lane_id f.lane_id,
    ==_iff s.expected_head_digest f.expected_head_digest,
    ==_iff r.turn_id f.turn_id,
    ==_iff r.turn_sequence f.turn_sequence,
    identity_rule_again p.native_identity_mode p.expected_native_correlation_digest none
        r.native_correlation_digest r.source_native_correlation_digest,
  )

  authority_is_complete :
      (f : FinalTurnAuthority)
      → Concludes p r f
      → authority_complete (with_start dispatched r) f ≡ true
  unfolding authority_complete prepare_state
  authority_is_complete f k =
      ground (arith, ==_iff f.completion_marker (some s.expected_completion_marker))

  final_accepted :
      (f : FinalTurnAuthority)
      → Starts p r
      → Concludes p r f
      → reduce_final (with_start dispatched r) f ≡ ok (accept_final (with_start dispatched r) f)
  unfolding reduce_final settled_authority_replay prepare_state
  final_accepted f h k = ground (
    arith,
    authority_matches f h k,
    authority_is_complete f k,
    ==_iff f.new_head_digest s.expected_head_digest,
  )

-- An attempt that awaits its dispatch behind any accepted history (under a direct-human policy, one that has
-- settled its topology) accepts a valid dispatch that names that topology, a start with an admitted
-- identity and a complete authority over that turn, in this order. They leave the turn settled, clear and
-- releasable, with its final response, its new head and its reservation counted if it had one.
pub delivery_accepted :
    (p : PrepareAdmittedAttempt) (events : List LaneTurnEvent) (s : LaneTurnState)
    (d : BeginDispatch) (r : RecordProviderStarted) (f : FinalTurnAuthority)
    → replay none (prepare p ∷ events) ≡ ok (some s)
    → Awaits s
    → Dispatches p s d
    → Starts p r
    → Concludes p r f
    → (t : LaneTurnState) × (replay none
          (prepare p ∷ events ++ (begin_dispatch d ∷ provider_started r ∷ final_authority f ∷ []))
        ≡ ok (some t))
      × (t.phase ≡ settled)
      × (t.recovery_state ≡ clear)
      × (t.outcome_kind ≡ some turn_final)
      × (t.head_digest ≡ f.new_head_digest)
      × (t.response_digest ≡ some f.response_digest)
      × (t.release_allowed ≡ true)
      × (is_some p.reservation_id ≡ true → t.reservation_state ≡ counted)
unfolding replay reduce_turn
delivery_accepted p events s d r f reached a h j k =
    let v : TurnInv s = replay-TurnInv p s events reached in
    let same : SameAdmission (prepare_state p) s = replay-SameAdmission p s events reached in
    let new = Awaits-Fresh s v a in
    (
      accept_final (with_start (dispatched p s d r same a new) r) f,
      replay-append none (prepare p ∷ events) _ s reached
          ∙ ground (
            arith,
            dispatch_accepted p s d r same a new h,
            start_accepted p s d r same a new j,
            final_accepted p s d r same a new f j k,
          ),
      refl,
      refl,
      refl,
      refl,
      refl,
      refl,
      reservation_counted p s d r same a new,
    )
