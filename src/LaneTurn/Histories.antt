-- ===== src/LaneTurn/Histories.antt =====
-- What holds at the end of every accepted history of one attempt in lib/ask_herdr_lane_turn.py.
use ask_herdr.Base.{
  String, ◌≡◌, ◌≢◌, ◌↔◌, sym, ◌∙◌, true, false, some, none, is_some, List, ◌∷◌, arith, ok,
  Option-cases, inl, inr,
}
use ask_herdr.LaneTurn.Kinds.{settled, clear, counted, safe_retry_eligible, turn_definite_non_start}
use ask_herdr.LaneTurn.Events.Prepare.{PrepareAdmittedAttempt}
use ask_herdr.LaneTurn.Events.Dispatch.{DispatchIntent}
use ask_herdr.LaneTurn.State.{LaneTurnState, LaneTurnEvent, prepare, prepare_state}
use ask_herdr.LaneTurn.Reducer.{reduce_turn, replay}
use ask_herdr.LaneTurn.Frame.{SameAdmission, Step-SameAdmission}
use ask_herdr.LaneTurn.Permanence.{WriteOnce, Step-WriteOnce}
use ask_herdr.LaneTurn.NativeIdentity.{FitsMode}
use ask_herdr.LaneTurn.Provisioning.{bound_digest}
use ask_herdr.LaneTurn.Invariant.{TurnInv, prepare_state-TurnInv, replay_relation, replay-TurnInv}

SameAdmission-refl : (s : LaneTurnState) → SameAdmission s s
SameAdmission-refl s = ground arith

SameAdmission-trans :
    (s t u : LaneTurnState) → SameAdmission s t → SameAdmission t u → SameAdmission s u
SameAdmission-trans s t u p q = ground arith

-- After any accepted history the thirteen facts that the prepare event admitted are unchanged.
pub replay-SameAdmission :
    (e : PrepareAdmittedAttempt) (t : LaneTurnState) (events : List LaneTurnEvent)
    → replay none (prepare e ∷ events) ≡ ok (some t)
    → SameAdmission (prepare_state e) t
unfolding replay reduce_turn
replay-SameAdmission e t events h =
    (replay_relation {R = SameAdmission} SameAdmission-refl SameAdmission-trans
      (λ s u v st. Step-SameAdmission s u st) (prepare_state e) t events (prepare_state-TurnInv e)
      h).0

WriteOnce-refl : (s : LaneTurnState) → WriteOnce s s
WriteOnce-refl s = ground arith

WriteOnce-trans : (s t u : LaneTurnState) → WriteOnce s t → WriteOnce t u → WriteOnce s u
WriteOnce-trans s t u p q = ground arith

-- From a state in the invariant, an accepted history keeps what was recorded: the intent, the
-- topology proof, the first effect, the turn, its sequence and identity, the response and its head,
-- a counted or released reservation, and an observed provider effect.
pub replay-WriteOnce :
    (s t : LaneTurnState) (events : List LaneTurnEvent)
    → TurnInv s
    → replay (some s) events ≡ ok (some t)
    → WriteOnce s t
replay-WriteOnce s t events v h =
    (replay_relation {R = WriteOnce} WriteOnce-refl WriteOnce-trans
      (λ x y w st. Step-WriteOnce x y st w.identity w.reservation) s t events v h).0

-- After any accepted history, release is allowed exactly if the turn is settled and clear.
pub release_allowed_iff :
    (e : PrepareAdmittedAttempt) (t : LaneTurnState) (events : List LaneTurnEvent)
    → replay none (prepare e ∷ events) ≡ ok (some t)
    → (t.release_allowed ≡ true) ↔ ((t.phase ≡ settled) × (t.recovery_state ≡ clear))
release_allowed_iff e t events h =
    let v : TurnInv t = replay-TurnInv e t events h in
    (v.release.released, λ p. v.release.releasable p.0 p.1)

-- After any accepted history that makes a safe retry eligible, the turn settled as a definite
-- non-start: no provider effect was observed, no turn or response is recorded, the head is the one
-- admitted, no reservation is counted, and release is allowed.
pub safe_retry_facts :
    (e : PrepareAdmittedAttempt) (t : LaneTurnState) (events : List LaneTurnEvent)
    → replay none (prepare e ∷ events) ≡ ok (some t)
    → t.retry_disposition ≡ safe_retry_eligible
    → (t.outcome_kind ≡ some turn_definite_non_start)
      × (t.possible_provider_effect_observed ≡ false)
      × (t.turn_id ≡ none)
      × (t.response_digest ≡ none)
      × (t.head_digest ≡ e.expected_head_digest)
      × (t.reservation_state ≢ counted)
      × (t.release_allowed ≡ true)
safe_retry_facts e t events h r =
    let v : TurnInv t = replay-TurnInv e t events h in
    let same : SameAdmission (prepare_state e) t = replay-SameAdmission e t events h in
    unfold prepare_state in
    ground (arith, v.outcome, v.identity, v.reservation, v.release, same.expected_head_digest)

-- After any accepted history, the head differs from the admitted one exactly if a response is
-- recorded, and then the turn is settled.
pub head_moved_iff :
    (e : PrepareAdmittedAttempt) (t : LaneTurnState) (events : List LaneTurnEvent)
    → replay none (prepare e ∷ events) ≡ ok (some t)
    → ((t.head_digest ≢ e.expected_head_digest) ↔ (is_some t.response_digest ≡ true))
      × (is_some t.response_digest ≡ true → t.phase ≡ settled)
head_moved_iff e t events h =
    let v : TurnInv t = replay-TurnInv e t events h in
    let same : SameAdmission (prepare_state e) t = replay-SameAdmission e t events h in
    unfold prepare_state in
    elim (Option-cases t.response_digest) [
      | inl n ↦ (
        (λ k. absurd (k (v.identity.head_kept n ∙ same.expected_head_digest)), λ k. cc),
        v.identity.response_settled,
      )
      | inr (r, q) ↦ (
        (λ k. rw q, λ k moved. v.identity.head_moved k (moved ∙ sym same.expected_head_digest)),
        v.identity.response_settled,
      )
    ]

-- After any accepted history whose intent is recorded, the intent is the attempt's, and it names
-- the project topology digest of the settled topology proof if a direct-human policy was admitted,
-- with such a proof there, and none otherwise.
pub dispatch_bound :
    (e : PrepareAdmittedAttempt) (t : LaneTurnState) (events : List LaneTurnEvent)
    (i : DispatchIntent)
    → replay none (prepare e ∷ events) ≡ ok (some t)
    → t.dispatch_intent ≡ some i
    → (i.operation_id ≡ e.operation_id)
      × (i.attempt_id ≡ e.attempt_id)
      × (i.project_topology_digest
          ≡ bound_digest e.direct_human_policy_record_digest t.topology_provisioned)
      × (is_some e.direct_human_policy_record_digest ≡ true → is_some t.topology_provisioned ≡ true)
dispatch_bound e t events i h k =
    let v : TurnInv t = replay-TurnInv e t events h in
    let same : SameAdmission (prepare_state e) t = replay-SameAdmission e t events h in
    unfold prepare_state in
    ground (
      arith, v.topology.bound, same.operation_id, same.attempt_id,
      same.direct_human_policy_record_digest,
    )

-- After any accepted history, an established native identity fits the mode that was admitted: it is
-- the admitted one for a resumed turn, and another one for a fork.
pub native_identity_fits :
    (e : PrepareAdmittedAttempt) (t : LaneTurnState) (events : List LaneTurnEvent) (native : String)
    → replay none (prepare e ∷ events) ≡ ok (some t)
    → t.established_native_correlation_digest ≡ some native
    → FitsMode e.native_identity_mode e.expected_native_correlation_digest native
native_identity_fits e t events native h k =
    let v : TurnInv t = replay-TurnInv e t events h in
    let same : SameAdmission (prepare_state e) t = replay-SameAdmission e t events h in
    rw (← p same, ← q same) (v.native.fits native k)
  where
    p : SameAdmission (prepare_state e) t → t.native_identity_mode ≡ e.native_identity_mode
    p same = unfold prepare_state in same.native_identity_mode

    q :
        SameAdmission (prepare_state e) t
        → t.expected_native_correlation_digest ≡ e.expected_native_correlation_digest
    q same = unfold prepare_state in same.expected_native_correlation_digest
