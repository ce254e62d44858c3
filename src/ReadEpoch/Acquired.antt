-- ===== src/ReadEpoch/Acquired.antt =====
-- What the acquisition of lib/ask_herdr_project_read_epoch.py returns, over all its attempts.
use ask_herdr.Base.{
  ℕ, String, ◌≡◌, ◌≢◌, ◌↔◌, ◌⊎◌, ap, ◌∙◌, refl, true, false, some, is_some, inl, inr, arith,
}
use ask_herdr.ReadEpoch.Observation.{HeadObservation, writer_busy}
use ask_herdr.ReadEpoch.Acquire.{
  Binding, Digests, EpochIdentity, Clock, not_callable, failing, telling, ProjectReadEpoch,
  without_epoch, settle_attempt, acquire_from, acquire_project_read_epoch_snapshot, digest_present,
}
use ask_herdr.ReadEpoch.Status.{distinct, HeadsActive}
use ask_herdr.ReadEpoch.Settled.{
  EpochOf, settle_attempt-EpochOf, settle_attempt-not_busy, settle_attempt-active,
  settle_attempt-delivers,
}
use ask_herdr.ReadEpoch.Stable.{
  AllUnstable, FirstStable, is_unstable-false, acquire_from_cases, apart, FirstStable-unique,
}

-- With a clock that can be called, the acquisition is the loop over its attempts.
acquire-loop :
    (digests : Digests) (binding : Binding) (clock : Clock)
    (observe : ℕ → HeadObservation × HeadObservation)
    → clock ≢ not_callable
    → acquire_project_read_epoch_snapshot digests (some binding) clock observe
      ≡ acquire_from digests binding clock observe 3 1
unfolding acquire_project_read_epoch_snapshot
acquire-loop digests binding not_callable observe n = absurd (n refl)
acquire-loop digests binding failing observe n = refl
acquire-loop digests binding (telling t) observe n = refl

-- Its outcomes: drift in all three attempts, or what the first stable one settles.
acquire-cases :
    (digests : Digests) (binding : Binding) (clock : Clock)
    (observe : ℕ → HeadObservation × HeadObservation)
    → clock ≢ not_callable
    → (AllUnstable observe 1 4
        × (acquire_project_read_epoch_snapshot digests (some binding) clock observe
            ≡ without_epoch "busy" "project_read_epoch.head_drift"))
      ⊎ ((k : ℕ) × FirstStable observe 1 4 k
          × (acquire_project_read_epoch_snapshot digests (some binding) clock observe
              ≡ settle_attempt digests binding clock (observe k).1 k))
acquire-cases digests binding clock observe n =
    let loop = acquire-loop digests binding clock observe n in
    elim (acquire_from_cases digests binding clock observe 3 1) [
      | inl (unstable, busy) ↦ inl (unstable, loop ∙ busy)
      | inr (k, first, settled) ↦ inr (k, first, loop ∙ settled)
    ]

-- The first stable attempt is the one that decides.
acquire-first :
    (digests : Digests) (binding : Binding) (clock : Clock)
    (observe : ℕ → HeadObservation × HeadObservation) (k : ℕ)
    → clock ≢ not_callable
    → FirstStable observe 1 4 k
    → acquire_project_read_epoch_snapshot digests (some binding) clock observe
      ≡ settle_attempt digests binding clock (observe k).1 k
acquire-first digests binding clock observe k n first =
    elim (acquire-cases digests binding clock observe n) [
      | inl (unstable, _) ↦
          absurd (apart first.stable (unstable k first.from_first first.before_last))
      | inr (j, found, settled) ↦ rw (FirstStable-unique observe 1 4 k j first found) settled
    ]

-- A snapshot with an epoch needed a clock that can be called.
epoch-clock :
    (digests : Digests) (binding : Binding) (clock : Clock)
    (observe : ℕ → HeadObservation × HeadObservation) (e : ProjectReadEpoch)
    → (acquire_project_read_epoch_snapshot digests (some binding) clock observe).inspection.epoch
      ≡ some e
    → clock ≢ not_callable
unfolding acquire_project_read_epoch_snapshot
epoch-clock digests binding clock observe e h = ground arith

active-clock :
    (digests : Digests) (binding : Binding) (clock : Clock)
    (observe : ℕ → HeadObservation × HeadObservation)
    → (acquire_project_read_epoch_snapshot digests (some binding) clock observe).inspection.status
      ≡ "active"
    → clock ≢ not_callable
unfolding acquire_project_read_epoch_snapshot
active-clock digests binding clock observe h =
    let other = distinct "reconciliation_required" "active" refl in ground arith

-- If an epoch is acquired, it is of the first attempt of the three that was stable: that attempt's
-- two observations agree with no writer at work, every earlier attempt was unstable, and the epoch's
-- digests, entries, status and attempt number are those of the agreed observation.
pub acquired_epoch :
    (digests : Digests) (binding : Binding) (clock : Clock)
    (observe : ℕ → HeadObservation × HeadObservation) (e : ProjectReadEpoch)
    → (acquire_project_read_epoch_snapshot digests (some binding) clock observe).inspection.epoch
      ≡ some e
    → (k : ℕ) × FirstStable observe 1 4 k
      × ((observe k).0 ≡ (observe k).1)
      × (writer_busy (observe k).1 ≡ false)
      × EpochOf digests binding clock
          (observe k).1
          k
          (acquire_project_read_epoch_snapshot digests (some binding) clock observe)
          e
acquired_epoch digests binding clock observe e h =
    elim (acquire-cases digests binding clock observe
      (epoch-clock digests binding clock observe e h)) [
        | inl (_, busy) ↦ absurd (ground (arith, busy))
        | inr (k, first, settled) ↦
            let agreed = is_unstable-false (observe k).0 (observe k).1 first.stable in
            (
              k,
              first,
              agreed.0,
              agreed.1,
              rw settled (
                  settle_attempt-EpochOf digests binding clock (observe k).1 k e (rw settled at h)),
            )
      ]

-- With a binding and a clock that can be called, the acquisition reports a busy project exactly if
-- all three of its attempts were unstable.
pub busy_iff :
    (digests : Digests) (binding : Binding) (clock : Clock)
    (observe : ℕ → HeadObservation × HeadObservation)
    → clock ≢ not_callable
    → ((acquire_project_read_epoch_snapshot digests (some binding) clock observe).inspection.status
        ≡ "busy")
      ↔ AllUnstable observe 1 4
busy_iff digests binding clock observe n = elim (acquire-cases digests binding clock observe n) [
  | inl (unstable, busy) ↦ ((λ h. unstable), λ u. ap (λ s. s.inspection.status) busy)
  | inr (k, first, settled) ↦ (
    (λ h. absurd (settle_attempt-not_busy digests binding clock (observe k).1 k (rw settled at h))),
    λ u. absurd (apart first.stable (u k first.from_first first.before_last)),
  )
]

-- If the acquisition reports an active project, it returns an epoch, and the three heads were active
-- in the agreed observation of the first of its three attempts that was stable.
pub active_result :
    (digests : Digests) (binding : Binding) (clock : Clock)
    (observe : ℕ → HeadObservation × HeadObservation)
    → (acquire_project_read_epoch_snapshot digests (some binding) clock observe).inspection.status
      ≡ "active"
    → (is_some
          (acquire_project_read_epoch_snapshot digests
            (some binding)
            clock
            observe).inspection.epoch
        ≡ true)
      × ((k : ℕ) × FirstStable observe 1 4 k × HeadsActive (observe k).1)
active_result digests binding clock observe h =
    elim (acquire-cases digests binding clock observe
      (active-clock digests binding clock observe h)) [
        | inl (_, busy) ↦ absurd (distinct "busy" "active" refl (rw busy at h))
        | inr (k, first, settled) ↦
            let found =
              settle_attempt-active digests binding clock (observe k).1 k (rw settled at h) in
            (rw settled found.1, (k, first, found.0))
      ]

-- If one of the three attempts is stable, and in the first such attempt the three heads are active
-- with valid digests, then with a clock that tells the time and digests that do not raise the
-- acquisition reports an active project and returns an epoch, whatever the other attempts observe.
pub acquisition_delivers :
    (digests : Digests) (binding : Binding) (observed_at state : String)
    (observe : ℕ → HeadObservation × HeadObservation) (k : ℕ)
    → FirstStable observe 1 4 k
    → HeadsActive (observe k).1
    → digest_present (observe k).1.authority_digest ≡ true
    → digest_present (observe k).1.lane_digest ≡ true
    → digest_present (observe k).1.topology_digest ≡ true
    → digests.project_state binding ≡ some state
    → ((identity : EpochIdentity) → is_some (digests.identity identity) ≡ true)
    → ((acquire_project_read_epoch_snapshot digests
          (some binding)
          (telling observed_at)
          observe).inspection.status
        ≡ "active")
      × (is_some
            (acquire_project_read_epoch_snapshot digests
              (some binding)
              (telling observed_at)
              observe).inspection.epoch
          ≡ true)
acquisition_delivers digests binding observed_at state observe k first heads a l t d i =
    let told : telling observed_at ≢ not_callable = λ h. ground arith in
    let clock = telling observed_at in
    rw (acquire-first digests binding clock observe k told first) (
      settle_attempt-delivers digests binding clock (observe k).1 k observed_at state heads a l t
        refl d i)
