-- ===== src/ReadEpoch/Tests.antt =====
-- A project whose first reading drifts and whose second is stable, and the theorems at it.
use mathlib.Core.Bool.{decide}
use native.Mathlib.Decide.{ℕ_discrete}
use ask_herdr.LaneTurn.Guards.{is_digest}
use ask_herdr.Base.{
  ℕ, zero, suc, ◌≤◌, ◌<◌, String, ◌≡◌, ◌≢◌, ◌↔◌, refl, true, false, some, none, is_some,
  String-discrete, [], ◌∷◌, arith, string_eq,
}
use ask_herdr.ReadEpoch.Entries.{LaneIndexEntry, LaneIndexEntry-discrete}
use ask_herdr.ReadEpoch.Observation.{
  HeadObservation, writer_busy, ends_with, stable_status, HeadObservation-discrete,
}
use ask_herdr.ReadEpoch.Acquire.{
  Binding, Digests, Clock, not_callable, telling, ProjectReadEpoch, is_unstable, acquire_from,
  settle_attempt, epoch_of, acquire_project_read_epoch_snapshot,
}
use ask_herdr.ReadEpoch.Status.{HeadsActive}
use ask_herdr.ReadEpoch.Settled.{EpochOf}
use ask_herdr.ReadEpoch.Stable.{AllUnstable, FirstStable}
use ask_herdr.ReadEpoch.Acquired.{acquired_epoch, busy_iff, active_result, acquisition_delivers}

abbrev head_digest : String
head_digest = "sha256:1111111111111111111111111111111111111111111111111111111111111111"

abbrev moved_digest : String
moved_digest = "sha256:2222222222222222222222222222222222222222222222222222222222222222"

abbrev project : Binding
project = record {
  canonical_root = "/srv/project";
  filesystem_device = 2049;
  filesystem_inode = 77;
  owner_uid = 1000;
  project_authority_id = "project-1";
}

abbrev lane : LaneIndexEntry
lane = record {
  lane_id = "lane-1";
  lane_generation = 1;
  lane_binding_digest = head_digest;
  event_sequence = 4;
  event_digest = head_digest;
  state_digest = moved_digest;
  response_digest = none;
}

abbrev before : HeadObservation
before = record {
  authority_status = "active";
  authority_detail = "authority_store.active";
  authority_digest = some head_digest;
  lane_status = "active";
  lane_detail = "lane_index.active";
  lane_digest = some head_digest;
  lane_entries = [];
  topology_status = "active";
  topology_detail = "topology_store.active";
  topology_digest = some head_digest;
  topology_key_entries = [];
  authority_operation_entries = [];
  topology_operation_entries = [];
}

abbrev after : HeadObservation
after = record before { lane_digest = some moved_digest; lane_entries = lane ∷ [] }

-- The lane index moves between the two observations of the first attempt.
abbrev moving : ℕ → HeadObservation × HeadObservation
moving (suc zero) = (before, after)
moving _ = (after, after)

abbrev never_still : ℕ → HeadObservation × HeadObservation
never_still _ = (before, after)

abbrev digests : Digests
digests = record { project_state = λ b. some head_digest; identity = λ i. some moved_digest }

abbrev clock : Clock
clock = telling "2026-03-01T10:00:00.000000Z"

abbrev epoch : ProjectReadEpoch
epoch = record {
  schema = "ask_herdr.project_read_epoch.v1";
  project_authority_id = "project-1";
  authority_store_head_digest = head_digest;
  project_state_digest = head_digest;
  lane_index_digest = moved_digest;
  topology_ledger_head_digest = head_digest;
  observed_at = "2026-03-01T10:00:00.000000Z";
  acquisition_attempt = 2;
  epoch_digest = moved_digest;
}

moving_first : is_unstable (moving 1) ≡ true
unfolding is_unstable writer_busy ends_with decide HeadObservation-discrete String-discrete
    LaneIndexEntry-discrete ℕ_discrete
moving_first = refl

moving_second : is_unstable (moving 2) ≡ false
unfolding is_unstable writer_busy ends_with decide HeadObservation-discrete String-discrete
    LaneIndexEntry-discrete ℕ_discrete
moving_second = refl

moving_epoch :
    (acquire_project_read_epoch_snapshot digests (some project) clock moving).inspection.epoch
    ≡ some epoch
unfolding acquire_project_read_epoch_snapshot acquire_from settle_attempt epoch_of stable_status
    is_digest is_unstable writer_busy ends_with decide HeadObservation-discrete String-discrete
    LaneIndexEntry-discrete ℕ_discrete
moving_epoch = refl

moving_status :
    (acquire_project_read_epoch_snapshot digests (some project) clock moving).inspection.status
    ≡ "active"
unfolding acquire_project_read_epoch_snapshot acquire_from settle_attempt epoch_of stable_status
    is_digest is_unstable writer_busy ends_with decide HeadObservation-discrete String-discrete
    LaneIndexEntry-discrete ℕ_discrete
moving_status = refl

still_drifting : is_unstable (before, after) ≡ true
unfolding is_unstable writer_busy ends_with decide HeadObservation-discrete String-discrete
    LaneIndexEntry-discrete ℕ_discrete
still_drifting = refl

only_one : (j : ℕ) → 1 ≤ j → j < 2 → j ≡ 1
only_one j p q = ground arith

moving-FirstStable : FirstStable moving 1 4 2
moving-FirstStable = record {
  from_first = ground arith;
  before_last = ground arith;
  stable = moving_second;
  unstable_before = λ j p q. rw (only_one j p q) moving_first;
}

acquired_epoch_example :
    (k : ℕ) × FirstStable moving 1 4 k
    × ((moving k).0 ≡ (moving k).1)
    × (writer_busy (moving k).1 ≡ false)
    × EpochOf digests project clock
        (moving k).1
        k
        (acquire_project_read_epoch_snapshot digests (some project) clock moving)
        epoch
acquired_epoch_example = acquired_epoch digests project clock moving epoch moving_epoch

callable : clock ≢ not_callable
callable h = ground arith

busy_iff_example :
    ((acquire_project_read_epoch_snapshot digests
        (some project)
        clock
        never_still).inspection.status
      ≡ "busy")
    ↔ AllUnstable never_still 1 4
busy_iff_example = busy_iff digests project clock never_still callable

-- The project that never stands still is reported busy.
never_still_busy :
    (acquire_project_read_epoch_snapshot digests (some project) clock never_still).inspection.status
    ≡ "busy"
never_still_busy = (busy_iff digests project clock never_still callable).1 (λ j p q. still_drifting)

active_result_example :
    (is_some
        (acquire_project_read_epoch_snapshot digests (some project) clock moving).inspection.epoch
      ≡ true)
    × ((k : ℕ) × FirstStable moving 1 4 k × HeadsActive (moving k).1)
active_result_example = active_result digests project clock moving moving_status

after_active : HeadsActive after
after_active = record { authority = refl; lane = refl; topology = refl }

acquisition_delivers_example :
    ((acquire_project_read_epoch_snapshot digests (some project) clock moving).inspection.status
      ≡ "active")
    × (is_some
          (acquire_project_read_epoch_snapshot digests (some project) clock moving).inspection.epoch
        ≡ true)
unfolding is_digest
acquisition_delivers_example =
    acquisition_delivers digests project "2026-03-01T10:00:00.000000Z" head_digest moving 2
      moving-FirstStable after_active refl refl refl refl (λ i. refl)
