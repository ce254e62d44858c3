-- ===== src/ReadEpoch/Acquire.antt =====
-- The acquisition of a Project Read Epoch in lib/ask_herdr_project_read_epoch.py. What the stores
-- answer is an argument: the two observations of each attempt, in the order in which they are made,
-- whatever other processes write between them.
use ask_herdr.Base.{
  ℕ, zero, suc, ◌+◌, String, Bool, false, ◌&&◌, ◌||◌, Option, none, some, List, [], ◌==◌, ◌/=◌,
  string_eq, if◌then◌else◌,
}
use ask_herdr.LaneTurn.Guards.{is_digest}
use ask_herdr.ReadEpoch.Entries.{
  LaneIndexEntry, TopologyStatusKeyEntry, TopologyStatusOperationEntry,
  AuthorityStatusOperationEntry,
}
use ask_herdr.ReadEpoch.Observation.{
  HeadObservation, head_observation_eq, writer_busy, stable_status,
}

-- The fields of a binding that the epoch reads.
pub record Binding : Type 0 where
  pub canonical_root : String
  pub filesystem_device : ℕ
  pub filesystem_inode : ℕ
  pub owner_uid : ℕ
  pub project_authority_id : String

pub record ProjectReadEpoch : Type 0 where
  pub schema : String
  pub project_authority_id : String
  pub authority_store_head_digest : String
  pub project_state_digest : String
  pub lane_index_digest : String
  pub topology_ledger_head_digest : String
  pub observed_at : String
  pub acquisition_attempt : ℕ
  pub epoch_digest : String

pub record ProjectReadEpochInspection : Type 0 where
  pub status : String
  pub detail_code : String
  pub epoch : Option ProjectReadEpoch

pub record ProjectReadEpochSnapshot : Type 0 where
  pub inspection : ProjectReadEpochInspection
  pub lane_entries : List LaneIndexEntry
  pub topology_key_entries : List TopologyStatusKeyEntry
  pub authority_operation_entries : List AuthorityStatusOperationEntry
  pub topology_operation_entries : List TopologyStatusOperationEntry

-- The identity that `_epoch` digests, but for its schema.
pub record EpochIdentity : Type 0 where
  pub project_authority_id : String
  pub authority_store_head_digest : String
  pub project_state_digest : String
  pub lane_index_digest : String
  pub topology_ledger_head_digest : String

-- SHA-256 over canonical JSON; `none` where `canonical_json` raises `StrictJsonError`.
pub record Digests : Type 0 where
  pub project_state : Binding → Option String
  pub identity : EpochIdentity → Option String

-- The clock that the caller passes: no function, one that raises or gives no canonical time, or one
-- that gives a time, here in the form of `_canonical_timestamp`.
pub data Clock : Type 0 where
  not_callable : Clock
  failing : Clock
  telling : String → Clock

abbrev pub without_epoch : String → String → ProjectReadEpochSnapshot
without_epoch status detail_code = record {
  inspection = record { status = status; detail_code = detail_code; epoch = none };
  lane_entries = [];
  topology_key_entries = [];
  authority_operation_entries = [];
  topology_operation_entries = [];
}

-- `type(value) is str and _DIGEST_PATTERN.fullmatch(value) is not None`
abbrev pub digest_present : Option String → Bool
digest_present none = false
digest_present (some d) = is_digest d

-- `_writer_busy(first) or _writer_busy(second) or first != second`
unfoldable pub is_unstable : HeadObservation × HeadObservation → Bool
is_unstable (first, second) = writer_busy first || (writer_busy second || first /= second)

module _ (digests : Digests) (binding : Binding) where
  abbrev pub epoch_identity : String → String → String → String → EpochIdentity
  epoch_identity state authority lane topology = record {
    project_authority_id = binding.project_authority_id;
    authority_store_head_digest = authority;
    project_state_digest = state;
    lane_index_digest = lane;
    topology_ledger_head_digest = topology;
  }

  -- `_epoch`, for the three digests that it asserts; `none` where a digest raises.
  unfoldable pub epoch_of : String → String → String → String → ℕ → Option ProjectReadEpoch
  epoch_of authority lane topology observed_at acquisition_attempt =
      elim (digests.project_state binding) [
        | none ↦ none
        | some state ↦ elim (digests.identity (epoch_identity state authority lane topology)) [
          | none ↦ none
          | some identity ↦ some (record {
            schema = "ask_herdr.project_read_epoch.v1";
            project_authority_id = binding.project_authority_id;
            authority_store_head_digest = authority;
            project_state_digest = state;
            lane_index_digest = lane;
            topology_ledger_head_digest = topology;
            observed_at = observed_at;
            acquisition_attempt = acquisition_attempt;
            epoch_digest = identity;
          })
        ]
      ]

  abbrev pub epoch_at : HeadObservation → String → ℕ → Option ProjectReadEpoch
  epoch_at o observed_at attempt = elim o.authority_digest [
    | none ↦ none
    | some authority ↦ elim o.lane_digest [
      | none ↦ none
      | some lane ↦ elim o.topology_digest [
        | none ↦ none
        | some topology ↦ epoch_of authority lane topology observed_at attempt
      ]
    ]
  ]

  -- The epoch and the projections of one stable observation.
  abbrev pub with_epoch :
      String → String → HeadObservation → Option ProjectReadEpoch → ProjectReadEpochSnapshot
  with_epoch status detail o none =
      without_epoch "quarantined" "project_read_epoch.project_state_invalid"
  with_epoch status detail o (some epoch) = record {
    inspection = record { status = status; detail_code = detail; epoch = some epoch };
    lane_entries = o.lane_entries;
    topology_key_entries = o.topology_key_entries;
    authority_operation_entries = o.authority_operation_entries;
    topology_operation_entries = o.topology_operation_entries;
  }

  abbrev pub tell_time : Clock → String → String → HeadObservation → ℕ → ProjectReadEpochSnapshot
  tell_time (telling observed_at) status detail o attempt =
      with_epoch status detail o (epoch_at o observed_at attempt)
  tell_time _ status detail o attempt =
      without_epoch "reconciliation_required" "project_read_epoch.clock_unavailable"

  -- What one attempt returns whose two observations agree, with no writer at work.
  unfoldable pub settle_attempt : Clock → HeadObservation → ℕ → ProjectReadEpochSnapshot
  settle_attempt clock o attempt =
      let (status, detail) = stable_status o in
      if (status == "active" || status == "reconciliation_required")
        && (digest_present o.authority_digest
            && (digest_present o.lane_digest && digest_present o.topology_digest))
      then tell_time clock status detail o attempt
      else if status == "active"
      then without_epoch "quarantined" "project_read_epoch.head_digest_invalid"
      else without_epoch status detail

  -- The loop over the attempts that are left, from the given one on.
  unfoldable pub acquire_from :
      Clock → (ℕ → HeadObservation × HeadObservation) → ℕ → ℕ → ProjectReadEpochSnapshot
  acquire_from clock observe zero attempt = without_epoch "busy" "project_read_epoch.head_drift"
  acquire_from clock observe (suc left) attempt =
      let rest = acquire_from clock observe left (attempt + 1) in
      if is_unstable (observe attempt)
      then rest
      else settle_attempt clock (observe attempt).1 attempt

-- `_MAXIMUM_COMPLETE_ATTEMPTS`
abbrev pub maximum_complete_attempts : ℕ
maximum_complete_attempts = 3

-- `_acquire_project_read_epoch_snapshot`, from what `_snapshot_binding` returned.
unfoldable pub acquire_project_read_epoch_snapshot :
    Digests
    → Option Binding
    → Clock
    → (ℕ → HeadObservation × HeadObservation)
    → ProjectReadEpochSnapshot
acquire_project_read_epoch_snapshot digests none clock observe =
    without_epoch "quarantined" "project_read_epoch.binding_invalid"
acquire_project_read_epoch_snapshot digests (some binding) not_callable observe =
    without_epoch "reconciliation_required" "project_read_epoch.clock_unavailable"
acquire_project_read_epoch_snapshot digests (some binding) clock observe =
    acquire_from digests binding clock observe maximum_complete_attempts 1
