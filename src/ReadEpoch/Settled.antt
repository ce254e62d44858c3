-- ===== src/ReadEpoch/Settled.antt =====
-- What one stable attempt returns, in lib/ask_herdr_project_read_epoch.py.
use ask_herdr.Base.{
  ℕ, String, ◌≡◌, ◌≢◌, ◌⊎◌, refl, true, Option, none, some, is_some, arith, ==_iff, string_eq,
}
use ask_herdr.LaneTurn.Guards.{is_digest}
use ask_herdr.ReadEpoch.Observation.{HeadObservation, stable_status}
use ask_herdr.ReadEpoch.Acquire.{
  Binding, Digests, EpochIdentity, Clock, telling, ProjectReadEpoch, ProjectReadEpochSnapshot,
  epoch_identity, epoch_of, settle_attempt, digest_present,
}
use ask_herdr.ReadEpoch.Status.{
  distinct, HeadsActive, stable_status-active, stable_status-not_busy, HeadsActive-stable_status,
}

-- The epoch names the digests of one observation, its digests are of its fields, and the snapshot
-- has the entries of that observation.
pub record EpochOf (digests : Digests) (binding : Binding) (clock : Clock) (o : HeadObservation)
    (attempt : ℕ) (s : ProjectReadEpochSnapshot) (e : ProjectReadEpoch) : Type 0 where
  pub acquisition_attempt : e.acquisition_attempt ≡ attempt
  pub authority : o.authority_digest ≡ some e.authority_store_head_digest
  pub lane : o.lane_digest ≡ some e.lane_index_digest
  pub topology : o.topology_digest ≡ some e.topology_ledger_head_digest
  pub authority_valid : is_digest e.authority_store_head_digest ≡ true
  pub lane_valid : is_digest e.lane_index_digest ≡ true
  pub topology_valid : is_digest e.topology_ledger_head_digest ≡ true
  pub project : e.project_authority_id ≡ binding.project_authority_id
  pub project_state : digests.project_state binding ≡ some e.project_state_digest
  pub identity :
      digests.identity (
        epoch_identity digests binding e.project_state_digest e.authority_store_head_digest
          e.lane_index_digest e.topology_ledger_head_digest)
      ≡ some e.epoch_digest
  pub observed_at : clock ≡ telling e.observed_at
  pub status : (s.inspection.status, s.inspection.detail_code) ≡ stable_status o
  pub usable : (s.inspection.status ≡ "active") ⊎ (s.inspection.status ≡ "reconciliation_required")
  pub lane_entries : s.lane_entries ≡ o.lane_entries
  pub topology_key_entries : s.topology_key_entries ≡ o.topology_key_entries
  pub authority_operation_entries : s.authority_operation_entries ≡ o.authority_operation_entries
  pub topology_operation_entries : s.topology_operation_entries ≡ o.topology_operation_entries

digest_of : (d : Option String) → digest_present d ≡ true → (text : String) × (d ≡ some text)
digest_of none h = absurd (ground arith)
digest_of (some text) h = (text, refl)

module _ (digests : Digests) (binding : Binding) (clock : Clock) (o : HeadObservation)
    (attempt : ℕ) where
  pub settle_attempt-EpochOf :
      (e : ProjectReadEpoch)
      → (settle_attempt digests binding clock o attempt).inspection.epoch ≡ some e
      → EpochOf digests binding clock o attempt (settle_attempt digests binding clock o attempt) e
  unfolding settle_attempt epoch_of
  settle_attempt-EpochOf e h = ground (
    arith,
    ==_iff (stable_status o).0 "active",
    ==_iff (stable_status o).0 "reconciliation_required",
  )

  pub settle_attempt-not_busy :
      (settle_attempt digests binding clock o attempt).inspection.status ≢ "busy"
  unfolding settle_attempt epoch_of
  settle_attempt-not_busy h =
      let here = stable_status-not_busy o in
      ground
        (arith, distinct "quarantined" "busy" refl, distinct "reconciliation_required" "busy" refl)

  pub settle_attempt-active :
      (settle_attempt digests binding clock o attempt).inspection.status ≡ "active"
      → HeadsActive o
        × (is_some (settle_attempt digests binding clock o attempt).inspection.epoch ≡ true)
  unfolding settle_attempt epoch_of
  settle_attempt-active h =
      let here = stable_status-active o in
      ground (
        arith,
        ==_iff (stable_status o).0 "active",
        distinct "quarantined" "active" refl,
        distinct "reconciliation_required" "active" refl,
      )

  -- Active heads with valid digests, a clock that tells the time and digests that do not raise give
  -- an active project and its epoch.
  pub settle_attempt-delivers :
      (observed_at state : String)
      → HeadsActive o
      → digest_present o.authority_digest ≡ true
      → digest_present o.lane_digest ≡ true
      → digest_present o.topology_digest ≡ true
      → clock ≡ telling observed_at
      → digests.project_state binding ≡ some state
      → ((identity : EpochIdentity) → is_some (digests.identity identity) ≡ true)
      → ((settle_attempt digests binding clock o attempt).inspection.status ≡ "active")
        × (is_some (settle_attempt digests binding clock o attempt).inspection.epoch ≡ true)
  unfolding settle_attempt epoch_of
  settle_attempt-delivers observed_at state heads a l t c d i =
      let active = HeadsActive-stable_status o heads in
      let (authority, p) = digest_of o.authority_digest a in
      let (lane, q) = digest_of o.lane_digest l in
      let (topology, r) = digest_of o.topology_digest t in
      let j = i (epoch_identity digests binding state authority lane topology) in
      simp (active, c) (ground arith)
