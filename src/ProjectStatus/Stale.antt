-- ===== src/ProjectStatus/Stale.antt =====
-- What a page of lib/ask_herdr_project_status.py that carries an epoch owes to its cursor.
use ask_herdr.Base.{
  ℕ, ◌≡◌, String, Option, some, List, Option-cases, inl, inr, arith, ==_iff, string_eq, ok,
  >>=-eq-ok, Result-cases, ap, sym, ◌∙◌,
}
use ask_herdr.Base.Slices.{take, drop}
use ask_herdr.StrictJson.Digest.{Encodings, digest}
use ask_herdr.ReadEpoch.Entries.{LaneIndexEntry}
use ask_herdr.ReadEpoch.Acquire.{ProjectReadEpoch, ProjectReadEpochSnapshot}
use ask_herdr.ProjectStatus.Cursor.{
  Cursor, CursorPayload, decode_cursor, decode_object, payload_of, check_payload, after_prefix,
  cursor_prefix, ordering_digest, cursor_identity,
}
use ask_herdr.ProjectStatus.Select.{StatusSelectorPlan, select_entries}
use ask_herdr.ProjectStatus.Pages.{
  ProjectStatusInspection, contract_of, page_start, next_cursor_of, page_result, page_of,
  read_snapshot, read_status,
}

-- The cursor decodes to the epoch and the contract of the page.
pub record CursorOf (lib : Encodings) (value : Cursor) (page : ProjectStatusInspection)
    (epoch : ProjectReadEpoch) (contract : String) (p : CursorPayload) : Type 0 where
  pub decoded : decode_cursor lib value contract ≡ ok (some p)
  pub same_contract : p.normalized_read_contract_digest ≡ contract
  pub same_epoch : p.project_read_epoch_digest ≡ epoch.epoch_digest
  pub page_contract : page.normalized_read_contract_digest ≡ some contract

check_payload-contract :
    (lib : Encodings) (contract : String) (q p : CursorPayload) (binding : String)
    → check_payload lib contract q binding ≡ ok (some p)
    → p.normalized_read_contract_digest ≡ contract
unfolding check_payload
check_payload-contract lib contract q p binding h = elim (Result-cases (ordering_digest lib)) [
  | inl (failure, failed) ↦
      absurd (ground (arith, ==_iff q.normalized_read_contract_digest contract))
  | inr (ordering, made) ↦ elim (Result-cases (digest lib (cursor_identity q))) [
    | inl (failure, failed) ↦ absurd (ground arith)
    | inr (expected, bound) ↦
        let same : q ≡ p = ground arith in
        let own : q.normalized_read_contract_digest ≡ contract =
          ground (arith, ==_iff q.normalized_read_contract_digest contract) in
        ap (λ x. x.normalized_read_contract_digest) (sym same) ∙ own
  ]
]

-- A cursor is only decoded under the read contract for which it was written.
decode_cursor-contract :
    (lib : Encodings) (value : Cursor) (contract : String) (p : CursorPayload)
    → decode_cursor lib value contract ≡ ok (some p)
    → p.normalized_read_contract_digest ≡ contract
unfolding decode_cursor
decode_cursor-contract lib value contract p h =
    elim (Option-cases (after_prefix cursor_prefix value)) [
      | inl foreign ↦ absurd (ground arith)
      | inr (encoded, there) ↦ elim (Option-cases (decode_object lib encoded)) [
        | inl bad ↦ absurd (ground arith)
        | inr (fields, object) ↦ elim (Option-cases (payload_of fields)) [
          | inl bad ↦ absurd (ground arith)
          | inr (q, read) ↦ check_payload-contract lib contract q.0 p q.1 (ground arith)
        ]
      ]
    ]

module _ (lib : Encodings) (plan : StatusSelectorPlan) (limit : ℕ)
    (s : ProjectReadEpochSnapshot) where
  page_start-epoch :
      (epoch : ProjectReadEpoch) (p : CursorPayload) (ordered : List LaneIndexEntry) (n : ℕ)
      → page_start lib epoch (some p) ordered ≡ ok (some n)
      → p.project_read_epoch_digest ≡ epoch.epoch_digest
  unfolding page_start
  page_start-epoch epoch p ordered n h =
      ground (arith, ==_iff p.project_read_epoch_digest epoch.epoch_digest)

  page_result-epoch :
      (contract : String) (given epoch : ProjectReadEpoch) (ordered page : List LaneIndexEntry)
      (next : Option Cursor)
      → (page_result lib plan contract s given ordered page next).project_read_epoch ≡ some epoch
      → (given ≡ epoch)
        × ((page_result lib plan contract s given ordered page next).normalized_read_contract_digest
            ≡ some contract)
  unfolding page_result
  page_result-epoch contract given epoch ordered page next h = ground arith

  page_of-epoch :
      (contract : String) (p : CursorPayload) (page : ProjectStatusInspection)
      (given epoch : ProjectReadEpoch) (ordered : List LaneIndexEntry)
      → page_of lib plan limit contract s given (some p) ordered ≡ ok page
      → page.project_read_epoch ≡ some epoch
      → (p.project_read_epoch_digest ≡ epoch.epoch_digest)
        × (page.normalized_read_contract_digest ≡ some contract)
  unfolding page_of
  page_of-epoch contract p page given epoch ordered h e =
      let (found, started, rest) = >>=-eq-ok (page_start lib given (some p) ordered) _ h in
      elim (Option-cases found) [
        | inl stale ↦ absurd (ground arith)
        | inr (n, here) ↦
            let starts = page_start-epoch given p ordered n (started ∙ ap ok here) in
            let page_source = take limit (drop n ordered) in
            elim (Result-cases
              (next_cursor_of lib given.epoch_digest contract n page_source ordered)) [
                | inl (failure, failed) ↦ absurd (ground arith)
                | inr (next, known) ↦
                    let result = page_result-epoch contract given epoch ordered page_source next in
                    ground arith
              ]
      ]

  -- A page that carries an epoch carries that of its snapshot, and its cursor names it.
  snapshot_page :
      (contract : String) (p : CursorPayload) (page : ProjectStatusInspection)
      (epoch : ProjectReadEpoch)
      → read_snapshot lib plan limit contract (some p) s ≡ ok page
      → page.project_read_epoch ≡ some epoch
      → (p.project_read_epoch_digest ≡ epoch.epoch_digest)
        × (page.normalized_read_contract_digest ≡ some contract)
  unfolding read_snapshot
  snapshot_page contract p page epoch h e = elim (Option-cases s.inspection.epoch) [
    | inl absent ↦ absurd (ground arith)
    | inr (given, there) ↦ elim (Option-cases (select_entries plan s)) [
      | inl refused ↦ absurd (ground arith)
      | inr (ordered, selected) ↦ page_of-epoch contract p page given epoch ordered (ground arith) e
    ]
  ]

-- If a read with a cursor returns a page that carries an epoch, then the cursor was written for that
-- epoch and for the read contract that the page reports.
pub read_status-CursorOf :
    (lib : Encodings) (plan : StatusSelectorPlan) (limit : ℕ) (value : Cursor)
    (s : ProjectReadEpochSnapshot) (page : ProjectStatusInspection) (epoch : ProjectReadEpoch)
    → read_status lib plan limit (some value) s ≡ ok page
    → page.project_read_epoch ≡ some epoch
    → (contract : String) × (p : CursorPayload) × CursorOf lib value page epoch contract p
unfolding read_status
read_status-CursorOf lib plan limit value s page epoch h e =
    elim (Result-cases (contract_of lib plan limit)) [
      | inl (failure, failed) ↦ absurd (ground arith)
      | inr (contract, made) ↦ elim (Result-cases (decode_cursor lib value contract)) [
        | inl (failure, failed) ↦ absurd (ground arith)
        | inr (decoded, known) ↦ elim (Option-cases decoded) [
          | inl stale ↦ absurd (ground arith)
          | inr (p, there) ↦
              let q = snapshot_page lib plan limit s contract p page epoch (ground arith) e in
              (
                contract,
                p,
                record {
                  decoded = known ∙ ap ok there;
                  same_contract = decode_cursor-contract lib value contract p (known ∙ ap ok there);
                  same_epoch = q.0;
                  page_contract = q.1;
                },
              )
        ]
      ]
    ]
