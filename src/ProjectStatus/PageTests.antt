-- ===== src/ProjectStatus/PageTests.antt =====
-- A project with two generations of a lane, read in pages of one entry, with encodings that know the two
-- cursors of this project.
use mathlib.Core.Bool.{decide}
use native.Mathlib.Decide.{ℕ_discrete}
use ask_herdr.Base.{
  ℕ, String, ◌≡◌, refl, Bool, none, some, [], ◌∷◌, ◌++◌, List, arith, length, codes, ◌==◌, nat_eq,
  string_eq, option_eq, if◌then◌else◌, Result, ok, raised, fullmatch_plus,
}
use ask_herdr.Base.Slices.{get_elem?, replicate}
use ask_herdr.Base.Sorting.{sorted}
use mathlib.Core.List.{Perm}
use ask_herdr.LaneTurn.Guards.{is_digest}
use ask_herdr.StrictJson.Values.{ℤ, pos, negsuc, object}
use ask_herdr.ProjectStatus.Stale.{CursorOf, read_status-CursorOf}
use ask_herdr.StrictJson.Canonical.{Bytes, Encoder, canonical_json, joined}
use ask_herdr.StrictJson.Digest.{Encodings, digest}
use ask_herdr.ReadEpoch.Entries.{LaneIndexEntry}
use ask_herdr.ReadEpoch.Acquire.{ProjectReadEpoch, ProjectReadEpochSnapshot}
use ask_herdr.ProjectStatus.Cursor.{
  Cursor, codes_eq, codes-discrete, CursorPayload, payload_fields, ordering_digest, encode_cursor,
  decode_cursor, decode_object, check_payload, payload_of,
}
use ask_herdr.ProjectStatus.RoundTrip.{CursorWorks, decode_cursor-encode_cursor}
use ask_herdr.ProjectStatus.Select.{select_entries, keep}
use ask_herdr.ProjectStatus.Pages.{
  ProjectStatusInspection, read_status, read_snapshot, page_of, page_start, page_result,
  next_cursor_of, heads, contract_of, lane_identity_digest, read_contract_digest,
}
use ask_herdr.ProjectStatus.Select.{plan_identity}
use ask_herdr.ProjectStatus.Readers.{project_plan, lane_plan}
use ask_herdr.ProjectStatus.Enumeration.{Reading, payload_behind, read_pages, read_pages_complete}
use ask_herdr.ProjectStatus.Order.{Ascending, select_entries-project}

abbrev ones : String
ones = "1111111111111111111111111111111111111111111111111111111111111111"

abbrev twos : String
twos = "2222222222222222222222222222222222222222222222222222222222222222"

abbrev first_digest : String
first_digest = "sha256:1111111111111111111111111111111111111111111111111111111111111111"

abbrev second_digest : String
second_digest = "sha256:2222222222222222222222222222222222222222222222222222222222222222"

abbrev lane_uuid : String
lane_uuid = "00000000-0000-4000-8000-00000000000c"

abbrev first_lane : LaneIndexEntry
first_lane = record {
  lane_id = lane_uuid;
  lane_generation = 1;
  lane_binding_digest = first_digest;
  event_sequence = 3;
  event_digest = first_digest;
  state_digest = first_digest;
  response_digest = none;
}

abbrev second_lane : LaneIndexEntry
second_lane = record first_lane { lane_generation = 2 }

abbrev epoch : ProjectReadEpoch
epoch = record {
  schema = "ask_herdr.project_read_epoch.v1";
  project_authority_id = "project-1";
  authority_store_head_digest = first_digest;
  project_state_digest = first_digest;
  lane_index_digest = first_digest;
  topology_ledger_head_digest = first_digest;
  observed_at = "2026-03-01T10:00:00.000000Z";
  acquisition_attempt = 1;
  epoch_digest = second_digest;
}

abbrev snapshot : ProjectReadEpochSnapshot
snapshot = record {
  inspection = record {
    status = "active";
    detail_code = "project_read_epoch.active";
    epoch = some epoch;
  };
  lane_entries = second_lane ∷ first_lane ∷ [];
  topology_key_entries = [];
  authority_operation_entries = [];
  topology_operation_entries = [];
}

abbrev unary : ℤ → Bytes
unary (pos n) = replicate n b'1'
unary (negsuc n) = b'-' ∷ []

abbrev encoder : Encoder
encoder = record { quote = λ s. b'"' ∷ (codes s ++ b'"' ∷ []); decimal = unary }

-- The digest of the second lane is the only one that differs.
abbrev hexdigest : Bytes → String
hexdigest bytes = if length bytes == 218 then twos else ones

abbrev first_payload : CursorPayload
first_payload = payload_behind epoch first_digest first_digest first_digest

abbrev second_payload : CursorPayload
second_payload = payload_behind epoch first_digest first_digest second_digest

abbrev bytes_of : Result Bytes → Bytes
bytes_of (ok bytes) = bytes
bytes_of (raised failure) = []

first_raw : Bytes
unfolding canonical_json joined sorted
first_raw = bytes_of (canonical_json encoder (object (payload_fields first_payload first_digest)))

second_raw : Bytes
unfolding canonical_json joined sorted
second_raw = bytes_of (canonical_json encoder (object (payload_fields second_payload first_digest)))

-- The first character of the last identity's digest.
abbrev names_first : Bytes → Bool
names_first raw = get_elem? raw 130 == some b'1'

abbrev first_body : List ℕ
first_body = codes "AA"

abbrev second_body : List ℕ
second_body = codes "BBB"

-- With two padding signs, and with one.
abbrev first_encoded : List ℕ
first_encoded = codes "AA=="

abbrev second_encoded : List ℕ
second_encoded = codes "BBB="

unfoldable encodings : Encodings
unfolding first_raw second_raw
encodings = record {
  encoder = encoder;
  hexdigest = hexdigest;
  parse_object = λ raw.
      if names_first raw
      then some (payload_fields first_payload first_digest)
      else some (payload_fields second_payload first_digest);
  b64encode = λ raw. if names_first raw then first_encoded else second_encoded;
  b64decode = λ cs.
      if cs == first_encoded
      then some first_raw
      else if cs == second_encoded
      then some second_raw
      else none;
}

abbrev identity : LaneIndexEntry → String
identity e = if e.lane_generation == 1 then first_digest else second_digest

first_identity : lane_identity_digest encodings first_lane ≡ ok first_digest
unfolding lane_identity_digest digest encodings canonical_json joined sorted
first_identity = refl

second_identity : lane_identity_digest encodings second_lane ≡ ok second_digest
unfolding lane_identity_digest digest encodings canonical_json joined sorted
second_identity = refl

first_works : CursorWorks encodings first_payload
unfolding encodings first_raw second_raw canonical_json joined sorted digest ordering_digest
    is_digest codes-discrete decide ℕ_discrete fullmatch_plus
first_works = record {
  binding = first_digest;
  raw = first_raw;
  body = first_body;
  decodable = record {
    written = refl;
    signs = 2;
    few = ground arith;
    padded = refl;
    quads = refl;
    alphabet = refl;
    decoded = refl;
    parsed = refl;
  };
  digests = record {
    epoch = refl;
    contract = refl;
    ordering = refl;
    last = refl;
    binding_valid = refl;
  };
  ordered = refl;
  bound = refl;
  fits = ground arith;
}

second_works : CursorWorks encodings second_payload
unfolding encodings first_raw second_raw canonical_json joined sorted digest ordering_digest
    is_digest codes-discrete decide ℕ_discrete fullmatch_plus
second_works = record {
  binding = first_digest;
  raw = second_raw;
  body = second_body;
  decodable = record {
    written = refl;
    signs = 1;
    few = ground arith;
    padded = refl;
    quads = refl;
    alphabet = refl;
    decoded = refl;
    parsed = refl;
  };
  digests = record {
    epoch = refl;
    contract = refl;
    ordering = refl;
    last = refl;
    binding_valid = refl;
  };
  ordered = refl;
  bound = refl;
  fits = ground arith;
}

decode_cursor-encode_cursor_example :
    (cursor : Cursor) × (encode_cursor encodings second_digest first_digest second_digest
      ≡ ok cursor)
    × (decode_cursor encodings cursor first_digest ≡ ok (some second_payload))
decode_cursor-encode_cursor_example =
    decode_cursor-encode_cursor encodings second_payload second_works.binding second_works.raw
      second_works.body second_works.decodable second_works.digests second_works.ordered
      second_works.bound second_works.fits

two_lanes : select_entries project_plan snapshot ≡ some (first_lane ∷ second_lane ∷ [])
unfolding select_entries sorted codes-discrete decide ℕ_discrete
two_lanes = refl

reading : Reading encodings project_plan 1 snapshot (first_lane ∷ second_lane ∷ [])
unfolding contract_of plan_identity read_contract_digest digest encodings canonical_json joined
    sorted
reading = record {
  epoch = epoch;
  contract = first_digest;
  ordering = first_digest;
  identity = identity;
  acquired = refl;
  active = refl;
  limited = refl;
  contracted = refl;
  selected = two_lanes;
  identified = (first_identity, (second_identity, tt));
  distinct_identities = refl;
}

-- Three reads of one entry each are allowed, and the first two find both lanes.
read_pages_complete_example :
    read_pages encodings project_plan 1 snapshot 3 none ≡ ok (heads (first_lane ∷ second_lane ∷ []))
unfolding reading
read_pages_complete_example =
    read_pages_complete encodings project_plan 1 snapshot (first_lane ∷ second_lane ∷ []) reading
      (first_works, (second_works, tt))

-- A project with another lane, whose id is greater, and the two generations.
abbrev other_lane : LaneIndexEntry
other_lane = record first_lane { lane_id = "f0000000-0000-4000-8000-000000000001" }

abbrev two_ids : ProjectReadEpochSnapshot
two_ids = record snapshot { lane_entries = other_lane ∷ second_lane ∷ first_lane ∷ [] }

all_entries :
    select_entries project_plan two_ids ≡ some (first_lane ∷ second_lane ∷ other_lane ∷ [])
unfolding select_entries sorted codes-discrete decide ℕ_discrete
all_entries = refl

one_lane :
    select_entries (lane_plan first_lane.lane_id) two_ids ≡ some (first_lane ∷ second_lane ∷ [])
unfolding select_entries sorted codes-discrete decide ℕ_discrete
one_lane = refl

select_entries-project_example :
    Ascending (first_lane ∷ second_lane ∷ other_lane ∷ [])
    × Perm (first_lane ∷ second_lane ∷ other_lane ∷ []) (other_lane ∷ second_lane ∷ first_lane ∷ [])
    × Ascending (first_lane ∷ second_lane ∷ [])
    × (◌≡◌ {A = List LaneIndexEntry}
        (first_lane ∷ second_lane ∷ [])
        (keep (λ e. e.lane_id == first_lane.lane_id) (first_lane ∷ second_lane ∷ other_lane ∷ [])))
select_entries-project_example =
    select_entries-project two_ids first_lane.lane_id (first_lane ∷ second_lane ∷ other_lane ∷ [])
      (first_lane ∷ second_lane ∷ []) all_entries one_lane

-- The second page, read with the cursor behind the first lane.
abbrev second_cursor : Cursor
second_cursor = codes "mcv1.AA"

abbrev second_page : ProjectStatusInspection
second_page = record {
  status = "active";
  detail_code = "query_status.active";
  normalized_read_contract_digest = some first_digest;
  project_read_epoch = some epoch;
  entries = heads (second_lane ∷ []);
  next_cursor = none;
  operation_metadata = none;
}

second_read : read_status encodings project_plan 1 (some second_cursor) snapshot ≡ ok second_page
unfolding read_status read_snapshot page_of page_start page_result next_cursor_of decode_cursor
    decode_object check_payload payload_of select_entries contract_of plan_identity
    read_contract_digest lane_identity_digest encodings first_raw second_raw canonical_json joined
    sorted digest ordering_digest is_digest codes-discrete decide ℕ_discrete fullmatch_plus
second_read = refl

read_status-CursorOf_example :
    (contract : String) × (p : CursorPayload) × CursorOf encodings second_cursor second_page epoch
      contract p
read_status-CursorOf_example =
    read_status-CursorOf encodings project_plan 1 second_cursor snapshot second_page epoch
      second_read refl
