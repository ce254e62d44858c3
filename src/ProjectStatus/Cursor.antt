-- ===== src/ProjectStatus/Cursor.antt =====
-- The metadata cursor of lib/ask_herdr_project_status.py. A cursor is the list of its characters'
-- codes.
use Prim.Native.Nat.{◌%◌}
use ask_herdr.Base.{
  ℕ, ◌+◌, ◌-◌, String, Bool, false, not, ◌&&◌, ◌||◌, Option, none, some, List, [], ◌∷◌, ◌++◌, any,
  codes, length, fullmatch_plus, in_range, ltb, leb, ◌==◌, ◌/=◌, string_eq, nat_eq, if◌then◌else◌,
  Result, ok, raised, strict_json_error, guard, ◌>>=◌, ◌>>◌, eq_of_discrete, Eq,
}
use native.Mathlib.Decide.{ℕ_discrete}
use ask_herdr.Base.Slices.{replicate}
use ask_herdr.LaneTurn.Guards.{is_digest}
use ask_herdr.StrictJson.Values.{
  Json, text, array, object, end_items, item, Fields, end_fields, field, get_field, field_names,
}
use ask_herdr.StrictJson.Canonical.{canonical_json}
use ask_herdr.StrictJson.Digest.{Encodings, digest}

abbrev pub Cursor : Type 0
Cursor = List ℕ

unfoldable pub codes-discrete : Discrete (List ℕ)
codes-discrete = hlevel ℕ_discrete

instance abbrev pub codes_eq : Eq (List ℕ)
codes_eq = eq_of_discrete codes-discrete

abbrev pub cursor_prefix : Cursor
cursor_prefix = codes "mcv1."

abbrev pub maximum_cursor_bytes : ℕ
maximum_cursor_bytes = 1024

-- `{"field": field, "direction": "ascending"}`, the keys in ascending order.
abbrev pub ascending : String → Json
ascending name =
    object (field "direction" (text "ascending") (field "field" (text name) end_fields))

-- `_ordering_digest`
unfoldable pub ordering_digest : Encodings → Result String
ordering_digest lib = digest lib (
    object (
      field "order"
        (array (item (ascending "lane_id") (item (ascending "lane_generation") end_items)))
        (field "schema" (text "ask_herdr.query.status.ordering.identity.v1") end_fields)))

-- The digests that a cursor carries beside its schema and its binding.
pub record CursorPayload : Type 0 where
  pub project_read_epoch_digest : String
  pub normalized_read_contract_digest : String
  pub ordering_digest : String
  pub last_identity_digest : String

-- `_cursor_identity`
abbrev pub cursor_identity : CursorPayload → Json
cursor_identity p = object (
    field "last_identity_digest" (text p.last_identity_digest) (
      field "normalized_read_contract_digest" (text p.normalized_read_contract_digest) (
        field "ordering_digest" (text p.ordering_digest) (
          field "project_read_epoch_digest" (text p.project_read_epoch_digest)
            (field "schema" (text "ask_herdr.metadata_cursor.identity.v1") end_fields)))))

-- The whole payload, the keys in ascending order.
abbrev pub payload_fields : CursorPayload → String → Fields
payload_fields p binding = field "cursor_binding_digest" (text binding) (
    field "last_identity_digest" (text p.last_identity_digest) (
      field "normalized_read_contract_digest" (text p.normalized_read_contract_digest) (
        field "ordering_digest" (text p.ordering_digest) (
          field "project_read_epoch_digest" (text p.project_read_epoch_digest)
            (field "schema" (text "ask_herdr.metadata_cursor.v1") end_fields)))))

abbrev pub padding_sign : ℕ
padding_sign = b'='

-- `text.rstrip("=")`
abbrev pub without_padding : List ℕ → List ℕ
without_padding [] = []
without_padding (c ∷ cs) =
    let rest = without_padding cs in
    elim rest [ [] ↦ if c == padding_sign then [] else c ∷ [] | (d ∷ ds) ↦ c ∷ d ∷ ds ]

-- `"=" * ((4 - len(encoded) % 4) % 4)`
abbrev pub padding : List ℕ → List ℕ
padding encoded = replicate ((4 - length encoded % 4) % 4) padding_sign

-- `[A-Za-z0-9_-]`
abbrev pub is_url_char : ℕ → Bool
is_url_char c =
    in_range b'A' b'Z' c
    || (in_range b'a' b'z' c || (in_range b'0' b'9' c || (c == b'_' || c == b'-')))

-- `len(value.encode("utf-8"))`
abbrev pub utf_8_size : List ℕ → ℕ
utf_8_size [] = 0
utf_8_size (c ∷ cs) =
    (if ltb c 0x80 then 1 else if ltb c 0x800 then 2 else if ltb c 0x10000 then 3 else 4)
    + utf_8_size cs

-- What follows the prefix, if the text starts with it.
abbrev pub after_prefix : List ℕ → List ℕ → Option (List ℕ)
after_prefix [] value = some value
after_prefix (p ∷ ps) [] = none
after_prefix (p ∷ ps) (c ∷ cs) = let rest = after_prefix ps cs in if p == c then rest else none

abbrev pub expected_fields : List String
expected_fields =
    "cursor_binding_digest" ∷ "last_identity_digest" ∷ "normalized_read_contract_digest"
    ∷ "ordering_digest" ∷ "project_read_epoch_digest" ∷ "schema" ∷ []

-- `set(names) == set(expected)`
abbrev pub same_names : List String → List String → Bool
same_names names expected =
    not (any (λ n. not (any (λ e. n == e) expected)) names)
    && not (any (λ e. not (any (λ n. n == e) names)) expected)

-- The value of a field that is a text in the form of a digest.
abbrev pub digest_field : String → Fields → Option String
digest_field key fields = elim (get_field key fields) [
  | some (text value) ↦ if is_digest value then some value else none
  | _ ↦ none
]

abbrev pub is_cursor_schema : Option Json → Bool
is_cursor_schema (some (text value)) = value == "ask_herdr.metadata_cursor.v1"
is_cursor_schema _ = false

-- The field, schema and digest tests of `_decode_cursor`, with the payload and its binding.
unfoldable pub payload_of : Fields → Option (CursorPayload × String)
payload_of fields =
    if same_names (field_names fields) expected_fields
      && is_cursor_schema (get_field "schema" fields)
    then elim (digest_field "project_read_epoch_digest" fields) [
      | none ↦ none
      | some epoch ↦ elim (digest_field "normalized_read_contract_digest" fields) [
        | none ↦ none
        | some contract ↦ elim (digest_field "ordering_digest" fields) [
          | none ↦ none
          | some ordering ↦ elim (digest_field "last_identity_digest" fields) [
            | none ↦ none
            | some last ↦ elim (digest_field "cursor_binding_digest" fields) [
              | none ↦ none
              | some binding ↦ some (
                record {
                  project_read_epoch_digest = epoch;
                  normalized_read_contract_digest = contract;
                  ordering_digest = ordering;
                  last_identity_digest = last;
                },
                binding,
              )
            ]
          ]
        ]
      ]
    ]
    else none

module _ (lib : Encodings) where
  -- `_encode_cursor`
  unfoldable pub encode_cursor : String → String → String → Result Cursor
  encode_cursor epoch_digest read_contract_digest last_identity_digest =
      ordering_digest lib >>= λ ordering.
      let p : CursorPayload = record {
        project_read_epoch_digest = epoch_digest;
        normalized_read_contract_digest = read_contract_digest;
        ordering_digest = ordering;
        last_identity_digest = last_identity_digest;
      } in
      digest lib (cursor_identity p) >>= λ binding.
      canonical_json lib.encoder (object (payload_fields p binding)) >>= λ raw.
      let cursor = cursor_prefix ++ without_padding (lib.b64encode raw) in
      guard (leb (length cursor) maximum_cursor_bytes)
        (strict_json_error "query_status.cursor_too_large")
      >> ok cursor

  -- The bytes that a cursor spells in the only canonical way, and the object that they write.
  unfoldable pub decode_object : List ℕ → Option Fields
  decode_object encoded = elim (lib.b64decode (encoded ++ padding encoded)) [
    | none ↦ none
    | some raw ↦
        if without_padding (lib.b64encode raw) /= encoded
        then none
        else elim (lib.parse_object raw) [
          | none ↦ none
          | some fields ↦ elim (canonical_json lib.encoder (object fields)) [
            | raised _ ↦ none
            | ok written ↦ if written /= raw then none else some fields
          ]
        ]
  ]

  -- The tests of `_decode_cursor` against the present contract, ordering and binding.
  unfoldable pub check_payload : String → CursorPayload → String → Result (Option CursorPayload)
  check_payload read_contract_digest p binding =
      if p.normalized_read_contract_digest /= read_contract_digest
      then ok none
      else ordering_digest lib >>= λ ordering.
          if p.ordering_digest /= ordering
          then ok none
          else digest lib (cursor_identity p) >>= λ expected.
              ok (if binding /= expected then none else some p)

  -- `_decode_cursor`
  unfoldable pub decode_cursor : Cursor → String → Result (Option CursorPayload)
  decode_cursor value read_contract_digest = elim (after_prefix cursor_prefix value) [
    | none ↦ ok none
    | some encoded ↦
        if leb 1 (utf_8_size value)
          && (leb (utf_8_size value) maximum_cursor_bytes && fullmatch_plus is_url_char encoded)
        then elim (decode_object encoded) [
          | none ↦ ok none
          | some fields ↦ elim (payload_of fields) [
            | none ↦ ok none
            | some (p, binding) ↦ check_payload read_contract_digest p binding
          ]
        ]
        else ok none
  ]
