-- ===== src/ProjectStatus/RoundTrip.antt =====
-- The round trip of the cursor of lib/ask_herdr_project_status.py.
use Prim.Native.Nat.{◌%◌}
use ask_herdr.Base.{
  ap, ◌∙◌, ℕ, zero, suc, ◌+◌, ◌≤◌, ◌≡◌, refl, sym, String, true, some, List, [], ◌∷◌, ◌++◌, length,
  fullmatch_plus, ==_refl, string_eq, nat_eq, ok, arith,
}
use ask_herdr.Base.Slices.{replicate}
use ask_herdr.LaneTurn.Guards.{is_digest}
use ask_herdr.StrictJson.Values.{object, Fields}
use ask_herdr.StrictJson.Canonical.{canonical_json}
use ask_herdr.StrictJson.Digest.{Encodings, digest}
use ask_herdr.ProjectStatus.Cursor.{
  Cursor, codes_eq, cursor_prefix, ordering_digest, CursorPayload, cursor_identity, payload_fields,
  padding_sign, without_padding, padding, is_url_char, utf_8_size, payload_of, encode_cursor,
  decode_object, check_payload, decode_cursor, maximum_cursor_bytes,
}

-- The characters of base64 without its padding.
abbrev pub IsUrlText : List ℕ → Type 0
IsUrlText cs = fullmatch_plus is_url_char cs ≡ true

without_padding-replicate : (n : ℕ) → without_padding (replicate n padding_sign) ≡ []
without_padding-replicate zero = refl
without_padding-replicate (suc n) = let rest = without_padding-replicate n in ground arith

-- Removing the padding of a text that has no padding sign of its own gives back that text.
without_padding-padded :
    (cs : List ℕ) (n : ℕ) → IsUrlText cs → without_padding (cs ++ replicate n padding_sign) ≡ cs
unfolding fullmatch_plus
without_padding-padded [] n h = absurd (ground arith)
without_padding-padded (c ∷ []) n h = let rest = without_padding-replicate n in ground arith
without_padding-padded (c ∷ (d ∷ cs)) n h =
    let rest = without_padding-padded (d ∷ cs) n in ground arith

-- A base64 text is ASCII.
utf_8_size-url : (cs : List ℕ) → IsUrlText cs → utf_8_size cs ≡ length cs
unfolding fullmatch_plus
utf_8_size-url [] h = refl
utf_8_size-url (c ∷ []) h = ground arith
utf_8_size-url (c ∷ (d ∷ cs)) h = let rest = utf_8_size-url (d ∷ cs) in ground arith

-- The five digests of a payload have the form of a digest.
pub record HasDigests (p : CursorPayload) (binding : String) : Type 0 where
  pub epoch : is_digest p.project_read_epoch_digest ≡ true
  pub contract : is_digest p.normalized_read_contract_digest ≡ true
  pub ordering : is_digest p.ordering_digest ≡ true
  pub last : is_digest p.last_identity_digest ≡ true
  pub binding_valid : is_digest binding ≡ true

-- What the standard library's encodings do to the bytes of one payload: base64 writes characters of its
-- alphabet and then at most two padding signs, so that the length is a multiple of four, and both
-- decoders give back what was encoded.
pub record IsDecodable (lib : Encodings) (fields : Fields) (raw body : List ℕ) : Type 0 where
  pub written : canonical_json lib.encoder (object fields) ≡ ok raw
  pub signs : ℕ
  pub few : signs ≤ 2
  pub padded : lib.b64encode raw ≡ body ++ replicate signs padding_sign
  pub quads : (length body + signs) % 4 ≡ 0
  pub alphabet : IsUrlText body
  pub decoded : lib.b64decode (lib.b64encode raw) ≡ some raw
  pub parsed : lib.parse_object raw ≡ some fields

-- At most two signs that complete a length to a multiple of four are those that the code puts back.
padding-replicate :
    (body : List ℕ) (signs : ℕ)
    → signs ≤ 2
    → (length body + signs) % 4 ≡ 0
    → replicate signs padding_sign ≡ padding body
padding-replicate body signs few quads = ap (λ n. replicate n padding_sign) (omega arith)

-- The payload that is written is read back from its fields.
payload_of-fields :
    (p : CursorPayload) (binding : String)
    → HasDigests p binding
    → payload_of (payload_fields p binding) ≡ some (p, binding)
unfolding payload_of
payload_of-fields p binding h = rw (h.epoch, h.contract, h.ordering, h.last, h.binding_valid) refl

module _ (lib : Encodings) (p : CursorPayload) (binding : String) (raw body : List ℕ)
    (written : IsDecodable lib (payload_fields p binding) raw body) where
  -- What base64 wrote of the payload, without its padding.
  unpadded : without_padding (lib.b64encode raw) ≡ body
  unpadded = rw written.padded (without_padding-padded body _ written.alphabet)

  repadded : lib.b64encode raw ≡ body ++ padding body
  repadded =
      written.padded
      ∙ ap (λ p. body ++ p) (padding-replicate body written.signs written.few written.quads)

  decode_object-body : decode_object lib body ≡ some (payload_fields p binding)
  unfolding decode_object
  decode_object-body =
      let decoded : lib.b64decode (body ++ padding body) ≡ some raw =
        rw (sym repadded) written.decoded in
      ground (arith, unpadded, ==_refl body, ==_refl raw)

  module _ (has : HasDigests p binding) (ordered : ordering_digest lib ≡ ok p.ordering_digest)
      (bound : digest lib (cursor_identity p) ≡ ok binding) where
    check_payload-own : check_payload lib p.normalized_read_contract_digest p binding ≡ ok (some p)
    unfolding check_payload
    check_payload-own =
        rw
          (
            ==_refl p.normalized_read_contract_digest,
            ordered,
            ==_refl p.ordering_digest,
            bound,
            ==_refl binding,
          )
          refl

    -- A cursor of at most 1,024 bytes that was written for an epoch, a read contract and a last
    -- identity is read back as exactly these, under the same read contract, where the encodings decode
    -- what they wrote of its payload.
    pub decode_cursor-encode_cursor :
        length body + 5 ≤ maximum_cursor_bytes
        → (cursor : Cursor) × (encode_cursor lib p.project_read_epoch_digest
              p.normalized_read_contract_digest p.last_identity_digest
            ≡ ok cursor)
          × (decode_cursor lib cursor p.normalized_read_contract_digest ≡ ok (some p))
    unfolding encode_cursor decode_cursor
    decode_cursor-encode_cursor fits =
        let ascii = utf_8_size-url body written.alphabet in
        let own = check_payload-own in
        (
          cursor_prefix ++ body,
          ground (arith, unpadded),
          ground (arith, decode_object-body, payload_of-fields p binding has),
        )

-- A payload for which the encodings work, with its binding and its bytes.
pub record CursorWorks (lib : Encodings) (p : CursorPayload) : Type 0 where
  pub binding : String
  pub raw : List ℕ
  pub body : List ℕ
  pub decodable : IsDecodable lib (payload_fields p binding) raw body
  pub digests : HasDigests p binding
  pub ordered : ordering_digest lib ≡ ok p.ordering_digest
  pub bound : digest lib (cursor_identity p) ≡ ok binding
  pub fits : length body + 5 ≤ maximum_cursor_bytes

pub CursorWorks-round_trip :
    (lib : Encodings) (p : CursorPayload)
    → CursorWorks lib p
    → (cursor : Cursor) × (encode_cursor lib p.project_read_epoch_digest
          p.normalized_read_contract_digest p.last_identity_digest
        ≡ ok cursor)
      × (decode_cursor lib cursor p.normalized_read_contract_digest ≡ ok (some p))
CursorWorks-round_trip lib p w =
    decode_cursor-encode_cursor lib p w.binding w.raw w.body w.decodable w.digests w.ordered w.bound
      w.fits
