-- ===== src/StrictJson/Digest.antt =====
-- `"sha256:" + hashlib.sha256(canonical_json(value)).hexdigest()`, the digest of a JSON value, with
-- what the standard library does as parameters.
use ask_herdr.Base.{ℕ, String, ◌<>◌, Option, List, Result, ok, ◌>>=◌}
use ask_herdr.StrictJson.Values.{Json, Fields}
use ask_herdr.StrictJson.Canonical.{Bytes, Encoder, canonical_json}

-- `hexdigest` is SHA-256 in hexadecimal. `parse_object` is what `json.loads` makes of the bytes of an
-- object, with the hooks of `parse_json_object`; `none` where that raises. The two functions on base64
-- are `urlsafe_b64encode` and `b64decode` with `validate=True` and that alphabet, over the characters
-- of a text; `none` where the latter raises.
pub record Encodings : Type 0 where
  pub encoder : Encoder
  pub hexdigest : Bytes → String
  pub parse_object : Bytes → Option Fields
  pub b64encode : Bytes → List ℕ
  pub b64decode : List ℕ → Option Bytes

-- `_digest`
unfoldable pub digest : Encodings → Json → Result String
digest lib value =
    canonical_json lib.encoder value >>= λ written. ok ("sha256:" <> lib.hexdigest written)
