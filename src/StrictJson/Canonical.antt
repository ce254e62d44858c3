-- ===== src/StrictJson/Canonical.antt =====
-- `canonical_json` of lib/ask_herdr_json.py. The standard library's forms of one text and of one
-- integer are parameters. A text is a sequence of Unicode scalars: a Python text with a lone surrogate, which
-- `_validate_unicode_scalars` refuses, is no value of the model.
use Prim.Native.Nat.{◌/◌, ◌%◌}
use ask_herdr.Base.{
  ℕ, ◌+◌, ◌-◌, String, Bool, true, false, ◌&&◌, ◌||◌, List, [], ◌∷◌, ◌++◌, codes, ltb, leb, ◌==◌,
  nat_eq, if◌then◌else◌, Result, ok, strict_json_error, guard, ◌>>=◌, ◌>>◌,
}
use ask_herdr.Base.Sorting.{sorted}
use ask_herdr.StrictJson.Values.{
  ℤ, pos, negsuc, Json, null, boolean, integer, text, array, object, Items, end_items, item, Fields,
  end_fields, field,
}

-- Bytes as their values.
abbrev pub Bytes : Type 0
Bytes = List ℕ

-- `json.dumps(value, ensure_ascii=False).encode("utf-8")` and `str(value).encode("ascii")`.
pub record Encoder : Type 0 where
  pub quote : String → Bytes
  pub decimal : ℤ → Bytes

-- `SAFE_INTEGER_MAX`
abbrev pub safe_integer_max : ℕ
safe_integer_max = 9_007_199_254_740_991

abbrev pub in_safe_range : ℤ → Bool
in_safe_range (pos n) = leb n safe_integer_max
in_safe_range (negsuc n) = ltb n safe_integer_max

-- `key.encode("utf-16-be")`
abbrev pub utf_16_be : List ℕ → Bytes
utf_16_be [] = []
utf_16_be (c ∷ cs) =
    let rest = utf_16_be cs in
    if ltb c 0x10000
    then c / 256 ∷ c % 256 ∷ rest
    else (0xD800 + (c - 0x10000) / 1024) / 256
      ∷ (0xD800 + (c - 0x10000) / 1024) % 256
      ∷ (0xDC00 + (c - 0x10000) % 1024) / 256
      ∷ (0xDC00 + (c - 0x10000) % 1024) % 256
      ∷ rest

-- `<` of two byte strings
abbrev pub bytes_less : Bytes → Bytes → Bool
bytes_less [] [] = false
bytes_less [] (y ∷ ys) = true
bytes_less (x ∷ xs) [] = false
bytes_less (x ∷ xs) (y ∷ ys) = ltb x y || (x == y && bytes_less xs ys)

abbrev pub key_less : String × Result Bytes → String × Result Bytes → Bool
key_less (a, _) (b, _) = bytes_less (utf_16_be (codes a)) (utf_16_be (codes b))

-- `b",".join(...)` of calls that may raise, the first of which decides.
unfoldable pub joined : List (Result Bytes) → Result Bytes
joined [] = ok []
joined (r ∷ []) = r
joined (r ∷ (s ∷ rs)) = r >>= λ first. joined (s ∷ rs) >>= λ rest. ok (first ++ b',' ∷ rest)

module _ (encoder : Encoder) where
  -- `_quoted` of a text of Unicode scalars.
  abbrev pub quoted : String → Result Bytes
  quoted value = ok (encoder.quote value)

  -- A key and its value, once both are encoded.
  abbrev pub member : String × Result Bytes → Result Bytes
  member (key, value) = quoted key >>= λ name. value >>= λ written. ok (name ++ b':' ∷ written)

  abbrev pub members : List (String × Result Bytes) → List (Result Bytes)
  members [] = []
  members (entry ∷ entries) = member entry ∷ members entries

  abbrev pub enclosed : ℕ → ℕ → Result Bytes → Result Bytes
  enclosed opening closing body = body >>= λ written. ok (opening ∷ (written ++ closing ∷ []))

  unfoldable mutual
    -- `canonical_json`; what it gives for the items and the values of the fields stands in their order.
    pub canonical_json : Json → Result Bytes
    canonical_json null = ok (codes "null")
    canonical_json (boolean b) = ok (if b then codes "true" else codes "false")
    canonical_json (integer n) =
        guard (in_safe_range n) (strict_json_error "json.integer_out_of_range")
        >> ok (encoder.decimal n)
    canonical_json (text value) = quoted value
    canonical_json (array items) = enclosed b'[' b']' (joined (encoded_items items))
    canonical_json (object fields) =
        enclosed b'{' b'}' (joined (members (sorted key_less (encoded_fields fields))))

    pub encoded_items : Items → List (Result Bytes)
    encoded_items end_items = []
    encoded_items (item value rest) = canonical_json value ∷ encoded_items rest

    pub encoded_fields : Fields → List (String × Result Bytes)
    encoded_fields end_fields = []
    encoded_fields (field name value rest) = (name, canonical_json value) ∷ encoded_fields rest
