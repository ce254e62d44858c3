-- ===== src/StrictJson/Tests.antt =====
-- A value with a flaw, two tokens of integers, and the theorems at them.
use ask_herdr.Base.{
  ℕ, ◌≤◌, ◌<◌, ◌≡◌, refl, true, List, [], ◌∷◌, ◌++◌, codes, ok, raised, strict_json_error,
}
use ask_herdr.StrictJson.Values.{pos, Json, integer, text, array, item, end_items}
use ask_herdr.StrictJson.Canonical.{Encoder, safe_integer_max}
use ask_herdr.StrictJson.Integers.{value_from, signed, parse_integer, parse_integer_bounds}

abbrev encoder : Encoder
encoder = record { quote = λ s. b'"' ∷ (codes s ++ b'"' ∷ []); decimal = λ n. b'0' ∷ [] }

-- An array whose second item is out of range.
abbrev out_of_range : Json
out_of_range = array (item (text "lane") (item (integer (pos 9_007_199_254_740_992)) end_items))

abbrev token : List ℕ
token = codes "9007199254740992"

parse_integer_bounds_example :
    ((value_from 0 token ≤ safe_integer_max)
      → (parse_integer token ≡ ok (pos (value_from 0 token)))
        × (parse_integer (b'-' ∷ token) ≡ ok (signed true (value_from 0 token))))
    × ((safe_integer_max < value_from 0 token)
        → (parse_integer token ≡ raised (strict_json_error "json.integer_out_of_range"))
          × (parse_integer (b'-' ∷ token) ≡ raised (strict_json_error "json.integer_out_of_range")))
parse_integer_bounds_example = parse_integer_bounds token refl
