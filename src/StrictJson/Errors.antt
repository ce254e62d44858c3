-- ===== src/StrictJson/Errors.antt =====
-- When `canonical_json` of lib/ask_herdr_json.py raises.
use Prim.Native.Nat.{◌^◌}
use ask_herdr.Base.{
  ◌+◌, leb, ◌≡◌, refl, String, Bool, true, false, not, ◌||◌, List, [], ◌∷◌, any, Result, ok, raised,
  arith,
}
use ask_herdr.Base.Sorting.{sorted, any-sorted}
use ask_herdr.StrictJson.Values.{
  ℤ, pos, negsuc, Json, null, boolean, integer, text, array, object, Items, end_items, item, Fields,
  end_fields, field,
}
use ask_herdr.StrictJson.Canonical.{
  Bytes, Encoder, in_safe_range, key_less, joined, member, members, canonical_json, encoded_items,
  encoded_fields,
}

abbrev pub is_raised : Result Bytes → Bool
is_raised (ok b) = false
is_raised (raised f) = true

-- A magnitude of 2 ^ 53 or more. A negative integer `negsuc n` is - (n + 1).
abbrev pub is_unsafe : ℤ → Bool
is_unsafe (pos n) = leb (2 ^ 53) n
is_unsafe (negsuc n) = leb (2 ^ 53) (n + 1)

-- A value that holds, at any depth, an integer of such a magnitude.
unfoldable mutual
  pub has_unsafe : Json → Bool
  has_unsafe null = false
  has_unsafe (boolean b) = false
  has_unsafe (integer n) = is_unsafe n
  has_unsafe (text value) = false
  has_unsafe (array items) = items_unsafe items
  has_unsafe (object fields) = fields_unsafe fields

  pub items_unsafe : Items → Bool
  items_unsafe end_items = false
  items_unsafe (item value rest) = has_unsafe value || items_unsafe rest

  pub fields_unsafe : Fields → Bool
  fields_unsafe end_fields = false
  fields_unsafe (field name value rest) = has_unsafe value || fields_unsafe rest

in_safe_range_iff : (n : ℤ) → not (in_safe_range n) ≡ is_unsafe n
in_safe_range_iff (pos n) = ground arith
in_safe_range_iff (negsuc n) = ground arith

is_raised-joined : (rs : List (Result Bytes)) → is_raised (joined rs) ≡ any is_raised rs
unfolding joined
is_raised-joined [] = refl
is_raised-joined (r ∷ []) = ground arith
is_raised-joined (r ∷ (s ∷ rs)) = let rest = is_raised-joined (s ∷ rs) in ground arith

module _ (encoder : Encoder) where
  entry_raised : String × Result Bytes → Bool
  entry_raised (key, value) = is_raised value

  is_raised-member : (e : String × Result Bytes) → is_raised (member encoder e) ≡ entry_raised e
  unfolding entry_raised
  is_raised-member (key, value) = ground arith

  any-members :
      (es : List (String × Result Bytes)) → any is_raised (members encoder es) ≡ any entry_raised es
  any-members [] = refl
  any-members (e ∷ es) = ground (arith, is_raised-member e, any-members es)

  mutual
    unfolding canonical_json entry_raised has_unsafe

    value_raises : (v : Json) → is_raised (canonical_json encoder v) ≡ has_unsafe v
    value_raises null = refl
    value_raises (boolean b) = refl
    value_raises (integer n) = ground (arith, in_safe_range_iff n)
    value_raises (text value) = refl
    value_raises (array items) =
        ground (arith, is_raised-joined (encoded_items encoder items), items_raise items)
    value_raises (object fields) = ground (
      arith,
      is_raised-joined (members encoder (sorted key_less (encoded_fields encoder fields))),
      any-members (sorted key_less (encoded_fields encoder fields)),
      any-sorted key_less entry_raised (encoded_fields encoder fields),
      fields_raise fields,
    )

    items_raise : (items : Items) → any is_raised (encoded_items encoder items) ≡ items_unsafe items
    items_raise end_items = refl
    items_raise (item value rest) = ground (arith, value_raises value, items_raise rest)

    fields_raise :
        (fields : Fields) → any entry_raised (encoded_fields encoder fields) ≡ fields_unsafe fields
    fields_raise end_fields = refl
    fields_raise (field name value rest) = ground (arith, value_raises value, fields_raise rest)
