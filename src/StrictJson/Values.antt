-- ===== src/StrictJson/Values.antt =====
-- The values that lib/ask_herdr_json.py accepts: null, truth values, integers, texts, lists and
-- dictionaries with text keys, the entries of a dictionary in insertion order.
use ask_herdr.Base.{
  ℕ, ◌+◌, ◌&&◌, nat_eq, true, false, String, Bool, Option, none, some, is_some, List, [], ◌∷◌, ◌==◌,
  string_eq, if◌then◌else◌,
}

pub data ℤ : Type 0 where
  pos : ℕ → ℤ
  negsuc : ℕ → ℤ

mutual
  pub data Json : Type 0 where
    null : Json
    boolean : Bool → Json
    integer : ℤ → Json
    text : String → Json
    array : Items → Json
    object : Fields → Json

  pub data Items : Type 0 where
    end_items : Items
    item : Json → Items → Items

  pub data Fields : Type 0 where
    end_fields : Fields
    field : String → Json → Fields → Fields

-- `payload.get(key)`
abbrev pub get_field : String → Fields → Option Json
get_field key end_fields = none
get_field key (field name value rest) =
    let later = get_field key rest in if name == key then some value else later

abbrev pub field_names : Fields → List String
field_names end_fields = []
field_names (field name value rest) = name ∷ field_names rest

-- `payload.get(key)`, where a missing key and a null are one value.
abbrev pub value_of : String → Fields → Json
value_of key fields = elim (get_field key fields) [ none ↦ null | some value ↦ value ]

abbrev pub same_integer : ℤ → ℤ → Bool
same_integer (pos m) (pos n) = m == n
same_integer (negsuc m) (negsuc n) = m == n
same_integer _ _ = false

abbrev pub bit : Bool → ℤ
bit true = pos 1
bit false = pos 0

abbrev pub count_fields : Fields → ℕ
count_fields end_fields = 0
count_fields (field name value rest) = 1 + count_fields rest

-- `==` of two values: a truth value is the integer 1 or 0, and a dictionary has no order.
unfoldable mutual
  pub same_json : Json → Json → Bool
  same_json null null = true
  same_json (boolean a) (boolean b) = same_integer (bit a) (bit b)
  same_json (boolean a) (integer n) = same_integer (bit a) n
  same_json (integer m) (boolean b) = same_integer m (bit b)
  same_json (integer m) (integer n) = same_integer m n
  same_json (text a) (text b) = a == b
  same_json (array xs) (array ys) = same_items xs ys
  same_json (object f) (object g) = count_fields f == count_fields g && fields_within f g
  same_json _ _ = false

  pub same_items : Items → Items → Bool
  same_items end_items end_items = true
  same_items (item x xs) (item y ys) = same_json x y && same_items xs ys
  same_items _ _ = false

  pub fields_within : Fields → Fields → Bool
  fields_within end_fields g = true
  fields_within (field name value rest) g =
      is_some (get_field name g) && (same_json value (value_of name g) && fields_within rest g)
