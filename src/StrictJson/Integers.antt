-- ===== src/StrictJson/Integers.antt =====
-- `_parse_integer` of lib/ask_herdr_json.py: the integers that a document may hold.
use Prim.Native.Nat.{◌*◌}
use ask_herdr.Base.{
  ℕ, zero, suc, ◌+◌, ◌-◌, ◌≤◌, ◌<◌, ◌≡◌, ◌↔◌, ◌⊎◌, inl, inr, refl, sym, ap, ◌∙◌, Bool, true, false,
  ◌&&◌, ◌||◌, List, [], ◌∷◌, length, codes, in_range, ltb, ◌==◌, nat_eq, if◌then◌else◌, Result, ok,
  raised, strict_json_error, arith,
}
use ask_herdr.StrictJson.Values.{ℤ, pos, negsuc}
use ask_herdr.StrictJson.Canonical.{bytes_less, safe_integer_max}

abbrev pub is_digit : ℕ → Bool
is_digit = in_range b'0' b'9'

abbrev pub all_digits : List ℕ → Bool
all_digits [] = true
all_digits (c ∷ cs) = is_digit c && all_digits cs

-- The number that digits write behind those already read.
abbrev pub value_from : ℕ → List ℕ → ℕ
value_from read [] = read
value_from read (c ∷ cs) = value_from (read * 10 + (c - b'0')) cs

-- `str(SAFE_INTEGER_MAX)`
abbrev pub limit_digits : List ℕ
limit_digits = codes "9007199254740991"

-- `int(token)` of a sign and a magnitude
abbrev pub signed : Bool → ℕ → ℤ
signed false n = pos n
signed true zero = pos 0
signed true (suc n) = negsuc n

-- The test of a magnitude.
unfoldable pub magnitude_refused : List ℕ → Bool
magnitude_refused magnitude =
    ltb (length limit_digits) (length magnitude)
    || (length magnitude == length limit_digits && bytes_less limit_digits magnitude)

abbrev pub parsed : Bool → List ℕ → Result ℤ
parsed negative magnitude =
    if magnitude_refused magnitude
    then raised (strict_json_error "json.integer_out_of_range")
    else ok (signed negative (value_from 0 magnitude))

-- `_parse_integer`
unfoldable pub parse_integer : List ℕ → Result ℤ
parse_integer [] = parsed false []
parse_integer (c ∷ cs) = if c == b'-' then parsed true cs else parsed false (c ∷ cs)

-- A number and as many zeros.
scaled : ℕ → ℕ → ℕ
scaled m zero = m
scaled m (suc k) = scaled (m * 10) k

scaled_mono : (m n k : ℕ) → m ≤ n → scaled m k ≤ scaled n k
unfolding scaled
scaled_mono m n zero h = h
scaled_mono m n (suc k) h = scaled_mono (m * 10) (n * 10) k (omega arith)

scaled-longer : (m j k : ℕ) → j ≤ k → scaled m j ≤ scaled m k
unfolding scaled
scaled-longer m zero zero h = omega arith
scaled-longer m zero (suc k) h =
    omega (arith, scaled-longer m zero k (omega arith), scaled_mono m (m * 10) k (omega arith))
scaled-longer m (suc j) zero h = absurd (omega arith)
scaled-longer m (suc j) (suc k) h = scaled-longer (m * 10) j k (omega arith)

order_cases : (x y : ℕ) → (x < y) ⊎ ((y < x) ⊎ (x ≡ y))
order_cases x y = ground arith

value_from-above : (m read : ℕ) (cs : List ℕ) → m ≤ read → scaled m (length cs) ≤ value_from read cs
unfolding scaled
value_from-above m read [] h = h
value_from-above m read (c ∷ cs) h =
    value_from-above (m * 10) (read * 10 + (c - b'0')) cs (omega arith)

value_from-below :
    (m read : ℕ) (cs : List ℕ)
    → all_digits cs ≡ true
    → read < m
    → value_from read cs < scaled m (length cs)
unfolding scaled
value_from-below m read [] d h = h
value_from-below m read (c ∷ cs) d h =
    value_from-below (m * 10) (read * 10 + (c - b'0')) cs (ground arith) (ground arith)

-- Of two tokens of the same length behind a smaller and a greater number, the first writes less.
value_from-less :
    (a b : ℕ) (xs ys : List ℕ)
    → all_digits xs ≡ true
    → all_digits ys ≡ true
    → length xs ≡ length ys
    → a < b
    → value_from a xs < value_from b ys
value_from-less a b [] [] d e l h = h
value_from-less a b [] (y ∷ ys) d e l h = absurd (omega arith)
value_from-less a b (x ∷ xs) [] d e l h = absurd (omega arith)
value_from-less a b (x ∷ xs) (y ∷ ys) d e l h =
    value_from-less (a * 10 + (x - b'0')) (b * 10 + (y - b'0')) xs ys (ground arith) (ground arith)
      (omega arith) (ground arith)

-- Tokens of the same length compare as texts as their numbers do.
value_from-bytes_less :
    (a : ℕ) (xs ys : List ℕ)
    → all_digits xs ≡ true
    → all_digits ys ≡ true
    → length xs ≡ length ys
    → (bytes_less xs ys ≡ true) ↔ (value_from a xs < value_from a ys)
value_from-bytes_less a [] [] d e l = (λ h. absurd (ground arith), λ h. absurd (omega arith))
value_from-bytes_less a [] (y ∷ ys) d e l = absurd (omega arith)
value_from-bytes_less a (x ∷ xs) [] d e l = absurd (omega arith)
value_from-bytes_less a (x ∷ xs) (y ∷ ys) d e l =
    let p : all_digits xs ≡ true = ground arith in
    let q : all_digits ys ≡ true = ground arith in
    let same : length xs ≡ length ys = omega arith in
    elim (order_cases x y) [
      | inl below ↦
          let less =
            value_from-less (a * 10 + (x - b'0')) (a * 10 + (y - b'0')) xs ys p q same
              (ground arith) in
          ground arith
      | inr (inl above) ↦
          let less =
            value_from-less (a * 10 + (y - b'0')) (a * 10 + (x - b'0')) ys xs q p (sym same)
              (ground arith) in
          ground arith
      | inr (inr equal) ↦
          let rest = value_from-bytes_less (a * 10 + (x - b'0')) xs ys p q same in
          let agree : a * 10 + (x - b'0') ≡ a * 10 + (y - b'0') = omega arith in
          let tail : value_from (a * 10 + (x - b'0')) ys ≡ value_from (a * 10 + (y - b'0')) ys =
            ap (λ n. value_from n ys) agree in
          ground arith
    ]

-- A magnitude of the JSON grammar: digits, the first of which is no zero unless it stands alone.
abbrev pub is_magnitude : List ℕ → Bool
is_magnitude [] = false
is_magnitude (c ∷ []) = is_digit c
is_magnitude (c ∷ (d ∷ cs)) = is_digit c && (ltb b'0' c && all_digits (d ∷ cs))

is_magnitude-digits : (cs : List ℕ) → is_magnitude cs ≡ true → all_digits cs ≡ true
is_magnitude-digits [] h = cc
is_magnitude-digits (c ∷ []) h = ground arith
is_magnitude-digits (c ∷ (d ∷ cs)) h = ground arith

-- A magnitude of more digits than the limit is above it.
longer_above :
    (cs : List ℕ)
    → is_magnitude cs ≡ true
    → length limit_digits < length cs
    → safe_integer_max < value_from 0 cs
unfolding scaled
longer_above [] h l = absurd (omega arith)
longer_above (c ∷ []) h l = absurd (omega arith)
longer_above (c ∷ (d ∷ cs)) h l =
    let grown = value_from-above 1 (0 * 10 + (c - b'0')) (d ∷ cs) (ground arith) in
    let long : scaled 1 16 ≤ scaled 1 (length (d ∷ cs)) =
      scaled-longer 1 16 (length (d ∷ cs)) (omega arith) in
    omega arith

shorter_below :
    (cs : List ℕ)
    → all_digits cs ≡ true
    → length cs < length limit_digits
    → value_from 0 cs < safe_integer_max
unfolding scaled
shorter_below cs h l =
    let small = value_from-below 1 0 cs h (omega arith) in
    let short : scaled 1 (length cs) ≤ scaled 1 15 = scaled-longer 1 (length cs) 15 (omega arith) in
    omega arith

same_length : (m n : ℕ) (b : Bool) → m ≡ n → (ltb n m || (m == n && b)) ≡ b
same_length m n b h = ground arith

shorter_kept : (m n : ℕ) (b : Bool) → m < n → (ltb n m || (m == n && b)) ≡ false
shorter_kept m n b h = ground arith

longer_refused : (m n : ℕ) (b : Bool) → n < m → (ltb n m || (m == n && b)) ≡ true
longer_refused m n b h = ground arith

Bool-apart : {b : Bool} → b ≡ false → b ≡ true → ⊥
Bool-apart p q = ground arith

-- A magnitude is refused exactly if the number that it writes is above the limit, although the code
-- compares lengths and texts.
pub magnitude_refused_iff :
    (cs : List ℕ)
    → is_magnitude cs ≡ true
    → (magnitude_refused cs ≡ true) ↔ (safe_integer_max < value_from 0 cs)
unfolding magnitude_refused
magnitude_refused_iff cs h =
    let digits = is_magnitude-digits cs h in
    elim (order_cases (length cs) (length limit_digits)) [
      | inl shorter ↦
          let below = shorter_below cs digits shorter in
          let kept =
            shorter_kept (length cs) (length limit_digits) (bytes_less limit_digits cs) shorter in
          (λ t. absurd (Bool-apart kept t), λ above. absurd (omega arith))
      | inr (inl longer) ↦
          let refused =
            longer_refused (length cs) (length limit_digits) (bytes_less limit_digits cs) longer in
          (λ t. longer_above cs h longer, λ above. refused)
      | inr (inr equal) ↦
          let compared = value_from-bytes_less 0 limit_digits cs refl digits (sym equal) in
          let decided =
            same_length (length cs) (length limit_digits) (bytes_less limit_digits cs) equal in
          (λ t. compared.0 (sym decided ∙ t), λ above. decided ∙ compared.1 above)
    ]

-- A token of the JSON grammar, an optional sign and a magnitude, is parsed to the integer that it writes if
-- that is between the limits, and raises otherwise.
pub parse_integer_bounds :
    (cs : List ℕ)
    → is_magnitude cs ≡ true
    → ((value_from 0 cs ≤ safe_integer_max)
        → (parse_integer cs ≡ ok (pos (value_from 0 cs)))
          × (parse_integer (b'-' ∷ cs) ≡ ok (signed true (value_from 0 cs))))
      × ((safe_integer_max < value_from 0 cs)
          → (parse_integer cs ≡ raised (strict_json_error "json.integer_out_of_range"))
            × (parse_integer (b'-' ∷ cs) ≡ raised (strict_json_error "json.integer_out_of_range")))
unfolding parse_integer
parse_integer_bounds [] h = cc
parse_integer_bounds (c ∷ cs) h =
    let iff = magnitude_refused_iff (c ∷ cs) h in
    let digits = is_magnitude-digits (c ∷ cs) h in ground arith
