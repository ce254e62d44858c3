-- ===== src/LaneTurn/Guards.antt =====
-- The field validators of lib/ask_herdr_lane_turn.py. The tests on Python types (`type(value) is
-- str`, `is int`, `is bool`, an enumeration's class) hold by the types of the fields here; an
-- integer below 0, which the validators refuse as they refuse 0, has no value here.
use ask_herdr.Base.{
  ℕ, String, Bool, true, ◌&&◌, ◌||◌, not, Option, none, some, List, ◌∷◌, ◌++◌, leb, ltb, length,
  codes, CharClass, in_range, times, fullmatch, fullmatch_plus, ◌==◌, string_eq, value_error,
  Result, ok, ◌>>◌, guard, if◌then◌else◌, nat_eq,
}
use ask_herdr.LaneTurn.Kinds.{NativeIdentityMode, is_establish_new, is_exact_resume, is_fork_from}

abbrev lower_hex : CharClass
lower_hex c = in_range b'0' b'9' c || in_range b'a' b'f' c

abbrev exactly : ℕ → CharClass
exactly c d = d == c

-- `[89ab]`
abbrev variant : CharClass
variant c = c == b'8' || (c == b'9' || (c == b'a' || c == b'b'))

abbrev pub uuid4_pattern : List CharClass
uuid4_pattern =
    times 8 lower_hex
    ++ (exactly b'-'
        ∷ (times 4 lower_hex
            ++ (exactly b'-'
                ∷ exactly b'4'
                ∷ (times 3 lower_hex
                    ++ (exactly b'-'
                        ∷ variant
                        ∷ (times 3 lower_hex ++ (exactly b'-' ∷ times 12 lower_hex)))))))

abbrev pub digest_pattern : List CharClass
digest_pattern =
    exactly b's'
    ∷ exactly b'h'
    ∷ exactly b'a'
    ∷ exactly b'2'
    ∷ exactly b'5'
    ∷ exactly b'6'
    ∷ exactly b':'
    ∷ times 64 lower_hex

-- `[\x21-\x7e]`
abbrev pub printable : CharClass
printable = in_range 0x21 0x7e

unfoldable pub is_uuid : String → Bool
unfolding fullmatch
is_uuid value = fullmatch uuid4_pattern (codes value)

unfoldable pub is_digest : String → Bool
unfolding fullmatch
is_digest value = fullmatch digest_pattern (codes value)

-- A token is ASCII, so its encoding has one byte for each character.
unfoldable pub is_token : ℕ → String → Bool
unfolding fullmatch_plus
is_token maximum value =
    fullmatch_plus printable (codes value) && leb (length (codes value)) maximum

unfoldable pub require_uuid : String → String → Result (Unit {0})
unfolding is_uuid
require_uuid value detail_code = guard (is_uuid value) (value_error detail_code)

unfoldable pub require_digest : String → String → Result (Unit {0})
unfolding is_digest
require_digest value detail_code = guard (is_digest value) (value_error detail_code)

-- `if value is not None: _require_digest(value, detail_code)`
abbrev pub require_optional_digest : Option String → String → Result (Unit {0})
require_optional_digest none detail_code = ok tt
require_optional_digest (some value) detail_code = require_digest value detail_code

unfoldable pub require_token : ℕ → String → String → Result (Unit {0})
unfolding is_token
require_token maximum value detail_code = guard (is_token maximum value) (value_error detail_code)

abbrev pub require_optional_token : ℕ → Option String → String → Result (Unit {0})
require_optional_token maximum none detail_code = ok tt
require_optional_token maximum (some value) detail_code = require_token maximum value detail_code

unfoldable pub require_positive_integer : ℕ → String → Result (Unit {0})
require_positive_integer value detail_code = guard (not (ltb value 1)) (value_error detail_code)

-- `_TURN_OPERATIONS`
abbrev pub is_turn_operation : String → Bool
is_turn_operation value =
    value == "turn.answer"
    || (value == "turn.consult"
        || (value == "turn.recovery_continue"
            || (value == "turn.review" || value == "turn.safe_retry")))

unfoldable pub require_operation : String → Result (Unit {0})
require_operation value =
    guard (is_turn_operation value) (value_error "lane_turn.operation_invalid")

unfoldable pub validate_common_operation : String → String → String → Result (Unit {0})
unfolding require_uuid require_digest
validate_common_operation operation_id canonical_request_digest attempt_id = do
  require_uuid operation_id "lane_turn.operation_id_invalid"
  require_digest canonical_request_digest "lane_turn.canonical_request_digest_invalid"
  require_uuid attempt_id "lane_turn.attempt_id_invalid"

-- `allowed_modes` of `PrepareAdmittedAttempt`, for an operation of `_TURN_OPERATIONS`.
abbrev pub mode_allowed : String → NativeIdentityMode → Bool
mode_allowed operation mode =
    if operation == "turn.consult"
    then is_establish_new mode
    else if operation == "turn.answer"
    then is_exact_resume mode
    else if operation == "turn.recovery_continue"
    then is_exact_resume mode
    else if operation == "turn.review"
    then is_fork_from mode
    else true

-- A frozen dataclass with `__post_init__`: the value, or what its validator raises.
abbrev pub construct : {A : Type 0} → (A → Result (Unit {0})) → A → Result A
construct post_init value = do post_init value; ok value
