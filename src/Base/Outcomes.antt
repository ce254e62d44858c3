-- ===== src/Base/Outcomes.antt =====
-- What a call gives that may raise: its value, or the exception with its detail code.
use Prim.Native.String.{String}
use mathlib.Core.Path.{◌≡◌, refl}
use mathlib.Core.Logic.{◌↔◌, ◌⊎◌, inl, inr}
use mathlib.Core.Bool.{Bool, true, false}

-- `ValueError(detail_code)`, `TurnTransitionError(detail_code)`, `StrictJsonError(code)` and `IndexError`.
pub data Failure : Type 0 where
  value_error : String → Failure
  transition_error : String → Failure
  strict_json_error : String → Failure
  index_error : Failure

pub data Result {ℓ} (A : Type ℓ) : Type ℓ where
  ok : A → Result A
  raised : Failure → Result A

-- `if not test: raise failure`
abbrev pub guard : Bool → Failure → Result (Unit {0})
guard false failure = raised failure
guard true failure = ok tt

infixl 5 ◌>>=◌ ◌>>◌
abbrev pub ◌>>=◌ {ℓ κ} : {A : Type ℓ} {B : Type κ} → Result A → (A → Result B) → Result B
raised failure >>= next = raised failure
ok value >>= next = next value

abbrev pub ◌>>◌ {ℓ} : {B : Type ℓ} → Result (Unit {0}) → Result B → Result B
check >> next = check >>= λ _. next

module _ {ℓ} {B : Type ℓ} where
  -- What a call that returns has returned on the way.
  pub >>=-eq-ok {κ} :
      {A : Type κ} (call : Result A) (next : A → Result B) {result : B}
      → (call >>= next) ≡ ok result
      → (value : A) × (call ≡ ok value) × (next value ≡ ok result)
  >>=-eq-ok (raised failure) next h = cc
  >>=-eq-ok (ok value) next h = (value, refl, h)

  pub >>-eq-ok :
      (check : Result (Unit {0})) (next : Result B) {result : B}
      → (check >> next) ≡ ok result
      → (check ≡ ok tt) × (next ≡ ok result)
  >>-eq-ok (raised failure) next h = cc
  >>-eq-ok (ok tt) next h = (refl, h)

pub guard-eq-ok : (b : Bool) (failure : Failure) → (guard b failure ≡ ok tt) ↔ (b ≡ true)
guard-eq-ok true failure = (λ h. refl, λ h. refl)
guard-eq-ok false failure = (λ h. cc, λ h. cc)

-- To split on the outcome of a call and keep the equation.
pub Result-cases {ℓ} :
    {A : Type ℓ} (call : Result A)
    → ((failure : Failure) × (call ≡ raised failure)) ⊎ ((value : A) × (call ≡ ok value))
Result-cases (raised failure) = inl (failure, refl)
Result-cases (ok value) = inr (value, refl)
