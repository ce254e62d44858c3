-- ===== src/Base/Sorting.antt =====
-- Python's `sorted`, stable, over a strict order as a Boolean test.
use mathlib.Core.Path.{◌≡◌, refl, ◌∙◌}
use mathlib.Core.Logic.{inl, inr}
use mathlib.Core.Bool.{Bool, true, false, ◌||◌}
use mathlib.Core.List.{List, [], ◌∷◌, Perm}
use mathlib.Core.List.Perm
use native.Mathlib.Omega.{arith}
use ask_herdr.Base.Tests.{if◌then◌else◌, Bool-cases}
use ask_herdr.Base.Lists.{any}

module _ {ℓ} {A : Type ℓ} (less : A → A → Bool) where
  -- Into a sorted list, before the first item that is not less.
  abbrev pub insert : A → List A → List A
  insert x [] = x ∷ []
  insert x (y ∷ ys) = let rest = insert x ys in if less y x then y ∷ rest else x ∷ y ∷ ys

  -- `sorted(xs)`
  unfoldable pub sorted : List A → List A
  sorted [] = []
  sorted (x ∷ xs) = insert x (sorted xs)

  pub any-insert :
      (test : A → Bool) (x : A) (xs : List A) → any test (insert x xs) ≡ (test x || any test xs)
  any-insert test x [] = refl
  any-insert test x (y ∷ ys) = ground (arith, any-insert test x ys)

  -- Sorting keeps what some item satisfies.
  pub any-sorted : (test : A → Bool) (xs : List A) → any test (sorted xs) ≡ any test xs
  unfolding sorted
  any-sorted test [] = refl
  any-sorted test (x ∷ xs) = ground (arith, any-insert test x (sorted xs), any-sorted test xs)

  insert-perm : (x : A) (xs : List A) → Perm (insert x xs) (x ∷ xs)
  insert-perm x [] = Perm.rfl
  insert-perm x (y ∷ ys) = elim (Bool-cases (less y x)) [
    | inl p ↦ rw p (Perm.trans (Perm.cons y (insert-perm x ys)) (Perm.swap x y ys))
    | inr p ↦ rw p Perm.rfl
  ]

  -- Sorting keeps the items, and how often each stands.
  pub sorted-perm : (xs : List A) → Perm (sorted xs) xs
  unfolding sorted
  sorted-perm [] = Perm.rfl
  sorted-perm (x ∷ xs) = Perm.trans (insert-perm x (sorted xs)) (Perm.cons x (sorted-perm xs))

  -- No item is less than one that stands before it.
  abbrev pub IsOrdered : List A → Type 0
  IsOrdered [] = Unit
  IsOrdered (x ∷ xs) = (any (λ y. less y x) xs ≡ false) × IsOrdered xs

  module _ (not_less-trans : (a b c : A) → less b a ≡ false → less c b ≡ false → less c a ≡ false)
      (less-asym : (a b : A) → less a b ≡ true → less b a ≡ false) where
    none-below :
        (x y : A) (ys : List A)
        → less y x ≡ false
        → any (λ z. less z y) ys ≡ false
        → any (λ z. less z x) ys ≡ false
    none-below x y [] p h = refl
    none-below x y (z ∷ zs) p h =
        let rest = none-below x y zs p in ground (arith, not_less-trans x y z p)

    insert-IsOrdered : (x : A) (xs : List A) → IsOrdered xs → IsOrdered (insert x xs)
    insert-IsOrdered x [] s = (refl, tt)
    insert-IsOrdered x (y ∷ ys) (below, s) = elim (Bool-cases (less y x)) [
      | inl p ↦ rw p (
        (any-insert (λ z. less z y) x ys ∙ ground (arith, less-asym y x)),
        insert-IsOrdered x ys s,
      )
      | inr p ↦ rw p (ground (arith, none-below x y ys), (below, s))
    ]

    -- A sorted list is in order.
    pub sorted-IsOrdered : (xs : List A) → IsOrdered (sorted xs)
    unfolding sorted
    sorted-IsOrdered [] = tt
    sorted-IsOrdered (x ∷ xs) = insert-IsOrdered x (sorted xs) (sorted-IsOrdered xs)
