-- ===== src/ProjectStatus/Find.antt =====
-- Python dictionaries with a computed key, built from a tuple whose keys do not repeat: a lookup is
-- the first entry with the key.
use ask_herdr.Base.{
  ◌≡◌, Bool, true, false, ◌||◌, Option, none, some, List, [], ◌∷◌, any, if◌then◌else◌, arith,
}

module _ {ℓ} {A : Type ℓ} where
  abbrev pub find : (A → Bool) → List A → Option A
  find test [] = none
  find test (x ∷ xs) = let rest = find test xs in if test x then some x else rest

  -- `len({key(x): x for x in xs}) != len(xs)`, where the test compares two keys.
  abbrev pub keys_repeat : (A → A → Bool) → List A → Bool
  keys_repeat same [] = false
  keys_repeat same (x ∷ xs) = any (same x) xs || keys_repeat same xs

  pub find-true : (test : A → Bool) (xs : List A) (x : A) → find test xs ≡ some x → test x ≡ true
  find-true test [] x h = absurd (ground arith)
  find-true test (y ∷ ys) x h = let rest = find-true test ys x in ground arith

  -- What holds of no item that is found, if it holds of no item.
  pub find-any :
      (test bad : A → Bool) (xs : List A) (x : A)
      → any bad xs ≡ false
      → find test xs ≡ some x
      → bad x ≡ false
  find-any test bad [] x n h = absurd (ground arith)
  find-any test bad (y ∷ ys) x n h = let rest = find-any test bad ys x in ground arith
