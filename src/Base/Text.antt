-- ===== src/Base/Text.antt =====
-- Texts as code points, and `re.fullmatch` for patterns of fixed length.
use Prim.Native.Nat.{ℕ, zero, suc}
use Prim.Native.Char.{code}
use Prim.Native.String.{String}
use mathlib.Core.Path.{◌≡◌, refl}
use mathlib.Core.Bool.{Bool, true, false, ◌&&◌}
use mathlib.Core.List.{List, [], ◌∷◌}
use native.Mathlib.Omega.{arith}
use ask_herdr.Base.Tests.{leb, nat_eq}
use ask_herdr.Base.Lists.{length}

abbrev pub codes : String → List ℕ
codes String.[] = []
codes (String.◌∷◌ c s) = code c ∷ codes s

-- One character class of a pattern.
abbrev pub CharClass : Type 0
CharClass = ℕ → Bool

abbrev pub in_range : ℕ → ℕ → CharClass
in_range lo hi c = leb lo c && leb c hi

abbrev pub times : ℕ → CharClass → List CharClass
times zero k = []
times (suc n) k = k ∷ times n k

-- `pattern.fullmatch(text)` where the pattern is a sequence of character classes.
unfoldable pub fullmatch : List CharClass → List ℕ → Bool
fullmatch [] [] = true
fullmatch (k ∷ ks) (c ∷ cs) = k c && fullmatch ks cs
fullmatch _ _ = false

-- `[...]+` over the whole text.
unfoldable pub fullmatch_plus : CharClass → List ℕ → Bool
fullmatch_plus k [] = false
fullmatch_plus k (c ∷ []) = k c
fullmatch_plus k (c ∷ (d ∷ cs)) = k c && fullmatch_plus k (d ∷ cs)

-- A text that matches has one character for each class.
pub length-fullmatch :
    (ks : List CharClass) (cs : List ℕ) → fullmatch ks cs ≡ true → length cs ≡ length ks
unfolding fullmatch
length-fullmatch [] [] h = refl
length-fullmatch [] (c ∷ cs) h = cc
length-fullmatch (k ∷ ks) [] h = cc
length-fullmatch (k ∷ ks) (c ∷ cs) h = ground (arith, length-fullmatch ks cs)
