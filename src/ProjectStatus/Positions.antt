-- ===== src/ProjectStatus/Positions.antt =====
-- Where the reader of lib/ask_herdr_project_status.py finds the entry that a cursor names.
use mathlib.Core.Option.{some_inj}
use native.Mathlib.Numerals.{unary_clauses}
use ask_herdr.Base.{
  ℕ, zero, suc, ◌+◌, ◌≤◌, ◌<◌, ◌≡◌, refl, sym, ap, subst, ◌∙◌, String, Bool, false, some, List, [],
  ◌∷◌, ◌++◌, any, length, get_last?, ◌==◌, ==_refl, ==_iff, string_eq, ok, arith,
}
use ask_herdr.Base.Slices.{suc-add, take, drop, get_elem?}
use ask_herdr.StrictJson.Digest.{Encodings}
use ask_herdr.ReadEpoch.Entries.{LaneIndexEntry}
use ask_herdr.ProjectStatus.Find.{keys_repeat}
use ask_herdr.ProjectStatus.Entries.{lane_head}
use ask_herdr.ProjectStatus.Pages.{lane_identity_digest, positions, heads}

-- What holds of every entry.
abbrev pub All : (LaneIndexEntry → Type 0) → List LaneIndexEntry → Type 0
All P [] = Unit
All P (e ∷ es) = P e × All P es

pub All-get_elem? :
    (P : LaneIndexEntry → Type 0) (es : List LaneIndexEntry) (n : ℕ) (e : LaneIndexEntry)
    → All P es
    → get_elem? es n ≡ some e
    → P e
All-get_elem? P [] n e h g = absurd (ground arith)
All-get_elem? P (x ∷ es) zero e h g = subst P (some_inj.0 g) h.0
All-get_elem? P (x ∷ es) (suc n) e h g = All-get_elem? P es n e h.1 g

pub get_elem?-below {ℓ} :
    {A : Type ℓ} (xs : List A) (n : ℕ) → n < length xs → (x : A) × (get_elem? xs n ≡ some x)
get_elem?-below [] n h = absurd (omega arith)
get_elem?-below (x ∷ xs) zero h = (x, refl)
get_elem?-below (x ∷ xs) (suc n) h = get_elem?-below xs n (omega arith)

-- The last item of a slice that ends inside the tuple.
pub get_last?-slice {ℓ} :
    {A : Type ℓ} (start k : ℕ) (xs : List A)
    → start + suc k ≤ length xs
    → get_last? (take (suc k) (drop start xs)) ≡ get_elem? xs (start + k)
get_last?-slice zero k [] h = absurd (omega arith)
get_last?-slice zero zero (x ∷ xs) h = refl
get_last?-slice zero (suc k) (x ∷ []) h = absurd (omega arith)
get_last?-slice zero (suc k) (x ∷ (y ∷ ys)) h =
    simp (unary_clauses, get_last?-slice zero k (y ∷ ys) (omega arith))
get_last?-slice (suc start) k [] h = absurd (omega arith)
get_last?-slice (suc start) k (x ∷ xs) h =
    get_last?-slice start k xs (omega arith) ∙ ap (get_elem? (x ∷ xs)) (suc-add start k)

-- The last item of a page of a positive size, at its index.
pub get_last?-page {ℓ} :
    {A : Type ℓ} (start limit : ℕ) (xs : List A)
    → 1 ≤ limit
    → start + limit ≤ length xs
    → (k : ℕ) × (x : A) × (limit ≡ suc k)
      × (get_elem? xs (start + k) ≡ some x)
      × (get_last? (take limit (drop start xs)) ≡ some x)
get_last?-page start zero xs p h = absurd (omega arith)
get_last?-page start (suc k) xs p h =
    let (x, g) = get_elem?-below xs (start + k) (omega arith) in
    (k, x, refl, g, get_last?-slice start k xs h ∙ g)

pub empty_page {ℓ} :
    {A : Type ℓ} (start limit : ℕ) (xs : List A) → length xs ≡ 0 → take limit (drop start xs) ≡ []
empty_page start limit (x ∷ xs) h = absurd (omega arith)
empty_page zero zero [] h = refl
empty_page zero (suc k) [] h = refl
empty_page (suc n) zero [] h = refl
empty_page (suc n) (suc k) [] h = refl

pub heads-append : (xs ys : List LaneIndexEntry) → heads (xs ++ ys) ≡ heads xs ++ heads ys
heads-append [] ys = refl
heads-append (x ∷ xs) ys = ap (◌∷◌ (lane_head x)) (heads-append xs ys)

module _ (lib : Encodings) (identity : LaneIndexEntry → String) where
  abbrev pub Identified : LaneIndexEntry → Type 0
  Identified e = lane_identity_digest lib e ≡ ok (identity e)

  abbrev pub same_identity : LaneIndexEntry → LaneIndexEntry → Bool
  same_identity a b = identity a == identity b

  positions-absent :
      (t : String) (index : ℕ) (es : List LaneIndexEntry)
      → All Identified es
      → any (λ e. identity e == t) es ≡ false
      → positions lib t index es ≡ ok []
  positions-absent t index [] h n = refl
  positions-absent t index (e ∷ es) (here, h) n =
      let rest = positions-absent t (suc index) es h in ground (arith, here)

  any_flip :
      (e : LaneIndexEntry) (es : List LaneIndexEntry)
      → any (same_identity e) es ≡ false
      → any (λ x. identity x == identity e) es ≡ false
  any_flip e [] n = refl
  any_flip e (x ∷ es) n =
      let rest = any_flip e es in
      ground (arith, ==_iff (identity e) (identity x), ==_iff (identity x) (identity e))

  apart-get_elem? :
      (e : LaneIndexEntry) (es : List LaneIndexEntry) (n : ℕ) (x : LaneIndexEntry)
      → any (same_identity e) es ≡ false
      → get_elem? es n ≡ some x
      → (identity e == identity x) ≡ false
  apart-get_elem? e [] n x h g = absurd (ground arith)
  apart-get_elem? e (y ∷ es) zero x h g = rw (sym (some_inj.0 g)) (ground arith)
  apart-get_elem? e (y ∷ es) (suc n) x h g = apart-get_elem? e es n x (ground arith) g

  -- An entry whose identity no other entry has is found at its own index alone.
  pub positions-found :
      (es : List LaneIndexEntry) (index n : ℕ) (e : LaneIndexEntry)
      → All Identified es
      → keys_repeat same_identity es ≡ false
      → get_elem? es n ≡ some e
      → positions lib (identity e) index es ≡ ok ((index + n) ∷ [])
  positions-found [] index n e h d g = absurd (ground arith)
  positions-found (x ∷ es) index zero e (here, h) d g =
      subst (λ y. positions lib (identity y) index (x ∷ es) ≡ ok ((index + 0) ∷ [])) (some_inj.0 g)
        (ground (
          arith,
          here,
          ==_refl (identity x),
          positions-absent (identity x) (suc index) es h (any_flip x es (ground arith)),
        ))
  positions-found (x ∷ es) index (suc n) e (here, h) d g =
      let apart = apart-get_elem? x es n e (ground arith) g in
      let rest = positions-found es (suc index) n e h (ground arith) g in ground (arith, here)
