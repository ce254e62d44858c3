-- ===== src/ProjectStatus/Order.antt =====
-- The order in which lib/ask_herdr_project_status.py lists lanes.
use ask_herdr.Base.{
  ◌≤◌, ◌<◌, ◌⊎◌, any, ltb, Bool, ℕ, ◌≡◌, refl, ap, subst, sym, ◌∙◌, String, true, false, some, List,
  [], ◌∷◌, codes, ◌==◌, ==_iff, string_eq, nat_eq, arith, Bool-cases, inl, inr,
}
use mathlib.Core.List.{Perm}
use mathlib.Core.Option.{some_inj}
use ask_herdr.Base.Sorting.{sorted-perm, sorted-IsOrdered, IsOrdered}
use ask_herdr.StrictJson.Canonical.{bytes_less}
use ask_herdr.ReadEpoch.Entries.{LaneIndexEntry}
use ask_herdr.ReadEpoch.Acquire.{ProjectReadEpochSnapshot}
use ask_herdr.ProjectStatus.Cursor.{codes_eq}
use ask_herdr.ProjectStatus.Select.{keep, identity_less, lane_less, project_entries, select_entries}
use ask_herdr.ProjectStatus.Readers.{project_plan, lane_plan}

bytes_less-asym : (a b : List ℕ) → bytes_less a b ≡ true → bytes_less b a ≡ false
bytes_less-asym [] [] h = refl
bytes_less-asym [] (y ∷ ys) h = refl
bytes_less-asym (x ∷ xs) [] h = cc
bytes_less-asym (x ∷ xs) (y ∷ ys) h = let rest = bytes_less-asym xs ys in ground arith

bytes_less_irrefl : (a b : List ℕ) → a ≡ b → bytes_less a b ≡ false
bytes_less_irrefl a b e = subst (λ x. bytes_less a x ≡ false) e (irrefl a)
  where
    irrefl : (xs : List ℕ) → bytes_less xs xs ≡ false
    irrefl [] = refl
    irrefl (x ∷ xs) = let rest = irrefl xs in ground arith

-- Of two different texts one is less.
bytes_less-total : (a b : List ℕ) → bytes_less a b ≡ false → bytes_less b a ≡ false → a ≡ b
bytes_less-total [] [] h k = refl
bytes_less-total [] (y ∷ ys) h k = cc
bytes_less-total (x ∷ xs) [] h k = cc
bytes_less-total (x ∷ xs) (y ∷ ys) h k = let rest = bytes_less-total xs ys in ground arith

-- If neither b is before a nor c before b, then c is not before a.
bytes_not_less_trans :
    (a b c : List ℕ) → bytes_less b a ≡ false → bytes_less c b ≡ false → bytes_less c a ≡ false
bytes_not_less_trans [] b [] h k = refl
bytes_not_less_trans [] b (z ∷ zs) h k = refl
bytes_not_less_trans (x ∷ xs) [] c h k = cc
bytes_not_less_trans (x ∷ xs) (y ∷ ys) [] h k = cc
bytes_not_less_trans (x ∷ xs) (y ∷ ys) (z ∷ zs) h k =
    let rest = bytes_not_less_trans xs ys zs in ground arith

identity_less-asym :
    (a : String) (m : ℕ) (b : String) (n : ℕ)
    → identity_less a m b n ≡ true
    → identity_less b n a m ≡ false
identity_less-asym a m b n h = ground (
  arith,
  bytes_less-asym (codes a) (codes b),
  ==_iff (codes a) (codes b),
  ==_iff (codes b) (codes a),
  bytes_less-asym (codes b) (codes a),
  bytes_less_irrefl (codes a) (codes b),
)

identity_not_less_trans :
    (a : String) (k : ℕ) (b : String) (m : ℕ) (c : String) (n : ℕ)
    → identity_less b m a k ≡ false
    → identity_less c n b m ≡ false
    → identity_less c n a k ≡ false
identity_not_less_trans a k b m c n h p =
    let apart = bytes_not_less_trans (codes a) (codes b) (codes c) in
    elim (Bool-cases (codes c == codes a)) [
      | inr different ↦ ground arith
      | inl same ↦
          let e = (==_iff (codes c) (codes a)).0 same in
          let back : bytes_less (codes a) (codes b) ≡ false = rw (sym e) (ground arith) in
          let equal = bytes_less-total (codes a) (codes b) back (ground arith) in
          let q = (==_iff (codes b) (codes a)).1 (sym equal) in
          let r = (==_iff (codes c) (codes b)).1 (e ∙ equal) in ground arith
    ]

-- A text is before another one that it begins, and where its code point is the smaller one at the first
-- place at which they differ.
abbrev pub TextBefore : List ℕ → List ℕ → Type 0
TextBefore xs [] = ⊥
TextBefore [] (y ∷ ys) = Unit {0}
TextBefore (x ∷ xs) (y ∷ ys) = (x < y) ⊎ ((x ≡ y) × TextBefore xs ys)

-- A lane is in ascending order before another one: its id is, or the ids agree and its generation is no
-- greater.
abbrev pub LaneBefore : LaneIndexEntry → LaneIndexEntry → Type 0
LaneBefore a b =
    TextBefore (codes a.lane_id) (codes b.lane_id)
    ⊎ ((codes a.lane_id ≡ codes b.lane_id) × (a.lane_generation ≤ b.lane_generation))

abbrev pub AllBehind : LaneIndexEntry → List LaneIndexEntry → Type 0
AllBehind x [] = Unit {0}
AllBehind x (y ∷ ys) = LaneBefore x y × AllBehind x ys

-- Each entry is before all that follow it.
abbrev pub Ascending : List LaneIndexEntry → Type 0
Ascending [] = Unit {0}
Ascending (x ∷ xs) = AllBehind x xs × Ascending xs

bytes_less-TextBefore : (a b : List ℕ) → bytes_less a b ≡ true → TextBefore a b
bytes_less-TextBefore [] [] h = cc
bytes_less-TextBefore [] (y ∷ ys) h = tt
bytes_less-TextBefore (x ∷ xs) [] h = cc
bytes_less-TextBefore (x ∷ xs) (y ∷ ys) h = elim (Bool-cases (ltb x y)) [
  | inl p ↦ inl (ground arith)
  | inr p ↦ inr (ground arith, bytes_less-TextBefore xs ys (ground arith))
]

lane_less-LaneBefore : (a b : LaneIndexEntry) → lane_less b a ≡ false → LaneBefore a b
lane_less-LaneBefore a b h = elim (Bool-cases (bytes_less (codes a.lane_id) (codes b.lane_id))) [
  | inl p ↦ inl (bytes_less-TextBefore (codes a.lane_id) (codes b.lane_id) p)
  | inr p ↦
      let same : codes a.lane_id ≡ codes b.lane_id =
        bytes_less-total (codes a.lane_id) (codes b.lane_id) p (ground arith) in
      let back = (==_iff (codes b.lane_id) (codes a.lane_id)).1 (sym same) in
      inr (same, ground arith)
]

lane_less-AllBehind :
    (x : LaneIndexEntry) (ys : List LaneIndexEntry)
    → any (λ y. lane_less y x) ys ≡ false
    → AllBehind x ys
lane_less-AllBehind x [] h = tt
lane_less-AllBehind x (y ∷ ys) h =
    (lane_less-LaneBefore x y (ground arith), lane_less-AllBehind x ys (ground arith))

IsOrdered-Ascending : (es : List LaneIndexEntry) → IsOrdered lane_less es → Ascending es
IsOrdered-Ascending [] s = tt
IsOrdered-Ascending (x ∷ xs) (below, s) = (lane_less-AllBehind x xs below, IsOrdered-Ascending xs s)

project_entries-Ascending : (s : ProjectReadEpochSnapshot) → Ascending (project_entries s)
project_entries-Ascending s = IsOrdered-Ascending (project_entries s) (
    sorted-IsOrdered lane_less
      (λ a b c p q.
        identity_not_less_trans a.lane_id a.lane_generation b.lane_id b.lane_generation c.lane_id
          c.lane_generation p q)
      (λ a b p. identity_less-asym a.lane_id a.lane_generation b.lane_id b.lane_generation p)
      s.lane_entries)

keep-AllBehind :
    (test : LaneIndexEntry → Bool) (x : LaneIndexEntry) (ys : List LaneIndexEntry)
    → AllBehind x ys
    → AllBehind x (keep test ys)
keep-AllBehind test x [] h = tt
keep-AllBehind test x (y ∷ ys) (first, rest) = elim (Bool-cases (test y)) [
  | inl p ↦ rw p (first, keep-AllBehind test x ys rest)
  | inr p ↦ rw p (keep-AllBehind test x ys rest)
]

keep-Ascending :
    (test : LaneIndexEntry → Bool) (es : List LaneIndexEntry)
    → Ascending es
    → Ascending (keep test es)
keep-Ascending test [] h = tt
keep-Ascending test (x ∷ xs) (first, rest) = elim (Bool-cases (test x)) [
  | inl p ↦ rw p (keep-AllBehind test x xs first, keep-Ascending test xs rest)
  | inr p ↦ rw p (keep-Ascending test xs rest)
]

-- A project status selects the lane entries of the snapshot, each as often as it stands there, and a lane
-- status selects those of its lane id; both in ascending order: by the code points of the lane ids, and by
-- generation where the ids agree.
pub select_entries-project :
    (s : ProjectReadEpochSnapshot) (id : String) (entries lane_entries : List LaneIndexEntry)
    → select_entries project_plan s ≡ some entries
    → select_entries (lane_plan id) s ≡ some lane_entries
    → Ascending entries
      × Perm entries s.lane_entries
      × Ascending lane_entries
      × (lane_entries ≡ keep (λ e. e.lane_id == id) entries)
unfolding select_entries
select_entries-project s id entries lane_entries h k =
    let same : project_entries s ≡ entries = some_inj.0 h in
    let lanes : keep (λ e. e.lane_id == id) (project_entries s) ≡ lane_entries = some_inj.0 k in
    (
      subst Ascending same (project_entries-Ascending s),
      subst (λ es. Perm es s.lane_entries) same (sorted-perm lane_less s.lane_entries),
      subst Ascending lanes (keep-Ascending _ (project_entries s) (project_entries-Ascending s)),
      sym lanes ∙ ap (keep (λ e. e.lane_id == id)) same,
    )
