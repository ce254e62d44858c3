-- ===== src/ProjectStatus/Enumeration.antt =====
-- A client that follows the cursors of lib/ask_herdr_project_status.py from page to page.
use ask_herdr.Base.{
  ℕ, zero, suc, ◌+◌, ◌≤◌, ◌<◌, ◌≡◌, ◌⊎◌, inl, inr, refl, sym, ap, subst, ◌∙◌, String, true, false,
  Option, none, some, is_some, List, [], ◌∷◌, ◌++◌, length, ==_refl, ==_iff, string_eq, Result, ok,
  arith, leb, ◌>>=◌, Bool-cases,
}
use ask_herdr.Base.Slices.{
  take, drop, get_elem?, length-take, length-drop, take_all, drop-drop, take-append-drop,
}
use ask_herdr.StrictJson.Digest.{Encodings}
use ask_herdr.ReadEpoch.Entries.{LaneIndexEntry}
use ask_herdr.ReadEpoch.Acquire.{ProjectReadEpoch, ProjectReadEpochSnapshot}
use ask_herdr.ProjectStatus.Find.{keys_repeat}
use ask_herdr.ProjectStatus.Entries.{ProjectStatusLaneHead}
use ask_herdr.ProjectStatus.Cursor.{Cursor, CursorPayload, encode_cursor, decode_cursor}
use ask_herdr.ProjectStatus.RoundTrip.{CursorWorks, CursorWorks-round_trip}
use ask_herdr.ProjectStatus.Select.{StatusSelectorPlan, select_entries}
use ask_herdr.ProjectStatus.Pages.{
  ProjectStatusInspection, heads, limit_valid, contract_of, page_start, next_cursor_of, page_result,
  page_of, read_snapshot, read_status,
}
use ask_herdr.ProjectStatus.Positions.{
  All, All-get_elem?, get_last?-page, empty_page, heads-append, Identified, same_identity,
  positions-found,
}

-- The entries of the pages from a cursor on, as long as there is a next cursor; the number bounds the
-- reads.
unfoldable pub read_pages :
    Encodings
    → StatusSelectorPlan
    → ℕ
    → ProjectReadEpochSnapshot
    → ℕ
    → Option Cursor
    → Result (List ProjectStatusLaneHead)
read_pages lib plan limit s zero cursor = ok []
read_pages lib plan limit s (suc left) cursor = read_status lib plan limit cursor s >>= λ page.
    elim page.next_cursor [
      | none ↦ ok page.entries
      | some next ↦
          read_pages lib plan limit s left (some next) >>= λ rest. ok (page.entries ++ rest)
    ]

-- An active snapshot and a plan, the entries that the plan selects, and a digest for each by which no two
-- of them agree.
pub record Reading (lib : Encodings) (plan : StatusSelectorPlan) (limit : ℕ)
    (s : ProjectReadEpochSnapshot) (ordered : List LaneIndexEntry) : Type 0 where
  pub epoch : ProjectReadEpoch
  pub contract : String
  pub ordering : String
  pub identity : LaneIndexEntry → String
  pub acquired : s.inspection.epoch ≡ some epoch
  pub active : s.inspection.status ≡ "active"
  pub limited : limit_valid limit ≡ true
  pub contracted : contract_of lib plan limit ≡ ok contract
  pub selected : select_entries plan s ≡ some ordered
  pub identified : All (Identified lib identity) ordered
  pub distinct_identities : keys_repeat (same_identity lib identity) ordered ≡ false

-- The payload of the cursor behind an entry.
abbrev pub payload_behind : ProjectReadEpoch → String → String → String → CursorPayload
payload_behind epoch contract ordering identity = record {
  project_read_epoch_digest = epoch.epoch_digest;
  normalized_read_contract_digest = contract;
  ordering_digest = ordering;
  last_identity_digest = identity;
}

filled {ℓ} :
    {A : Type ℓ} (start limit : ℕ) (xs : List A)
    → 1 ≤ limit
    → start < length xs
    → leb (length (take limit (drop start xs))) 0 ≡ false
filled start zero xs p h = absurd (omega arith)
filled zero (suc k) [] p h = absurd (omega arith)
filled zero (suc k) (x ∷ xs) p h = ground arith
filled (suc n) (suc k) [] p h = absurd (omega arith)
filled (suc n) (suc k) (x ∷ xs) p h = filled n (suc k) xs p (omega arith)

module _ (lib : Encodings) (plan : StatusSelectorPlan) (limit : ℕ) (s : ProjectReadEpochSnapshot)
    (ordered : List LaneIndexEntry) (r : Reading lib plan limit s ordered)
    (works : All
      (λ e. CursorWorks lib (payload_behind r.epoch r.contract r.ordering (r.identity e)))
      ordered) where
  -- A cursor, or none, that makes a reader start at an index.
  StartsAt : Option Cursor → ℕ → Type 0
  StartsAt none n = n ≡ 0
  StartsAt (some cursor) n =
      (p : CursorPayload) × (n < length ordered)
      × (decode_cursor lib cursor r.contract ≡ ok (some p))
      × (page_start lib r.epoch (some p) ordered ≡ ok (some n))

  -- The cursor that a page with more behind it ends with.
  next-StartsAt :
      (k : ℕ) (e : LaneIndexEntry)
      → get_elem? ordered k ≡ some e
      → suc k < length ordered
      → (cursor : Cursor) × (encode_cursor lib r.epoch.epoch_digest r.contract (r.identity e)
          ≡ ok cursor)
        × StartsAt (some cursor) (suc k)
  unfolding StartsAt page_start
  next-StartsAt k e g below =
      let p = payload_behind r.epoch r.contract r.ordering (r.identity e) in
      let (cursor, written, back) = CursorWorks-round_trip lib p (
        All-get_elem?
          (λ x. CursorWorks lib (payload_behind r.epoch r.contract r.ordering (r.identity x)))
          ordered k e works g) in
      let found =
        positions-found lib r.identity ordered 0 k e r.identified r.distinct_identities g in
      (cursor, written, (p, below, back, ground (arith, found, ==_refl r.epoch.epoch_digest)))

  -- The next cursor of a page, with the start of the page behind it.
  data NextOf (n : ℕ) : Option Cursor → Type 0 where
    finished : length ordered ≤ n + limit → NextOf n none
    continued :
        (cursor : Cursor)
        → n + limit < length ordered
        → StartsAt (some cursor) (n + limit)
        → NextOf n (some cursor)

  next_cursor-NextOf :
      (n : ℕ)
      → n ≤ length ordered
      → (next : Option Cursor) × (next_cursor_of lib r.epoch.epoch_digest r.contract n
            (take limit (drop n ordered))
            ordered
          ≡ ok next)
        × NextOf n next
  unfolding next_cursor_of
  next_cursor-NextOf n h = elim (below_or_not (n + limit) (length ordered)) [
    | inl more ↦
        let (k, e, positive, g, last) =
          get_last?-page n limit ordered (ground (arith, r.limited)) (omega arith) in
        let size = length-take limit (drop n ordered) (omega (arith, length-drop n ordered)) in
        let (cursor, written, starts) = next-StartsAt (n + k) e g (omega arith) in
        let known = All-get_elem? (Identified lib r.identity) ordered (n + k) e r.identified g in
        (
          some cursor,
          ground arith,
          continued cursor more (subst (StartsAt (some cursor)) (omega arith) starts),
        )
    | inr rest ↦
        let all = take_all limit (drop n ordered) (omega (arith, length-drop n ordered)) in
        (none, ground (arith, length-drop n ordered), finished rest)
  ]
    where
      below_or_not : (a b : ℕ) → (a < b) ⊎ (b ≤ a)
      below_or_not a b = ground arith

  -- The result of a page with entries, or with none where the plan selects none.
  page_result-read :
      (page : List LaneIndexEntry) (next : Option Cursor)
      → (length ordered ≡ 0 → (page ≡ []) × (next ≡ none))
      → ((page_result lib plan r.contract s r.epoch ordered page next).entries ≡ heads page)
        × ((page_result lib plan r.contract s r.epoch ordered page next).next_cursor ≡ next)
  unfolding page_result
  page_result-read page next h =
      let active = (==_iff s.inspection.status "active").1 r.active in
      elim (Bool-cases (leb (length ordered) 0)) [
        | inl empty ↦ let q = h (ground arith) in ground (arith, active)
        | inr more ↦ ground (arith, active)
      ]

  NextOf-cases :
      (n : ℕ) (next : Option Cursor)
      → NextOf n next
      → ((next ≡ none) × (length ordered ≤ n + limit))
        ⊎ ((cursor : Cursor) × (next ≡ some cursor)
            × (n + limit < length ordered)
            × StartsAt (some cursor) (n + limit))
  NextOf-cases n none (finished h) = inl (refl, h)
  NextOf-cases n (some c) (continued cursor more starts) = inr (cursor, refl, more, starts)

  NextOf-empty : (n : ℕ) (next : Option Cursor) → NextOf n next → length ordered ≡ 0 → next ≡ none
  NextOf-empty n none (finished h) e = refl
  NextOf-empty n (some c) (continued cursor more starts) e = absurd (omega arith)

  -- The page that is read behind a start, once the cursor is decoded.
  page_of-read :
      (decoded : Option CursorPayload) (n : ℕ)
      → n ≤ length ordered
      → (is_some decoded ≡ true → n < length ordered)
      → page_start lib r.epoch decoded ordered ≡ ok (some n)
      → (page : ProjectStatusInspection) × (read_snapshot lib plan limit r.contract decoded s
          ≡ ok page)
        × (page.entries ≡ heads (take limit (drop n ordered)))
        × NextOf n page.next_cursor
  unfolding read_snapshot page_of
  page_of-read decoded n h inside starts =
      let (next, known, behind) = next_cursor-NextOf n h in
      let page = take limit (drop n ordered) in
      let result =
        page_result-read page next
          (λ empty. (empty_page n limit ordered empty, NextOf-empty n next behind empty)) in
      let some_left : is_some decoded ≡ true → leb (length page) 0 ≡ false =
        λ d. filled n limit ordered (ground (arith, r.limited)) (inside d) in
      (
        page_result lib plan r.contract s r.epoch ordered page next,
        ground (arith, r.acquired, r.selected),
        result.0,
        rw (result.1) behind,
      )

  -- A read from a start gives the entries from there, as many as the limit.
  read-StartsAt :
      (cursor : Option Cursor) (n : ℕ)
      → n ≤ length ordered
      → StartsAt cursor n
      → (page : ProjectStatusInspection) × (read_status lib plan limit cursor s ≡ ok page)
        × (page.entries ≡ heads (take limit (drop n ordered)))
        × NextOf n page.next_cursor
  unfolding StartsAt read_status page_start
  read-StartsAt none n h start =
      let (page, read, entries, next) =
        page_of-read none n h (λ d. absurd (ground arith)) (ground arith) in
      (page, ground (arith, r.limited, r.contracted), entries, next)
  read-StartsAt (some cursor) n h (p, below, decoded, starts) =
      let (page, read, entries, next) = page_of-read (some p) n h (λ d. below) starts in
      (page, ground (arith, r.limited, r.contracted), entries, next)

  rest_after :
      (n : ℕ)
      → heads (take limit (drop n ordered)) ++ heads (drop (n + limit) ordered)
        ≡ heads (drop n ordered)
  rest_after n =
      let parts = take-append-drop limit (drop n ordered) in
      let later = drop-drop limit n ordered in
      sym (heads-append (take limit (drop n ordered)) (drop (n + limit) ordered))
      ∙ ap heads (ap (λ xs. take limit (drop n ordered) ++ xs) (sym later) ∙ parts)

  last_page : (n : ℕ) → length ordered ≤ n + limit → take limit (drop n ordered) ≡ drop n ordered
  last_page n h = take_all limit (drop n ordered) (omega (arith, length-drop n ordered))

  read_pages-StartsAt :
      (left : ℕ) (cursor : Option Cursor) (n : ℕ)
      → n ≤ length ordered
      → length ordered < n + left
      → StartsAt cursor n
      → read_pages lib plan limit s left cursor ≡ ok (heads (drop n ordered))
  unfolding read_pages
  read_pages-StartsAt zero cursor n h enough start = absurd (omega arith)
  read_pages-StartsAt (suc left) cursor n h enough start =
      let (page, read, entries, behind) = read-StartsAt cursor n h start in
      let positive : 1 ≤ limit = ground (arith, r.limited) in
      elim (NextOf-cases n page.next_cursor behind) [
        | inl (stop, done) ↦ let all = entries ∙ ap heads (last_page n done) in ground arith
        | inr (next, goes_on, more, starts) ↦
            let rest =
              read_pages-StartsAt left (some next) (n + limit) (omega arith) (omega arith) starts in
            let joined = ap (λ xs. xs ++ heads (drop (n + limit) ordered)) entries ∙ rest_after n in
            ground arith
      ]

  -- A client that starts with no cursor, follows every next cursor and may read once more than there are
  -- entries obtains the heads of exactly the selected entries, each once and in their order, whatever the
  -- limit: where all reads see one active snapshot in which no two selected entries have the same identity digest, where
  -- the encodings decode the cursors that they wrote.
  pub read_pages_complete :
      read_pages lib plan limit s (length ordered + 1) none ≡ ok (heads ordered)
  unfolding StartsAt
  read_pages_complete =
      read_pages-StartsAt (length ordered + 1) none 0 (omega arith) (omega arith) refl
