-- ===== src/ReadEpoch/Stable.antt =====
-- What the attempts of an acquisition in lib/ask_herdr_project_read_epoch.py come to.
use ask_herdr.Base.{
  ℕ, zero, suc, ◌+◌, ◌≤◌, ◌<◌, ◌≡◌, ◌⊎◌, refl, Bool, true, false, Bool-cases, inl, inr, arith,
  ==_iff,
}
use ask_herdr.ReadEpoch.Observation.{HeadObservation, head_observation_eq, writer_busy}
use ask_herdr.ReadEpoch.Acquire.{
  Binding, Digests, Clock, is_unstable, without_epoch, settle_attempt, acquire_from,
}

-- Every attempt of a range was unstable.
abbrev pub AllUnstable : (ℕ → HeadObservation × HeadObservation) → ℕ → ℕ → Type 0
AllUnstable observe first last = (j : ℕ) → first ≤ j → j < last → is_unstable (observe j) ≡ true

-- The first stable attempt of a range.
pub record FirstStable (observe : ℕ → HeadObservation × HeadObservation) (first last k : ℕ)
    : Type 0 where
  pub from_first : first ≤ k
  pub before_last : k < last
  pub stable : is_unstable (observe k) ≡ false
  pub unstable_before : AllUnstable observe first k

-- A stable attempt read the same twice, with no writer at work.
pub is_unstable-false :
    (first second : HeadObservation)
    → is_unstable (first, second) ≡ false
    → (first ≡ second) × (writer_busy second ≡ false)
unfolding is_unstable
is_unstable-false first second h = ground (==_iff first second, arith)

pub apart : {b : Bool} → b ≡ false → b ≡ true → ⊥
apart p q = ground arith

first_or_later : (first j : ℕ) → first ≤ j → (j ≡ first) ⊎ (first + 1 ≤ j)
first_or_later first j p = ground arith

AllUnstable-from :
    (observe : ℕ → HeadObservation × HeadObservation) (first last : ℕ)
    → is_unstable (observe first) ≡ true
    → AllUnstable observe (first + 1) last
    → AllUnstable observe first last
AllUnstable-from observe first last unstable later j p q = elim (first_or_later first j p) [
  | inl same ↦ rw same unstable
  | inr above ↦ later j above q
]

compare_cases : (k j : ℕ) → (k < j) ⊎ ((j < k) ⊎ (k ≡ j))
compare_cases k j = ground arith

-- The first stable attempt is unique.
pub FirstStable-unique :
    (observe : ℕ → HeadObservation × HeadObservation) (first last k j : ℕ)
    → FirstStable observe first last k
    → FirstStable observe first last j
    → k ≡ j
FirstStable-unique observe first last k j p q = elim (compare_cases k j) [
  | inl below ↦ absurd (apart p.stable (q.unstable_before k p.from_first below))
  | inr (inl above) ↦ absurd (apart q.stable (p.unstable_before j q.from_first above))
  | inr (inr same) ↦ same
]

module _ (digests : Digests) (binding : Binding) (clock : Clock)
    (observe : ℕ → HeadObservation × HeadObservation) where
  pub acquire_from_cases :
      (left attempt : ℕ)
      → (AllUnstable observe attempt (attempt + left)
          × (acquire_from digests binding clock observe left attempt
              ≡ without_epoch "busy" "project_read_epoch.head_drift"))
        ⊎ ((k : ℕ) × FirstStable observe attempt (attempt + left) k
            × (acquire_from digests binding clock observe left attempt
                ≡ settle_attempt digests binding clock (observe k).1 k))
  unfolding acquire_from
  acquire_from_cases zero attempt = inl ((λ j p q. absurd (ground arith)), refl)
  acquire_from_cases (suc left) attempt = elim (Bool-cases (is_unstable (observe attempt))) [
    | inr stable ↦ inr (
      attempt,
      record {
        from_first = ground arith;
        before_last = ground arith;
        stable = stable;
        unstable_before = λ j p q. absurd (ground arith);
      },
      ground arith,
    )
    | inl unstable ↦ elim (acquire_from_cases left (attempt + 1)) [
      | inl (later, busy) ↦ inl (
        AllUnstable-from observe attempt (attempt + suc left) unstable
            (λ j p q. later j p (ground arith)),
        ground arith,
      )
      | inr (k, found, settled) ↦ inr (
        k,
        record {
          from_first = ground arith;
          before_last = ground arith;
          stable = found.stable;
          unstable_before =
              λ j p q. AllUnstable-from observe attempt k unstable found.unstable_before j p q;
        },
        ground arith,
      )
    ]
  ]
