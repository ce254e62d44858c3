-- ===== src/ReadEpoch/Observation.antt =====
-- `_HeadObservation` of lib/ask_herdr_project_read_epoch.py, and what it says of the three heads.
use native.Mathlib.Decide.{ℕ_discrete}
use ask_herdr.Base.{
  ℕ, String, Bool, true, false, not, ◌&&◌, ◌||◌, Option, none, some, List, [], ◌∷◌, any, codes,
  ◌==◌, nat_eq, string_eq, if◌then◌else◌, Eq, eq_of_discrete, String-discrete,
}
use ask_herdr.ReadEpoch.Entries.{
  LaneIndexEntry, TopologyStatusKeyEntry, TopologyStatusOperationEntry,
  AuthorityStatusOperationEntry, LaneIndexEntry-discrete, TopologyStatusKeyEntry-discrete,
  TopologyStatusOperationEntry-discrete, AuthorityStatusOperationEntry-discrete,
}

pub record HeadObservation : Type 0 where
  pub authority_status : String
  pub authority_detail : String
  pub authority_digest : Option String
  pub lane_status : String
  pub lane_detail : String
  pub lane_digest : Option String
  pub lane_entries : List LaneIndexEntry
  pub topology_status : String
  pub topology_detail : String
  pub topology_digest : Option String
  pub topology_key_entries : List TopologyStatusKeyEntry
  pub authority_operation_entries : List AuthorityStatusOperationEntry
  pub topology_operation_entries : List TopologyStatusOperationEntry

unfoldable pub HeadObservation-discrete : Discrete HeadObservation
HeadObservation-discrete = hlevel (
  String-discrete, ℕ_discrete, LaneIndexEntry-discrete, TopologyStatusKeyEntry-discrete,
  TopologyStatusOperationEntry-discrete, AuthorityStatusOperationEntry-discrete,
)

instance abbrev pub head_observation_eq : Eq HeadObservation
head_observation_eq = eq_of_discrete HeadObservation-discrete

-- One of the tuples of `_parts`.
pub record Part : Type 0 where
  pub status : String
  pub detail : String
  pub digest : Option String

-- `_parts`
abbrev pub parts : HeadObservation → List Part
parts o =
    record { status = o.authority_status; detail = o.authority_detail; digest = o.authority_digest }
    ∷ record { status = o.lane_status; detail = o.lane_detail; digest = o.lane_digest }
    ∷ record { status = o.topology_status; detail = o.topology_detail; digest = o.topology_digest }
    ∷ []

same_codes : List ℕ → List ℕ → Bool
same_codes [] [] = true
same_codes (a ∷ as') (b ∷ bs) = a == b && same_codes as' bs
same_codes _ _ = false

codes_end_with : List ℕ → List ℕ → Bool
unfolding same_codes
codes_end_with [] suffix = same_codes [] suffix
codes_end_with (c ∷ cs) suffix = same_codes (c ∷ cs) suffix || codes_end_with cs suffix

-- `text.endswith(suffix)`
unfoldable pub ends_with : String → String → Bool
unfolding codes_end_with
ends_with text suffix = codes_end_with (codes text) (codes suffix)

abbrev pub part_busy : Part → Bool
part_busy p = p.status == "busy" || ends_with p.detail ".writer_active"

-- `_writer_busy`
unfoldable pub writer_busy : HeadObservation → Bool
writer_busy o = any part_busy (parts o)

abbrev pub status_allowed : String → Bool
status_allowed s =
    s == "active"
    || (s == "absent" || (s == "busy" || (s == "quarantined" || s == "reconciliation_required")))

-- The detail of the first part that has the status.
abbrev pub first_detail : String → List Part → Option String
first_detail selected [] = none
first_detail selected (p ∷ ps) =
    let rest = first_detail selected ps in if p.status == selected then some p.detail else rest

-- The part of `_stable_status` behind its loop.
abbrev pub all_active : HeadObservation → String × String
all_active o =
    if any (λ p. not (p.status == "active")) (parts o)
    then ("quarantined", "project_read_epoch.head_status_invalid")
    else ("active", "project_read_epoch.active")

-- The loop of `_stable_status` over the selected statuses.
abbrev pub select_status : List String → HeadObservation → String × String
select_status [] o = all_active o
select_status (selected ∷ others) o =
    let rest = select_status others o in
    elim (first_detail selected (parts o)) [ some detail ↦ (selected, detail) | none ↦ rest ]

-- `_stable_status`
unfoldable pub stable_status : HeadObservation → String × String
stable_status o =
    if any (λ p. not (status_allowed p.status)) (parts o)
    then ("quarantined", "project_read_epoch.head_status_invalid")
    else select_status ("quarantined" ∷ "reconciliation_required" ∷ "absent" ∷ []) o
