-- ===== src/ReadEpoch/Status.antt =====
-- What `_stable_status` of lib/ask_herdr_project_read_epoch.py says of the three heads.
use ask_herdr.Base.{
  String, ◌≡◌, ◌≢◌, refl, Bool, true, false, not, List, [], ◌∷◌, any, ◌==◌, ==_iff, string_eq,
  arith, if◌then◌else◌,
}
use ask_herdr.ReadEpoch.Observation.{
  HeadObservation, parts, stable_status, select_status, all_active, status_allowed,
}

-- The three heads are active.
pub record HeadsActive (o : HeadObservation) : Type 0 where
  pub authority : o.authority_status ≡ "active"
  pub lane : o.lane_status ≡ "active"
  pub topology : o.topology_status ≡ "active"

-- Texts that the computed test tells apart.
pub distinct : (a b : String) → (a == b) ≡ false → a ≢ b
distinct a b h p = ground (==_iff a b, arith)

all_active-HeadsActive : (o : HeadObservation) → (all_active o).0 ≡ "active" → HeadsActive o
all_active-HeadsActive o h = ground (
  ==_iff o.authority_status "active",
  ==_iff o.lane_status "active",
  ==_iff o.topology_status "active",
  distinct "quarantined" "active" refl,
  arith,
)

-- A status that is none of those selected is the one behind the loop.
select_status-other :
    (names : List String) (o : HeadObservation) (s : String)
    → any (λ n. n == s) names ≡ false
    → (select_status names o).0 ≡ s
    → (all_active o).0 ≡ s
select_status-other [] o s k h = h
select_status-other (n ∷ names) o s k h =
    let rest = select_status-other names o s in ground (==_iff n s, arith)

-- A test that puts another status first leaves the second alternative.
guarded :
    (b : Bool) (x y : String × String) (s : String) → x.0 ≢ s → (if b then x else y).0 ≡ s → y.0 ≡ s
guarded true x y s n h = absurd (n h)
guarded false x y s n h = h

stable_status-other :
    (o : HeadObservation) (s : String)
    → ("quarantined" == s) ≡ false
    → any (λ n. n == s) ("quarantined" ∷ "reconciliation_required" ∷ "absent" ∷ []) ≡ false
    → (stable_status o).0 ≡ s
    → (all_active o).0 ≡ s
unfolding stable_status
stable_status-other o s q k h =
    let names : List String = "quarantined" ∷ "reconciliation_required" ∷ "absent" ∷ [] in
    select_status-other names o s k (
      guarded (any (λ p. not (status_allowed p.status)) (parts o))
        ("quarantined", "project_read_epoch.head_status_invalid") (select_status names o) s
        (distinct "quarantined" s q) h)

-- The stable status is never that of a writer at work.
pub stable_status-not_busy : (o : HeadObservation) → (stable_status o).0 ≢ "busy"
stable_status-not_busy o h =
    let p = stable_status-other o "busy" refl refl h in
    ground (distinct "quarantined" "busy" refl, distinct "active" "busy" refl, arith)

-- A stable status is active only if the three heads are.
pub stable_status-active : (o : HeadObservation) → (stable_status o).0 ≡ "active" → HeadsActive o
stable_status-active o h = all_active-HeadsActive o (stable_status-other o "active" refl refl h)

-- Three active heads give an active status.
pub HeadsActive-stable_status :
    (o : HeadObservation)
    → HeadsActive o
    → stable_status o ≡ ("active", "project_read_epoch.active")
unfolding stable_status
HeadsActive-stable_status o h = rw (h.authority, h.lane, h.topology) refl
