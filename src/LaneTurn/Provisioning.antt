-- ===== src/LaneTurn/Provisioning.antt =====
-- The topology facts of an attempt in lib/ask_herdr_lane_turn.py: its claim, its first effect, the
-- proof that settles the claim, and the intent that they bind.
use ask_herdr.Base.{
  ℕ, String, ◌≡◌, ◌≢◌, ◌⊎◌, true, Option, some, none, is_some, [], arith, ok, ==_iff, nat_eq,
  string_eq, option_eq, >>-eq-ok, Option-cases, inl, inr,
}
use ask_herdr.LaneTurn.Kinds.{prepared, settled}
use ask_herdr.LaneTurn.Events.Claim.{ClaimTopologyProvisioning, RecordTopologyProvisioned}
use ask_herdr.LaneTurn.Events.Effects.{TopologyEffectStarted, TopologyCommandEffectStarted}
use ask_herdr.LaneTurn.Events.Dispatch.{
  BeginDispatch, DispatchIntent, intent, intent_record, validate_dispatch_intent,
}
use ask_herdr.LaneTurn.State.{LaneTurnState}
use ask_herdr.LaneTurn.Correlation.{common_correlates}
use ask_herdr.LaneTurn.Topology.{
  claim_is_admissible, claim_matches_provisioned, claim_matches_effect_started,
  effect_is_admissible, command_is_admissible,
}
use ask_herdr.LaneTurn.Delivery.{require_dispatch_topology}
use ask_herdr.LaneTurn.Steps.{
  Step, stays, claims, starts_effect, starts_command, settles_topology, anchors, dispatches,
  loses_delivery, settles_non_start, isolates, isolates_effect, starts_turn, times_out, withholds,
  concludes,
}

-- The attempt, lane and policy that a topology record names are the state's.
pub record SameAttempt (s : LaneTurnState) (operation_id request attempt_id lane_id : String)
    (lane_generation : ℕ) (policy : String) : Type 0 where
  pub same_operation : operation_id ≡ s.operation_id
  pub same_request : request ≡ s.canonical_request_digest
  pub same_attempt : attempt_id ≡ s.attempt_id
  pub same_lane : lane_id ≡ s.lane_id
  pub same_generation : lane_generation ≡ s.lane_generation
  pub same_policy : s.direct_human_policy_record_digest ≡ some policy

abbrev pub ClaimFits : LaneTurnState → Option ClaimTopologyProvisioning → Type 0
ClaimFits s none = Unit {0}
ClaimFits s (some c) =
    SameAttempt s c.operation_id c.canonical_request_digest c.attempt_id c.lane_id c.lane_generation
      c.policy_record_digest
    × (s.topology_provisioned ≡ none)
    × (s.dispatch_intent ≡ none)
    × (s.phase ≢ settled)

abbrev pub ProofFits : LaneTurnState → Option RecordTopologyProvisioned → Type 0
ProofFits s none = Unit {0}
ProofFits s (some p) =
    SameAttempt s p.operation_id p.canonical_request_digest p.attempt_id p.lane_id p.lane_generation
      p.policy_record_digest
    × (s.topology_provisioning_claim ≡ none)

abbrev pub EffectFits : LaneTurnState → Option TopologyEffectStarted → Type 0
EffectFits s none = s.topology_command_effects_started ≡ []
EffectFits s (some e) =
    SameAttempt s e.operation_id e.canonical_request_digest e.attempt_id e.lane_id e.lane_generation
      e.policy_record_digest
    × ((is_some s.topology_provisioning_claim ≡ true) ⊎ (is_some s.topology_provisioned ≡ true))

-- The topology digest that an intent has to name.
abbrev pub bound_digest : Option String → Option RecordTopologyProvisioned → Option String
bound_digest none proof = none
bound_digest (some policy) none = none
bound_digest (some policy) (some p) = some p.project_topology_digest

abbrev pub IntentFits : LaneTurnState → Option DispatchIntent → Type 0
IntentFits s none = Unit {0}
IntentFits s (some i) =
    (i.operation_id ≡ s.operation_id)
    × (i.canonical_request_digest ≡ s.canonical_request_digest)
    × (i.attempt_id ≡ s.attempt_id)
    × (i.project_topology_digest
        ≡ bound_digest s.direct_human_policy_record_digest s.topology_provisioned)
    × (is_some s.direct_human_policy_record_digest ≡ true → is_some s.topology_provisioned ≡ true)

pub record TopologyInv (s : LaneTurnState) : Type 0 where
  pub claimed : ClaimFits s s.topology_provisioning_claim
  pub proved : ProofFits s s.topology_provisioned
  pub started : EffectFits s s.topology_effect_started
  pub bound : IntentFits s s.dispatch_intent

-- What an admissible claim has in common with the state.
pub claim_is_admissible_facts :
    (s : LaneTurnState) (e : ClaimTopologyProvisioning)
    → claim_is_admissible s e ≡ true
    → SameAttempt s e.operation_id e.canonical_request_digest e.attempt_id e.lane_id
        e.lane_generation e.policy_record_digest
      × (s.dispatch_intent ≡ none)
      × (s.phase ≡ prepared)
unfolding claim_is_admissible
claim_is_admissible_facts s e h = ground (
  arith,
  ==_iff s.direct_human_policy_record_digest (some e.policy_record_digest),
  ==_iff s.operation_id e.operation_id,
  ==_iff s.canonical_request_digest e.canonical_request_digest,
  ==_iff s.attempt_id e.attempt_id,
  ==_iff s.lane_id e.lane_id,
)

-- The fields that a claim shares with the record that follows it.
pub record SameClaim (c : ClaimTopologyProvisioning)
    (operation_id request attempt_id lane_id : String) (lane_generation : ℕ) (policy : String)
    : Type 0 where
  pub claim_operation : c.operation_id ≡ operation_id
  pub claim_request : c.canonical_request_digest ≡ request
  pub claim_attempt : c.attempt_id ≡ attempt_id
  pub claim_lane : c.lane_id ≡ lane_id
  pub claim_generation : c.lane_generation ≡ lane_generation
  pub claim_policy : c.policy_record_digest ≡ policy

claim_matches_provisioned_facts :
    (c : ClaimTopologyProvisioning) (p : RecordTopologyProvisioned)
    → claim_matches_provisioned c p ≡ true
    → SameClaim c p.operation_id p.canonical_request_digest p.attempt_id p.lane_id p.lane_generation
        p.policy_record_digest
unfolding claim_matches_provisioned
claim_matches_provisioned_facts c p h = ground (
  arith,
  ==_iff c.operation_id p.operation_id,
  ==_iff c.canonical_request_digest p.canonical_request_digest,
  ==_iff c.attempt_id p.attempt_id,
  ==_iff c.lane_id p.lane_id,
  ==_iff c.policy_record_digest p.policy_record_digest,
)

pub effect_is_admissible_facts :
    (s : LaneTurnState) (e : TopologyEffectStarted)
    → effect_is_admissible s e ≡ true
    → (c : ClaimTopologyProvisioning) × (s.topology_provisioning_claim ≡ some c)
      × SameClaim c e.operation_id e.canonical_request_digest e.attempt_id e.lane_id
          e.lane_generation e.policy_record_digest
unfolding effect_is_admissible claim_matches_effect_started
effect_is_admissible_facts s e h = elim (Option-cases s.topology_provisioning_claim) [
  | inl n ↦ absurd (ground arith)
  | inr (c, p) ↦ (
    c,
    p,
    ground (
      arith,
      ==_iff c.operation_id e.operation_id,
      ==_iff c.canonical_request_digest e.canonical_request_digest,
      ==_iff c.attempt_id e.attempt_id,
      ==_iff c.lane_id e.lane_id,
      ==_iff c.policy_record_digest e.policy_record_digest,
    ),
  )
]

pub command_needs_claim :
    (s : LaneTurnState) (e : TopologyCommandEffectStarted)
    → command_is_admissible s e ≡ true
    → (c : ClaimTopologyProvisioning) × (s.topology_provisioning_claim ≡ some c)
unfolding command_is_admissible
command_needs_claim s e h = elim (Option-cases s.topology_provisioning_claim) [
  | inl n ↦ absurd (ground arith)
  | inr found ↦ found
]

command_needs_effect :
    (s : LaneTurnState) (e : TopologyCommandEffectStarted)
    → command_is_admissible s e ≡ true
    → is_some s.topology_effect_started ≡ true
unfolding command_is_admissible
command_needs_effect s e h = ground arith

intent_fields :
    (e : BeginDispatch) (i : DispatchIntent)
    → intent e ≡ ok i
    → (i.operation_id ≡ e.operation_id)
      × (i.canonical_request_digest ≡ e.canonical_request_digest)
      × (i.attempt_id ≡ e.attempt_id)
      × (i.project_topology_digest ≡ e.project_topology_digest)
unfolding intent
intent_fields e i h =
    let (valid, same) =
      >>-eq-ok (validate_dispatch_intent (intent_record e)) (ok (intent_record e)) h in
    ground (arith, same)

-- The topology test of a dispatch, as an equation on the digest that it names.
dispatch_topology_facts :
    (s : LaneTurnState) (e : BeginDispatch)
    → require_dispatch_topology s e ≡ ok tt
    → (e.project_topology_digest
        ≡ bound_digest s.direct_human_policy_record_digest s.topology_provisioned)
      × (is_some s.direct_human_policy_record_digest ≡ true → is_some s.topology_provisioned ≡ true)
dispatch_topology_facts s e h = elim (Option-cases s.topology_provisioned) [
  | inl n ↦ ground arith
  | inr (p, q) ↦ ground (arith, ==_iff e.project_topology_digest (some p.project_topology_digest))
]

common_correlates_facts :
    (s : LaneTurnState) (a b c : String)
    → common_correlates s a b c ≡ true
    → (a ≡ s.operation_id) × (b ≡ s.canonical_request_digest) × (c ≡ s.attempt_id)
unfolding common_correlates
common_correlates_facts s a b c h =
    ground
      (arith, ==_iff s.operation_id a, ==_iff s.canonical_request_digest b, ==_iff s.attempt_id c)

pub Step-TopologyInv : (s t : LaneTurnState) → Step s t → TopologyInv s → TopologyInv t
Step-TopologyInv s t (stays p) v = ground arith
Step-TopologyInv s t (claims e a b c p) v = ground (arith, claim_is_admissible_facts s e)
Step-TopologyInv s t (starts_effect e a b p) v = ground (arith, effect_is_admissible_facts s e)
Step-TopologyInv s t (starts_command e a b p) v = ground (arith, command_needs_effect s e)
Step-TopologyInv s t (settles_topology c e a b m r p) v =
    ground (arith, claim_matches_provisioned_facts c e)
Step-TopologyInv s t (anchors e a b p) v = ground arith
Step-TopologyInv s t (dispatches e i a b c d f g k p) v = ground (
  arith,
  common_correlates_facts s e.operation_id e.canonical_request_digest e.attempt_id,
  dispatch_topology_facts s e,
  intent_fields e i,
)
Step-TopologyInv s t (loses_delivery a b c p) v = ground arith
Step-TopologyInv s t (settles_non_start a b c p) v = ground arith
Step-TopologyInv s t (isolates a p) v = ground arith
Step-TopologyInv s t (isolates_effect a p) v = ground arith
Step-TopologyInv s t (starts_turn e a b c m p) v = ground arith
Step-TopologyInv s t (times_out a b p) v = ground arith
Step-TopologyInv s t (withholds e a b c m p) v = ground arith
Step-TopologyInv s t (concludes e a b c m n p) v = ground arith
