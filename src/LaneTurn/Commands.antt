-- ===== src/LaneTurn/Commands.antt =====
-- The later topology commands of an attempt in lib/ask_herdr_lane_turn.py: numbered from 2 on, each
-- step once, all under one first effect.
use ask_herdr.Base.{
  ℕ, suc, ◌+◌, String, ◌≡◌, ◌≢◌, refl, true, false, some, none, List, [], ◌∷◌, ◌++◌, arith, sym, ap,
  subst, ◌∙◌, ==_iff, string_eq, nat_eq, length, any, get_last?, Option-cases, inl, inr,
}
use ask_herdr.LaneTurn.Events.Effects.{TopologyCommandEffectStarted}
use ask_herdr.LaneTurn.State.{LaneTurnState}
use ask_herdr.LaneTurn.Topology.{command_is_admissible, command_link, same_step}
use ask_herdr.LaneTurn.Steps.{
  Step, stays, claims, starts_effect, starts_command, settles_topology, anchors, dispatches,
  loses_delivery, settles_non_start, isolates, isolates_effect, starts_turn, times_out, withholds,
  concludes,
}

abbrev pub Numbered : ℕ → List TopologyCommandEffectStarted → Type 0
Numbered n [] = Unit {0}
Numbered n (c ∷ cs) = (c.command_sequence ≡ n) × Numbered (suc n) cs

-- No command of the list has this step.
abbrev pub StepAbsent : String → List TopologyCommandEffectStarted → Type 0
StepAbsent step [] = Unit {0}
StepAbsent step (c ∷ cs) = (c.topology_command_step_id ≢ step) × StepAbsent step cs

abbrev pub DistinctSteps : List TopologyCommandEffectStarted → Type 0
DistinctSteps [] = Unit {0}
DistinctSteps (c ∷ cs) = StepAbsent c.topology_command_step_id cs × DistinctSteps cs

-- Every command names one record as the first effect's.
abbrev pub SameEffect : String → List TopologyCommandEffectStarted → Type 0
SameEffect digest [] = Unit {0}
SameEffect digest (c ∷ cs) =
    (c.topology_effect_started_record_digest ≡ digest) × SameEffect digest cs

-- The first command links to the record of the first effect, which all of them name.
abbrev pub IsChain : List TopologyCommandEffectStarted → Type 0
IsChain [] = Unit {0}
IsChain (c ∷ cs) =
    (c.previous_topology_effect_record_digest ≡ c.topology_effect_started_record_digest)
    × SameEffect c.topology_effect_started_record_digest cs

pub record CommandInv (s : LaneTurnState) : Type 0 where
  pub numbered : Numbered 2 s.topology_command_effects_started
  pub distinct : DistinctSteps s.topology_command_effects_started
  pub chained : IsChain s.topology_command_effects_started

Numbered-append :
    (n : ℕ) (cs : List TopologyCommandEffectStarted) (e : TopologyCommandEffectStarted)
    → Numbered n cs
    → e.command_sequence ≡ length cs + n
    → Numbered n (cs ++ e ∷ [])
Numbered-append n [] e h p = (omega arith, tt)
Numbered-append n (c ∷ cs) e h p = (h.0, Numbered-append (suc n) cs e h.1 (omega arith))

StepAbsent-append :
    (step : String) (cs : List TopologyCommandEffectStarted) (e : TopologyCommandEffectStarted)
    → StepAbsent step cs
    → e.topology_command_step_id ≢ step
    → StepAbsent step (cs ++ e ∷ [])
StepAbsent-append step [] e h p = (p, tt)
StepAbsent-append step (c ∷ cs) e h p = (h.0, StepAbsent-append step cs e h.1 p)

DistinctSteps-append :
    (cs : List TopologyCommandEffectStarted) (e : TopologyCommandEffectStarted)
    → DistinctSteps cs
    → any (same_step e) cs ≡ false
    → DistinctSteps (cs ++ e ∷ [])
DistinctSteps-append [] e h p = (tt, tt)
DistinctSteps-append (c ∷ cs) e h p = (
  StepAbsent-append c.topology_command_step_id cs e h.0
      (ground (arith, ==_iff c.topology_command_step_id e.topology_command_step_id)),
  DistinctSteps-append cs e h.1 (ground arith),
)

SameEffect-append :
    (digest : String) (cs : List TopologyCommandEffectStarted) (e : TopologyCommandEffectStarted)
    → SameEffect digest cs
    → e.topology_effect_started_record_digest ≡ digest
    → SameEffect digest (cs ++ e ∷ [])
SameEffect-append digest [] e h p = (p, tt)
SameEffect-append digest (c ∷ cs) e h p = (h.0, SameEffect-append digest cs e h.1 p)

-- The last command names the same first effect.
SameEffect-get_last? :
    (digest : String) (cs : List TopologyCommandEffectStarted)
    (prior : TopologyCommandEffectStarted)
    → SameEffect digest cs
    → get_last? cs ≡ some prior
    → prior.topology_effect_started_record_digest ≡ digest
SameEffect-get_last? digest [] prior h p = cc
SameEffect-get_last? digest (c ∷ []) prior h p = ground arith
SameEffect-get_last? digest (c ∷ (d ∷ ds)) prior h p =
    SameEffect-get_last? digest (d ∷ ds) prior h.1 p

-- An empty tuple has no last item, and no other has none.
get_last?-ne-none :
    (c : TopologyCommandEffectStarted) (cs : List TopologyCommandEffectStarted)
    → get_last? (c ∷ cs) ≢ none
get_last?-ne-none c [] h = cc
get_last?-ne-none c (d ∷ ds) h = get_last?-ne-none d ds h

IsChain-append :
    (cs : List TopologyCommandEffectStarted) (e : TopologyCommandEffectStarted)
    → IsChain cs
    → command_link (get_last? cs) e ≡ true
    → IsChain (cs ++ e ∷ [])
IsChain-append [] e h p = ((==_iff _ _).0 p, tt)
IsChain-append (c ∷ cs) e h p = elim (Option-cases (get_last? (c ∷ cs))) [
  | inl n ↦ absurd (get_last?-ne-none c cs n)
  | inr (prior, q) ↦ (
    h.0,
    SameEffect-append _ cs e h.1 (
        (==_iff _ _).0 (rw q at p)
        ∙ SameEffect-get_last? c.topology_effect_started_record_digest (c ∷ cs) prior (refl, h.1)
            q),
  )
]

-- What the reducer has checked of a command that it appends.
command_is_admissible_facts :
    (s : LaneTurnState) (e : TopologyCommandEffectStarted)
    → command_is_admissible s e ≡ true
    → (e.command_sequence ≡ length s.topology_command_effects_started + 2)
      × (any (same_step e) s.topology_command_effects_started ≡ false)
unfolding command_is_admissible
command_is_admissible_facts s e h = ground arith

keep :
    (s t : LaneTurnState)
    → t.topology_command_effects_started ≡ s.topology_command_effects_started
    → CommandInv s
    → CommandInv t
keep s t p v = record {
  numbered = subst (Numbered 2) (sym p) v.numbered;
  distinct = subst DistinctSteps (sym p) v.distinct;
  chained = subst IsChain (sym p) v.chained;
}

extend :
    (s t : LaneTurnState) (e : TopologyCommandEffectStarted)
    → command_is_admissible s e ≡ true
    → command_link (get_last? s.topology_command_effects_started) e ≡ true
    → t.topology_command_effects_started ≡ s.topology_command_effects_started ++ e ∷ []
    → CommandInv s
    → CommandInv t
extend s t e a b p v =
    let (sequence, absent) = command_is_admissible_facts s e a in
    record {
      numbered =
          subst (Numbered 2) (sym p)
            (Numbered-append 2 s.topology_command_effects_started e v.numbered sequence);
      distinct =
          subst DistinctSteps (sym p)
            (DistinctSteps-append s.topology_command_effects_started e v.distinct absent);
      chained =
          subst IsChain (sym p) (IsChain-append s.topology_command_effects_started e v.chained b);
    }

pub Step-CommandInv : (s t : LaneTurnState) → Step s t → CommandInv s → CommandInv t
Step-CommandInv s t (stays p) v = keep s t (ap (λ x. x.topology_command_effects_started) p) v
Step-CommandInv s t (claims e a b c p) v =
    keep s t (ap (λ x. x.topology_command_effects_started) p) v
Step-CommandInv s t (starts_effect e a b p) v =
    keep s t (ap (λ x. x.topology_command_effects_started) p) v
Step-CommandInv s t (starts_command e a b p) v =
    extend s t e a b (ap (λ x. x.topology_command_effects_started) p) v
Step-CommandInv s t (settles_topology c e a b m r p) v =
    keep s t (ap (λ x. x.topology_command_effects_started) p) v
Step-CommandInv s t (anchors e a b p) v =
    keep s t (ap (λ x. x.topology_command_effects_started) p) v
Step-CommandInv s t (dispatches e i a b c d f g k p) v =
    keep s t (ap (λ x. x.topology_command_effects_started) p) v
Step-CommandInv s t (loses_delivery a b c p) v =
    keep s t (ap (λ x. x.topology_command_effects_started) p) v
Step-CommandInv s t (settles_non_start a b c p) v =
    keep s t (ap (λ x. x.topology_command_effects_started) p) v
Step-CommandInv s t (isolates a p) v = keep s t (ap (λ x. x.topology_command_effects_started) p) v
Step-CommandInv s t (isolates_effect a p) v =
    keep s t (ap (λ x. x.topology_command_effects_started) p) v
Step-CommandInv s t (starts_turn e a b c m p) v =
    keep s t (ap (λ x. x.topology_command_effects_started) p) v
Step-CommandInv s t (times_out a b p) v =
    keep s t (ap (λ x. x.topology_command_effects_started) p) v
Step-CommandInv s t (withholds e a b c m p) v =
    keep s t (ap (λ x. x.topology_command_effects_started) p) v
Step-CommandInv s t (concludes e a b c m n p) v =
    keep s t (ap (λ x. x.topology_command_effects_started) p) v
