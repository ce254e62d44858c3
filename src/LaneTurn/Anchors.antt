-- ===== src/LaneTurn/Anchors.antt =====
-- The anchors of recovery evidence of an attempt in lib/ask_herdr_lane_turn.py: one for each recovery
-- operation, link and relationship, all in one registry.
use ask_herdr.Base.{
  ◌≡◌, ◌≢◌, sym, ap, subst, true, Option, some, none, List, [], ◌∷◌, ◌++◌, ◌∙◌, arith, option_eq,
  ==_iff, string_eq, Option-cases, inl, inr,
}
use ask_herdr.LaneTurn.Events.Claim.{RecordTopologyProvisioned}
use ask_herdr.LaneTurn.Events.Evidence.{
  RecordRecoveryResultEvidenceAnchor, record_recovery_result_evidence_anchor_eq,
}
use ask_herdr.LaneTurn.State.{LaneTurnState}
use ask_herdr.LaneTurn.Settlement.{replayed, fresh, scan_anchors, anchor_is_admissible}
use ask_herdr.LaneTurn.Steps.{
  Step, stays, claims, starts_effect, starts_command, settles_topology, anchors, dispatches,
  loses_delivery, settles_non_start, isolates, isolates_effect, starts_turn, times_out, withholds,
  concludes,
}

-- Two anchors that may stand in one history.
pub record Compatible (a b : RecordRecoveryResultEvidenceAnchor) : Type 0 where
  pub operations : a.recovery_operation_id ≢ b.recovery_operation_id
  pub links : a.evidence_link_record_digest ≢ b.evidence_link_record_digest
  pub relationships : a.source_relationship_digest ≢ b.source_relationship_digest
  pub registry : a.evidence_registry_binding_digest ≡ b.evidence_registry_binding_digest

-- Every anchor of the list is compatible with a later one.
abbrev pub CompatibleAll :
    List RecordRecoveryResultEvidenceAnchor → RecordRecoveryResultEvidenceAnchor → Type 0
CompatibleAll [] b = Unit {0}
CompatibleAll (a ∷ xs) b = Compatible a b × CompatibleAll xs b

-- Each anchor is compatible with those after it.
abbrev pub CompatibleFrom :
    RecordRecoveryResultEvidenceAnchor → List RecordRecoveryResultEvidenceAnchor → Type 0
CompatibleFrom a [] = Unit {0}
CompatibleFrom a (b ∷ bs) = Compatible a b × CompatibleFrom a bs

abbrev pub Compatibles : List RecordRecoveryResultEvidenceAnchor → Type 0
Compatibles [] = Unit {0}
Compatibles (a ∷ xs) = CompatibleFrom a xs × Compatibles xs

-- Every anchor was bound to the result store that the topology proof names.
abbrev pub BoundTo :
    Option RecordTopologyProvisioned → List RecordRecoveryResultEvidenceAnchor → Type 0
BoundTo proof [] = Unit {0}
BoundTo none (a ∷ xs) = ⊥
BoundTo (some p) (a ∷ xs) =
    (p.recovery_result_store_binding_digest ≡ some a.recovery_result_store_binding_digest)
    × (a.topology_mutation_id ≡ p.topology_mutation_id)
    × BoundTo (some p) xs

pub record AnchorInv (s : LaneTurnState) : Type 0 where
  pub compatible : Compatibles s.recovery_result_evidence_anchors
  pub bound : BoundTo s.topology_provisioned s.recovery_result_evidence_anchors

-- A scan finds the event fresh only if every earlier anchor is compatible with it.
scan_anchors-fresh :
    (xs : List RecordRecoveryResultEvidenceAnchor) (e : RecordRecoveryResultEvidenceAnchor)
    → scan_anchors xs e ≡ fresh
    → CompatibleAll xs e
unfolding scan_anchors
scan_anchors-fresh [] e h = tt
scan_anchors-fresh (a ∷ xs) e h = (
  ground (
    arith,
    ==_iff a.recovery_operation_id e.recovery_operation_id,
    ==_iff a.evidence_link_record_digest e.evidence_link_record_digest,
    ==_iff a.source_relationship_digest e.source_relationship_digest,
    ==_iff a.evidence_registry_binding_digest e.evidence_registry_binding_digest,
  ),
  scan_anchors-fresh xs e (ground arith),
)

-- Once appended, the event is found again.
pub scan_anchors-append :
    (xs : List RecordRecoveryResultEvidenceAnchor) (e : RecordRecoveryResultEvidenceAnchor)
    → scan_anchors xs e ≡ fresh
    → scan_anchors (xs ++ e ∷ []) e ≡ replayed
unfolding scan_anchors
scan_anchors-append [] e h =
    ground (arith, ==_iff e e, ==_iff e.recovery_operation_id e.recovery_operation_id)
scan_anchors-append (a ∷ xs) e h = ground (arith, scan_anchors-append xs e)

CompatibleFrom-append :
    (a : RecordRecoveryResultEvidenceAnchor) (bs : List RecordRecoveryResultEvidenceAnchor)
    (e : RecordRecoveryResultEvidenceAnchor)
    → CompatibleFrom a bs
    → Compatible a e
    → CompatibleFrom a (bs ++ e ∷ [])
CompatibleFrom-append a [] e h p = (p, tt)
CompatibleFrom-append a (b ∷ bs) e h p = (h.0, CompatibleFrom-append a bs e h.1 p)

Compatibles-append :
    (xs : List RecordRecoveryResultEvidenceAnchor) (e : RecordRecoveryResultEvidenceAnchor)
    → Compatibles xs
    → CompatibleAll xs e
    → Compatibles (xs ++ e ∷ [])
Compatibles-append [] e h p = (tt, tt)
Compatibles-append (a ∷ xs) e h p =
    (CompatibleFrom-append a xs e h.0 p.0, Compatibles-append xs e h.1 p.1)

BoundTo-append :
    (p : RecordTopologyProvisioned) (xs : List RecordRecoveryResultEvidenceAnchor)
    (e : RecordRecoveryResultEvidenceAnchor)
    → BoundTo (some p) xs
    → p.recovery_result_store_binding_digest ≡ some e.recovery_result_store_binding_digest
    → e.topology_mutation_id ≡ p.topology_mutation_id
    → BoundTo (some p) (xs ++ e ∷ [])
BoundTo-append p [] e h q r = (q, r, tt)
BoundTo-append p (a ∷ xs) e h q r = (h.0, h.1, BoundTo-append p xs e h.2 q r)

-- With no proof yet there is no anchor, so any proof binds them all.
BoundTo-none :
    (proof : Option RecordTopologyProvisioned) (xs : List RecordRecoveryResultEvidenceAnchor)
    → BoundTo none xs
    → BoundTo proof xs
BoundTo-none proof [] h = tt
BoundTo-none proof (a ∷ xs) h = absurd h

anchor_is_admissible_facts :
    (s : LaneTurnState) (e : RecordRecoveryResultEvidenceAnchor)
    → anchor_is_admissible s e ≡ true
    → (p : RecordTopologyProvisioned) × (s.topology_provisioned ≡ some p)
      × (p.recovery_result_store_binding_digest ≡ some e.recovery_result_store_binding_digest)
      × (e.topology_mutation_id ≡ p.topology_mutation_id)
unfolding anchor_is_admissible
anchor_is_admissible_facts s e h = elim (Option-cases s.topology_provisioned) [
  | inl n ↦ absurd (ground arith)
  | inr (p, q) ↦ (
    p,
    q,
    ground (
      arith,
      ==_iff (some e.recovery_result_store_binding_digest) p.recovery_result_store_binding_digest,
    ),
    ground (arith, ==_iff e.topology_mutation_id p.topology_mutation_id),
  )
]

keep :
    (s t : LaneTurnState)
    → t.recovery_result_evidence_anchors ≡ s.recovery_result_evidence_anchors
    → t.topology_provisioned ≡ s.topology_provisioned
    → AnchorInv s
    → AnchorInv t
keep s t p q v = record {
  compatible = subst Compatibles (sym p) v.compatible;
  bound =
      subst (λ o. BoundTo o t.recovery_result_evidence_anchors) (sym q)
        (subst (BoundTo s.topology_provisioned) (sym p) v.bound);
}

extend :
    (s t : LaneTurnState) (e : RecordRecoveryResultEvidenceAnchor)
    → scan_anchors s.recovery_result_evidence_anchors e ≡ fresh
    → anchor_is_admissible s e ≡ true
    → t.recovery_result_evidence_anchors ≡ s.recovery_result_evidence_anchors ++ e ∷ []
    → t.topology_provisioned ≡ s.topology_provisioned
    → AnchorInv s
    → AnchorInv t
extend s t e a b p q v =
    let (proof, r, digest, mutation) = anchor_is_admissible_facts s e b in
    record {
      compatible = subst Compatibles (sym p) (
          Compatibles-append s.recovery_result_evidence_anchors e v.compatible
            (scan_anchors-fresh s.recovery_result_evidence_anchors e a));
      bound =
          subst (λ o. BoundTo o t.recovery_result_evidence_anchors) (sym (q ∙ r))
            (subst (BoundTo (some proof)) (sym p) (
              BoundTo-append proof s.recovery_result_evidence_anchors e
                (subst (λ o. BoundTo o s.recovery_result_evidence_anchors) r v.bound) digest
                mutation));
    }

prove :
    (s t : LaneTurnState)
    → s.topology_provisioned ≡ none
    → t.recovery_result_evidence_anchors ≡ s.recovery_result_evidence_anchors
    → AnchorInv s
    → AnchorInv t
prove s t n p v = record {
  compatible = subst Compatibles (sym p) v.compatible;
  bound = BoundTo-none t.topology_provisioned t.recovery_result_evidence_anchors (
      subst (BoundTo none) (sym p)
        (subst (λ o. BoundTo o s.recovery_result_evidence_anchors) n v.bound));
}

pub Step-AnchorInv : (s t : LaneTurnState) → Step s t → AnchorInv s → AnchorInv t
Step-AnchorInv s t (stays p) v =
    keep s t (ap (λ x. x.recovery_result_evidence_anchors) p) (ap (λ x. x.topology_provisioned) p) v
Step-AnchorInv s t (claims e a b c p) v =
    keep s t (ap (λ x. x.recovery_result_evidence_anchors) p) (ap (λ x. x.topology_provisioned) p) v
Step-AnchorInv s t (starts_effect e a b p) v =
    keep s t (ap (λ x. x.recovery_result_evidence_anchors) p) (ap (λ x. x.topology_provisioned) p) v
Step-AnchorInv s t (starts_command e a b p) v =
    keep s t (ap (λ x. x.recovery_result_evidence_anchors) p) (ap (λ x. x.topology_provisioned) p) v
Step-AnchorInv s t (settles_topology c e a b m r p) v =
    prove s t a (ap (λ x. x.recovery_result_evidence_anchors) p) v
Step-AnchorInv s t (anchors e a b p) v =
    extend s t e a b (ap (λ x. x.recovery_result_evidence_anchors) p)
      (ap (λ x. x.topology_provisioned) p) v
Step-AnchorInv s t (dispatches e i a b c d f g k p) v =
    keep s t (ap (λ x. x.recovery_result_evidence_anchors) p) (ap (λ x. x.topology_provisioned) p) v
Step-AnchorInv s t (loses_delivery a b c p) v =
    keep s t (ap (λ x. x.recovery_result_evidence_anchors) p) (ap (λ x. x.topology_provisioned) p) v
Step-AnchorInv s t (settles_non_start a b c p) v =
    keep s t (ap (λ x. x.recovery_result_evidence_anchors) p) (ap (λ x. x.topology_provisioned) p) v
Step-AnchorInv s t (isolates a p) v =
    keep s t (ap (λ x. x.recovery_result_evidence_anchors) p) (ap (λ x. x.topology_provisioned) p) v
Step-AnchorInv s t (isolates_effect a p) v =
    keep s t (ap (λ x. x.recovery_result_evidence_anchors) p) (ap (λ x. x.topology_provisioned) p) v
Step-AnchorInv s t (starts_turn e a b c m p) v =
    keep s t (ap (λ x. x.recovery_result_evidence_anchors) p) (ap (λ x. x.topology_provisioned) p) v
Step-AnchorInv s t (times_out a b p) v =
    keep s t (ap (λ x. x.recovery_result_evidence_anchors) p) (ap (λ x. x.topology_provisioned) p) v
Step-AnchorInv s t (withholds e a b c m p) v =
    keep s t (ap (λ x. x.recovery_result_evidence_anchors) p) (ap (λ x. x.topology_provisioned) p) v
Step-AnchorInv s t (concludes e a b c m n p) v =
    keep s t (ap (λ x. x.recovery_result_evidence_anchors) p) (ap (λ x. x.topology_provisioned) p) v
