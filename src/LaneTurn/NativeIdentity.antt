-- ===== src/LaneTurn/NativeIdentity.antt =====
-- The native identity of a turn in lib/ask_herdr_lane_turn.py: what its mode asks of the identity
-- that the provider established.
use mathlib.Core.Option.{some-injective}
use ask_herdr.Base.{
  String, ◌≡◌, ◌≢◌, sym, ◌∙◌, ap, true, Option, some, none, is_some, arith, ==_iff, string_eq,
  option_eq,
}
use ask_herdr.LaneTurn.Kinds.{NativeIdentityMode, establish_new, exact_resume, fork_from}
use ask_herdr.LaneTurn.Events.Observations.{RecordProviderStarted}
use ask_herdr.LaneTurn.Events.Authority.{FinalTurnAuthority}
use ask_herdr.LaneTurn.State.{LaneTurnState}
use ask_herdr.LaneTurn.Correlation.{authority_correlates, identity_rule}
use ask_herdr.LaneTurn.Delivery.{start_correlates}
use ask_herdr.LaneTurn.Steps.{
  Step, stays, claims, starts_effect, starts_command, settles_topology, anchors, dispatches,
  loses_delivery, settles_non_start, isolates, isolates_effect, starts_turn, times_out, withholds,
  concludes,
}

-- A resumed turn has the admitted identity, a fork has another one, and a new one needs none.
abbrev pub FitsMode : NativeIdentityMode → Option String → String → Type 0
FitsMode establish_new expected native = Unit {0}
FitsMode exact_resume expected native = expected ≡ some native
FitsMode fork_from expected native = (is_some expected ≡ true) × (expected ≢ some native)

pub record NativeInv (s : LaneTurnState) : Type 0 where
  pub fits :
      (native : String)
      → s.established_native_correlation_digest ≡ some native
      → FitsMode s.native_identity_mode s.expected_native_correlation_digest native

identity_rule-FitsMode :
    (mode : NativeIdentityMode) (admitted established : Option String) (native : String)
    (source : Option String)
    → identity_rule mode admitted established native source ≡ true
    → FitsMode mode admitted native
identity_rule-FitsMode establish_new admitted established native source h = tt
identity_rule-FitsMode exact_resume none established native source h = cc
identity_rule-FitsMode exact_resume (some a) established native source h =
    ground (arith, ==_iff native a)
identity_rule-FitsMode fork_from none established native source h = cc
identity_rule-FitsMode fork_from (some a) established native source h =
    ground (arith, ==_iff native a)

-- A digest that was established before is the event's.
pub identity_rule-established :
    (mode : NativeIdentityMode) (admitted : Option String) (old native : String)
    (source : Option String)
    → identity_rule mode admitted (some old) native source ≡ true
    → old ≡ native
identity_rule-established establish_new admitted old native source h =
    ground (arith, ==_iff old native)
identity_rule-established exact_resume none old native source h = cc
identity_rule-established exact_resume (some a) old native source h =
    ground (arith, ==_iff old native)
identity_rule-established fork_from none old native source h = cc
identity_rule-established fork_from (some a) old native source h = ground (arith, ==_iff old native)

abbrev pub RuleHolds : LaneTurnState → String → Option String → Type 0
RuleHolds s native source =
    identity_rule s.native_identity_mode s.expected_native_correlation_digest
      s.established_native_correlation_digest native source
    ≡ true

start_correlates-RuleHolds :
    (s : LaneTurnState) (e : RecordProviderStarted)
    → start_correlates s e ≡ true
    → RuleHolds s e.native_correlation_digest e.source_native_correlation_digest
unfolding start_correlates
start_correlates-RuleHolds s e h = ground arith

pub authority_correlates-RuleHolds :
    (s : LaneTurnState) (e : FinalTurnAuthority)
    → authority_correlates s e ≡ true
    → RuleHolds s e.native_correlation_digest e.source_native_correlation_digest
unfolding authority_correlates
authority_correlates-RuleHolds s e h = ground arith

keep :
    (s t : LaneTurnState)
    → t.established_native_correlation_digest ≡ s.established_native_correlation_digest
    → t.native_identity_mode ≡ s.native_identity_mode
    → t.expected_native_correlation_digest ≡ s.expected_native_correlation_digest
    → NativeInv s
    → NativeInv t
keep s t p q r v = record { fits = λ native h. rw (q, r) (v.fits native (sym p ∙ h)) }

establish :
    (s t : LaneTurnState) (native : String) (source : Option String)
    → RuleHolds s native source
    → t.established_native_correlation_digest ≡ some native
    → t.native_identity_mode ≡ s.native_identity_mode
    → t.expected_native_correlation_digest ≡ s.expected_native_correlation_digest
    → NativeInv t
establish s t native source h p q r = record {
  fits = λ other k.
      let same : other ≡ native = some-injective other native (sym k ∙ p) in
      rw (q, r, same)
        (identity_rule-FitsMode s.native_identity_mode s.expected_native_correlation_digest
          s.established_native_correlation_digest native source h);
}

pub Step-NativeInv : (s t : LaneTurnState) → Step s t → NativeInv s → NativeInv t
Step-NativeInv s t (stays p) v =
    keep s t (ap (λ x. x.established_native_correlation_digest) p)
      (ap (λ x. x.native_identity_mode) p) (ap (λ x. x.expected_native_correlation_digest) p) v
Step-NativeInv s t (claims e a b c p) v =
    keep s t (ap (λ x. x.established_native_correlation_digest) p)
      (ap (λ x. x.native_identity_mode) p) (ap (λ x. x.expected_native_correlation_digest) p) v
Step-NativeInv s t (starts_effect e a b p) v =
    keep s t (ap (λ x. x.established_native_correlation_digest) p)
      (ap (λ x. x.native_identity_mode) p) (ap (λ x. x.expected_native_correlation_digest) p) v
Step-NativeInv s t (starts_command e a b p) v =
    keep s t (ap (λ x. x.established_native_correlation_digest) p)
      (ap (λ x. x.native_identity_mode) p) (ap (λ x. x.expected_native_correlation_digest) p) v
Step-NativeInv s t (settles_topology c e a b m r p) v =
    keep s t (ap (λ x. x.established_native_correlation_digest) p)
      (ap (λ x. x.native_identity_mode) p) (ap (λ x. x.expected_native_correlation_digest) p) v
Step-NativeInv s t (anchors e a b p) v =
    keep s t (ap (λ x. x.established_native_correlation_digest) p)
      (ap (λ x. x.native_identity_mode) p) (ap (λ x. x.expected_native_correlation_digest) p) v
Step-NativeInv s t (dispatches e i a b c d f g k p) v =
    keep s t (ap (λ x. x.established_native_correlation_digest) p)
      (ap (λ x. x.native_identity_mode) p) (ap (λ x. x.expected_native_correlation_digest) p) v
Step-NativeInv s t (loses_delivery a b c p) v =
    keep s t (ap (λ x. x.established_native_correlation_digest) p)
      (ap (λ x. x.native_identity_mode) p) (ap (λ x. x.expected_native_correlation_digest) p) v
Step-NativeInv s t (settles_non_start a b c p) v =
    keep s t (ap (λ x. x.established_native_correlation_digest) p)
      (ap (λ x. x.native_identity_mode) p) (ap (λ x. x.expected_native_correlation_digest) p) v
Step-NativeInv s t (isolates a p) v =
    keep s t (ap (λ x. x.established_native_correlation_digest) p)
      (ap (λ x. x.native_identity_mode) p) (ap (λ x. x.expected_native_correlation_digest) p) v
Step-NativeInv s t (isolates_effect a p) v =
    keep s t (ap (λ x. x.established_native_correlation_digest) p)
      (ap (λ x. x.native_identity_mode) p) (ap (λ x. x.expected_native_correlation_digest) p) v
Step-NativeInv s t (starts_turn e a b c m p) v =
    establish s t e.native_correlation_digest e.source_native_correlation_digest
      (start_correlates-RuleHolds s e m) (ap (λ x. x.established_native_correlation_digest) p)
      (ap (λ x. x.native_identity_mode) p) (ap (λ x. x.expected_native_correlation_digest) p)
Step-NativeInv s t (times_out a b p) v =
    keep s t (ap (λ x. x.established_native_correlation_digest) p)
      (ap (λ x. x.native_identity_mode) p) (ap (λ x. x.expected_native_correlation_digest) p) v
Step-NativeInv s t (withholds e a b c m p) v =
    keep s t (ap (λ x. x.established_native_correlation_digest) p)
      (ap (λ x. x.native_identity_mode) p) (ap (λ x. x.expected_native_correlation_digest) p) v
Step-NativeInv s t (concludes e a b c m n p) v =
    establish s t e.native_correlation_digest e.source_native_correlation_digest
      (authority_correlates-RuleHolds s e c) (ap (λ x. x.established_native_correlation_digest) p)
      (ap (λ x. x.native_identity_mode) p) (ap (λ x. x.expected_native_correlation_digest) p)
