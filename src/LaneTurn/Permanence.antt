-- ===== src/LaneTurn/Permanence.antt =====
-- What a lane turn of lib/ask_herdr_lane_turn.py records once and keeps.
use ask_herdr.Base.{
  String, ◌≡◌, refl, sym, ap, true, Option, some, none, is_some, arith, ==_iff, string_eq, nat_eq,
  option_eq,
}
use ask_herdr.LaneTurn.Kinds.{consultant_turn, counted, released}
use ask_herdr.LaneTurn.Events.Authority.{FinalTurnAuthority}
use ask_herdr.LaneTurn.State.{LaneTurnState}
use ask_herdr.LaneTurn.Correlation.{authority_correlates}
use ask_herdr.LaneTurn.Promotion.{IdentityInv, ReservationInv}
use ask_herdr.LaneTurn.NativeIdentity.{identity_rule-established, authority_correlates-RuleHolds}
use ask_herdr.LaneTurn.Steps.{
  Step, stays, claims, starts_effect, starts_command, settles_topology, anchors, dispatches,
  loses_delivery, settles_non_start, isolates, isolates_effect, starts_turn, times_out, withholds,
  concludes,
}

-- A recorded fact is the same in the later state.
abbrev pub Kept {ℓ} : {A : Type ℓ} → Option A → Option A → Type ℓ
Kept old new = is_some old ≡ true → new ≡ old

pub record WriteOnce (s t : LaneTurnState) : Type 0 where
  pub intent : Kept s.dispatch_intent t.dispatch_intent
  pub proof : Kept s.topology_provisioned t.topology_provisioned
  pub effect : Kept s.topology_effect_started t.topology_effect_started
  pub turn : Kept s.turn_id t.turn_id
  pub sequence : Kept s.turn_sequence t.turn_sequence
  pub identity :
      Kept s.established_native_correlation_digest t.established_native_correlation_digest
  pub response : Kept s.response_digest t.response_digest
  pub head : is_some s.response_digest ≡ true → t.head_digest ≡ s.head_digest
  pub counted_once : s.reservation_state ≡ counted → t.reservation_state ≡ counted
  pub released_once : s.reservation_state ≡ released → t.reservation_state ≡ released
  pub observed :
      s.possible_provider_effect_observed ≡ true → t.possible_provider_effect_observed ≡ true

-- An authority over a turn that started names that turn.
authority_correlates-turn :
    (s : LaneTurnState) (e : FinalTurnAuthority)
    → authority_correlates s e ≡ true
    → s.promotion ≡ consultant_turn
    → (s.turn_id ≡ some e.turn_id) × (s.turn_sequence ≡ some e.turn_sequence)
unfolding authority_correlates
authority_correlates-turn s e h p =
    ground (arith, ==_iff s.turn_id (some e.turn_id), ==_iff s.turn_sequence (some e.turn_sequence))

-- And it names the identity that was established.
authority_correlates-identity :
    (s : LaneTurnState) (e : FinalTurnAuthority)
    → authority_correlates s e ≡ true
    → Kept s.established_native_correlation_digest (some e.native_correlation_digest)
authority_correlates-identity s e h = go s.established_native_correlation_digest refl
  where
    go :
        (o : Option String)
        → s.established_native_correlation_digest ≡ o
        → Kept o (some e.native_correlation_digest)
    go none q k = cc
    go (some old) q k = ap some (
        sym (
          identity_rule-established s.native_identity_mode s.expected_native_correlation_digest old
            e.native_correlation_digest e.source_native_correlation_digest
            (rw q at (authority_correlates-RuleHolds s e h))))

pub Step-WriteOnce :
    (s t : LaneTurnState) → Step s t → IdentityInv s → ReservationInv s → WriteOnce s t
Step-WriteOnce s t (stays p) v w = ground arith
Step-WriteOnce s t (claims e a b c p) v w = ground arith
Step-WriteOnce s t (starts_effect e a b p) v w = ground arith
Step-WriteOnce s t (starts_command e a b p) v w = ground arith
Step-WriteOnce s t (settles_topology c e a b m r p) v w = ground arith
Step-WriteOnce s t (anchors e a b p) v w = ground arith
Step-WriteOnce s t (dispatches e i a b c d f g k p) v w = ground arith
Step-WriteOnce s t (loses_delivery a b c p) v w = ground arith
Step-WriteOnce s t (settles_non_start a b c p) v w = ground arith
Step-WriteOnce s t (isolates a p) v w = ground arith
Step-WriteOnce s t (isolates_effect a p) v w = ground arith
Step-WriteOnce s t (starts_turn e a b c m p) v w = ground arith
Step-WriteOnce s t (times_out a b p) v w = ground arith
Step-WriteOnce s t (withholds e a b c m p) v w = ground arith
Step-WriteOnce s t (concludes e a b c m n p) v w =
    ground (arith, authority_correlates-turn s e c, authority_correlates-identity s e c)
