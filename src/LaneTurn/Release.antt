-- ===== src/LaneTurn/Release.antt =====
-- When a lane turn of lib/ask_herdr_lane_turn.py allows release: exactly while it is settled and clear.
use ask_herdr.Base.{◌≡◌, ◌≢◌, true, some, arith}
use ask_herdr.LaneTurn.Kinds.{settled, clear}
use ask_herdr.LaneTurn.Events.Claim.{ClaimTopologyProvisioning}
use ask_herdr.LaneTurn.State.{LaneTurnState}
use ask_herdr.LaneTurn.Provisioning.{
  TopologyInv, claim_is_admissible_facts, effect_is_admissible_facts, command_needs_claim,
}
use ask_herdr.LaneTurn.Outcome.{OutcomeInv}
use ask_herdr.LaneTurn.Steps.{
  Step, stays, claims, starts_effect, starts_command, settles_topology, anchors, dispatches,
  loses_delivery, settles_non_start, isolates, isolates_effect, starts_turn, times_out, withholds,
  concludes,
}

pub record ReleaseInv (s : LaneTurnState) : Type 0 where
  pub released : s.release_allowed ≡ true → (s.phase ≡ settled) × (s.recovery_state ≡ clear)
  pub releasable : s.phase ≡ settled → s.recovery_state ≡ clear → s.release_allowed ≡ true

-- A claim that is still open stands before any dispatch.
claimed-ne-settled :
    (s : LaneTurnState) (c : ClaimTopologyProvisioning)
    → TopologyInv s
    → s.topology_provisioning_claim ≡ some c
    → s.phase ≢ settled
claimed-ne-settled s c v h = ground (arith, v.claimed)

pub Step-ReleaseInv :
    (s t : LaneTurnState) → Step s t → OutcomeInv s → TopologyInv s → ReleaseInv s → ReleaseInv t
Step-ReleaseInv s t (stays p) u w v = ground arith
Step-ReleaseInv s t (claims e a b c p) u w v = ground (arith, claim_is_admissible_facts s e)
Step-ReleaseInv s t (starts_effect e a b p) u w v =
    let (claim, h, rest) = effect_is_admissible_facts s e b in
    ground (arith, claimed-ne-settled s claim w h)
Step-ReleaseInv s t (starts_command e a b p) u w v =
    let (claim, h) = command_needs_claim s e a in ground (arith, claimed-ne-settled s claim w h)
Step-ReleaseInv s t (settles_topology c e a b m r p) u w v =
    ground (arith, claimed-ne-settled s c w b)
Step-ReleaseInv s t (anchors e a b p) u w v = ground arith
Step-ReleaseInv s t (dispatches e i a b c d f g k p) u w v = ground arith
Step-ReleaseInv s t (loses_delivery a b c p) u w v = ground arith
Step-ReleaseInv s t (settles_non_start a b c p) u w v = ground arith
Step-ReleaseInv s t (isolates a p) u w v = ground arith
Step-ReleaseInv s t (isolates_effect a p) u w v = ground arith
Step-ReleaseInv s t (starts_turn e a b c m p) u w v = ground arith
Step-ReleaseInv s t (times_out a b p) u w v = ground arith
Step-ReleaseInv s t (withholds e a b c m p) u w v = ground arith
Step-ReleaseInv s t (concludes e a b c m n p) u w v = ground arith
