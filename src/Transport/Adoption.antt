-- ===== src/Transport/Adoption.antt =====
-- `provision` of lib/ask_herdr_herdr_transport.py for a lane that the recorded project has, as the
-- rehydration of lib/ask_herdr_journaled_provision.py calls it.
use ask_herdr.Base.{Option, some, ◌≡◌, refl, sym, subst, ◌∙◌}
use ask_herdr.Transport.Proofs.{
  LaneTopologyProof, ProjectTopologyProof, ProvisionIntent, ProvisionResult, adopted,
}
use ask_herdr.Transport.Actions.{Outcome, done, failed, World, Action, Herdr, ◌>=>◌, and_then, lift}
use ask_herdr.Transport.Commands.{list_sessions}
use ask_herdr.Transport.Sessions.{named_session}
use ask_herdr.StrictJson.Values.{Fields}
use ask_herdr.Transport.Verification.{lane_for_key}
use ask_herdr.Transport.Provision.{
  JournalPort, prove_known, lane_or_new, provision_lane, start_or_prove, provision,
}
use ask_herdr.Transport.Triples.{Ends}
use ask_herdr.Transport.WriteAhead.{effects, IsReader}
use ask_herdr.Transport.Readers.{
  effects-harmless, IsReader-and_then, lift-IsReader, return-IsReader, list_sessions-IsReader,
  prove_known-IsReader,
}
use ask_herdr.Transport.Results.{
  Returns, Returns_skip, Returns_bind, Returns-eq-done, Returns-return,
}

-- What the first action returns may be used for the rest.
IsReader-bind :
    {A B : Type 0} {P : A → Type 0} {act : Action A} {next : A → Action B}
    → IsReader effects act
    → Returns act P
    → ((a : A) → P a → IsReader effects (next a))
    → IsReader effects (act >=> next)
IsReader-bind {A = A} {B = B} {P = P} {act = act} {next = next} first returns later = record {
  log_kept = λ w. log_end (act w) (returns.returned w) ∙ first.log_kept w;
  port_kept = λ w. port_end (act w) (returns.returned w) ∙ first.port_kept w;
}
  where
    log_end :
        (end : Outcome A × World)
        → Ends (λ u. Unit {0}) (λ a u. P a) end
        → effects (and_then end next).1.log ≡ effects end.1.log
    log_end (done a, w) h = (later a h).log_kept w
    log_end (failed e, w) h = refl

    port_end :
        (end : Outcome A × World)
        → Ends (λ u. Unit {0}) (λ a u. P a) end
        → (and_then end next).1.port ≡ end.1.port
    port_end (done a, w) h = (later a h).port_kept w
    port_end (failed e, w) h = refl

module _ (herdr : Herdr) (intent : ProvisionIntent) (port : Option JournalPort) where
  abbrev adopted_result : ProjectTopologyProof → LaneTopologyProof → ProvisionResult
  adopted_result known lane = record { outcome = adopted; project = known; lane = lane }

  lane_or_new-IsReader :
      (known : ProjectTopologyProof) (lane : LaneTopologyProof)
      → IsReader effects (lane_or_new herdr intent port known (some lane))
  lane_or_new-IsReader known lane =
      IsReader-and_then effects (lift-IsReader effects _) (λ u. return-IsReader effects _)

  provision_lane-IsReader :
      (known : ProjectTopologyProof) (lane : LaneTopologyProof)
      → lane_for_key known intent.consultant_key ≡ some lane
      → IsReader effects (provision_lane herdr intent port known)
  unfolding provision_lane
  provision_lane-IsReader known lane there =
      subst (λ found. IsReader effects (lane_or_new herdr intent port known found)) (sym there)
        (lane_or_new-IsReader known lane)

  start_or_prove-known :
      (known : ProjectTopologyProof) (live : Option Fields)
      → Returns (start_or_prove herdr intent port (some known) live) (λ p. p ≡ known)
  start_or_prove-known known live =
      Returns_skip (prove_known herdr intent known live) (λ u. Returns-return known refl)

  start_or_prove-IsReader :
      (known : ProjectTopologyProof) (live : Option Fields)
      → IsReader effects (start_or_prove herdr intent port (some known) live)
  start_or_prove-IsReader known live =
      IsReader-and_then effects
        (prove_known-IsReader effects effects-harmless herdr intent known live)
        (λ u. return-IsReader effects known)

  provision-IsReader :
      (known : ProjectTopologyProof) (lane : LaneTopologyProof)
      → lane_for_key known intent.consultant_key ≡ some lane
      → IsReader effects (provision herdr intent port (some known))
  unfolding provision
  provision-IsReader known lane there = IsReader-and_then effects (lift-IsReader effects _) (λ u.
      IsReader-and_then effects (list_sessions-IsReader effects effects-harmless herdr) (λ sessions.
        IsReader-and_then effects (lift-IsReader effects (named_session sessions)) (λ live.
          IsReader-bind (start_or_prove-IsReader known live) (start_or_prove-known known live)
            (λ project same.
              subst (λ p. IsReader effects (provision_lane herdr intent port p)) (sym same)
                (provision_lane-IsReader known lane there)))))

  provision_lane_result :
      (known : ProjectTopologyProof) (lane : LaneTopologyProof)
      → lane_for_key known intent.consultant_key ≡ some lane
      → Returns (provision_lane herdr intent port known) (λ r. r ≡ adopted_result known lane)
  unfolding provision_lane
  provision_lane_result known lane there =
      subst
        (λ found.
          Returns (lane_or_new herdr intent port known found) (λ r. r ≡ adopted_result known lane))
        (sym there) (Returns_skip (lift _) (λ u. Returns-return _ refl))

  provision_result :
      (known : ProjectTopologyProof) (lane : LaneTopologyProof)
      → lane_for_key known intent.consultant_key ≡ some lane
      → Returns (provision herdr intent port (some known)) (λ r. r ≡ adopted_result known lane)
  unfolding provision
  provision_result known lane there = Returns_skip (lift _) (λ u.
      Returns_skip (list_sessions herdr) (λ sessions.
        Returns_skip (lift (named_session sessions)) (λ live.
          Returns_bind (start_or_prove-known known live) (λ project same.
            subst
              (λ p.
                Returns (provision_lane herdr intent port p) (λ r. r ≡ adopted_result known lane))
              (sym same) (provision_lane_result known lane there)))))

  -- For a recorded project that has a lane under the intent's key, `provision` runs no command with an effect
  -- and leaves the journal's port alone, whatever the runner answers and whether it returns or raises, and the
  -- only result that it can return is that very lane, adopted, in that very project.
  pub provision_adopts :
      (known : ProjectTopologyProof) (lane : LaneTopologyProof) (w : World)
      → lane_for_key known intent.consultant_key ≡ some lane
      → (effects (provision herdr intent port (some known) w).1.log ≡ effects w.log)
        × ((provision herdr intent port (some known) w).1.port ≡ w.port)
        × ((r : ProvisionResult)
            → (provision herdr intent port (some known) w).0 ≡ done r
            → r ≡ record { outcome = adopted; project = known; lane = lane })
  provision_adopts known lane w there = (
    (provision-IsReader known lane there).log_kept w,
    (provision-IsReader known lane there).port_kept w,
    λ r h. Returns-eq-done (provision_result known lane there) w r h,
  )
