-- ===== src/Transport/Triples.antt =====
-- Rules for the actions of the transport model of lib/ask_herdr_herdr_transport.py: what holds after an
-- action that returns, and after one that fails.
use ask_herdr.Base.{Bool, true, false, ◌≡◌, refl, if◌then◌else◌}
use ask_herdr.Transport.Actions.{
  Exception, Outcome, done, failed, World, Action, and_then, ◌>=>◌, ◌>?>◌, lift,
}

abbrev pub Ends :
    {A : Type 0} → (World → Type 0) → (A → World → Type 0) → Outcome A × World → Type 0
Ends Broken After (done a, w) = After a w
Ends Broken After (failed e, w) = Broken w

-- An action that starts where `Before` holds ends where `After` holds, and fails where `Broken` does.
pub record Triple {A : Type 0} (Broken Before : World → Type 0) (act : Action A)
    (After : A → World → Type 0) : Type 0 where
  pub ends : (w : World) → Before w → Ends Broken After (act w)

pub Ends-and_then :
    {A B : Type 0} (Broken : World → Type 0) (Middle : A → World → Type 0)
    (After : B → World → Type 0) (end : Outcome A × World) (next : A → Action B)
    → Ends Broken Middle end
    → ((a : A) → Triple Broken (Middle a) (next a) After)
    → Ends Broken After (and_then end next)
Ends-and_then Broken Middle After (done a, w) next first later = (later a).ends w first
Ends-and_then Broken Middle After (failed e, w) next first later = first

pub Triple_bind :
    {A B : Type 0} {Broken Before : World → Type 0} {Middle : A → World → Type 0}
    {After : B → World → Type 0} {act : Action A} {next : A → Action B}
    → Triple Broken Before act Middle
    → ((a : A) → Triple Broken (Middle a) (next a) After)
    → Triple Broken Before (act >=> next) After
Triple_bind {Broken = Broken} {Middle = Middle} {After = After} {act = act} {next = next} first
      later =
    record { ends = λ w h. Ends-and_then Broken Middle After (act w) next (first.ends w h) later }

-- A check that stands before the rest.
pub Triple-lift :
    {A : Type 0} {Broken Before : World → Type 0} (o : Outcome A)
    → ((w : World) → Before w → Broken w)
    → Triple Broken Before (lift o) (λ a w. Before w × (o ≡ done a))
Triple-lift {A = A} {Broken = Broken} {Before = Before} o weaker = record {
  ends = λ w h. lift_ends o w h;
}
  where
    lift_ends :
        (o : Outcome A) (w : World) → Before w → Ends Broken (λ a u. Before u × (o ≡ done a)) (o, w)
    lift_ends (done a) w h = (h, refl)
    lift_ends (failed e) w h = weaker w h

-- What a chain of checks that passes has given on the way.
pub >?>-eq-done :
    {A B : Type 0} (check : Outcome A) (next : A → Outcome B) {b : B}
    → (check >?> next) ≡ done b
    → (a : A) × (check ≡ done a) × (next a ≡ done b)
>?>-eq-done (done a) next h = (a, refl, h)
>?>-eq-done (failed e) next h = cc

-- A test that refuses has not.
pub if_failed :
    {A : Type 0} (b : Bool) (e : Exception) {o : Outcome A} {a : A}
    → (if b then failed e else o) ≡ done a
    → (b ≡ false) × (o ≡ done a)
if_failed true e h = cc
if_failed false e h = (refl, h)

pub done_inj : {A : Type 0} {a b : A} → done a ≡ done b → a ≡ b
done_inj h = cc
