-- ===== src/Readiness.antt =====
-- readiness.go: the loop that publishes whether Kubernetes is reachable. An event is a tick, with what
-- its check met, or the end of the root context while the loop waits.
pub mod Transitions
use ens_provider.Prelude.{Bool, true, false, Option, none, some, List, [], ◌∷◌, if◌then◌else◌}

-- The root context before the ping and after it, and whether the ping succeeded.
pub record Check : Type 0 where
  pub dead_before : Bool
  pub reachable : Bool
  pub dead_after : Bool

pub data Event : Type 0 where
  done : Event
  tick : Check → Event

-- What `check` answers: it stops, or goes on with the state `serving` and what it published.
pub data Checked : Type 0 where
  stops : Checked
  goes_on : Bool → Option Bool → Checked

abbrev pub unchanged : Option Bool → Bool → Bool
unchanged none ok = false
unchanged (some true) ok = ok
unchanged (some false) ok = if ok then false else true

unfoldable pub check : Option Bool → Check → Checked
check serving c =
    if c.dead_before
    then stops
    else if c.dead_after
    then stops
    else if unchanged serving c.reachable
    then goes_on c.reachable none
    else goes_on c.reachable (some c.reachable)

abbrev pub published : Option Bool → List Bool → List Bool
published none later = later
published (some ok) later = ok ∷ later

-- The statuses published, in order.
unfoldable pub loop : Option Bool → List Event → List Bool
unfolding check
loop serving [] = []
loop serving (done ∷ events) = []
loop serving (tick c ∷ events) = elim (check serving c) [
  | stops ↦ []
  | goes_on ok out ↦ published out (loop (some ok) events)
]

-- readinessLoop: the immediate check, and the loop.
unfoldable pub readiness_loop : Check → List Event → List Bool
unfolding loop
readiness_loop first events = loop none (tick first ∷ events)
