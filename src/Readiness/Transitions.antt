-- ===== src/Readiness/Transitions.antt =====
-- What the readiness loop publishes, and when.
use ens_provider.Prelude.{
  ◌≡◌, refl, ap, ◌⊎◌, inl, inr, Bool, true, false, Option, none, some, List, [], ◌∷◌, ◌++◌, map,
  Bool-cases,
}
use ens_provider.Readiness.{Event, done, tick, check, loop, readiness_loop}

-- The independent description: of a list of results, those that differ from the one before.
abbrev pub changes : Option Bool → List Bool → List Bool
changes before [] = []
changes none (ok ∷ rest) = ok ∷ changes (some ok) rest
changes (some true) (true ∷ rest) = changes (some true) rest
changes (some true) (false ∷ rest) = false ∷ changes (some false) rest
changes (some false) (false ∷ rest) = changes (some false) rest
changes (some false) (true ∷ rest) = true ∷ changes (some true) rest

-- A check that the root context outlives.
abbrev pub live : Bool → Event
live ok = tick (record { dead_before = false; reachable = ok; dead_after = false })

-- The root context is done: in the wait, before the ping, or while the ping ran.
abbrev pub IsEnd : Event → Type 0
IsEnd done = Unit
IsEnd (tick c) = (c.dead_before ≡ true) ⊎ (c.dead_after ≡ true)

loop-end :
    (serving : Option Bool) (e : Event) (rest : List Event) → IsEnd e → loop serving (e ∷ rest) ≡ []
unfolding loop check
loop-end serving done rest h = refl
loop-end serving (tick c) rest (inl p) = rw p refl
loop-end serving (tick c) rest (inr p) = elim (Bool-cases c.dead_before) [
  | inl q ↦ rw q refl
  | inr q ↦ rw (q, p) refl
]

loop-changes :
    (serving : Option Bool) (results : List Bool) (e : Event) (rest : List Event)
    → IsEnd e
    → loop serving (map live results ++ (e ∷ rest)) ≡ changes serving results
unfolding loop check
loop-changes serving [] e rest h = loop-end serving e rest h
loop-changes none (ok ∷ results) e rest h =
    ap (λ xs. ok ∷ xs) (loop-changes (some ok) results e rest h)
loop-changes (some true) (true ∷ results) e rest h = loop-changes (some true) results e rest h
loop-changes (some true) (false ∷ results) e rest h =
    ap (λ xs. false ∷ xs) (loop-changes (some false) results e rest h)
loop-changes (some false) (false ∷ results) e rest h = loop-changes (some false) results e rest h
loop-changes (some false) (true ∷ results) e rest h =
    ap (λ xs. true ∷ xs) (loop-changes (some true) results e rest h)

-- The readiness loop publishes exactly the changes of what its checks found, the first result
-- included, up to the end of the root context, whether that comes in a wait, before a ping or while
-- a ping runs. Whatever happens afterwards, it publishes nothing more.
pub readiness_loop-changes :
    (first : Bool) (results : List Bool) (e : Event) (rest : List Event)
    → IsEnd e
    → readiness_loop
        (record { dead_before = false; reachable = first; dead_after = false })
        (map live results ++ (e ∷ rest))
      ≡ changes none (first ∷ results)
unfolding readiness_loop
readiness_loop-changes first results e rest h = loop-changes none (first ∷ results) e rest h
