-- ===== src/Leader/Term/Ends.antt =====
-- How a term ends.
use ens_provider.Prelude.{
  ℕ, ◌≡◌, ◌≢◌, refl, inl, inr, ◌↔◌, Bool, true, false, Option, none, some, List, [], ◌∷◌, ◌++◌, In,
  arith,
}
use ens_provider.Leader.{Leadership, publish, begin_term, end_term, among, unless_current}
use ens_provider.Leader.Routing.{
  Attempt, Routing, published, relinquished, unwound, publish_routing,
}
use ens_provider.Leader.Term.{
  TermCall, began, routed, demoting, background_ran, term_ended, callback_closed, routed_calls,
  term_from, on_started_leading,
}

-- The state when the callback returns: the replica does not lead, the term is not the current one,
-- its context and its channel are done, and neither gauge is set.
pub record IsOver (t : ℕ) (s : Leadership) : Type 0 where
  pub unled : s.leader ≡ false
  pub replaced : s.term ≢ some t
  pub context_done : among t s.cancelled ≡ true
  pub channel_done : among t s.ended ≡ true
  pub leader_gauge : s.metrics.is_leader ≡ 0
  pub routing_gauge : s.metrics.routing_published ≡ 0

unless_current-ne : (t : ℕ) (o : Option ℕ) → unless_current t o ≢ some t
unless_current-ne t none h = cc
unless_current-ne t (some u) h = ground arith

end_term-IsOver : (t : ℕ) (s : Leadership) → IsOver t (end_term t s)
unfolding end_term publish
end_term-IsOver t s = record {
  unled = refl;
  replaced = unless_current-ne t s.term;
  context_done = ground arith;
  channel_done = ground arith;
  leader_gauge = refl;
  routing_gauge = refl;
}

-- The calls of a term with the result `r` of the routing: the background work runs where the label
-- was published, and the replica demotes itself where it relinquishes.
pub record AreTermCalls (t : ℕ) (has_background : Bool) (r : Routing) (calls : List TermCall)
    : Type 0 where
  pub middle : List TermCall
  pub shape : calls ≡ began t ∷ routed r ∷ (middle ++ (term_ended t ∷ callback_closed ∷ []))
  pub ran : In (background_ran t) middle ↔ ((r ≡ published) × (has_background ≡ true))
  pub demoted : In (demoting t) middle ↔ (r ≡ relinquished)

routed_calls-shape :
    (t : ℕ) (has_background : Bool) (r : Routing)
    → AreTermCalls t has_background r
        (began t ∷ routed r ∷ routed_calls t has_background r (term_ended t ∷ callback_closed ∷ []))
unfolding routed_calls
routed_calls-shape t true published = record {
  middle = background_ran t ∷ [];
  shape = refl;
  ran = (λ h. (refl, refl), λ h. inl refl);
  demoted = (λ h. elim h [ inl e ↦ cc | inr e ↦ absurd e ], λ h. cc);
}
routed_calls-shape t false published = record {
  middle = [];
  shape = refl;
  ran = (λ h. absurd h, λ h. cc (h.1));
  demoted = (λ h. absurd h, λ h. cc);
}
routed_calls-shape t b relinquished = record {
  middle = demoting t ∷ [];
  shape = refl;
  ran = (λ h. elim h [ inl e ↦ cc | inr e ↦ absurd e ], λ h. cc (h.0));
  demoted = (λ h. refl, λ h. inl refl);
}
routed_calls-shape t b unwound = record {
  middle = [];
  shape = refl;
  ran = (λ h. absurd h, λ h. cc (h.0));
  demoted = (λ h. absurd h, λ h. cc);
}

-- An acquisition callback closes its channel last, whatever the API answers and whatever the other
-- goroutines do meanwhile. After a recorded shutdown it does nothing else and leaves the state alone.
-- Otherwise it begins one term, tries the routing, runs the background work exactly where the label
-- was published and there is such work, demotes the replica exactly where the routing relinquishes,
-- and ends the term: then the replica does not lead, the context and the channel of the term are
-- done, and both gauges are 0.
pub on_started_leading-ends :
    (has_background : Bool) (api : ℕ → Attempt)
    (while_routing while_running : Leadership → Leadership) (s : Leadership)
    → (s.shutting_down ≡ true
        → on_started_leading has_background api while_routing while_running s
          ≡ (s, callback_closed ∷ []))
      × (s.shutting_down ≡ false
          → IsOver s.begun (on_started_leading has_background api while_routing while_running s).0
            × AreTermCalls s.begun has_background
                (publish_routing api)
                (on_started_leading has_background api while_routing while_running s).1)
unfolding on_started_leading begin_term term_from
on_started_leading-ends has_background api while_routing while_running s = (
  λ h. rw (h, begin_term) refl,
  λ h.
      rw (h, begin_term)
        (
          end_term-IsOver s.begun _,
          routed_calls-shape s.begun has_background (publish_routing api),
        ),
)
