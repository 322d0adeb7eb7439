-- ===== src/Leader/Term.antt =====
-- leader.go: `onStartedLeading`, the whole of one term. What the other goroutines do to the state while
-- the label is written and while the background work runs are the arguments `while_routing` and
-- `while_running`.
pub mod Ends
use ens_provider.Prelude.{ℕ, Bool, true, false, Option, none, some, List, [], ◌∷◌, if◌then◌else◌}
use ens_provider.Leader.{Leadership, begin_term, end_term}
use ens_provider.Leader.Routing.{
  Attempt, Routing, published, relinquished, unwound, publish_routing,
}
use ens_provider.Leader.Steps.{set_routing}

-- The calls of the callback, in order.
pub data TermCall : Type 0 where
  began : ℕ → TermCall
  routed : Routing → TermCall
  demoting : ℕ → TermCall
  background_ran : ℕ → TermCall
  term_ended : ℕ → TermCall
  callback_closed : TermCall

-- publishRouting's effect on the gauge.
unfoldable pub routing_state : Routing → Leadership → Leadership
routing_state published s = set_routing 1 s
routing_state relinquished s = s
routing_state unwound s = s

-- What follows publishRouting, up to endTerm: where the label is published and there is background
-- work, it runs until the context of the term is done.
unfoldable pub routed_calls : ℕ → Bool → Routing → List TermCall → List TermCall
routed_calls t has_background published rest =
    if has_background then background_ran t ∷ rest else rest
routed_calls t has_background relinquished rest = demoting t ∷ rest
routed_calls t has_background unwound rest = rest

unfoldable pub term_from :
    Bool
    → (ℕ → Attempt)
    → (Leadership → Leadership)
    → (Leadership → Leadership)
    → Leadership
    → Option ℕ
    → Leadership × List TermCall
unfolding publish_routing routing_state routed_calls
term_from has_background api while_routing while_running s none = (s, callback_closed ∷ [])
term_from has_background api while_routing while_running s (some t) =
    let r = publish_routing api in
    (
      end_term t (while_running (routing_state r (while_routing s))),
      began t ∷ routed r ∷ routed_calls t has_background r (term_ended t ∷ callback_closed ∷ []),
    )

unfoldable pub on_started_leading :
    Bool
    → (ℕ → Attempt)
    → (Leadership → Leadership)
    → (Leadership → Leadership)
    → Leadership
    → Leadership × List TermCall
unfolding term_from begin_term
on_started_leading has_background api while_routing while_running s =
    let (s', term) = begin_term s in
    term_from has_background api while_routing while_running s' term
