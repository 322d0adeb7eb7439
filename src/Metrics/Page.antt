-- ===== src/Metrics/Page.antt =====
-- metrics.go: the page that `render` makes, line by line.
pub mod Reads
use ens_provider.Prelude.{ℕ, List, [], ◌∷◌, ◌++◌, Str, codes, decimal}
use ens_provider.Metrics.{Metrics}

pub data Line : Type 0 where
  comment : Str → Line
  series : Str → ℕ → Line

unfoldable pub line_text : Line → Str
line_text (comment s) = s
line_text (series name n) = name ++ (b' ' ∷ decimal n)

-- The lines of the format of `render`, and the arguments in the places of its `%d`.
abbrev pub page : Metrics → List Line
page m =
    comment (codes "# HELP ens_provider_orders_total RunInstances orders by outcome.")
    ∷ comment (codes "# TYPE ens_provider_orders_total counter")
    ∷ series (codes "ens_provider_orders_total{outcome=\"success\"}") m.orders_success
    ∷ series (codes "ens_provider_orders_total{outcome=\"failure\"}") m.orders_failure
    ∷ series (codes "ens_provider_orders_total{outcome=\"ambiguous\"}") m.orders_ambiguous
    ∷ comment (codes "# HELP ens_provider_instances_released_total Successful instance releases.")
    ∷ comment (codes "# TYPE ens_provider_instances_released_total counter")
    ∷ series (codes "ens_provider_instances_released_total") m.released
    ∷ comment (codes "# HELP ens_provider_release_failures_total Failed instance releases.")
    ∷ comment (codes "# TYPE ens_provider_release_failures_total counter")
    ∷ series (codes "ens_provider_release_failures_total") m.release_failures
    ∷ comment (
        codes
          "# HELP ens_provider_reservations_expired_total Order reservations expired without becoming visible.")
    ∷ comment (codes "# TYPE ens_provider_reservations_expired_total counter")
    ∷ series (codes "ens_provider_reservations_expired_total") m.reservations_expired
    ∷ comment (codes "# HELP ens_provider_owned_instances Instances currently owned (all groups).")
    ∷ comment (codes "# TYPE ens_provider_owned_instances gauge")
    ∷ series (codes "ens_provider_owned_instances") m.owned
    ∷ comment
        (codes "# HELP ens_provider_unjoined_instances Running-but-unjoined instances right now.")
    ∷ comment (codes "# TYPE ens_provider_unjoined_instances gauge")
    ∷ series (codes "ens_provider_unjoined_instances") m.unjoined
    ∷ comment
        (codes "# HELP ens_provider_is_leader 1 while this process holds the leadership Lease.")
    ∷ comment (codes "# TYPE ens_provider_is_leader gauge")
    ∷ series (codes "ens_provider_is_leader") m.is_leader
    ∷ comment (
        codes
          "# HELP ens_provider_routing_published 1 while the leader label is confirmed on this pod.")
    ∷ comment (codes "# TYPE ens_provider_routing_published gauge")
    ∷ series (codes "ens_provider_routing_published") m.routing_published
    ∷ comment (
        codes
          "# HELP ens_provider_leadership_transitions_total Leadership acquisitions by this process.")
    ∷ comment (codes "# TYPE ens_provider_leadership_transitions_total counter")
    ∷ series (codes "ens_provider_leadership_transitions_total") m.leadership_transitions
    ∷ []

unfoldable pub page_text : List Line → Str
unfolding line_text
page_text [] = []
page_text (l ∷ ls) = line_text l ++ (10 ∷ page_text ls)

unfoldable pub render : Metrics → Str
unfolding page_text
render m = page_text (page m)
