-- ===== src/Examples/Running.antt =====
-- Examples of a process that starts, works in the background, and stops.
use ens_provider.Prelude.{
  ℕ, ◌+◌, ◌<◌, ◌≤◌, ◌≡◌, ◌≢◌, ◌⊎◌, refl, inl, inr, Bool, true, false, Option, none, some, List, [],
  ◌∷◌, ◌++◌, Str, codes, In, is_empty, index_byte, ℤ, pos, arith,
}
use ens_provider.Config.{Config, provider_id}
use ens_provider.Config.Load.{loaded}
use ens_provider.Config.Environment.{value}
use ens_provider.Inventory.{ok}
use ens_provider.Server.{Environment}
use ens_provider.Metrics.{Metrics, zero_metrics}
use ens_provider.Metrics.Page.{render}
use ens_provider.Metrics.Page.Reads.{read_series, render-series}
use ens_provider.Janitor.{Node, StaleNode, derived_instance_id}
use ens_provider.Janitor.Drain.{Confirms}
use ens_provider.Janitor.Drain.Passes.{cleanup_passes, cleanup_passes-drains}
use ens_provider.Leader.{Leadership, new_leadership, set_k8s_ok, begin_term}
use ens_provider.Leader.Routing.{Attempt, purged, purge_stale_label, publish_routing}
use ens_provider.Leader.Stop.{cleared_lease, shutdown_calls}
use ens_provider.Leader.Stop.Timed.{Clock, leads, timed_shutdown}
use ens_provider.Leader.Stop.Timed.Budget.{EndsInTime, timed_shutdown-budget}
use ens_provider.Leader.Term.{callback_closed, on_started_leading}
use ens_provider.Leader.Term.Ends.{IsOver, AreTermCalls, on_started_leading-ends}
use ens_provider.Process.{Boot, listening, startup, Teed}
use ens_provider.Process.Startup.{Begins, stages_in_order, startup-order}
use ens_provider.Process.Background.{PassInput, background_pass}
use ens_provider.Process.Background.Spares.{IsAllowed, background_pass-spares}
use ens_provider.Examples.Data.{cfg, web1, web2, env, stale_node}

abbrev stale : StaleNode
stale = record { node_name = codes "n9"; instance_id = codes "i-9"; not_ready_for = pos 700 }

env-Confirms : Confirms env (derived_instance_id stale_node) stale_node.name
env-Confirms = record { denied = λ log. refl; deletes = λ log. refl }

cleanup_passes-drains_example :
    ¬ In stale_node (cleanup_passes cfg ((pos 700, env) ∷ []) (stale_node ∷ []))
unfolding ens_provider.Janitor.stale_by_condition ens_provider.Janitor.ready_condition
    ens_provider.Prelude.str_eq ens_provider.Prelude.◌-ℤ◌ is_empty
    ens_provider.Config.instance_id_from_provider_id index_byte
cleanup_passes-drains_example =
    cleanup_passes-drains cfg ((pos 700, env) ∷ []) (stale_node ∷ []) stale_node (pos 700) stale
      refl refl ((omega arith, env-Confirms), tt) (omega arith)

-- Everything ends within three of ten time units.
abbrev clock : Clock
clock = record {
  elector = some true;
  has_cancel = true;
  has_lease = true;
  label_takes = 1;
  term_closes = some 1;
  drains = some 2;
  hard_stop = 4;
  run_closes = some 2;
  callback_closes = some 3;
}

clock-EndsInTime : EndsInTime 10 clock (some 0)
clock-EndsInTime = record {
  label = omega arith;
  term_at = 1;
  term_closes = inr refl;
  term_early = omega arith;
  drained_at = 2;
  drains = refl;
  drained_early = omega arith;
  run_at = 2;
  run_closes = refl;
  run_early = omega arith;
  callback_at = 3;
  callback_closes = refl;
  callback_early = omega arith;
}

timed_shutdown-budget_example :
    ((timed_shutdown cfg 10 clock (some 0)).1 ≤ 14)
    × (In cleared_lease (shutdown_calls cfg (timed_shutdown cfg 10 clock (some 0)).0 (some 0))
        → (timed_shutdown cfg 10 clock (some 0)).1 ≤ 10)
    × (leads cfg clock ≡ true
        → clock.has_lease ≡ true
        → EndsInTime 10 clock (some 0)
        → In cleared_lease (shutdown_calls cfg (timed_shutdown cfg 10 clock (some 0)).0 (some 0))
          × ((timed_shutdown cfg 10 clock (some 0)).1 < 10))
timed_shutdown-budget_example = timed_shutdown-budget cfg 10 clock (some 0)

abbrev attempts : ℕ → Attempt
attempts n = record { error = none; interrupted = false }

abbrev boot : Boot
boot = record {
  config = value (loaded cfg);
  cloud = none;
  kube = none;
  inventory_read = true;
  label_api = attempts;
  listener = none;
  new_elector = λ e. none;
}

startup-order_example :
    ((c : Config) × (boot.config ≡ value (loaded c))
      × Begins (startup boot) (stages_in_order boot c)
      × (In listening (startup boot).0 → purge_stale_label c boot.label_api ≡ purged))
    ⊎ (((startup boot).0 ≡ []) × ((startup boot).1 ≢ none))
startup-order_example = startup-order boot

abbrev parse : Str → Option ℤ
parse [] = none
parse (c ∷ s) = some (pos 0)

-- The second instance is dead, and no Node has its id.
abbrev a_pass : PassInput
a_pass = record {
  to_reconcile = ok [];
  owned_to_reconcile = ok [];
  patch_api = λ log id. true;
  to_join = ok (stale_node ∷ []);
  to_key = ok (stale_node ∷ []);
  owned = ok (web1 ∷ web2 ∷ []);
  janitor_time = pos 5;
  to_clean = ok [];
  cleanup_time = pos 5;
  environment = env;
}

background_pass-spares_example :
    (a : IsAllowed parse cfg a_pass (codes "i-2")) × (cfg.ens_region ≢ []
      → index_byte b'.' cfg.ens_region ≡ none
      → is_empty (codes "i-2") ≡ false
      → (n : Node) → In n a.joined ⊎ In n a.keyed
      → n.provider_id ≢ provider_id cfg (codes "i-2"))
unfolding background_pass ens_provider.Server.one_of is_empty
    ens_provider.Config.instance_id_from_provider_id index_byte ens_provider.Prelude.str_eq
    ens_provider.Prelude.◌-ℤ◌
background_pass-spares_example =
    background_pass-spares parse cfg a_pass zero_metrics (codes "i-2") (inl refl)

abbrev fresh_replica : Leadership
fresh_replica = new_leadership cfg true zero_metrics

on_started_leading-ends_example :
    (fresh_replica.shutting_down ≡ true
      → on_started_leading true attempts (λ s. s) (λ s. s) fresh_replica
        ≡ (fresh_replica, callback_closed ∷ []))
    × (fresh_replica.shutting_down ≡ false
        → IsOver fresh_replica.begun
            (on_started_leading true attempts (λ s. s) (λ s. s) fresh_replica).0
          × AreTermCalls fresh_replica.begun true
              (publish_routing attempts)
              (on_started_leading true attempts (λ s. s) (λ s. s) fresh_replica).1)
on_started_leading-ends_example =
    on_started_leading-ends true attempts (λ s. s) (λ s. s) fresh_replica

abbrev reachable_replica : Leadership
reachable_replica = (begin_term (set_k8s_ok true fresh_replica)).0

abbrev told : Teed
told = record { primary = true; pending = none; lead = reachable_replica }

abbrev some_metrics : Metrics
some_metrics = record zero_metrics { owned = 12; released = 3 }

render-series_example :
    (read_series (codes "ens_provider_orders_total{outcome=\"success\"}") (render some_metrics)
      ≡ some some_metrics.orders_success)
    × (read_series (codes "ens_provider_orders_total{outcome=\"failure\"}") (render some_metrics)
        ≡ some some_metrics.orders_failure)
    × (read_series (codes "ens_provider_orders_total{outcome=\"ambiguous\"}") (render some_metrics)
        ≡ some some_metrics.orders_ambiguous)
    × (read_series (codes "ens_provider_instances_released_total") (render some_metrics)
        ≡ some some_metrics.released)
    × (read_series (codes "ens_provider_release_failures_total") (render some_metrics)
        ≡ some some_metrics.release_failures)
    × (read_series (codes "ens_provider_reservations_expired_total") (render some_metrics)
        ≡ some some_metrics.reservations_expired)
    × (read_series (codes "ens_provider_owned_instances") (render some_metrics)
        ≡ some some_metrics.owned)
    × (read_series (codes "ens_provider_unjoined_instances") (render some_metrics)
        ≡ some some_metrics.unjoined)
    × (read_series (codes "ens_provider_is_leader") (render some_metrics)
        ≡ some some_metrics.is_leader)
    × (read_series (codes "ens_provider_routing_published") (render some_metrics)
        ≡ some some_metrics.routing_published)
    × (read_series (codes "ens_provider_leadership_transitions_total") (render some_metrics)
        ≡ some some_metrics.leadership_transitions)
render-series_example = render-series some_metrics
