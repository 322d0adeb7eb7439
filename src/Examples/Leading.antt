-- ===== src/Examples/Leading.antt =====
-- Examples of the leadership: a term, an admission, a failed publication, and a shutdown.
use ens_provider.Prelude.{
  ℕ, ◌≤◌, ◌≡◌, refl, ◌↔◌, ◌==◌, if◌then◌else◌, true, false, none, some, List, [], ◌∷◌, ◌++◌, In,
  pos,
}
use ens_provider.Metrics.{zero_metrics}
use ens_provider.Leader.{Leadership, new_leadership, set_k8s_ok, begin_term, among, admit}
use ens_provider.Leader.Routing.{Attempt, other_error, publish_routing}
use ens_provider.Leader.Routing.Attempts.{Ending, publish_routing-Ending}
use ens_provider.Leader.Stop.{
  LifecycleCall, cleared_lease, cancelled_election, Outcomes, was_leader, before_drain,
  shutdown_calls,
}
use ens_provider.Leader.Stop.Release.{IsQuiet, shutdown_calls-release}
use ens_provider.Leader.Steps.{Run, start, step, reachable, begins}
use ens_provider.Leader.Steps.Invariant.{IsConsistent, Run-new_leadership}
use ens_provider.Leader.Steps.Admission.{admit-Run}
use ens_provider.Examples.Data.{cfg}

abbrev fresh_replica : Leadership
fresh_replica = new_leadership cfg true zero_metrics

abbrev leading : Leadership
leading = (begin_term (set_k8s_ok true fresh_replica)).0

to_leading : Run fresh_replica leading 0
to_leading = step (step start (reachable true refl refl)) (begins refl refl)

Run-new_leadership_example : IsConsistent cfg leading × (0 ≤ 1)
Run-new_leadership_example = Run-new_leadership cfg true zero_metrics refl to_leading

admit-Run_example :
    (fresh_replica.shutting_down ≡ false)
    × (cfg.leader_elect ≡ true
        → (h : ℕ) × (some 0 ≡ some h)
          × (leading.term ≡ some h)
          × (among h fresh_replica.cancelled ≡ false)
          × (leading.leader ≡ true)
          × (leading.k8s_ok ≡ true))
unfolding admit begin_term set_k8s_ok new_leadership
admit-Run_example = admit-Run cfg (some 0) to_leading refl

-- The first attempt fails and the second succeeds.
abbrev attempts : ℕ → Attempt
attempts n = record { error = if n == 1 then some other_error else none; interrupted = false }

publish_routing-Ending_example : Ending attempts 1 10 (publish_routing attempts)
publish_routing-Ending_example = publish_routing-Ending attempts

abbrev quiet : Outcomes
quiet = record {
  elector = some true;
  has_cancel = true;
  has_lease = true;
  remaining = pos 5;
  term_done = true;
  grpc_drained = true;
  run_done = true;
  callback_done = true;
}

shutdown_calls-release_example :
    (In cleared_lease (shutdown_calls cfg quiet (some 0))
      ↔ ((was_leader cfg quiet ≡ true) × IsQuiet quiet (some 0) × (quiet.has_lease ≡ true)))
    × (In cleared_lease (shutdown_calls cfg quiet (some 0))
        → (calls : List LifecycleCall) × (shutdown_calls cfg quiet (some 0)
            ≡ calls ++ (cleared_lease ∷ []))
          × ¬ (In cleared_lease calls))
    × (was_leader cfg quiet ≡ true → ¬ (In cancelled_election (before_drain cfg quiet (some 0))))
    × (was_leader cfg quiet ≡ false
        → quiet.has_cancel ≡ true
        → (rest : List LifecycleCall) × (shutdown_calls cfg quiet (some 0)
            ≡ cancelled_election ∷ rest))
shutdown_calls-release_example = shutdown_calls-release cfg quiet (some 0)
