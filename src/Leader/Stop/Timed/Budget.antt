-- ===== src/Leader/Stop/Timed/Budget.antt =====
-- One deadline for all of Shutdown.
use ens_provider.Prelude.{
  ℕ, ◌+◌, ◌≤◌, ◌<◌, ◌≡◌, refl, inl, inr, ◌⊎◌, true, Option, none, some, arith, Bool-cases, In,
}
use ens_provider.Config.{Config}
use ens_provider.Leader.Stop.{shutdown_calls, cleared_lease, was_leader}
use ens_provider.Leader.Stop.Release.{IsQuiet, shutdown_calls-release}
use ens_provider.Leader.Stop.Timed.{
  time_left, wait_chan, stop_grpc, Clock, label_done, drain_term, leads, join_callback,
  timed_shutdown,
}
use ens_provider.Leader.Stop.Timed.Waits.{
  stop_grpc-end, wait_chan-in_time, stop_grpc-in_time, label_done-lt, drain_term-end, wait_chan-le,
  join_callback-le,
}

-- What of a Shutdown ends when: with its budget, and a hard Stop beside it.
timed_shutdown-end :
    (cfg : Config) (budget : ℕ) (k : Clock) (term : Option ℕ)
    → ((timed_shutdown cfg budget k term).1 ≤ budget + k.hard_stop)
      × ((timed_shutdown cfg budget k term).0.grpc_drained ≡ true
          → (timed_shutdown cfg budget k term).1 ≤ budget)
unfolding timed_shutdown
timed_shutdown-end cfg budget k term =
    let t₁ = (drain_term cfg budget k term).1 in
    let first = drain_term-end cfg budget k term in
    let drained = stop_grpc-end budget t₁ k.hard_stop k.drains first in
    let t₂ = (stop_grpc k.drains k.hard_stop (time_left budget t₁) t₁).1 in
    let t₃ = (wait_chan k.run_closes (time_left budget t₂) t₂).1 in
    let with_stop : budget ≤ budget + k.hard_stop = omega arith in
    (
      join_callback-le cfg budget (budget + k.hard_stop) t₃ k with_stop
          (wait_chan-le budget (budget + k.hard_stop) t₂ k.run_closes with_stop drained.0),
      λ e.
          join_callback-le cfg budget budget t₃ k (omega arith)
            (wait_chan-le budget budget t₂ k.run_closes (omega arith) (drained.1 e)),
    )

-- Every part of the shutdown ends before the deadline: the write of the label, the term, the gRPC
-- handlers, the election and the acquisition callback.
pub record EndsInTime (budget : ℕ) (k : Clock) (term : Option ℕ) : Type 0 where
  pub label : k.label_takes < budget
  pub term_at : ℕ
  pub term_closes : (term ≡ none) ⊎ (k.term_closes ≡ some term_at)
  pub term_early : term_at < budget
  pub drained_at : ℕ
  pub drains : k.drains ≡ some drained_at
  pub drained_early : drained_at < budget
  pub run_at : ℕ
  pub run_closes : k.run_closes ≡ some run_at
  pub run_early : run_at < budget
  pub callback_at : ℕ
  pub callback_closes : k.callback_closes ≡ some callback_at
  pub callback_early : callback_at < budget

drain_term-in_time :
    (cfg : Config) (budget : ℕ) (k : Clock) (term : Option ℕ)
    → EndsInTime budget k term
    → ((drain_term cfg budget k term).0 ≡ true) × ((drain_term cfg budget k term).1 < budget)
unfolding drain_term
drain_term-in_time cfg budget k none e = (let h = e.label in (refl, omega arith))
drain_term-in_time cfg budget k (some t) e = elim e.term_closes [
  | inl p ↦ cc
  | inr p ↦ rw p (
      wait_chan-in_time budget (label_done cfg k.label_takes (time_left budget 0) 0) e.term_at
        (label_done-lt cfg k.label_takes budget e.label) e.term_early)
]

join_callback-in_time :
    (cfg : Config) (budget now : ℕ) (k : Clock) (term : Option ℕ)
    → EndsInTime budget k term
    → now < budget
    → ((join_callback cfg budget k now).0 ≡ true) × ((join_callback cfg budget k now).1 < budget)
unfolding join_callback
join_callback-in_time cfg budget now k term e h = elim (Bool-cases (leads cfg k)) [
  | inl p ↦
      rw (p, join_callback)
        (rw e.callback_closes (wait_chan-in_time budget now e.callback_at h e.callback_early))
  | inr p ↦ rw (p, join_callback) (refl, h)
]

timed_shutdown-in_time :
    (cfg : Config) (budget : ℕ) (k : Clock) (term : Option ℕ)
    → EndsInTime budget k term
    → IsQuiet (timed_shutdown cfg budget k term).0 term
      × ((timed_shutdown cfg budget k term).1 < budget)
unfolding timed_shutdown
timed_shutdown-in_time cfg budget k term e =
    let t₁ = (drain_term cfg budget k term).1 in
    let first = drain_term-in_time cfg budget k term e in
    let t₂ = (stop_grpc k.drains k.hard_stop (time_left budget t₁) t₁).1 in
    let second : ((stop_grpc k.drains k.hard_stop (time_left budget t₁) t₁).0 ≡ true)
        × (t₂ < budget) =
      rw e.drains (stop_grpc-in_time budget t₁ k.hard_stop e.drained_at first.1 e.drained_early) in
    let t₃ = (wait_chan k.run_closes (time_left budget t₂) t₂).1 in
    let third : ((wait_chan k.run_closes (time_left budget t₂) t₂).0 ≡ true) × (t₃ < budget) =
      rw e.run_closes (wait_chan-in_time budget t₂ e.run_at second.1 e.run_early) in
    let fourth = join_callback-in_time cfg budget t₃ k term e third.1 in
    (
      record {
        term_quiet = λ t h. first.0;
        drained = second.0;
        joined = third.0;
        returned = fourth.0;
      },
      fourth.1,
    )

-- The clock's elector and lease are those of the outcomes.
leads_then :
    (cfg : Config) (budget : ℕ) (k : Clock) (term : Option ℕ)
    → leads cfg k ≡ true
    → was_leader cfg (timed_shutdown cfg budget k term).0 ≡ true
unfolding timed_shutdown
leads_then cfg budget k term h = h

lease_then :
    (cfg : Config) (budget : ℕ) (k : Clock) (term : Option ℕ)
    → k.has_lease ≡ true
    → (timed_shutdown cfg budget k term).0.has_lease ≡ true
unfolding timed_shutdown
lease_then cfg budget k term h = h

-- The waits of Shutdown share one deadline. All of them are over by the deadline plus the time that
-- a hard Stop takes; the lease is cleared only where they are over by the deadline. And the lease
-- of a replica that leads by election is cleared, before the deadline, where every part of the
-- shutdown ends before it: the write of the label, the term, the gRPC handlers, the election and
-- the acquisition callback.
pub timed_shutdown-budget :
    (cfg : Config) (budget : ℕ) (k : Clock) (term : Option ℕ)
    → ((timed_shutdown cfg budget k term).1 ≤ budget + k.hard_stop)
      × (In cleared_lease (shutdown_calls cfg (timed_shutdown cfg budget k term).0 term)
          → (timed_shutdown cfg budget k term).1 ≤ budget)
      × (leads cfg k ≡ true
          → k.has_lease ≡ true
          → EndsInTime budget k term
          → In cleared_lease (shutdown_calls cfg (timed_shutdown cfg budget k term).0 term)
            × ((timed_shutdown cfg budget k term).1 < budget))
timed_shutdown-budget cfg budget k term =
    let o = (timed_shutdown cfg budget k term).0 in
    let bound = timed_shutdown-end cfg budget k term in
    let release = (shutdown_calls-release cfg o term).0 in
    (
      bound.0,
      λ h. (let (_, quiet, _) = release.0 h in bound.1 quiet.drained),
      λ w l e.
          (let (quiet, early) = timed_shutdown-in_time cfg budget k term e in
            (
              release.1 (leads_then cfg budget k term w, quiet, lease_then cfg budget k term l),
              early,
            )),
    )
