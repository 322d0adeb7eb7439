-- ===== src/Examples/Orders.antt =====
-- Examples of guarded orders, submits and releases.
use ens_provider.Prelude.{
  ◌≡◌, refl, inl, ◌⊎◌, ◌↔◌, true, false, none, some, [], ◌∷◌, Str, codes, length, ℤ, pos, ◌-ℤ◌,
  ◌≤ℤ◌, has_prefix, eqb_ℤ, int32, arith,
}
use ens_provider.Errors.{CallError, is_ambiguous_transport}
use ens_provider.Inventory.{ok}
use ens_provider.Metrics.{zero_metrics}
use ens_provider.Reservation.{Reservations, effective_owned}
use ens_provider.Reservation.Effective.{Counts, effective_owned-Counts}
use ens_provider.Order.{
  Context, RuntimeOptions, OrderError, Submitted, accepted, rejected, max_guard, order_budget,
  granted, refused, half_second, execute_guarded_order,
}
use ens_provider.Order.Budget.{IsBudget, order_budget-exact}
use ens_provider.Order.Guard.{max_guard_wraps, IsSubmit, IsRefusal, execute_guarded_order-cases}
use ens_provider.Submit.{Shared, Look, failed, submit_order}
use ens_provider.Submit.Classify.{IsConsistent, submit_order-outcome}
use ens_provider.Submit.Run.{Outside, CloudState}
use ens_provider.Examples.Data.{web1}

abbrev two_reserved : Reservations
two_reserved = (codes "as-web-1", record { expected = pos 2; created = pos 0; misses = 0 }) ∷ []

effective_owned-Counts_example :
    Counts
      (λ op. 0)
      two_reserved
      (web1 ∷ [])
      (pos 5)
      (effective_owned two_reserved (web1 ∷ []) (pos 5))
unfolding has_prefix ◌-ℤ◌
effective_owned-Counts_example =
    effective_owned-Counts (λ op. 0) two_reserved (web1 ∷ []) (pos 5) (omega arith)
      ((refl, omega arith, omega arith), tt) (inl (omega arith), tt)

max_guard_wraps_example : max_guard (codes "web") (pos 1) (pos 2147483647) (pos 3) ≡ none
max_guard_wraps_example =
    max_guard_wraps (codes "web") 1 2147483647 3 (omega arith) (omega arith) (omega arith)

-- Two seconds and a half are left.
abbrev ctx : Context
ctx = record { error = none; deadline = some (pos 2_500_000_000) }

order_budget-exact_example :
    ((rt : RuntimeOptions)
      → order_budget ctx (pos 0) ≡ granted rt
      → (ctx.error ≡ none) × IsBudget ctx.deadline (pos 0) rt.read_timeout)
    × ((x : OrderError)
        → order_budget ctx (pos 0) ≡ refused x
        → ((e : Str) × (ctx.error ≡ some e))
          ⊎ ((d : ℤ) × (ctx.deadline ≡ some d) × (d -ℤ pos 0 ≤ℤ half_second)))
order_budget-exact_example = order_budget-exact ctx (pos 0)

abbrev accepts : RuntimeOptions → Submitted
accepts rt = record { ids = codes "i-1" ∷ codes "i-2" ∷ []; outcome = accepted; error = none }

execute_guarded_order-cases_example :
    let r =
      execute_guarded_order ctx two_reserved
        (codes "web")
        (codes "as-web-2")
        (pos 1)
        (pos 3)
        (pos 5)
        (pos 0)
        (ok (web1 ∷ []))
        accepts in
    ((rt : RuntimeOptions) × (r.submit_call ≡ some rt)
      × IsSubmit ctx two_reserved
          (codes "web")
          (codes "as-web-2")
          (pos 1)
          (pos 3)
          (pos 5)
          (pos 0)
          (ok (web1 ∷ []))
          accepts
          rt)
    ⊎ ((r.submit_call ≡ none)
        × (r.ids ≡ [])
        × IsRefusal ctx two_reserved
            (codes "web")
            (codes "as-web-2")
            (pos 1)
            (pos 3)
            (pos 5)
            (pos 0)
            (ok (web1 ∷ []))
            accepts)
execute_guarded_order-cases_example =
    execute_guarded_order-cases ctx two_reserved (codes "web") (codes "as-web-2") (pos 1) (pos 3)
      (pos 5) (pos 0) (ok (web1 ∷ [])) accepts

abbrev shared : Shared
shared = record {
  cache = record { cached = some (web1 ∷ []); cache_at = some (pos 0) };
  metrics = zero_metrics;
}

abbrev cut_off : CallError
cut_off = record { text = codes "read: i/o timeout"; code = none }

abbrev look : Look
look = record { done = false; answer = ok (web1 ∷ []); cache = λ c. c }

submit_order-outcome_example :
    let r = submit_order (codes "as-web-1") (pos 1) (failed cut_off) (look ∷ []) look shared in
    IsConsistent shared.metrics r.0.metrics r.1
    × ((r.1.outcome ≡ rejected)
        ↔ ((e : CallError) × (failed cut_off ≡ failed e) × (is_ambiguous_transport e ≡ false)))
    × ((e : CallError)
        → failed cut_off ≡ failed e
        → r.1.outcome ≡ accepted
        → eqb_ℤ (int32 (pos (length r.1.ids))) (pos 1) ≡ true)
submit_order-outcome_example =
    submit_order-outcome (codes "as-web-1") (pos 1) (failed cut_off) (look ∷ []) look shared

abbrev gone : CallError
gone = record { text = codes "no such"; code = some (codes "InstanceIdNotFound") }

abbrev outside : Outside
outside = record {
  userdata = ok (codes "script");
  op_id = ok (10 ∷ 11 ∷ []);
  unix = 1_700_000_000;
  inventory = ok (web1 ∷ []);
  inventory_cache = λ c. c;
  now = pos 5;
  wall = pos 0;
  rpc = λ query rt. failed cut_off;
  looks = look ∷ [];
  last_look = look;
}

abbrev state : CloudState
state = record { orders = (codes "batch", two_reserved) ∷ []; shared = shared }
