-- ===== src/Submit/Classify.antt =====
-- How the outcome of a submit is decided from the reply, and what is returned with it.
use ens_provider.Prelude.{
  ℕ, ◌+◌, ◌≡◌, ◌≢◌, refl, ◌⊎◌, ◌↔◌, inl, inr, true, false, Option, none, some, List, Str, length, ℤ,
  pos, eqb_ℤ, int32, arith, Bool-cases,
}
use ens_provider.Errors.{CallError, is_ambiguous_transport, is_instance_gone, sanitize_err}
use ens_provider.Inventory.{Cache, invalidate_cache}
use ens_provider.Metrics.{Metrics}
use ens_provider.Order.{OrderOutcome, rejected, accepted, uncertain, Submitted}
use ens_provider.Submit.{
  Reply, replied, failed, Look, Shared, submit_order, reconcile_by_listing, await_op_instances,
  release_instance,
}

-- One where the order was accepted.
abbrev pub one_if_accepted : OrderOutcome → ℕ
one_if_accepted accepted = 1
one_if_accepted rejected = 0
one_if_accepted uncertain = 0

-- A result that goes with its outcome: the error is there exactly where the order was not accepted,
-- and the success counter has grown exactly where it was.
pub record IsConsistent (before after : Metrics) (r : Submitted) : Type 0 where
  pub accepted_iff : (r.outcome ≡ accepted) ↔ (r.error ≡ none)
  pub success : after.orders_success ≡ before.orders_success + one_if_accepted r.outcome

reconcile_by_listing_lem :
    (op : Str) (count : ℤ) (e : CallError) (m : Metrics) (p : Cache × List Str)
    → let r = reconcile_by_listing op count e m p in
      IsConsistent m r.0.metrics r.1
      × (r.1.outcome ≢ rejected)
      × (r.1.outcome ≡ accepted → eqb_ℤ (int32 (pos (length r.1.ids))) count ≡ true)
unfolding reconcile_by_listing
reconcile_by_listing_lem op count e m p = ground arith

-- A submit is rejected exactly where the call failed with an error that is not ambiguous. It returns
-- an error exactly where it was not accepted, and counts a success exactly where it was. After an
-- ambiguous failure it is accepted only with as many instances as were ordered.
pub submit_order-outcome :
    (op : Str) (count : ℤ) (reply : Reply) (looks : List Look) (last : Look) (s : Shared)
    → let r = submit_order op count reply looks last s in
      IsConsistent s.metrics r.0.metrics r.1
      × ((r.1.outcome ≡ rejected)
          ↔ ((e : CallError) × (reply ≡ failed e) × (is_ambiguous_transport e ≡ false)))
      × ((e : CallError)
          → reply ≡ failed e
          → r.1.outcome ≡ accepted
          → eqb_ℤ (int32 (pos (length r.1.ids))) count ≡ true)
unfolding submit_order
submit_order-outcome op count (replied ids) looks last s = (
  record { accepted_iff = (λ h. refl, λ h. refl); success = refl },
  (λ h. cc, λ h. cc h.1),
  λ e h. cc,
)
submit_order-outcome op count (failed e) looks last s =
    elim (Bool-cases (is_ambiguous_transport e)) [
      | inl maybe ↦
          (let l =
              reconcile_by_listing_lem op count e
                (record (s.metrics) { orders_ambiguous = s.metrics.orders_ambiguous + 1 })
                (await_op_instances op count looks last s.cache) in
            rw maybe (
              record { accepted_iff = l.0.accepted_iff; success = l.0.success },
              (λ h. absurd (l.1 h), λ h. cc (h.1, h.2, maybe)),
              λ e' h a. l.2 a,
            ))
      | inr clean ↦ rw clean (
        record { accepted_iff = (λ h. cc h, λ h. cc h); success = omega arith },
        (λ h. (e, refl, clean), λ h. refl),
        λ e' h a. cc a,
      )
    ]

-- A release succeeds exactly where the call did or its error's code says that the instance is gone;
-- it is then counted and the cache is invalidated. Any other failure counts as one, leaves the cache,
-- and returns the scrubbed text.
pub release_instance-exact :
    (e : Option CallError) (s : Shared)
    → let (s', error) = release_instance e s in
      ((error ≡ none)
        × (s'.metrics.released ≡ s.metrics.released + 1)
        × (s'.cache ≡ invalidate_cache s.cache)
        × ((e ≡ none) ⊎ ((x : CallError) × (e ≡ some x) × (is_instance_gone x ≡ true))))
      ⊎ ((x : CallError) × (e ≡ some x)
          × (is_instance_gone x ≡ false)
          × (error ≡ some (sanitize_err x.text))
          × (s'.metrics.release_failures ≡ s.metrics.release_failures + 1)
          × (s'.cache ≡ s.cache))
unfolding release_instance
release_instance-exact none s = inl (refl, refl, refl, inl refl)
release_instance-exact (some x) s = elim (Bool-cases (is_instance_gone x)) [
  | inl gone ↦ rw gone (inl (refl, refl, refl, inr (x, refl, gone)))
  | inr fatal ↦ rw fatal (inr (x, refl, fatal, refl, refl, refl))
]
