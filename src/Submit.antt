-- ===== src/Submit.antt =====
-- ens.go, the writing half: submitting an order and classifying what came of it, the reconciliation
-- by listing after an ambiguous failure, the order of a group, and the release of an instance.
pub mod Classify
pub mod Query
pub mod Prepared
pub mod Disk
pub mod Prepare
pub mod Run
pub mod Isolation
use ens_provider.Prelude.{
  ℕ, zero, suc, ◌+◌, ◌/◌, ◌%◌, ◌≡◌, Bool, true, false, Option, none, some, List, [], ◌∷◌, ◌++◌, Str,
  codes, str_eq, length, ltb, if◌then◌else◌, ℤ, pos, leb_ℤ, eqb_ℤ, int32,
}
use ens_provider.Config.{Config, Group}
use ens_provider.Errors.{CallError, sanitize_err, is_ambiguous_transport, is_instance_gone}
use ens_provider.Inventory.{Instance, Answer, ok, err, Cache, invalidate_cache}
use ens_provider.Metrics.{Metrics}
use ens_provider.Reservation.{Reservations, instances_with_prefix}
use ens_provider.Order.{
  Context, RuntimeOptions, OrderError, run_rejected, ambiguous_partial, ambiguous_nothing,
  userdata_failed, op_id_failed, OrderOutcome, rejected, accepted, uncertain, Submitted,
  OrderResult, execute_guarded_order,
}

-- The field `InstanceIds` of a reply: a list, a list in a map, or anything else. An entry that is no
-- string is `none`.
pub data IdsField : Type 0 where
  plain : List (Option Str) → IdsField
  wrapped : List (Option Str) → IdsField
  other : IdsField

unfoldable pub string_entries : List (Option Str) → List Str
string_entries [] = []
string_entries (none ∷ rest) = string_entries rest
string_entries (some s ∷ rest) = s ∷ string_entries rest

unfoldable pub reply_ids : IdsField → List Str
unfolding string_entries
reply_ids (plain xs) = string_entries xs
reply_ids (wrapped xs) = string_entries xs
reply_ids other = []

-- What the RPC returns.
pub data Reply : Type 0 where
  replied : IdsField → Reply
  failed : CallError → Reply

-- One turn of the polling loop: whether the context was done when the wait ended, what the forced
-- inventory answered, and what that did to the cache.
pub record Look : Type 0 where
  pub done : Bool
  pub answer : Answer (List Instance)
  pub cache : Cache → Cache

-- The state that a submit shares with the rest of `Cloud`.
pub record Shared : Type 0 where
  pub cache : Cache
  pub metrics : Metrics

-- The instances of the operation, where the inventory lists as many as wanted.
unfoldable pub enough_ids : Str → ℤ → Answer (List Instance) → Option (List Str)
enough_ids op want (err e) = none
enough_ids op want (ok all) =
    let ids = instances_with_prefix all op in
    if leb_ℤ want (int32 (pos (length ids))) then some ids else none

-- The inventory after the last wait, whatever it lists.
unfoldable pub final_ids : Str → Look → List Str
final_ids op look =
    if look.done
    then []
    else (elim look.answer [ err e ↦ [] | ok all ↦ instances_with_prefix all op ])

-- awaitOpInstances, over one `Look` for each attempt and one for the last inventory.
unfoldable pub await_op_instances : Str → ℤ → List Look → Look → Cache → Cache × List Str
unfolding enough_ids final_ids
await_op_instances op want [] last c = (if last.done then c else last.cache c, final_ids op last)
await_op_instances op want (look ∷ rest) last c =
    let later = await_op_instances op want rest last (look.cache c) in
    if look.done
    then (c, [])
    else (elim (enough_ids op want look.answer) [ some ids ↦ (look.cache c, ids) | none ↦ later ])

abbrev bump_success : Metrics → Metrics
bump_success m = record m { orders_success = m.orders_success + 1 }

abbrev bump_failure : Metrics → Metrics
bump_failure m = record m { orders_failure = m.orders_failure + 1 }

abbrev bump_ambiguous : Metrics → Metrics
bump_ambiguous m = record m { orders_ambiguous = m.orders_ambiguous + 1 }

-- What the listing after an ambiguous failure found: all instances, some, or none.
unfoldable pub reconcile_by_listing :
    Str → ℤ → CallError → Metrics → Cache × List Str → Shared × Submitted
reconcile_by_listing op count e m (c, ids) =
    if eqb_ℤ (int32 (pos (length ids))) count
    then (
      record { cache = invalidate_cache c; metrics = bump_success m },
      record { ids = ids; outcome = accepted; error = none },
    )
    else if ltb 0 (length ids)
    then (
      record { cache = invalidate_cache c; metrics = m },
      record {
        ids = ids;
        outcome = uncertain;
        error = some (ambiguous_partial (length ids) count op);
      },
    )
    else (
      record { cache = c; metrics = bump_failure m },
      record {
        ids = [];
        outcome = uncertain;
        error = some (ambiguous_nothing op (sanitize_err e.text));
      },
    )

-- submitOrder, given the RPC's reply and the looks of the reconciliation.
unfoldable pub submit_order : Str → ℤ → Reply → List Look → Look → Shared → Shared × Submitted
unfolding reconcile_by_listing await_op_instances reply_ids
submit_order op count (replied ids) looks last s = (
  record { cache = invalidate_cache s.cache; metrics = bump_success s.metrics },
  record { ids = reply_ids ids; outcome = accepted; error = none },
)
submit_order op count (failed e) looks last s =
    if is_ambiguous_transport e
    then reconcile_by_listing op count e (bump_ambiguous s.metrics)
        (await_op_instances op count looks last s.cache)
    else (
      record s { metrics = bump_failure s.metrics },
      record { ids = []; outcome = rejected; error = some (run_rejected (sanitize_err e.text)) },
    )

-- ReleaseInstance, given the error of the call if it failed.
unfoldable pub release_instance : Option CallError → Shared → Shared × Option Str
unfolding is_instance_gone sanitize_err
release_instance none s = (
  record {
    cache = invalidate_cache s.cache;
    metrics = record s.metrics { released = s.metrics.released + 1 };
  },
  none,
)
release_instance (some e) s =
    if is_instance_gone e
    then (
      record {
        cache = invalidate_cache s.cache;
        metrics = record s.metrics { released = s.metrics.released + 1 };
      },
      none,
    )
    else (
      record s { metrics = record s.metrics { release_failures = s.metrics.release_failures + 1 } },
      some (sanitize_err e.text),
    )
