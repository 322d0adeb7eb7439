-- ===== src/Order/Guard.antt =====
-- The ceiling guard in 32-bit arithmetic, and what a guarded order does on each of its branches.
use ens_provider.Prelude.{
  ℕ, ◌+◌, ◌≤◌, ◌<◌, ◌≡◌, refl, ◌⊎◌, ◌↔◌, inl, inr, Option, none, some, List, [], Str, str_eq, ℤ,
  pos, ◌+ℤ◌, eq_of_parts, +ℤ_nonneg, int32, int32_pos, arith, if◌then◌else◌, Option-cases,
}
use ens_provider.Inventory.{Instance, Answer, ok, err}
use ens_provider.Reservation.{OrderReservation, Reservations, effective_owned, put}
use ens_provider.Reservation.Map.{find, find-put, find-delete}
use ens_provider.Order.{
  Context, RuntimeOptions, Decision, granted, refused, OrderError, OrderOutcome, rejected, accepted,
  uncertain, Submitted, OrderResult, max_guard, order_budget, release_on_reject,
  execute_guarded_order,
}

pub int32-sum : (c n : ℕ) → c < 2147483648 → int32 (int32 (pos c) +ℤ pos n) ≡ int32 (pos (c + n))
int32-sum c n h =
    let e : pos c +ℤ pos n ≡ pos (c + n) =
      eq_of_parts _ _ (omega (arith, +ℤ_nonneg (pos c) (pos n) refl refl)) in
    rw (int32_pos c h, e)

-- Where the sum fits in 31 bits the guard accepts an order exactly when the owned instances and the
-- ordered ones fit the maximum together.
pub max_guard-exact :
    (gid : Str) (owned count max : ℕ)
    → owned + count < 2147483648
    → (max_guard gid (pos owned) (pos count) (pos max) ≡ none) ↔ (owned + count ≤ max)
unfolding max_guard
max_guard-exact gid owned count max h =
    rw (int32-sum owned count (omega arith), int32_pos (owned + count) h)
      (ground arith, ground arith)

-- Where the sum needs the 32nd bit it wraps to a negative number, and the guard accepts the order
-- whatever the maximum is.
pub max_guard_wraps :
    (gid : Str) (owned count max : ℕ)
    → owned < 2147483648
    → 2147483648 ≤ owned + count
    → owned + count < 4294967296
    → max_guard gid (pos owned) (pos count) (pos max) ≡ none
unfolding max_guard int32
max_guard_wraps gid owned count max h low high = rw (int32-sum owned count h) (ground arith)

-- What an operation has reserved after its submit, by the outcome.
abbrev pub reserved_after : OrderOutcome → OrderReservation → Option OrderReservation
reserved_after rejected r = none
reserved_after accepted r = some r
reserved_after uncertain r = some r

release_on_reject-find :
    (o : OrderOutcome) (op j : Str) (r : OrderReservation) (m : Reservations)
    → find j (release_on_reject o op (put op r m))
      ≡ (if str_eq op j then reserved_after o r else find j m)
unfolding release_on_reject
release_on_reject-find rejected op j r m =
    ground (arith, find-delete op j (put op r m), find-put op j r m)
release_on_reject-find accepted op j r m = find-put op j r m
release_on_reject-find uncertain op j r m = find-put op j r m

module _ (ctx : Context) (m : Reservations) (gid op : Str) (count max now wall : ℤ)
    (inventory : Answer (List Instance)) (submit : RuntimeOptions → Submitted) where
  abbrev pub the_order : OrderResult
  the_order = execute_guarded_order ctx m gid op count max now wall inventory submit

  -- What a submit presupposes and leaves.
  pub record IsSubmit (rt : RuntimeOptions) : Type 0 where
    pub owned : List Instance
    pub fresh : inventory ≡ ok owned
    pub below_max : max_guard gid (effective_owned m owned now).count count max ≡ none
    pub budgeted : order_budget ctx wall ≡ granted rt
    pub result : (the_order.ids ≡ (submit rt).ids) × (the_order.error ≡ (submit rt).error)
    pub reserved :
        (j : Str)
        → find j the_order.reservations ≡ (
            if str_eq op j
            then reserved_after
                (submit rt).outcome
                (record { expected = count; created = now; misses = 0 })
            else find j (effective_owned m owned now).kept)

  -- What an order that is not submitted leaves.
  pub data IsRefusal : Type 0 where
    blind : (x : Str) → inventory ≡ err x → the_order.reservations ≡ m → IsRefusal
    full :
        (owned : List Instance) (x : OrderError)
        → inventory ≡ ok owned
        → max_guard gid (effective_owned m owned now).count count max ≡ some x
        → the_order.error ≡ some x
        → the_order.reservations ≡ (effective_owned m owned now).kept
        → IsRefusal
    late :
        (owned : List Instance) (x : OrderError)
        → inventory ≡ ok owned
        → order_budget ctx wall ≡ refused x
        → the_order.error ≡ some x
        → the_order.reservations ≡ (effective_owned m owned now).kept
        → IsRefusal

pub Decision-cases :
    (b : Decision)
    → ((x : OrderError) × (b ≡ refused x)) ⊎ ((rt : RuntimeOptions) × (b ≡ granted rt))
Decision-cases (refused x) = inl (x, refl)
Decision-cases (granted rt) = inr (rt, refl)

-- An order reaches the submit only after a fresh inventory, under the ceiling, and with the budget
-- that the gate granted; it returns what the submit returns, and its operation stays reserved unless
-- ENS rejected it, every other reservation being as the inventory left it. Any other order returns
-- no ids and makes no reservation: the inventory failed, or the guard or the budget refused.
pub execute_guarded_order-cases :
    (ctx : Context) (m : Reservations) (gid op : Str) (count max now wall : ℤ)
    (inventory : Answer (List Instance)) (submit : RuntimeOptions → Submitted)
    → let r = execute_guarded_order ctx m gid op count max now wall inventory submit in
      ((rt : RuntimeOptions) × (r.submit_call ≡ some rt)
        × IsSubmit ctx m gid op count max now wall inventory submit rt)
      ⊎ ((r.submit_call ≡ none)
          × (r.ids ≡ [])
          × IsRefusal ctx m gid op count max now wall inventory submit)
unfolding execute_guarded_order
execute_guarded_order-cases ctx m gid op count max now wall (err x) submit =
    inr (refl, refl, IsRefusal.blind x refl refl)
execute_guarded_order-cases ctx m gid op count max now wall (ok owned) submit =
    elim (Option-cases (max_guard gid (effective_owned m owned now).count count max)) [
      | inr (x, over) ↦ inr (
        rw over refl,
        rw over refl,
        IsRefusal.full owned x refl over (rw over refl) (rw over refl),
      )
      | inl under ↦ elim (Decision-cases (order_budget ctx wall)) [
        | inl (x, no_time) ↦ inr (
          rw (under, no_time) refl,
          rw (under, no_time) refl,
          IsRefusal.late owned x refl no_time (rw (under, no_time) refl) (rw (under, no_time) refl),
        )
        | inr (rt, g) ↦ inl (
          rt,
          rw (under, g) refl,
          record {
            owned = owned;
            fresh = refl;
            below_max = under;
            budgeted = g;
            result = (rw (under, g) refl, rw (under, g) refl);
            reserved = λ j.
                rw (under, g)
                  (release_on_reject-find (submit rt).outcome op j
                    (record { expected = count; created = now; misses = 0 })
                    (effective_owned m owned now).kept);
          },
        )
      ]
    ]
