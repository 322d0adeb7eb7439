-- ===== src/Order/Ceiling/Safety.antt =====
-- One provider process, and the maximum of a group.
use ens_provider.Prelude.{
  ℕ, ◌+◌, ◌≤◌, ◌<◌, ◌≡◌, refl, ◌⊎◌, inl, inr, Option, none, some, List, [], ◌++◌, Str, length, ℤ,
  pos, arith,
}
use ens_provider.Inventory.{Instance, Answer, ok, err}
use ens_provider.Reservation.{Reservations, put, delete, effective_owned}
use ens_provider.Order.{
  Context, RuntimeOptions, OrderOutcome, rejected, accepted, uncertain, Submitted, OrderError,
  max_guard, order_budget, release_on_reject, order_with_guard, execute_guarded_order, granted,
  refused, Decision,
}
use ens_provider.Order.Ceiling.{
  Region, OrderCall, run_call, HasLanded, IsOrder, IsLawful, Step, reveal, vanish_visible,
  vanish_hidden, order, Reach, here, next,
}
use ens_provider.Order.Ceiling.Keeps.{
  IsSafe, reveal-IsSafe, vanish_visible-IsSafe, vanish_hidden-IsSafe, reconcile-IsSafe,
  reject-IsSafe,
}
use ens_provider.Order.Ceiling.Landed.{ordered, landed-IsSafe}

-- What an order does to the reservations `m`, over the inventory `owned`.
data Effect (m : Reservations) (owned : List Instance) (gid op : Str) (count max : ℕ) (now : ℤ)
    (landed : List Instance) (result : Reservations) : Type 0 where
  unchanged : landed ≡ [] → result ≡ m → Effect m owned gid op count max now landed result
  reconciled :
      landed ≡ []
      → result ≡ (effective_owned m owned now).kept
      → Effect m owned gid op count max now landed result
  dropped :
      landed ≡ []
      → result ≡ delete op (put op (ordered count now) (effective_owned m owned now).kept)
      → Effect m owned gid op count max now landed result
  reserved :
      max_guard gid (effective_owned m owned now).count (pos count) (pos max) ≡ none
      → result ≡ put op (ordered count now) (effective_owned m owned now).kept
      → Effect m owned gid op count max now landed result

outcome-Effect :
    (m : Reservations) (owned : List Instance) (gid op : Str) (count max : ℕ) (now : ℤ)
    (landed : List Instance) (o : OrderOutcome)
    → max_guard gid (effective_owned m owned now).count (pos count) (pos max) ≡ none
    → (o ≡ rejected → landed ≡ [])
    → Effect m owned gid op count max now landed
        (release_on_reject o op (put op (ordered count now) (effective_owned m owned now).kept))
unfolding release_on_reject
outcome-Effect m owned gid op count max now landed rejected passed refusal =
    Effect.dropped (refusal refl) refl
outcome-Effect m owned gid op count max now landed accepted passed refusal =
    Effect.reserved passed refl
outcome-Effect m owned gid op count max now landed uncertain passed refusal =
    Effect.reserved passed refl

guarded-Effect :
    (m : Reservations) (owned : List Instance) (gid op : Str) (count max : ℕ) (now : ℤ)
    (landed : List Instance) (submit : RuntimeOptions → Submitted) (g : Option OrderError)
    (b : Decision)
    → max_guard gid (effective_owned m owned now).count (pos count) (pos max) ≡ g
    → let r = order_with_guard g op (pos count) now (effective_owned m owned now) b submit in
      (r.submit_call ≡ none → landed ≡ [])
      → ((rt : RuntimeOptions)
          → r.submit_call ≡ some rt
          → (submit rt).outcome ≡ rejected
          → landed ≡ [])
      → Effect m owned gid op count max now landed r.reservations
unfolding order_with_guard
guarded-Effect m owned gid op count max now landed submit (some x) b e unsent refusal =
    Effect.reconciled (unsent refl) refl
guarded-Effect m owned gid op count max now landed submit none (refused x) e unsent refusal =
    Effect.reconciled (unsent refl) refl
guarded-Effect m owned gid op count max now landed submit none (granted rt) e unsent refusal =
    outcome-Effect m owned gid op count max now landed (submit rt).outcome e (refusal rt refl)

order-Effect :
    (ctx : Context) (m : Reservations) (gid op : Str) (count max : ℕ) (now wall : ℤ)
    (inventory : Answer (List Instance)) (submit : RuntimeOptions → Submitted)
    (owned landed : List Instance)
    → (inventory ≡ ok owned) ⊎ ((x : Str) × (inventory ≡ err x))
    → let r = execute_guarded_order ctx m gid op (pos count) (pos max) now wall inventory submit in
      (r.submit_call ≡ none → landed ≡ [])
      → ((rt : RuntimeOptions)
          → r.submit_call ≡ some rt
          → (submit rt).outcome ≡ rejected
          → landed ≡ [])
      → Effect m owned gid op count max now landed r.reservations
unfolding execute_guarded_order
order-Effect ctx m gid op count max now wall inventory submit owned landed (inr (x, e)) =
    rw e (λ unsent refusal. Effect.unchanged (unsent refl) refl)
order-Effect ctx m gid op count max now wall inventory submit owned landed (inl e) = rw e (
    guarded-Effect m owned gid op count max now landed submit
      (max_guard gid (effective_owned m owned now).count (pos count) (pos max))
      (order_budget ctx wall) refl)

order-IsSafe :
    {gid : Str} {max : ℕ} {s : Region} (o : OrderCall) (landed : List Instance)
    → max < 2147483648
    → IsOrder s o landed
    → HasLanded o (run_call gid max s.reservations o) landed
    → IsSafe max s
    → (result : Reservations)
    → Effect s.reservations s.visible gid o.op o.count max o.now landed result
    → IsSafe max (record s { reservations = result; hidden = landed ++ s.hidden })
order-IsSafe o landed small call land safe result (Effect.unchanged nothing same) =
    rw (nothing, same) safe
order-IsSafe {s = s} o landed small call land safe result (Effect.reconciled nothing same) =
    rw (nothing, same) (reconcile-IsSafe {s = s} o.now small call.accounted safe)
order-IsSafe {s = s} o landed small call land safe result (Effect.dropped nothing same) =
    rw (nothing, same)
      (reject-IsSafe
        {s = record s { reservations = (effective_owned s.reservations s.visible o.now).kept }} o.op
        (ordered o.count o.now) call.new_hidden
        (refl, omega (arith, call.fits), omega (arith, call.new_hidden, call.new_visible))
        (reconcile-IsSafe {s = s} o.now small call.accounted safe))
order-IsSafe {gid} {s = s} o landed small call land safe result (Effect.reserved passed same) =
    rw same (
      landed-IsSafe gid o.op o.count o.now landed small call.accounted call.new_visible
        call.new_hidden call.apart call.fits land.bounded land.named passed safe)

Step-IsSafe :
    {gid : Str} {max : ℕ} {s t : Region}
    → max < 2147483648
    → Step IsLawful gid max s t
    → IsSafe max s
    → IsSafe max t
Step-IsSafe small (reveal xs ys i e p) safe = rw p (reveal-IsSafe xs ys i e safe)
Step-IsSafe small (vanish_visible xs ys i e p) safe = rw p (vanish_visible-IsSafe xs ys i e safe)
Step-IsSafe small (vanish_hidden xs ys i e p) safe = rw p (vanish_hidden-IsSafe xs ys i e safe)
Step-IsSafe {gid} {max} {s} small (order o landed (call, land) p) safe = rw p (
    order-IsSafe o landed small call land safe (run_call gid max s.reservations o).reservations (
      order-Effect o.ctx s.reservations gid o.op o.count max o.now o.wall o.inventory o.submit
        s.visible landed call.looked land.unsent land.refused))

Reach-IsSafe :
    {gid : Str} {max : ℕ} {s t : Region}
    → max < 2147483648
    → Reach IsLawful gid max s t
    → IsSafe max s
    → IsSafe max t
Reach-IsSafe small here safe = safe
Reach-IsSafe small (next r st) safe = Step-IsSafe small st (Reach-IsSafe small r safe)

-- One provider process keeps what exists of a group, listed or not, within the maximum: whatever
-- orders it makes, whatever part of each accepted or uncertain order lands, and in whatever order
-- the inventory shows or loses instances. It starts from a safe state with a maximum below 2^31; at
-- each order every reservation is young or has no instance hidden, the inventory fails or lists
-- exactly what is visible, the operation's name is new, the guard's sum fits 31 bits, and ENS
-- creates no more than was ordered, named after the operation.
pub Reach-ceiling :
    {gid : Str} {max : ℕ} {s t : Region}
    → max < 2147483648
    → Reach IsLawful gid max s t
    → IsSafe max s
    → length t.visible + length t.hidden ≤ max
Reach-ceiling small r safe = (Reach-IsSafe small r safe).ceiling
