-- ===== src/Order.antt =====
-- reservations.go and ens.go: an order of instances under the lock of its group. The ceiling guard
-- and the deadline budget come before the reservation, and the reservation before the submit. One
-- call of `execute_guarded_order` is what happens while the lock is held.
pub mod Budget
pub mod Guard
pub mod Ceiling
use ens_provider.Prelude.{
  ℕ, zero, suc, ◌+◌, ◌/◌, ◌*◌, ◌≡◌, Bool, true, false, ◌&&◌, Option, none, some, List, [], ◌∷◌, Str,
  str_eq, has_prefix, length, map, filter_by, if◌then◌else◌, ℤ, pos, negsuc, ◌+ℤ◌, ◌-ℤ◌, ltb_ℤ,
  leb_ℤ, leb, int32,
}
use ens_provider.Inventory.{Instance, Answer, ok, err}
use ens_provider.Reservation.{
  OrderReservation, Reservations, Reconciled, put, delete, effective_owned,
}

-- The errors of an order, with what their messages name.
pub data OrderError : Type 0 where
  describe_before_order : Str → OrderError
  exceeds_max : Str → ℤ → ℤ → ℤ → OrderError
  context_dead : Str → OrderError
  deadline_short : ℤ → OrderError
  run_rejected : Str → OrderError
  ambiguous_partial : ℕ → ℤ → Str → OrderError
  ambiguous_nothing : Str → Str → OrderError
  userdata_failed : Str → OrderError
  op_id_failed : Str → OrderError
  no_public_ip : OrderError

-- maxGuard: `int32(owned)+count > max`, the sum in 32 bits.
unfoldable pub max_guard : Str → ℤ → ℤ → ℤ → Option OrderError
max_guard gid owned count max =
    if ltb_ℤ max (int32 (int32 owned +ℤ count))
    then some (exceeds_max gid count owned max)
    else none

-- What the order reads of its context: the error of a dead one, and the deadline.
pub record Context : Type 0 where
  pub error : Option Str
  pub deadline : Option ℤ

-- Milliseconds.
pub record RuntimeOptions : Type 0 where
  pub connect_timeout : ℤ
  pub read_timeout : ℤ

abbrev pub sdk_connect_timeout_ms : ℤ
sdk_connect_timeout_ms = pos 5000

abbrev pub order_read_timeout_ms : ℤ
order_read_timeout_ms = pos 60_000

abbrev pub half_second : ℤ
half_second = pos 500_000_000

-- Duration.Milliseconds, which rounds towards zero.
unfoldable pub milliseconds : ℤ → ℤ
milliseconds (pos n) = pos (n / 1_000_000)
milliseconds (negsuc n) = pos 0 -ℤ pos (suc n / 1_000_000)

pub data Decision : Type 0 where
  refused : OrderError → Decision
  granted : RuntimeOptions → Decision

unfoldable pub budget_of_deadline : Option ℤ → ℤ → Decision
unfolding milliseconds
budget_of_deadline none now =
    granted
      (record { connect_timeout = sdk_connect_timeout_ms; read_timeout = order_read_timeout_ms })
budget_of_deadline (some deadline) now =
    let rem = deadline -ℤ now in
    if leb_ℤ rem half_second
    then refused (deadline_short rem)
    else granted
        (record { connect_timeout = sdk_connect_timeout_ms; read_timeout = milliseconds rem })

abbrev budget_unless_dead : Option Str → Decision → Decision
budget_unless_dead none b = b
budget_unless_dead (some e) b = refused (context_dead e)

unfoldable pub order_budget : Context → ℤ → Decision
unfolding budget_of_deadline
order_budget ctx now = budget_unless_dead ctx.error (budget_of_deadline ctx.deadline now)

pub data OrderOutcome : Type 0 where
  rejected accepted uncertain : OrderOutcome

-- What the submit closure returns.
pub record Submitted : Type 0 where
  pub ids : List Str
  pub outcome : OrderOutcome
  pub error : Option OrderError

-- What an order leaves: the reservations, the result, how many reservations expired, and the
-- options of the submit if there was one.
pub record OrderResult : Type 0 where
  pub reservations : Reservations
  pub ids : List Str
  pub error : Option OrderError
  pub expired_count : ℕ
  pub submit_call : Option RuntimeOptions

unfoldable pub release_on_reject : OrderOutcome → Str → Reservations → Reservations
unfolding delete
release_on_reject rejected op m = delete op m
release_on_reject accepted op m = m
release_on_reject uncertain op m = m

-- Reserve, submit, and keep or release the reservation by the outcome.
unfoldable pub reserve_and_submit :
    Str → ℤ → ℤ → Reconciled → RuntimeOptions → (RuntimeOptions → Submitted) → OrderResult
unfolding put release_on_reject
reserve_and_submit op count now e rt submit =
    let s = submit rt in
    let reserved = put op (record { expected = count; created = now; misses = 0 }) e.kept in
    record {
      reservations = release_on_reject s.outcome op reserved;
      ids = s.ids;
      error = s.error;
      expired_count = e.expired_count;
      submit_call = some rt;
    }

-- An order that stops before the submit; the reconciled reservations stay.
abbrev refuse_order : Reconciled → OrderError → OrderResult
refuse_order e x = record {
  reservations = e.kept;
  ids = [];
  error = some x;
  expired_count = e.expired_count;
  submit_call = none;
}

unfoldable pub order_with_budget :
    Str → ℤ → ℤ → Reconciled → Decision → (RuntimeOptions → Submitted) → OrderResult
unfolding reserve_and_submit
order_with_budget op count now e (refused x) submit = refuse_order e x
order_with_budget op count now e (granted rt) submit = reserve_and_submit op count now e rt submit

unfoldable pub order_with_guard :
    Option OrderError
    → Str
    → ℤ
    → ℤ
    → Reconciled
    → Decision
    → (RuntimeOptions → Submitted)
    → OrderResult
unfolding order_with_budget
order_with_guard (some x) op count now e b submit = refuse_order e x
order_with_guard none op count now e b submit = order_with_budget op count now e b submit

-- executeGuardedOrder, given what the inventory closure answers; `wall` is the time at the budget.
unfoldable pub execute_guarded_order :
    Context
    → Reservations
    → (gid op : Str) → (count max now wall : ℤ) → Answer (List Instance)
    → (RuntimeOptions → Submitted)
    → OrderResult
unfolding effective_owned max_guard order_budget order_with_guard
execute_guarded_order ctx m gid op count max now wall (err x) submit = record {
  reservations = m;
  ids = [];
  error = some (describe_before_order x);
  expired_count = 0;
  submit_call = none;
}
execute_guarded_order ctx m gid op count max now wall (ok owned) submit =
    let e = effective_owned m owned now in
    order_with_guard (max_guard gid e.count count max) op count now e (order_budget ctx wall) submit
