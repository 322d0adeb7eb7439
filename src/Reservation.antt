-- ===== src/Reservation.antt =====
-- reservations.go: orders that ENS has accepted and does not list yet are carried as reservations,
-- and a fresh inventory is reconciled with them. Times and durations are nanoseconds.
pub mod Effective
pub mod Expiry
pub mod Map
pub mod Cover
use ens_provider.Prelude.{
  ℕ, zero, suc, ◌+◌, ◌/◌, ◌*◌, ◌≡◌, Bool, true, false, ◌&&◌, Option, none, some, List, [], ◌∷◌, Str,
  str_eq, has_prefix, length, map, filter_by, if◌then◌else◌, eqb_ℤ, ℤ, pos, negsuc, ◌+ℤ◌, ◌-ℤ◌,
  ltb_ℤ, leb_ℤ, leb, int32,
}
use ens_provider.Inventory.{Instance, Answer, ok, err}

-- 15 minutes.
abbrev pub reservation_ttl : ℤ
reservation_ttl = pos 900_000_000_000

abbrev pub reservation_expiry_misses : ℕ
reservation_expiry_misses = 2

pub record OrderReservation : Type 0 where
  pub expected : ℤ  -- int32
  pub created : ℤ
  pub misses : ℕ

-- The reservations of one group, by operation name. The order of a Go map is not fixed, and the
-- loop over it does not depend on the order.
abbrev pub Reservations : Type 0
Reservations = List (Str × OrderReservation)

-- A write to the map: an entry under the same name is replaced.
unfoldable pub put : Str → OrderReservation → Reservations → Reservations
put op r [] = (op, r) ∷ []
put op r ((j, s) ∷ m) = if str_eq j op then (op, r) ∷ m else (j, s) ∷ put op r m

unfoldable pub delete : Str → Reservations → Reservations
delete op [] = []
delete op ((j, s) ∷ m) = if str_eq j op then delete op m else (j, s) ∷ delete op m

unfoldable pub instances_with_prefix : List Instance → Str → List Str
instances_with_prefix all prefix = map (λ i. i.id) (filter_by (λ i. has_prefix i.name prefix) all)

-- What a look at the inventory does to one reservation.
pub data Fate : Type 0 where
  fulfilled : Fate
  expired : Fate
  held : OrderReservation → ℤ → Fate

-- One turn of the loop; the number of `held` is what the reservation adds to the count.
unfoldable pub reservation_fate : List Instance → ℤ → Str → OrderReservation → Fate
unfolding instances_with_prefix
reservation_fate owned now op r =
    let visible = int32 (pos (length (instances_with_prefix owned op))) in
    if leb_ℤ r.expected visible
    then fulfilled
    else if eqb_ℤ visible (pos 0)
    then (if leb_ℤ reservation_ttl (now -ℤ r.created)
          && leb reservation_expiry_misses (r.misses + 1)
        then expired
        else held (record r { misses = r.misses + 1 }) (int32 (r.expected -ℤ visible)))
    else held (record r { misses = 0 }) (int32 (r.expected -ℤ visible))

-- What `effectiveOwned` leaves: the reservations kept, the count for the guard, and how many expired.
pub record Reconciled : Type 0 where
  pub kept : Reservations
  pub count : ℤ
  pub expired_count : ℕ

abbrev keep : Str → Fate → Reconciled → Reconciled
keep op fulfilled e = e
keep op expired e = record e { expired_count = e.expired_count + 1 }
keep op (held r outstanding) e = record e {
  kept = (op, r) ∷ e.kept;
  count = e.count +ℤ outstanding;
}

unfoldable pub effective_owned : Reservations → List Instance → ℤ → Reconciled
unfolding reservation_fate
effective_owned [] owned now = record { kept = []; count = pos (length owned); expired_count = 0 }
effective_owned ((op, r) ∷ m) owned now =
    keep op (reservation_fate owned now op r) (effective_owned m owned now)
