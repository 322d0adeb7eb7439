-- ===== src/Reservation/Expiry.antt =====
-- When a reservation expires.
use ens_provider.Prelude.{
  ◌≤◌, ◌<◌, ◌≡◌, ◌↔◌, List, Str, length, ℤ, pos, ◌-ℤ◌, ◌≤ℤ◌, ◌<ℤ◌, int32_pos, arith,
}
use ens_provider.Inventory.{Instance}
use ens_provider.Reservation.{OrderReservation, expired, reservation_ttl, reservation_fate}
use ens_provider.Reservation.Effective.{matching, matching-le-length, length-instances_with_prefix}

-- A reservation expires exactly where a look at the inventory shows none of its instances, some are
-- expected, the order is at least as old as the time to live, and the look before was empty as well.
pub reservation_fate-expired :
    (owned : List Instance) (now : ℤ) (op : Str) (r : OrderReservation)
    → length owned < 2147483648
    → (reservation_fate owned now op r ≡ expired) ↔ (
        (matching op owned ≡ 0)
        × (pos 0 <ℤ r.expected)
        × (reservation_ttl ≤ℤ now -ℤ r.created)
        × (1 ≤ r.misses))
unfolding reservation_fate
reservation_fate-expired owned now op r small = rw (length-instances_with_prefix owned op) (
    rw (int32_pos (matching op owned) (omega (arith, matching-le-length op owned))) (
      (
        λ e. (ground (arith, e), ground (arith, e), ground (arith, e), ground (arith, e)),
        λ (a, b, c, d). ground (arith, a, b, c, d),
      )))
