-- ===== src/Reservation/Map.antt =====
-- Reading the map of reservations after a write and after a removal.
use ens_provider.Prelude.{
  ◌≡◌, refl, Option, none, some, [], ◌∷◌, Str, str_eq, str_eq_iff, if◌then◌else◌, arith,
}
use ens_provider.Reservation.{OrderReservation, Reservations, put, delete}

-- `m[op]`
unfoldable pub find : Str → Reservations → Option OrderReservation
find op [] = none
find op ((j, r) ∷ m) = if str_eq j op then some r else find op m

pub find-put :
    (op j : Str) (r : OrderReservation) (m : Reservations)
    → find j (put op r m) ≡ (if str_eq op j then some r else find j m)
unfolding find put
find-put op j r [] = refl
find-put op j r ((k, s) ∷ m) =
    ground (arith, str_eq_iff op j, str_eq_iff k op, str_eq_iff k j, find-put op j r m)

pub find-delete :
    (op j : Str) (m : Reservations)
    → find j (delete op m) ≡ (if str_eq op j then none else find j m)
unfolding find delete
find-delete op j [] = ground arith
find-delete op j ((k, s) ∷ m) =
    ground (arith, str_eq_iff op j, str_eq_iff k op, str_eq_iff k j, find-delete op j m)
