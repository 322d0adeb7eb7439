-- ===== src/Order/Ceiling/Landed.antt =====
-- An order that passed the guard, and the parts of it that may land.
use ens_provider.Prelude.{
  ℕ, ◌+◌, ◌≤◌, ◌<◌, ◌≡◌, refl, ◌⊎◌, inl, inr, true, none, List, [], ◌∷◌, ◌++◌, Str, has_prefix,
  length, length-append, count_if-append, All, In, ℤ, pos, pos_part, eq_of_parts, arith,
}
use ens_provider.Inventory.{Instance}
use ens_provider.Reservation.{OrderReservation, Reservations, put, effective_owned}
use ens_provider.Reservation.Effective.{
  matching, matching-le-length, IsAccounted, effective_owned-Counts,
}
use ens_provider.Reservation.Cover.{
  is_reserved, length-le-reserved_sum, is_reserved-effective_owned, is_reserved-put, All-put,
}
use ens_provider.Order.{max_guard}
use ens_provider.Order.Guard.{max_guard-exact}
use ens_provider.Order.Ceiling.{Region}
use ens_provider.Order.Ceiling.Keeps.{IsSafe, In-append, IsCovering-mono}

All-map {ℓ κ} :
    {A : Type 0} {P : A → Type ℓ} {Q : A → Type κ} (xs : List A)
    → ((x : A) → P x → Q x)
    → All P xs
    → All Q xs
All-map [] f a = tt
All-map (x ∷ xs) f a = (f x a.0, All-map xs f a.1)

-- The reservation of an order of `count` instances.
abbrev pub ordered : ℕ → ℤ → OrderReservation
ordered count now = record { expected = pos count; created = now; misses = 0 }

matching_landed :
    (op : Str) (landed hidden : List Instance)
    → matching op (landed ++ hidden) ≡ matching op landed + matching op hidden
matching_landed op landed hidden =
    count_if-append (λ (i : Instance). has_prefix i.name op) landed hidden

is_reserved-landed :
    (op : Str) (r : OrderReservation) (m : Reservations) (i : Instance)
    → (has_prefix i.name op ≡ true) ⊎ (is_reserved m i ≡ true)
    → is_reserved (put op r m) i ≡ true
is_reserved-landed op r m i h = rw (is_reserved-put op r m i) (ground arith)

IsAccounted-append :
    (now : ℤ) (landed hidden : List Instance) (m : Reservations)
    → All (IsAccounted (λ op. matching op hidden) now) m
    → All (λ p. matching p.0 landed ≡ 0) m
    → All (IsAccounted (λ op. matching op (landed ++ hidden)) now) m
IsAccounted-append now landed hidden [] a apart = tt
IsAccounted-append now landed hidden ((op, r) ∷ m) a apart = (
  elim a.0 [
    | inl young ↦ inl young
    | inr z ↦ inr (omega (arith, z, apart.0, matching_landed op landed hidden))
  ],
  IsAccounted-append now landed hidden m a.1 apart.1,
)

-- An order that passed the guard on the effective count leaves the region safe, whatever part of it
-- lands.
pub landed-IsSafe :
    {max : ℕ} {s : Region} (gid op : Str) (count : ℕ) (now : ℤ) (landed : List Instance)
    → max < 2147483648
    → All (IsAccounted (λ op. matching op s.hidden) now) s.reservations
    → matching op s.visible ≡ 0
    → matching op s.hidden ≡ 0
    → All (λ p. matching p.0 landed ≡ 0) s.reservations
    → pos_part (effective_owned s.reservations s.visible now).count + count < 2147483648
    → length landed ≤ count
    → ((i : Instance) → In i landed → has_prefix i.name op ≡ true)
    → max_guard gid (effective_owned s.reservations s.visible now).count (pos count) (pos max)
      ≡ none
    → IsSafe max s
    → IsSafe max (record s {
      reservations = put op (ordered count now) (effective_owned s.reservations s.visible now).kept;
      hidden = landed ++ s.hidden;
    })
landed-IsSafe {max} {s} gid op count now landed small young nv nh apart fits few named passed safe =
    let short : length s.visible < 2147483648 = omega (arith, safe.ceiling) in
    let e = effective_owned s.reservations s.visible now in
    let before =
      effective_owned-Counts (λ o. matching o s.hidden) s.reservations s.visible now short
        safe.covering young in
    let after =
      effective_owned-Counts (λ o. matching o (landed ++ s.hidden)) s.reservations s.visible now
        short
        (IsCovering-mono _ _ s.reservations
          (All-map s.reservations (λ p z. omega (arith, z, matching_landed p.0 landed s.hidden))
            apart)
          safe.covering)
        (IsAccounted-append now landed s.hidden s.reservations young apart) in
    let whole : e.count ≡ pos (pos_part e.count) = eq_of_parts _ _ (omega (arith, before.nonneg)) in
    let room : pos_part e.count + count ≤ max =
      (max_guard-exact gid (pos_part e.count) count max fits).0 (rw whole at passed) in
    record {
      covering =
          All-put _ op (ordered count now) e.kept
            (
              refl,
              omega arith,
              omega (
                arith,
                nv,
                nh,
                few,
                matching_landed op landed s.hidden,
                matching-le-length op landed,
              ),
            )
            after.covering;
      reserved = λ i p. elim (In-append landed s.hidden i p) [
        | inl a ↦ is_reserved-landed op (ordered count now) e.kept i (inl (named i a))
        | inr b ↦ is_reserved-landed op (ordered count now) e.kept i (
            inr (
              is_reserved-effective_owned s.hidden s.reservations s.visible now short safe.covering
                young i b (safe.reserved i b)))
      ];
      ceiling = omega (
        arith,
        room,
        before.enough,
        length-append landed s.hidden,
        length-le-reserved_sum s.hidden s.reservations safe.reserved,
      );
    }
