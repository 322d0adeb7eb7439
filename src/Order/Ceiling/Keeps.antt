-- ===== src/Order/Ceiling/Keeps.antt =====
-- What the cloud does by itself, a look at the inventory and a rejected order, for a safe region.
use ens_provider.Prelude.{
  ℕ, suc, ◌+◌, ◌≤◌, ◌<◌, ◌≡◌, ap, ◌⊎◌, inl, inr, Bool, true, false, List, [], ◌∷◌, ◌++◌, Str,
  has_prefix, length, length-append, count_if-append, All, In, ℤ, arith, Bool-cases, ◌||◌,
}
use ens_provider.Inventory.{Instance}
use ens_provider.Reservation.{OrderReservation, Reservations, put, delete, effective_owned}
use ens_provider.Reservation.Effective.{matching, IsAccounted, IsCovering, effective_owned-Counts}
use ens_provider.Reservation.Cover.{
  is_reserved, matching_pos, is_reserved-effective_owned, is_reserved-put, is_reserved-delete,
  All-put, All-delete,
}
use ens_provider.Order.Ceiling.{Region}

-- Every reservation covers what exists of its operation, every hidden instance is reserved, and what
-- exists fits the maximum.
pub record IsSafe (max : ℕ) (s : Region) : Type 0 where
  pub covering :
      All (IsCovering (λ op. matching op s.visible + matching op s.hidden)) s.reservations
  pub reserved : (i : Instance) → In i s.hidden → is_reserved s.reservations i ≡ true
  pub ceiling : length s.visible + length s.hidden ≤ max

pub IsCovering-mono :
    (f g : Str → ℕ) (m : Reservations)
    → All (λ p. g p.0 ≤ f p.0) m
    → All (IsCovering f) m
    → All (IsCovering g) m
IsCovering-mono f g [] le a = tt
IsCovering-mono f g ((op, r) ∷ m) le a =
    ((a.0.0, a.0.1, omega arith), IsCovering-mono f g m le.1 a.1)

pub All-of {ℓ} : {A : Type 0} (P : A → Type ℓ) (xs : List A) → ((x : A) → P x) → All P xs
All-of P [] h = tt
All-of P (x ∷ xs) h = (h x, All-of P xs h)

In-insert : (xs ys : List Instance) (i j : Instance) → In j (xs ++ ys) → In j (xs ++ (i ∷ ys))
In-insert [] ys i j h = inr h
In-insert (x ∷ xs) ys i j (inl e) = inl e
In-insert (x ∷ xs) ys i j (inr h) = inr (In-insert xs ys i j h)

pub In-append : (xs ys : List Instance) (j : Instance) → In j (xs ++ ys) → In j xs ⊎ In j ys
In-append [] ys j h = inr h
In-append (x ∷ xs) ys j (inl e) = inl (inl e)
In-append (x ∷ xs) ys j (inr h) = elim (In-append xs ys j h) [ inl a ↦ inl (inr a) | inr b ↦ inr b ]

matching-insert :
    (op : Str) (xs ys : List Instance) (i : Instance)
    → matching op (xs ++ (i ∷ ys)) ≡ matching op (i ∷ []) + matching op (xs ++ ys)
matching-insert op xs ys i = omega (
  arith,
  count_if-append (λ (k : Instance). has_prefix k.name op) xs (i ∷ ys),
  count_if-append (λ (k : Instance). has_prefix k.name op) xs ys,
)

length-insert :
    (xs ys : List Instance) (i : Instance) → length (xs ++ (i ∷ ys)) ≡ suc (length (xs ++ ys))
length-insert xs ys i = omega (arith, length-append xs (i ∷ ys), length-append xs ys)

or_true : (b : Bool) → (b || true) ≡ true
or_true b = ground arith

pub reveal-IsSafe :
    {max : ℕ} {s : Region} (xs ys : List Instance) (i : Instance)
    → s.hidden ≡ xs ++ (i ∷ ys)
    → IsSafe max s
    → IsSafe max (record s { visible = i ∷ s.visible; hidden = xs ++ ys })
reveal-IsSafe {s = s} xs ys i e safe = record {
  covering =
      IsCovering-mono _ _ s.reservations
        (All-of _ s.reservations
          (λ p. omega (arith, matching-insert p.0 xs ys i, ap (matching p.0) e)))
        safe.covering;
  reserved = λ j h. safe.reserved j (rw e (In-insert xs ys i j h));
  ceiling = omega (arith, safe.ceiling, length-insert xs ys i, ap (length {A = Instance}) e);
}

pub vanish_visible-IsSafe :
    {max : ℕ} {s : Region} (xs ys : List Instance) (i : Instance)
    → s.visible ≡ xs ++ (i ∷ ys)
    → IsSafe max s
    → IsSafe max (record s { visible = xs ++ ys })
vanish_visible-IsSafe {s = s} xs ys i e safe = record {
  covering =
      IsCovering-mono _ _ s.reservations
        (All-of _ s.reservations
          (λ p. omega (arith, matching-insert p.0 xs ys i, ap (matching p.0) e)))
        safe.covering;
  reserved = safe.reserved;
  ceiling = omega (arith, safe.ceiling, length-insert xs ys i, ap (length {A = Instance}) e);
}

pub vanish_hidden-IsSafe :
    {max : ℕ} {s : Region} (xs ys : List Instance) (i : Instance)
    → s.hidden ≡ xs ++ (i ∷ ys)
    → IsSafe max s
    → IsSafe max (record s { hidden = xs ++ ys })
vanish_hidden-IsSafe {s = s} xs ys i e safe = record {
  covering =
      IsCovering-mono _ _ s.reservations
        (All-of _ s.reservations
          (λ p. omega (arith, matching-insert p.0 xs ys i, ap (matching p.0) e)))
        safe.covering;
  reserved = λ j h. safe.reserved j (rw e (In-insert xs ys i j h));
  ceiling = omega (arith, safe.ceiling, length-insert xs ys i, ap (length {A = Instance}) e);
}

-- A look at the inventory keeps a region safe.
pub reconcile-IsSafe :
    {max : ℕ} {s : Region} (now : ℤ)
    → max < 2147483648
    → All (IsAccounted (λ op. matching op s.hidden) now) s.reservations
    → IsSafe max s
    → IsSafe max (record s { reservations = (effective_owned s.reservations s.visible now).kept })
reconcile-IsSafe {s = s} now small young safe =
    let few : length s.visible < 2147483648 = omega (arith, safe.ceiling) in
    record {
      covering =
          (effective_owned-Counts (λ op. matching op s.hidden) s.reservations s.visible now few
            safe.covering young).covering;
      reserved = λ i p.
          is_reserved-effective_owned s.hidden s.reservations s.visible now few safe.covering young
            i p (safe.reserved i p);
      ceiling = safe.ceiling;
    }

matching_zero :
    (op : Str) (i : Instance) (xs : List Instance)
    → In i xs
    → matching op xs ≡ 0
    → has_prefix i.name op ≡ false
matching_zero op i xs p z = elim (Bool-cases (has_prefix i.name op)) [
  | inl fits ↦ absurd (omega (arith, matching_pos op i xs p fits))
  | inr other ↦ other
]

-- A rejected order leaves the region safe.
pub reject-IsSafe :
    {max : ℕ} {s : Region} (op : Str) (r : OrderReservation)
    → matching op s.hidden ≡ 0
    → IsCovering (λ o. matching o s.visible + matching o s.hidden) (op, r)
    → IsSafe max s
    → IsSafe max (record s { reservations = delete op (put op r s.reservations) })
reject-IsSafe {s = s} op r fresh covers safe = record {
  covering =
      All-delete _ op (put op r s.reservations)
        (All-put _ op r s.reservations covers safe.covering);
  reserved = λ i p.
      is_reserved-delete op (put op r s.reservations) i (matching_zero op i s.hidden p fresh) (
        rw (is_reserved-put op r s.reservations i, safe.reserved i p)
          (or_true (has_prefix i.name op)));
  ceiling = safe.ceiling;
}
