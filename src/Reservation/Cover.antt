-- ===== src/Reservation/Cover.antt =====
-- Which instances carry the name of a reserved operation, and what looks at the inventory, writes
-- and removals do to them.
use ens_provider.Prelude.{
  ℕ, ◌+◌, ◌≤◌, ◌<◌, ◌≡◌, refl, inl, inr, Bool, true, false, ◌||◌, List, [], ◌∷◌, Str, str_eq,
  str_eq_iff, has_prefix, length, All, In, ℤ, pos_part, arith, if◌then◌else◌, Bool-cases,
}
use ens_provider.Inventory.{Instance}
use ens_provider.Reservation.{
  OrderReservation, Reservations, Fate, fulfilled, expired, held, reservation_fate, Reconciled,
  keep, put, delete, effective_owned,
}
use ens_provider.Reservation.Effective.{
  matching, IsAccounted, IsCovering, FateOk, reservation_fate_lem, reserved_sum,
}

-- The instance carries the name of some reserved operation.
pub is_reserved : Reservations → Instance → Bool
is_reserved [] i = false
is_reserved ((op, r) ∷ m) i = has_prefix i.name op || is_reserved m i

pub matching_pos :
    (op : Str) (i : Instance) (xs : List Instance)
    → In i xs
    → has_prefix i.name op ≡ true
    → 1 ≤ matching op xs
matching_pos op i [] h p = absurd h
matching_pos op i (x ∷ xs) (inl e) p = let q : has_prefix x.name op ≡ true = cc in ground arith
matching_pos op i (x ∷ xs) (inr h) p = omega (arith, matching_pos op i xs h p)

reserved_sum-add :
    (f g : Str → ℕ) (m : Reservations)
    → reserved_sum (λ op. f op + g op) m ≡ reserved_sum f m + reserved_sum g m
reserved_sum-add f g [] = refl
reserved_sum-add f g ((op, r) ∷ m) = omega (arith, reserved_sum-add f g m)

reserved_sum_one :
    (i : Instance) (m : Reservations)
    → is_reserved m i ≡ true
    → 1 ≤ reserved_sum (λ op. if has_prefix i.name op then 1 else 0) m
unfolding is_reserved
reserved_sum_one i [] h = cc
reserved_sum_one i ((op, r) ∷ m) h = ground (arith, reserved_sum_one i m)

-- Instances that are all reserved are no more than the matches of the reserved operations.
pub length-le-reserved_sum :
    (xs : List Instance) (m : Reservations)
    → ((i : Instance) → In i xs → is_reserved m i ≡ true)
    → length xs ≤ reserved_sum (λ op. matching op xs) m
length-le-reserved_sum [] m h = omega arith
length-le-reserved_sum (x ∷ xs) m h = omega (
  arith,
  reserved_sum-add (λ op. if has_prefix x.name op then 1 else 0) (λ op. matching op xs) m,
  reserved_sum_one x m (h x (inl refl)),
  length-le-reserved_sum xs m (λ i p. h i (inr p)),
)

is_reserved-keep :
    (i : Instance) (op : Str) (r : OrderReservation) (m : Reservations) (v h : ℕ) (f : Fate)
    (e : Reconciled)
    → FateOk v h r f
    → (has_prefix i.name op ≡ true → (v < pos_part r.expected) × (0 < h))
    → (is_reserved m i ≡ true → is_reserved e.kept i ≡ true)
    → is_reserved ((op, r) ∷ m) i ≡ true
    → is_reserved (keep op f e).kept i ≡ true
unfolding is_reserved
is_reserved-keep i op r m v n fulfilled e ok missing rest h = ground arith
is_reserved-keep i op r m v n expired e ok missing rest h = ground arith
is_reserved-keep i op r m v n (held r' out) e ok missing rest h = ground arith

-- A hidden instance that was reserved is reserved after a look at the inventory.
pub is_reserved-effective_owned :
    (hidden : List Instance) (m : Reservations) (owned : List Instance) (now : ℤ)
    → length owned < 2147483648
    → All (IsCovering (λ op. matching op owned + matching op hidden)) m
    → All (IsAccounted (λ op. matching op hidden) now) m
    → (i : Instance) → In i hidden
    → is_reserved m i ≡ true
    → is_reserved (effective_owned m owned now).kept i ≡ true
unfolding effective_owned
is_reserved-effective_owned hidden [] owned now small cov young i p h = h
is_reserved-effective_owned hidden ((op, r) ∷ m) owned now small cov young i p h =
    is_reserved-keep i op r m (matching op owned) (matching op hidden)
      (reservation_fate owned now op r) (effective_owned m owned now)
      (reservation_fate_lem (λ o. matching o hidden) owned now op r small cov.0.0 cov.0.1 young.0)
      (λ fits. (
        omega (arith, matching_pos op i hidden p fits),
        omega (arith, matching_pos op i hidden p fits),
      ))
      (is_reserved-effective_owned hidden m owned now small cov.1 young.1 i p) h

or_twice : (a b : Bool) → (a || b) ≡ (a || (a || b))
or_twice a b = ground arith

or_swap : (a b c : Bool) → (b || (a || c)) ≡ (a || (b || c))
or_swap a b c = ground arith

pub is_reserved-put :
    (op : Str) (r : OrderReservation) (m : Reservations) (i : Instance)
    → is_reserved (put op r m) i ≡ (has_prefix i.name op || is_reserved m i)
unfolding is_reserved put
is_reserved-put op r [] i = refl
is_reserved-put op r ((j, s) ∷ m) i = elim (Bool-cases (str_eq j op)) [
  | inl same ↦
      (let e : j ≡ op = (str_eq_iff j op).0 same in
        rw same (rw e (or_twice (has_prefix i.name op) (is_reserved m i))))
  | inr other ↦ rw other (
      rw (is_reserved-put op r m i)
        (or_swap (has_prefix i.name op) (has_prefix i.name j) (is_reserved m i)))
]

pub is_reserved-delete :
    (op : Str) (m : Reservations) (i : Instance)
    → has_prefix i.name op ≡ false
    → is_reserved m i ≡ true
    → is_reserved (delete op m) i ≡ true
unfolding is_reserved delete
is_reserved-delete op [] i h p = p
is_reserved-delete op ((j, s) ∷ m) i h p = elim (Bool-cases (str_eq j op)) [
  | inl same ↦
      (let e : j ≡ op = (str_eq_iff j op).0 same in
        let q : has_prefix i.name j ≡ false = rw e h in
        rw same (is_reserved-delete op m i h (rw q at p)))
  | inr other ↦ rw other (ground (arith, is_reserved-delete op m i h))
]

module _ (P : Str × OrderReservation → Type 0) where
  pub All-put :
      (op : Str) (r : OrderReservation) (m : Reservations)
      → P (op, r)
      → All P m
      → All P (put op r m)
  unfolding put
  All-put op r [] h a = (h, a)
  All-put op r ((j, s) ∷ m) h a = elim (Bool-cases (str_eq j op)) [
    | inl same ↦ rw same (h, a.1)
    | inr other ↦ rw other (a.0, All-put op r m h a.1)
  ]

  pub All-delete : (op : Str) (m : Reservations) → All P m → All P (delete op m)
  unfolding delete
  All-delete op [] a = a
  All-delete op ((j, s) ∷ m) a = elim (Bool-cases (str_eq j op)) [
    | inl same ↦ rw same (All-delete op m a.1)
    | inr other ↦ rw other (a.0, All-delete op m a.1)
  ]
