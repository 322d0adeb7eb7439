-- ===== src/Reservation/Effective.antt =====
-- What a look at the inventory does to the reservations, while none expires of which an instance is
-- still unlisted.
use ens_provider.Prelude.{
  ℕ, suc, ◌+◌, ◌≤◌, ◌<◌, ◌≡◌, ◌≢◌, ◌⊎◌, inl, inr, refl, ap, ◌∙◌, ◌-◌, List, [], ◌∷◌, Str,
  has_prefix, length, map, count_if, filter_by, length-filter_by, All, ℤ, pos, negsuc, pos_part,
  neg_part, ◌-ℤ◌, ◌<ℤ◌, +ℤ_nonneg, -ℤ_parts, eq_of_parts, int32, int32_pos, arith,
}
use ens_provider.Inventory.{Instance}
use ens_provider.Reservation.{
  OrderReservation, Reservations, Fate, fulfilled, expired, held, reservation_ttl, reservation_fate,
  instances_with_prefix, Reconciled, keep, effective_owned,
}

-- How many instances of a list carry an operation's name as their prefix.
abbrev pub matching : Str → List Instance → ℕ
matching op = count_if (λ i. has_prefix i.name op)

length-map : (xs : List Instance) → length (map (λ (i : Instance). i.id) xs) ≡ length xs
length-map [] = refl
length-map (x ∷ xs) = ap suc (length-map xs)

pub length-instances_with_prefix :
    (all : List Instance) (op : Str) → length (instances_with_prefix all op) ≡ matching op all
unfolding instances_with_prefix
length-instances_with_prefix all op =
    length-map (filter_by (λ i. has_prefix i.name op) all)
    ∙ length-filter_by (λ i. has_prefix i.name op) all

pub matching-le-length : (op : Str) (xs : List Instance) → matching op xs ≤ length xs
matching-le-length op [] = omega arith
matching-le-length op (x ∷ xs) = ground (arith, matching-le-length op xs)

-- A reservation that was made less than the time to live ago.
abbrev pub IsYoung : ℤ → Str × OrderReservation → Type 0
IsYoung now (op, r) = now -ℤ r.created <ℤ reservation_ttl

-- A reservation that is young, or of which nothing exists unlisted.
abbrev pub IsAccounted : (Str → ℕ) → ℤ → Str × OrderReservation → Type 0
IsAccounted hidden now (op, r) = IsYoung now (op, r) ⊎ (hidden op ≡ 0)

-- The number reserved is not negative and fits; `bound` instances of the operation exist at most.
abbrev pub IsCovering : (Str → ℕ) → Str × OrderReservation → Type 0
IsCovering existing (op, r) =
    (neg_part r.expected ≡ 0)
    × (pos_part r.expected < 2147483648)
    × (existing op ≤ pos_part r.expected)

-- A fulfilled reservation has all its instances in the inventory, an expired one has no instance
-- unlisted, and a held one counts exactly those that are missing.
abbrev pub FateOk : ℕ → ℕ → OrderReservation → Fate → Type 0
FateOk v h r fulfilled = pos_part r.expected ≤ v
FateOk v h r expired = h ≡ 0
FateOk v h r (held r' out) =
    (r'.expected ≡ r.expected)
    × (r'.created ≡ r.created)
    × (neg_part out ≡ 0)
    × (pos_part out + v ≡ pos_part r.expected)

int32_sub :
    (a : ℤ) (v : ℕ)
    → neg_part a ≡ 0
    → pos_part a < 2147483648
    → v ≤ pos_part a
    → (neg_part (int32 (a -ℤ pos v)) ≡ 0) × (pos_part (int32 (a -ℤ pos v)) + v ≡ pos_part a)
int32_sub (negsuc n) v p q r = absurd (omega arith)
int32_sub (pos n) v p q r =
    let e : (pos n -ℤ pos v) ≡ pos (n - v) =
      eq_of_parts _ _ (omega (arith, -ℤ_parts (pos n) (pos v))) in
    rw e (rw (int32_pos (n - v) (omega arith)) (refl, omega arith))

pub reservation_fate_lem :
    (hidden : Str → ℕ) (owned : List Instance) (now : ℤ) (op : Str) (r : OrderReservation)
    → length owned < 2147483648
    → neg_part r.expected ≡ 0
    → pos_part r.expected < 2147483648
    → IsAccounted hidden now (op, r)
    → FateOk (matching op owned) (hidden op) r (reservation_fate owned now op r)
unfolding reservation_fate
reservation_fate_lem hidden owned now op r small nonneg fits (inl young) =
    rw (length-instances_with_prefix owned op) (
      rw (int32_pos (matching op owned) (omega (arith, matching-le-length op owned)))
        (ground (arith, int32_sub r.expected (matching op owned))))
reservation_fate_lem hidden owned now op r small nonneg fits (inr none_hidden) =
    rw (length-instances_with_prefix owned op) (
      rw (int32_pos (matching op owned) (omega (arith, matching-le-length op owned)))
        (ground (arith, int32_sub r.expected (matching op owned))))

young-fate :
    (owned : List Instance) (now : ℤ) (op : Str) (r : OrderReservation)
    → IsYoung now (op, r)
    → reservation_fate owned now op r ≢ expired
unfolding reservation_fate
young-fate owned now op r young = ground arith

-- The sum of `hidden` over the operations that are reserved.
abbrev pub reserved_sum : (Str → ℕ) → Reservations → ℕ
reserved_sum hidden [] = 0
reserved_sum hidden ((op, r) ∷ m) = hidden op + reserved_sum hidden m

-- The names of the operations that are reserved.
abbrev pub operations : Reservations → List Str
operations = map (λ p. p.0)

-- After a look at the inventory `owned`, for any number `hidden` of instances of each operation that
-- exist and are not listed: the reservations still cover what exists and the same instances, nothing
-- has expired where all were young, and the count is no less than what is listed and what is hidden
-- together.
pub record Counts (hidden : Str → ℕ) (m : Reservations) (owned : List Instance) (now : ℤ)
    (e : Reconciled) : Type 0 where
  pub covering : All (IsCovering (λ op. matching op owned + hidden op)) e.kept
  pub same_hidden : reserved_sum hidden e.kept ≡ reserved_sum hidden m
  pub nonneg : neg_part e.count ≡ 0
  pub enough : length owned + reserved_sum hidden m ≤ pos_part e.count
  pub no_expiry : All (IsYoung now) m → e.expired_count ≡ 0

Counts-keep :
    (hidden : Str → ℕ) (m : Reservations) (owned : List Instance) (now : ℤ) (op : Str)
    (r : OrderReservation) (f : Fate) (e : Reconciled)
    → IsCovering (λ o. matching o owned + hidden o) (op, r)
    → FateOk (matching op owned) (hidden op) r f
    → (IsYoung now (op, r) → f ≢ expired)
    → Counts hidden m owned now e
    → Counts hidden ((op, r) ∷ m) owned now (keep op f e)
Counts-keep hidden m owned now op r fulfilled e cov done kept c = record {
  covering = c.covering;
  same_hidden = omega arith;
  nonneg = c.nonneg;
  enough = omega arith;
  no_expiry = λ y. c.no_expiry y.1;
}
Counts-keep hidden m owned now op r expired e cov done kept c = record {
  covering = c.covering;
  same_hidden = omega arith;
  nonneg = c.nonneg;
  enough = omega arith;
  no_expiry = λ y. absurd (kept y.0 refl);
}
Counts-keep hidden m owned now op r (held r' out) e cov done kept c = record {
  covering = (ground arith, c.covering);
  same_hidden = omega arith;
  nonneg = (+ℤ_nonneg e.count out c.nonneg done.2).0;
  enough = omega (arith, (+ℤ_nonneg e.count out c.nonneg done.2).1);
  no_expiry = λ y. c.no_expiry y.1;
}

-- A look at the inventory keeps the reservations sound while each is young or has no instance
-- unlisted: for any number of instances of each operation that exist unlisted, covered by what was
-- ordered, the reservations kept still cover what exists, the unlisted instances stay reserved, and
-- the effective count is at least what is listed plus what is unlisted and reserved; and where all
-- are young, nothing expires. Fewer than 2^31 instances are listed.
pub effective_owned-Counts :
    (hidden : Str → ℕ) (m : Reservations) (owned : List Instance) (now : ℤ)
    → length owned < 2147483648
    → All (IsCovering (λ op. matching op owned + hidden op)) m
    → All (IsAccounted hidden now) m
    → Counts hidden m owned now (effective_owned m owned now)
unfolding effective_owned
effective_owned-Counts hidden [] owned now small cov young = record {
  covering = tt;
  same_hidden = refl;
  nonneg = refl;
  enough = omega arith;
  no_expiry = λ y. refl;
}
effective_owned-Counts hidden ((op, r) ∷ m) owned now small cov young =
    Counts-keep hidden m owned now op r (reservation_fate owned now op r)
      (effective_owned m owned now) cov.0
      (reservation_fate_lem hidden owned now op r small cov.0.0 cov.0.1 young.0)
      (young-fate owned now op r) (effective_owned-Counts hidden m owned now small cov.1 young.1)
