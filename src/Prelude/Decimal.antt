-- ===== src/Prelude/Decimal.antt =====
-- Decimal texts: what `%d` writes of a natural number, and what package strconv reads.
use Prim.Native.Nat.{ℕ, zero, suc, ◌+◌, ◌-◌, ◌*◌, ◌/◌, ◌%◌, ◌<◌}
use mathlib.Core.Path.{◌≡◌, refl, ap, ◌∙◌}
use mathlib.Core.Logic.{inl, inr}
use mathlib.Core.Bool.{true, false, ◌&&◌}
use mathlib.Core.List.{[], ◌∷◌}
use mathlib.Core.Option.{Option, none, some}
use native.Mathlib.Omega.{arith}
use ens_provider.Prelude.Tests.{ltb, leb, if◌then◌else◌, Bool-cases}
use ens_provider.Prelude.Lists.{All}
use ens_provider.Prelude.Text.{Str, is_empty}

-- On fuel: the digits of `n` before `rest`.
digits : ℕ → ℕ → Str → Str
digits zero n rest = rest
digits (suc fuel) n rest =
    let more = digits fuel (n / 10) ((48 + n % 10) ∷ rest) in
    if ltb n 10 then (48 + n) ∷ rest else more

unfoldable pub decimal : ℕ → Str
unfolding digits
decimal n = digits (suc n) n []

-- The value of a text of digits, after those already read.
unfoldable pub digits_value : ℕ → Str → Option ℕ
digits_value n [] = some n
digits_value n (c ∷ s) =
    let later = digits_value (n * 10 + (c - 48)) s in if leb 48 c && leb c 57 then later else none

unfoldable pub unsigned_value : Str → Option ℕ
unfolding digits_value
unsigned_value s = if is_empty s then none else digits_value 0 s

-- One digit more.
digits_value-digit :
    (a d n : ℕ) (rest : Str)
    → d < 10
    → a * 10 + d ≡ n
    → digits_value a ((48 + d) ∷ rest) ≡ digits_value n rest
unfolding digits_value
digits_value-digit a d n rest h e =
    let value : a * 10 + (48 + d - 48) ≡ n = omega arith in
    let low : leb 48 (48 + d) ≡ true = ground arith in
    let high : leb (48 + d) 57 ≡ true = ground arith in
    rw (low, high) (ap (λ k. digits_value k rest) value)

digits_value-digits :
    (fuel n : ℕ) (rest : Str) → n < fuel → digits_value 0 (digits fuel n rest) ≡ digits_value n rest
unfolding digits
digits_value-digits zero n rest h = elim h [ ]
digits_value-digits (suc fuel) n rest h = elim (Bool-cases (ltb n 10)) [
  | inl p ↦ rw p (digits_value-digit 0 n n rest (ground arith) (omega arith))
  | inr p ↦ rw p (
      digits_value-digits fuel (n / 10) ((48 + n % 10) ∷ rest) (ground arith)
      ∙ digits_value-digit (n / 10) (n % 10) n rest (omega arith) (omega arith))
]

digits-full : (fuel n : ℕ) (rest : Str) → n < fuel → is_empty (digits fuel n rest) ≡ false
unfolding digits is_empty
digits-full zero n rest h = elim h [ ]
digits-full (suc fuel) n rest h = elim (Bool-cases (ltb n 10)) [
  | inl p ↦ rw p refl
  | inr p ↦ rw p (digits-full fuel (n / 10) ((48 + n % 10) ∷ rest) (ground arith))
]

digits-All :
    (fuel n : ℕ) (rest : Str)
    → All (λ c. leb 48 c ≡ true) rest
    → All (λ c. leb 48 c ≡ true) (digits fuel n rest)
unfolding digits
digits-All zero n rest h = h
digits-All (suc fuel) n rest h = elim (Bool-cases (ltb n 10)) [
  | inl p ↦ rw p (ground arith, h)
  | inr p ↦ rw p (digits-All fuel (n / 10) ((48 + n % 10) ∷ rest) (ground arith, h))
]

no_more : (n : ℕ) → digits_value n [] ≡ some n
unfolding digits_value
no_more n = refl

-- What is written reads back.
pub unsigned_value-decimal : (n : ℕ) → unsigned_value (decimal n) ≡ some n
unfolding unsigned_value decimal
unsigned_value-decimal n =
    rw (digits-full (suc n) n [] (omega arith))
      (digits_value-digits (suc n) n [] (omega arith) ∙ no_more n)

pub decimal-All : (n : ℕ) → All (λ c. leb 48 c ≡ true) (decimal n)
unfolding decimal
decimal-All n = digits-All (suc n) n [] tt
