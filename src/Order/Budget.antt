-- ===== src/Order/Budget.antt =====
-- The deadline budget of an order (`orderBudget`).
use ens_provider.Prelude.{
  ℕ, ◌+◌, ◌*◌, ◌/◌, ◌≤◌, ◌≡◌, refl, ◌⊎◌, inl, inr, Option, none, some, ℤ, pos, negsuc, ◌-ℤ◌, ◌≤ℤ◌,
  ◌<ℤ◌, arith, leb_ℤ, Bool-cases, Str,
}
use ens_provider.Order.{
  Context, RuntimeOptions, granted, refused, order_budget, budget_of_deadline, half_second,
  order_read_timeout_ms, OrderError, milliseconds,
}

-- What a granted budget may be: the default where there is no deadline; else the milliseconds left,
-- rounded down, of more than half a second.
abbrev pub IsBudget : Option ℤ → ℤ → ℤ → Type 0
IsBudget none now ms = ms ≡ order_read_timeout_ms
IsBudget (some deadline) now ms =
    (n : ℕ) × (ms ≡ pos n)
    × (500 ≤ n)
    × (pos (n * 1_000_000) ≤ℤ deadline -ℤ now)
    × (deadline -ℤ now <ℤ pos ((n + 1) * 1_000_000))
    × (half_second <ℤ deadline -ℤ now)

milliseconds_lem :
    (rem : ℤ)
    → half_second <ℤ rem
    → (n : ℕ) × (milliseconds rem ≡ pos n)
      × (500 ≤ n)
      × (pos (n * 1_000_000) ≤ℤ rem)
      × (rem <ℤ pos ((n + 1) * 1_000_000))
      × (half_second <ℤ rem)
unfolding milliseconds
milliseconds_lem (pos n) h = (n / 1_000_000, refl, omega arith, omega arith, omega arith, h)
milliseconds_lem (negsuc n) h = absurd (omega arith)

budget_of_deadline-granted :
    (dl : Option ℤ) (now : ℤ) (rt : RuntimeOptions)
    → budget_of_deadline dl now ≡ granted rt
    → IsBudget dl now rt.read_timeout
unfolding budget_of_deadline
budget_of_deadline-granted none now rt e = ground arith
budget_of_deadline-granted (some d) now rt e = elim (Bool-cases (leb_ℤ (d -ℤ now) half_second)) [
  | inl short ↦ cc (e, short)
  | inr enough ↦
      (let same : rt.read_timeout ≡ milliseconds (d -ℤ now) = ground arith in
        rw same (milliseconds_lem (d -ℤ now) (ground arith)))
]

budget_of_deadline-refused :
    (dl : Option ℤ) (now : ℤ) (x : OrderError)
    → budget_of_deadline dl now ≡ refused x
    → (d : ℤ) × (dl ≡ some d) × (d -ℤ now ≤ℤ half_second)
unfolding budget_of_deadline
budget_of_deadline-refused none now x e = cc
budget_of_deadline-refused (some d) now x e = (d, refl, ground arith)

-- Every granted budget is of a live context, and is the default of 60 s exactly where there is no
-- deadline; with a deadline it is what is left of it, rounded down to a millisecond, more than half a
-- second being left. Every refusal is of a dead context, or of a deadline with half a second left at
-- most.
pub order_budget-exact :
    (ctx : Context) (now : ℤ)
    → ((rt : RuntimeOptions)
        → order_budget ctx now ≡ granted rt
        → (ctx.error ≡ none) × IsBudget ctx.deadline now rt.read_timeout)
      × ((x : OrderError)
          → order_budget ctx now ≡ refused x
          → ((e : Str) × (ctx.error ≡ some e))
            ⊎ ((d : ℤ) × (ctx.deadline ≡ some d) × (d -ℤ now ≤ℤ half_second)))
unfolding order_budget
order_budget-exact ctx now = go ctx.error refl
  where
    go :
        (o : Option Str)
        → ctx.error ≡ o
        → ((rt : RuntimeOptions)
            → order_budget ctx now ≡ granted rt
            → (ctx.error ≡ none) × IsBudget ctx.deadline now rt.read_timeout)
          × ((x : OrderError)
              → order_budget ctx now ≡ refused x
              → ((e : Str) × (ctx.error ≡ some e))
                ⊎ ((d : ℤ) × (ctx.deadline ≡ some d) × (d -ℤ now ≤ℤ half_second)))
    go none p = (
      λ rt e. (p, budget_of_deadline-granted ctx.deadline now rt (rw p at e)),
      λ x e. inr (budget_of_deadline-refused ctx.deadline now x (rw p at e)),
    )
    go (some e') p = (λ rt e. cc (rw p at e), λ x e. inl (e', p))
