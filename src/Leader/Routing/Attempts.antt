-- ===== src/Leader/Routing/Attempts.antt =====
-- The retries of the leader label: how they end, and after how many attempts.
use ens_provider.Prelude.{
  ℕ, zero, suc, ◌+◌, ◌≤◌, ◌<◌, ◌≡◌, refl, subst, ◌⊎◌, inl, inr, Bool, true, false, Option, none,
  some, arith,
}
use ens_provider.Leader.Routing.{
  ApiError, forbidden, unauthorized, invalid, bad_request, other_error, is_permanent_api_error,
  Attempt, Verdict, succeeded, permanent, interrupted, retry, verdict_of, Routing, published,
  relinquished, unwound, routing_loop, publish_routing,
}

-- The errors that no further attempt can mend.
abbrev pub IsPermanent : ApiError → Type 0
IsPermanent e = (e ≡ forbidden) ⊎ ((e ≡ unauthorized) ⊎ ((e ≡ invalid) ⊎ (e ≡ bad_request)))

abbrev pub IsPublished : (ℕ → Attempt) → ℕ → Type 0
IsPublished api k = (api k).error ≡ none

-- The attempt failed for good.
abbrev pub IsHopeless : (ℕ → Attempt) → ℕ → Type 0
IsHopeless api k = (e : ApiError) × ((api k).error ≡ some e) × IsPermanent e

-- It failed otherwise, and the term's context ended in the wait after it.
abbrev pub IsCutOff : (ℕ → Attempt) → ℕ → Type 0
IsCutOff api k = ((api k).error ≡ some other_error) × ((api k).interrupted ≡ true)

-- It failed otherwise, and the term went on.
abbrev pub IsTransient : (ℕ → Attempt) → ℕ → Type 0
IsTransient api k = ((api k).error ≡ some other_error) × ((api k).interrupted ≡ false)

abbrev verdict : (ℕ → Attempt) → ℕ → Verdict
verdict api k = verdict_of (api k).error (api k).interrupted

published_lem : (o : Option ApiError) (stopped : Bool) → verdict_of o stopped ≡ succeeded → o ≡ none
unfolding verdict_of is_permanent_api_error
published_lem none stopped h = refl
published_lem (some e) stopped h = ground arith

hopeless_lem :
    (o : Option ApiError) (stopped : Bool)
    → verdict_of o stopped ≡ permanent
    → (e : ApiError) × (o ≡ some e) × IsPermanent e
unfolding verdict_of is_permanent_api_error
hopeless_lem none stopped h = cc
hopeless_lem (some forbidden) stopped h = (forbidden, refl, inl refl)
hopeless_lem (some unauthorized) stopped h = (unauthorized, refl, inr (inl refl))
hopeless_lem (some invalid) stopped h = (invalid, refl, inr (inr (inl refl)))
hopeless_lem (some bad_request) stopped h = (bad_request, refl, inr (inr (inr refl)))
hopeless_lem (some other_error) stopped h = ground arith

cut_off_lem :
    (o : Option ApiError) (stopped : Bool)
    → verdict_of o stopped ≡ interrupted
    → (o ≡ some other_error) × (stopped ≡ true)
unfolding verdict_of is_permanent_api_error
cut_off_lem o stopped h = ground arith

transient_lem :
    (o : Option ApiError) (stopped : Bool)
    → verdict_of o stopped ≡ retry
    → (o ≡ some other_error) × (stopped ≡ false)
unfolding verdict_of is_permanent_api_error
transient_lem o stopped h = ground arith

-- Attempt `k` of the loop from `from` was reached, every earlier one being retried.
abbrev pub IsReached : (ℕ → Attempt) → ℕ → ℕ → ℕ → Type 0
IsReached api from left k =
    (from ≤ k) × (k < from + left) × ((j : ℕ) → from ≤ j → j < k → IsTransient api j)

-- How the loop ended.
pub data Ending (api : ℕ → Attempt) (from left : ℕ) : Routing → Type 0 where
  by_success :
      (k : ℕ) → IsReached api from left k → IsPublished api k → Ending api from left published
  by_error :
      (k : ℕ) → IsReached api from left k → IsHopeless api k → Ending api from left relinquished
  by_context : (k : ℕ) → IsReached api from left k → IsCutOff api k → Ending api from left unwound
  by_exhaustion :
      ((j : ℕ) → from ≤ j → j < from + left → IsTransient api j) → Ending api from left relinquished

le_cases : (m n : ℕ) → m ≤ n → (m ≡ n) ⊎ (m + 1 ≤ n)
le_cases m n h = grind arith

IsReached-here : (api : ℕ → Attempt) (from left : ℕ) → IsReached api from (suc left) from
IsReached-here api from left = (omega arith, omega arith, λ j a b. absurd (omega arith))

from_retry :
    (api : ℕ → Attempt) (from j : ℕ)
    → IsTransient api from
    → (from + 1 ≤ j → IsTransient api j)
    → from ≤ j
    → IsTransient api j
from_retry api from j first later a = elim (le_cases from j a) [
  | inl e ↦ subst (IsTransient api) e first
  | inr b ↦ later b
]

IsReached-next :
    (api : ℕ → Attempt) (from left k : ℕ)
    → IsTransient api from
    → IsReached api (from + 1) left k
    → IsReached api from (suc left) k
IsReached-next api from left k first (a, b, c) =
    (omega arith, omega arith, λ j d e. from_retry api from j first (λ f. c j f e) d)

Ending-next :
    (api : ℕ → Attempt) (from left : ℕ) (r : Routing)
    → IsTransient api from
    → Ending api (from + 1) left r
    → Ending api from (suc left) r
Ending-next api from left r first (by_success k h v) =
    by_success k (IsReached-next api from left k first h) v
Ending-next api from left r first (by_error k h v) =
    by_error k (IsReached-next api from left k first h) v
Ending-next api from left r first (by_context k h v) =
    by_context k (IsReached-next api from left k first h) v
Ending-next api from left r first (by_exhaustion h) =
    by_exhaustion (λ j a b. from_retry api from j first (λ c. h j c (omega arith)) a)

routing_loop-Ending :
    (api : ℕ → Attempt) (left from : ℕ) → Ending api from left (routing_loop api left from)
unfolding routing_loop
routing_loop-Ending api zero from = by_exhaustion (λ j a b. absurd (omega arith))
routing_loop-Ending api (suc left) from =
    go (verdict api from) (routing_loop-Ending api left (from + 1)) refl
  where
    go :
        (v : Verdict)
        → Ending api (from + 1) left (routing_loop api left (from + 1))
        → verdict api from ≡ v
        → Ending api from (suc left) (elim v [
          | succeeded ↦ published
          | permanent ↦ relinquished
          | interrupted ↦ unwound
          | retry ↦ routing_loop api left (from + 1)
        ])
    go succeeded later p = by_success from (IsReached-here api from left) (published_lem _ _ p)
    go permanent later p = by_error from (IsReached-here api from left) (hopeless_lem _ _ p)
    go interrupted later p = by_context from (IsReached-here api from left) (cut_off_lem _ _ p)
    go retry later p = Ending-next api from left _ (transient_lem _ _ p) later

-- publishRouting ends in one of four ways, after ten attempts at most. The label is published at the
-- first attempt that succeeds, every earlier one having failed for a reason that may pass while the
-- term went on. The leadership is given up at the first error that cannot pass (Forbidden,
-- Unauthorized, Invalid or BadRequest), or when all ten attempts failed. It ends without giving it up where the term's context ended in a wait.
pub publish_routing-Ending : (api : ℕ → Attempt) → Ending api 1 10 (publish_routing api)
unfolding publish_routing
publish_routing-Ending api = routing_loop-Ending api 10 1
