-- ===== src/Leader/Routing.antt =====
-- leader.go: the two retry loops on the pod's leader label. What the API answers to each attempt, and
-- whether the context ended in the wait after it, is a function of the attempt's number.
pub mod Attempts
use ens_provider.Prelude.{
  ℕ, zero, suc, ◌+◌, Bool, true, false, ◌||◌, Option, none, some, if◌then◌else◌,
}
use ens_provider.Config.{Config}

-- The class of an error of the Kubernetes API.
pub data ApiError : Type 0 where
  forbidden unauthorized invalid bad_request other_error : ApiError

unfoldable pub is_permanent_api_error : ApiError → Bool
is_permanent_api_error forbidden = true
is_permanent_api_error unauthorized = true
is_permanent_api_error invalid = true
is_permanent_api_error bad_request = true
is_permanent_api_error other_error = false

pub record Attempt : Type 0 where
  pub error : Option ApiError
  pub interrupted : Bool

abbrev pub label_retries : ℕ
label_retries = 10

-- What one attempt decides: the loop ends, or the next attempt follows.
pub data Verdict : Type 0 where
  succeeded permanent interrupted retry : Verdict

unfoldable pub verdict_of : Option ApiError → Bool → Verdict
unfolding is_permanent_api_error
verdict_of none stopped = succeeded
verdict_of (some e) stopped =
    if is_permanent_api_error e then permanent else if stopped then interrupted else retry

pub data Routing : Type 0 where
  published relinquished unwound : Routing

-- publishRouting, from the attempt `attempt` with `left` attempts left. It relinquishes by demoting.
unfoldable pub routing_loop : (ℕ → Attempt) → ℕ → ℕ → Routing
unfolding verdict_of
routing_loop api zero attempt = relinquished
routing_loop api (suc left) attempt =
    elim (verdict_of (api attempt).error (api attempt).interrupted) [
      | succeeded ↦ published
      | permanent ↦ relinquished
      | interrupted ↦ unwound
      | retry ↦ routing_loop api left (attempt + 1)
    ]

unfoldable pub publish_routing : (ℕ → Attempt) → Routing
unfolding routing_loop
publish_routing api = routing_loop api label_retries 1

pub data Purge : Type 0 where
  purged failed_permanently stopped exhausted : Purge

unfoldable pub purge_loop : (ℕ → Attempt) → ℕ → ℕ → Purge
unfolding verdict_of
purge_loop api zero attempt = exhausted
purge_loop api (suc left) attempt =
    elim (verdict_of (api attempt).error (api attempt).interrupted) [
      | succeeded ↦ purged
      | permanent ↦ failed_permanently
      | interrupted ↦ stopped
      | retry ↦ purge_loop api left (attempt + 1)
    ]

-- PurgeStaleLabel
unfoldable pub purge_stale_label : Config → (ℕ → Attempt) → Purge
unfolding purge_loop
purge_stale_label cfg api = if cfg.leader_elect then purge_loop api label_retries 1 else purged
