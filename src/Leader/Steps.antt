-- ===== src/Leader/Steps.antt =====
-- The interleavings of leader.go: every sequence of its atomic steps, and what holds in every state.
pub mod Invariant
pub mod Admission
use ens_provider.Prelude.{ℕ, ◌+◌, ◌≡◌, Bool, true, false, Option, none, some, List}
use ens_provider.Config.{Config}
use ens_provider.Metrics.{Metrics}
use ens_provider.Leader.{
  Leadership, set_k8s_ok, begin_term, cancel_term, end_term_locked, close_done, stop_health,
}
use ens_provider.Leader.Stop.{demote_locked, shutdown_locked}

abbrev pub one_if : Bool → ℕ
one_if true = 1
one_if false = 0

abbrev pub one_if_some : Option (Option ℕ) → ℕ
one_if_some none = 0
one_if_some (some t) = 1

-- The routing gauge, which the label writes set.
abbrev pub set_routing : ℕ → Leadership → Leadership
set_routing n s = record s { metrics = record s.metrics { routing_published = n } }

-- A step, and how many demotions or shutdowns took the lifecycle over in it.
pub data Step (s t : Leadership) (owners : ℕ) : Type 0 where
  reachable : (ok : Bool) → t ≡ set_k8s_ok ok s → owners ≡ 0 → Step s t owners
  begins : t ≡ (begin_term s).0 → owners ≡ 0 → Step s t owners
  routed : (n : ℕ) → t ≡ set_routing n s → owners ≡ 0 → Step s t owners
  cancels : (h : ℕ) → t ≡ cancel_term h s → owners ≡ 0 → Step s t owners
  ends : (h : ℕ) → t ≡ end_term_locked h s → owners ≡ 0 → Step s t owners
  closes : (h : ℕ) → t ≡ close_done h s → owners ≡ 0 → Step s t owners
  demotes : t ≡ (demote_locked s).0 → owners ≡ one_if (demote_locked s).1 → Step s t owners
  stops : t ≡ stop_health s → owners ≡ 0 → Step s t owners
  shuts : t ≡ (shutdown_locked s).0 → owners ≡ one_if_some (shutdown_locked s).1 → Step s t owners

-- Any number of steps, and how many times the lifecycle was taken over.
pub data Run (s : Leadership) : Leadership → ℕ → Type 0 where
  start : Run s s 0
  step : {t u : Leadership} {m n : ℕ} → Run s t m → Step t u n → Run s u (m + n)
