-- ===== src/Metrics.antt =====
-- metrics.go: the counters and gauges that the operations write.
pub mod Page
use ens_provider.Prelude.{ℕ}

pub record Metrics : Type 0 where
  pub orders_success : ℕ
  pub orders_failure : ℕ
  pub orders_ambiguous : ℕ
  pub released : ℕ
  pub release_failures : ℕ
  pub reservations_expired : ℕ
  pub is_leader : ℕ
  pub routing_published : ℕ
  pub leadership_transitions : ℕ
  pub owned : ℕ
  pub unjoined : ℕ

abbrev pub zero_metrics : Metrics
zero_metrics = record {
  orders_success = 0;
  orders_failure = 0;
  orders_ambiguous = 0;
  released = 0;
  release_failures = 0;
  reservations_expired = 0;
  is_leader = 0;
  routing_published = 0;
  leadership_transitions = 0;
  owned = 0;
  unjoined = 0;
}

unfoldable pub set_gauges : Metrics → ℕ → ℕ → Metrics
set_gauges m owned unjoined = record m { owned = owned; unjoined = unjoined }
