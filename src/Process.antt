-- ===== src/Process.antt =====
-- main.go: the start of the process, the serving and its end. What the parts answer while the process
-- starts is a record; the log and the goroutines are left out, and each call that main makes of a part
-- is a stage.
pub mod Startup
pub mod Background
pub mod Tee
use ens_provider.Prelude.{
  ℕ, Bool, true, false, ◌&&◌, not, Option, none, some, List, [], ◌∷◌, Str, codes, str_eq,
  if◌then◌else◌,
}
use ens_provider.Config.{Config}
use ens_provider.Config.Load.{Loaded, loaded, not_loaded, LoadError}
use ens_provider.Config.Environment.{Reading, value, fatal}
use ens_provider.Leader.{Leadership, set_k8s_ok, stop_health}
use ens_provider.Leader.Routing.{
  Attempt, Purge, purged, failed_permanently, stopped, exhausted, purge_stale_label,
}
use ens_provider.Leader.Election.{
  ElectionConfig, Election, disabled, not_started, runs, start_election,
}

-- What main does, in order. The health service is set to NOT_SERVING before `probed`.
pub data Stage : Type 0 where
  probed : Bool → Stage
  label_purged : Stage
  background_started : Stage
  metrics_served : Stage
  listening : Stage
  readiness_started : Stage
  election_started : Stage
  serving : Stage

-- What the process exits with before it serves.
pub data Failure : Type 0 where
  bad_variable : Str → Failure
  bad_config : LoadError → Failure
  no_cloud : Str → Failure
  no_kube : Str → Failure
  stale_label : Purge → Failure
  no_listener : Str → Failure
  no_election : Str → Failure

-- What the parts answer.
pub record Boot : Type 0 where
  pub config : Reading Loaded
  pub cloud : Option Str
  pub kube : Option Str
  pub inventory_read : Bool
  pub label_api : ℕ → Attempt
  pub listener : Option Str
  pub new_elector : ElectionConfig → Option Str

abbrev pub Started : Type 0
Started = List Stage × Option Failure

abbrev pub after : Stage → Started → Started
after s (stages, f) = (s ∷ stages, f)

abbrev pub unless_failed : Option Str → (Str → Failure) → Started → Started
unless_failed none f later = later
unless_failed (some e) f later = ([], some (f e))

unfoldable pub start_or_fail : Election → Started
start_or_fail disabled = (election_started ∷ serving ∷ [], none)
start_or_fail (runs e) = (election_started ∷ serving ∷ [], none)
start_or_fail (not_started e) = ([], some (no_election e))

-- From the listener on.
unfoldable pub open_listener : Boot → Config → Started
unfolding start_or_fail start_election
open_listener b cfg = after metrics_served (
    unless_failed b.listener no_listener (
      after listening (after readiness_started (start_or_fail (start_election b.new_elector cfg)))))

-- From the purge of the stale label on. Without an election the background work runs with the process.
unfoldable pub after_purge : Boot → Config → Purge → Started
unfolding open_listener
after_purge b cfg purged = after label_purged (
    if cfg.leader_elect
    then open_listener b cfg
    else after background_started (open_listener b cfg))
after_purge b cfg failed_permanently = ([], some (stale_label failed_permanently))
after_purge b cfg stopped = ([], some (stale_label stopped))
after_purge b cfg exhausted = ([], some (stale_label exhausted))

unfoldable pub start_parts : Boot → Config → Started
unfolding after_purge purge_stale_label
start_parts b cfg = unless_failed b.cloud no_cloud (
    unless_failed b.kube no_kube
      (after (probed b.inventory_read) (after_purge b cfg (purge_stale_label cfg b.label_api))))

abbrev with_loaded : Boot → Loaded → Started
unfolding start_parts
with_loaded b (not_loaded e) = ([], some (bad_config e))
with_loaded b (loaded cfg) = start_parts b cfg

-- main, up to runServer.
unfoldable pub startup : Boot → Started
unfolding with_loaded start_parts
startup b = elim b.config [ fatal key ↦ ([], some (bad_variable key)) | value l ↦ with_loaded b l ]

-- The status of the default health service, the report that teeSetter has passed on to this service
-- alone, and the leadership. The health server is that of the leadership.
pub record Teed : Type 0 where
  pub primary : Bool
  pub pending : Option Bool
  pub lead : Leadership

-- teeSetter's first call. A health server that was shut down ignores it.
unfoldable pub tee_primary : Bool → Teed → Teed
tee_primary ok s = record s {
  primary = if s.lead.health_stopped then s.primary else ok;
  pending = some ok;
}

-- Its second.
unfoldable pub tee_lead : Teed → Teed
unfolding set_k8s_ok
tee_lead s = elim s.pending [
  | none ↦ s
  | some ok ↦ record s { pending = none; lead = set_k8s_ok ok s.lead }
]

-- Shutdown of the health server.
unfoldable pub stop_services : Teed → Teed
unfolding stop_health
stop_services s = record s { primary = false; lead = stop_health s.lead }

-- panicRecover: what a handler did, and what the interceptor returns.
pub data Handled (A : Type 0) : Type 0 where
  returned : A → Handled A
  panicked : Handled A

unfoldable pub panic_recover : {A : Type 0} → Handled A → Option A
panic_recover (returned a) = some a
panic_recover panicked = none

-- How Serve ended.
pub data ServeEnd : Type 0 where
  ended : ServeEnd
  server_stopped : ServeEnd
  serve_failed : Str → ServeEnd

abbrev serve_error : ServeEnd → Option Str
serve_error ended = none
serve_error server_stopped = some (codes "grpc: the server has been stopped")
serve_error (serve_failed e) = some e

abbrev real_error : ServeEnd → Option Str
real_error ended = none
real_error server_stopped = none
real_error (serve_failed e) = some e

-- runServer, given whether the shutdown was signalled when Serve ended: its error, and whether it
-- joined the shutdown first.
unfoldable pub run_server : Bool → ServeEnd → Option Str × Bool
run_server signalled e = if signalled then (real_error e, true) else (serve_error e, false)
