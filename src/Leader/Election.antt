-- ===== src/Leader/Election.antt =====
-- leader.go: the start of the election. leaderelection.NewLeaderElector of client-go is the argument
-- `new_elector`: the error that it returns for a configuration, if any.
pub mod Starts
use ens_provider.Prelude.{Bool, true, false, Option, none, some, Str, codes, if◌then◌else◌, ℤ}
use ens_provider.Config.{Config}

-- leaderelection.LeaderElectionConfig with its lock.
pub record ElectionConfig : Type 0 where
  pub namespace : Str
  pub lease : Str
  pub identity : Str
  pub lease_duration : ℤ
  pub renew_deadline : ℤ
  pub retry_period : ℤ
  pub release_on_cancel : Bool

abbrev pub lease_name : Str
lease_name = codes "ens-provider-leader"

unfoldable pub election_config : Config → ElectionConfig
election_config cfg = record {
  namespace = cfg.pod_namespace;
  lease = lease_name;
  identity = cfg.pod_name;
  lease_duration = cfg.leader_lease_duration;
  renew_deadline = cfg.leader_renew_deadline;
  retry_period = cfg.leader_retry_period;
  release_on_cancel = false;
}

-- What StartElection does: it closes `runDone` and `cbDone`, fails, or runs the elector.
pub data Election : Type 0 where
  disabled : Election
  not_started : Str → Election
  runs : ElectionConfig → Election

unfoldable pub start_election : (ElectionConfig → Option Str) → Config → Election
unfolding election_config
start_election new_elector cfg =
    if cfg.leader_elect
    then (elim (new_elector (election_config cfg)) [
      | some e ↦ not_started e
      | none ↦ runs (election_config cfg)
    ])
    else disabled
