-- ===== src/Examples/Loading.antt =====
-- Examples of an environment that loads, of its background loop and of its election.
use ens_provider.Prelude.{
  ℕ, ◌≡◌, ◌≢◌, ◌↔◌, ◌⊎◌, ◌+◌, ◌-◌, refl, inl, inr, Bool, true, false, not, Option, none, some, List,
  [], ◌∷◌, ◌++◌, Str, codes, is_empty, str_eq, ℤ, pos, ◌<ℤ◌, ◌≤ℤ◌, ◌+ℤ◌, arith, if◌then◌else◌, In,
}
use ens_provider.Config.{Config, Group}
use ens_provider.Config.Validate.{Validators}
use ens_provider.Config.Load.{loaded, load_config, with_defaults}
use ens_provider.Config.Environment.{value, load_environment, settings_of, Timings}
use ens_provider.Inventory.{ok}
use ens_provider.Leader.Election.{ElectionConfig, start_election, lease_name, runs, disabled}
use ens_provider.Leader.Election.Starts.{start_election-starts}
use ens_provider.Metrics.{zero_metrics}
use ens_provider.Process.Background.{PassInput, background_loop}
use ens_provider.Process.Background.Ticker.{reconciling, FitsSeconds, load_config-ticker}
use ens_provider.Server.{reply}
use ens_provider.Server.TemplateNode.{node_group_template_node_info, template_node-served}
use ens_provider.Template.{TemplateNode}
use ens_provider.Userdata.{breaks_quoting}
use ens_provider.Examples.Data.{cfg, web, batch, env}
use ens_provider.Examples.Joining.{quoteless, parse_duration, loaded_cfg, load_quoteless}

abbrev one_pass : PassInput
one_pass = record {
  to_reconcile = ok [];
  owned_to_reconcile = ok [];
  patch_api = λ log id. true;
  to_join = ok [];
  to_key = ok [];
  owned = ok [];
  janitor_time = pos 0;
  to_clean = ok [];
  cleanup_time = pos 0;
  environment = env;
}

load_config-ticker_example :
    (load_config quoteless
        (λ a b. true)
        parse_duration
        (reconciling (pos 0) cfg)
        (codes "1h")
        (web ∷ batch ∷ [])
      ≡ loaded (reconciling (pos 0) loaded_cfg))
    × (FitsSeconds (pos 0)
        → (background_loop parse_duration (reconciling (pos 0) loaded_cfg) one_pass [] zero_metrics
            ≡ none)
          ↔ (pos 0 ≤ℤ pos 0))
load_config-ticker_example =
    load_config-ticker quoteless (λ a b. true) parse_duration cfg loaded_cfg (codes "1h")
      (web ∷ batch ∷ []) (pos 0) parse_duration one_pass [] zero_metrics load_quoteless

-- An environment with the region and the cluster, and the election.
abbrev getenv : Str → Str
getenv key =
    if str_eq key (codes "ENS_REGION")
    then codes "cn-1"
    else if str_eq key (codes "CLUSTER_ID")
    then codes "c1"
    else if str_eq key (codes "LEADER_ELECT")
    then codes "true"
    else if str_eq key (codes "POD_NAME")
    then codes "p"
    else if str_eq key (codes "POD_NAMESPACE")
    then codes "ns"
    else []

abbrev defaults : Timings
defaults = record {
  describe_ttl_seconds = pos 10;
  reconcile_loop_seconds = pos 15;
  join_timeout = pos 1_800_000_000_000;
  node_cleanup_grace = pos 300_000_000_000;
  readiness_check_interval = pos 10_000_000_000;
  readiness_check_timeout = pos 5_000_000_000;
  leader_lease_duration = pos 15_000_000_000;
  leader_renew_deadline = pos 10_000_000_000;
  leader_retry_period = pos 2_000_000_000;
}

abbrev settings : Config
settings = settings_of getenv defaults

abbrev environment_cfg : Config
environment_cfg = record settings {
  join_token_ttl = pos 7_200_000_000_000;
  groups = with_defaults settings web ∷ [];
}

load_getenv :
    load_environment quoteless (λ a b. true) parse_duration getenv (web ∷ [])
    ≡ value (loaded environment_cfg)
unfolding load_environment load_config is_empty str_eq ens_provider.Prelude.has_prefix
    ens_provider.Config.Validate.validate breaks_quoting settings_of
load_getenv = refl

template_node-served_example :
    (n : TemplateNode) × (node_group_template_node_info quoteless environment_cfg (codes "web")
      ≡ some (reply n))
    × (pos 0 <ℤ n.capacity.cpu)
    × (pos 0 <ℤ n.capacity.memory)
    × (pos 0 <ℤ n.capacity.pods)
    × (pos 0 <ℤ n.capacity.ephemeral)
    × (pos 0 <ℤ n.allocatable.cpu)
    × (pos 0 <ℤ n.allocatable.memory)
    × (pos 0 <ℤ n.allocatable.pods)
    × (pos 0 <ℤ n.allocatable.ephemeral)
unfolding with_defaults
template_node-served_example =
    template_node-served quoteless (λ a b. true) parse_duration getenv (web ∷ []) environment_cfg
      (with_defaults settings web) load_getenv (inl refl)

abbrev accepting : ElectionConfig → Option Str
accepting e = none

start_election-starts_example :
    (environment_cfg.leader_elect ≡ true
      → (e : ElectionConfig) × (start_election accepting environment_cfg ≡ runs e)
        × (e.identity ≡ environment_cfg.pod_name)
        × (e.lease ≡ lease_name)
        × (e.release_on_cancel ≡ false))
    × (environment_cfg.leader_elect ≡ false → start_election accepting environment_cfg ≡ disabled)
start_election-starts_example =
    start_election-starts quoteless (λ a b. true) parse_duration getenv (web ∷ []) environment_cfg
      accepting load_getenv (λ e a. refl)
