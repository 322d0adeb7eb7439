-- ===== src/Examples/Data.antt =====
-- The data of the examples: a configuration with two groups, instances of them, and an environment
-- that answers every call with success.
use ens_provider.Prelude.{true, false, none, [], ◌∷◌, Str, codes, pos}
use ens_provider.Config.{Config, Group, Template, nodepool_label}
use ens_provider.Inventory.{Instance, ok}
use ens_provider.Server.{Environment}
use ens_provider.Server.Delete.{NodeRef}
use ens_provider.Janitor.{Node}

abbrev pub template : Template
template = record {
  cpu = codes "4";
  memory = codes "8Gi";
  pods = codes "64";
  ephemeral = codes "40Gi";
  cpu_alloc = codes "3";
  mem_alloc = codes "7Gi";
}

abbrev pub group : Str → Str → Str → Group
group id nodepool prefix = record {
  id = id;
  nodepool_id = nodepool;
  name_prefix = prefix;
  min = pos 0;
  max = pos 3;
  instance_type = codes "";
  image_id = codes "";
  disk_category = codes "";
  disk_size = codes "";
  keypair = codes "";
  bandwidth = codes "";
  network_id = codes "";
  vswitch_id = codes "";
  security_group_id = codes "";
  public_ip = none;
  labels = [];
  taints = [];
  template = none;
}

abbrev pub web : Group
web = group (codes "web") (codes "np1") (codes "as-web-")

abbrev pub batch : Group
batch = group (codes "batch") (codes "np2") (codes "as-batch-")

abbrev pub cfg : Config
cfg = record {
  ens_region = codes "cn-1";
  control_region = codes "cn-hangzhou";
  cluster_id = codes "c1";
  k8s_version = codes "1.30";
  runtime_version = codes "1.6";
  listen_addr = codes "";
  metrics_addr = codes "";
  image_repo_type = codes "public";
  def_image = codes "";
  def_instance = codes "";
  def_network = codes "";
  def_vswitch = codes "";
  def_security = codes "";
  def_disk_cat = codes "";
  def_disk_size = codes "";
  def_keypair = codes "";
  def_bandwidth = codes "";
  def_public_ip = false;
  def_template = template;
  describe_ttl_seconds = pos 15;
  reconcile_loop_seconds = pos 60;
  join_timeout = pos 900;
  janitor_release = true;
  janitor_node_cleanup = true;
  node_cleanup_grace = pos 600;
  readiness_check_interval = pos 5;
  readiness_check_timeout = pos 3;
  groups = web ∷ batch ∷ [];
  autonomy_duration = codes "";
  leader_elect = true;
  leader_lease_duration = pos 15;
  leader_renew_deadline = pos 10;
  leader_retry_period = pos 2;
  pod_name = codes "p";
  pod_namespace = codes "ns";
  join_token_ttl = pos 600;
}

abbrev pub instance_of : Str → Str → Str → Str → Instance
instance_of id name gid status = record {
  id = id;
  name = name;
  group_id = gid;
  status = status;
  public_ip = codes "";
  private_ip = codes "10.0.0.1";
  creation_time = codes "t";
}

abbrev pub web1 : Instance
web1 = instance_of (codes "i-1") (codes "as-web-1-1") (codes "web") (codes "Running")

abbrev pub web2 : Instance
web2 = instance_of (codes "i-2") (codes "as-web-1-2") (codes "web") (codes "Stopped")

-- One instance is listed, its node has not joined, and every call succeeds.
abbrev pub env : Environment
env = record {
  owned_instances = λ log g. ok (web1 ∷ []);
  all_owned_instances = λ log. ok (web1 ∷ web2 ∷ []);
  instance_by_id = λ log id. ok none;
  run_instances = λ log g d. none;
  release_instance = λ log id. none;
  joined_instance_ids = λ log. ok (codes "i-1" ∷ []);
  delete_node_object = λ log name. none;
}

abbrev pub node1 : NodeRef
node1 = record {
  name = codes "n1";
  provider_id = codes "cn-1.i-1";
  labels = (nodepool_label, codes "np1") ∷ [];
}

abbrev pub stale_node : Node
stale_node = record {
  name = codes "n9";
  provider_id = codes "cn-1.i-9";
  conditions = record { kind = codes "Ready"; status = codes "Unknown"; since = pos 0 } ∷ [];
  addresses = [];
}
