-- ===== src/Config/Environment.antt =====
-- groups.go: how `LoadConfig` reads its settings from the environment. `getenv` is os.Getenv, with the
-- empty text for a variable that is not set, and `parse_duration` is time.ParseDuration. The parsed
-- groups of NODE_GROUPS are those of encoding/json.
pub mod Positive
use ens_provider.Prelude.{
  unsigned_value, ℕ, suc, ◌+◌, ◌-◌, ◌*◌, Bool, true, false, ◌&&◌, ◌||◌, not, Option, none, some,
  List, [], ◌∷◌, ◌++◌, Str, codes, str_eq, is_empty, leb, ltb, ◌==◌, map, if◌then◌else◌, ℤ, pos,
  negsuc, leb_ℤ, ltb_ℤ,
}
use ens_provider.Config.{Config, Group, Template}
use ens_provider.Config.Validate.{Validators}
use ens_provider.Config.Load.{Loaded, load_config}

-- What is read of a variable; or the variable at which the process exits.
pub data Reading (A : Type 0) : Type 0 where
  value : A → Reading A
  fatal : Str → Reading A

infixl 5 ◌>>=◌
abbrev pub ◌>>=◌ : {A B : Type 0} → Reading A → (A → Reading B) → Reading B
value a >>= f = f a
fatal key >>= f = fatal key

-- strings.TrimSpace, on the white space of ASCII.
abbrev is_white : ℕ → Bool
is_white c = c == b' ' || (leb 9 c && leb c 13)

unfoldable pub trim_left : Str → Str
trim_left [] = []
trim_left (c ∷ s) = if is_white c then trim_left s else c ∷ s

unfoldable pub trim_right : Str → Str
trim_right [] = []
trim_right (c ∷ s) = let rest = trim_right s in if is_white c && is_empty rest then [] else c ∷ rest

unfoldable pub trim_space : Str → Str
unfolding trim_left trim_right
trim_space s = trim_right (trim_left s)

abbrev in_range : Bool → Option ℕ → Option ℤ
in_range negative none = none
in_range true (some n) =
    if leb n 9223372036854775808 then some (if n == 0 then pos 0 else negsuc (n - 1)) else none
in_range false (some n) = if ltb n 9223372036854775808 then some (pos n) else none

-- strconv.Atoi, of a 64-bit int.
unfoldable pub atoi : Str → Option ℤ
unfolding unsigned_value
atoi [] = none
atoi (c ∷ s) =
    if c == b'-'
    then in_range true (unsigned_value s)
    else if c == b'+'
    then in_range false (unsigned_value s)
    else in_range false (unsigned_value (c ∷ s))

abbrev fold : ℕ → ℕ
fold c = if leb b'A' c && leb c b'Z' then c + 32 else c

-- strings.EqualFold(s, "true")
unfoldable pub is_true : Str → Bool
is_true s = str_eq (map fold s) (codes "true")

unfoldable pub env : (Str → Str) → Str → Str → Str
env getenv key def = if is_empty (getenv key) then def else getenv key

abbrev pub or_fatal : {A : Type 0} → Str → Option A → Reading A
or_fatal key none = fatal key
or_fatal key (some a) = value a

unfoldable pub env_int : (Str → Str) → Str → ℤ → Reading ℤ
unfolding atoi trim_space
env_int getenv key def =
    if is_empty (getenv key) then value def else or_fatal key (atoi (trim_space (getenv key)))

abbrev pub if_positive : Option ℤ → Option ℤ
if_positive none = none
if_positive (some d) = if leb_ℤ d (pos 0) then none else some d

unfoldable pub env_duration : (Str → Option ℤ) → (Str → Str) → Str → ℤ → Reading ℤ
unfolding trim_space
env_duration parse_duration getenv key def =
    if is_empty (getenv key)
    then value def
    else or_fatal key (if_positive (parse_duration (trim_space (getenv key))))

-- The numbers and durations that are read, in the order in which they are.
pub record Timings : Type 0 where
  pub describe_ttl_seconds : ℤ
  pub reconcile_loop_seconds : ℤ
  pub join_timeout : ℤ
  pub node_cleanup_grace : ℤ
  pub readiness_check_interval : ℤ
  pub readiness_check_timeout : ℤ
  pub leader_lease_duration : ℤ
  pub leader_renew_deadline : ℤ
  pub leader_retry_period : ℤ

unfoldable pub read_timings : (Str → Option ℤ) → (Str → Str) → Reading Timings
unfolding env_int env_duration
read_timings parse_duration getenv = do
  ttl ← env_int getenv (codes "DESCRIBE_CACHE_TTL") (pos 10)
  reconcile ← env_int getenv (codes "PROVIDERID_RECONCILE_SECONDS") (pos 15)
  join ← env_duration parse_duration getenv (codes "JOIN_TIMEOUT") (pos 1_800_000_000_000)
  grace ← env_duration parse_duration getenv (codes "NODE_CLEANUP_GRACE") (pos 300_000_000_000)
  interval ←
      env_duration parse_duration getenv (codes "READINESS_CHECK_INTERVAL") (pos 10_000_000_000)
  timeout ← env_duration parse_duration getenv (codes "READINESS_CHECK_TIMEOUT") (pos 5_000_000_000)
  lease ← env_duration parse_duration getenv (codes "LEADER_LEASE_DURATION") (pos 15_000_000_000)
  renew ← env_duration parse_duration getenv (codes "LEADER_RENEW_DEADLINE") (pos 10_000_000_000)
  retry ← env_duration parse_duration getenv (codes "LEADER_RETRY_PERIOD") (pos 2_000_000_000)
  value (record {
    describe_ttl_seconds = ttl;
    reconcile_loop_seconds = reconcile;
    join_timeout = join;
    node_cleanup_grace = grace;
    readiness_check_interval = interval;
    readiness_check_timeout = timeout;
    leader_lease_duration = lease;
    leader_renew_deadline = renew;
    leader_retry_period = retry;
  })

unfoldable pub template_of : (Str → Str) → Template
unfolding env
template_of getenv = record {
  cpu = env getenv (codes "TMPL_CPU") (codes "4");
  memory = env getenv (codes "TMPL_MEMORY") (codes "7938184Ki");
  pods = env getenv (codes "TMPL_PODS") (codes "64");
  ephemeral = env getenv (codes "TMPL_EPHEMERAL") (codes "40900288Ki");
  cpu_alloc = env getenv (codes "TMPL_CPU_ALLOC") (codes "3920m");
  mem_alloc = env getenv (codes "TMPL_MEM_ALLOC") (codes "7370888Ki");
}

-- The settings as they are first put together: no groups yet, and no time to live of the token.
unfoldable pub settings_of : (Str → Str) → Timings → Config
unfolding env is_true template_of
settings_of getenv t = record {
  ens_region = getenv (codes "ENS_REGION");
  control_region = env getenv (codes "CONTROL_REGION") (codes "ap-southeast-1");
  cluster_id = getenv (codes "CLUSTER_ID");
  k8s_version = env getenv (codes "K8S_VERSION") (codes "1.32.1-aliyun.1");
  runtime_version = env getenv (codes "RUNTIME_VERSION") (codes "1.6.39");
  listen_addr = env getenv (codes "LISTEN_ADDR") (codes "0.0.0.0:8086");
  metrics_addr = env getenv (codes "METRICS_ADDR") (codes "0.0.0.0:9090");
  image_repo_type = env getenv (codes "IMAGE_REPO_TYPE") (codes "public");
  def_image = env getenv (codes "IMAGE_ID") (codes "alibaba_cloud_linux_3.2104_x64_20G_20240527");
  def_instance = env getenv (codes "INSTANCE_TYPE") (codes "ens.sn1.small");
  def_network = getenv (codes "NETWORK_ID");
  def_vswitch = getenv (codes "VSWITCH_ID");
  def_security = getenv (codes "SECURITY_GROUP_ID");
  def_disk_cat = env getenv (codes "DISK_CATEGORY") (codes "local_ssd");
  def_disk_size = env getenv (codes "DISK_SIZE") (codes "50");
  def_keypair = env getenv (codes "KEYPAIR") (codes "ens-provider-key");
  def_bandwidth = env getenv (codes "BANDWIDTH_OUT") (codes "100");
  def_public_ip = is_true (env getenv (codes "PUBLIC_IP") (codes "false"));
  def_template = template_of getenv;
  describe_ttl_seconds = t.describe_ttl_seconds;
  reconcile_loop_seconds = t.reconcile_loop_seconds;
  join_timeout = t.join_timeout;
  janitor_release = is_true (env getenv (codes "JANITOR_RELEASE") (codes "false"));
  janitor_node_cleanup = is_true (env getenv (codes "JANITOR_NODE_CLEANUP") (codes "true"));
  node_cleanup_grace = t.node_cleanup_grace;
  readiness_check_interval = t.readiness_check_interval;
  readiness_check_timeout = t.readiness_check_timeout;
  groups = [];
  autonomy_duration = env getenv (codes "NODE_AUTONOMY_DURATION") (codes "10m");
  leader_elect = is_true (env getenv (codes "LEADER_ELECT") (codes "false"));
  leader_lease_duration = t.leader_lease_duration;
  leader_renew_deadline = t.leader_renew_deadline;
  leader_retry_period = t.leader_retry_period;
  pod_name = getenv (codes "POD_NAME");
  pod_namespace = getenv (codes "POD_NAMESPACE");
  join_token_ttl = pos 0;
}

-- The whole of LoadConfig, over the groups that were parsed.
unfoldable pub load_environment :
    Validators → (ℤ → ℤ → Bool) → (Str → Option ℤ) → (Str → Str) → List Group → Reading Loaded
unfolding read_timings settings_of trim_space
load_environment v exceeds_1_2 parse_duration getenv gs = do
  t ← read_timings parse_duration getenv
  value (
      load_config v exceeds_1_2 parse_duration (settings_of getenv t)
        (trim_space (getenv (codes "JOIN_TOKEN_TTL"))) gs)
