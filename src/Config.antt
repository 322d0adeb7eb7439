-- ===== src/Config.antt =====
-- groups.go: the node groups, the configuration, and the lookups that the rest of the program makes
-- in them. `Load` reads and checks a configuration; the proofs are in the other modules below.
pub mod Ids
pub mod Validate
pub mod Load
pub mod Token
pub mod Prefixes
pub mod Checked
pub mod Environment
pub mod Ownership
use ens_provider.Prelude.{
  ℕ, suc, ◌+◌, ◌<◌, Bool, true, false, ◌&&◌, ◌||◌, not, Option, none, some, List, [], ◌∷◌, ◌++◌,
  Str, codes, str_eq, is_empty, has_prefix, trim_prefix, index_byte, length, drop, find_first, leb,
  ltb, ◌==◌, if◌then◌else◌, ℤ,
}

pub record Taint : Type 0 where
  pub key : Str
  pub value : Str
  pub effect : Str

pub record Template : Type 0 where
  pub cpu : Str
  pub memory : Str
  pub pods : Str
  pub ephemeral : Str
  pub cpu_alloc : Str
  pub mem_alloc : Str

-- A Go map from strings to strings. A nil map is read as an empty one.
abbrev pub Labels : Type 0
Labels = List (Str × Str)

pub record Group : Type 0 where
  pub id : Str
  pub nodepool_id : Str
  pub name_prefix : Str
  pub min : ℤ  -- int32
  pub max : ℤ  -- int32
  pub instance_type : Str
  pub image_id : Str
  pub disk_category : Str
  pub disk_size : Str  -- json.Number
  pub keypair : Str
  pub bandwidth : Str  -- json.Number
  pub network_id : Str
  pub vswitch_id : Str
  pub security_group_id : Str
  pub public_ip : Option Bool
  pub labels : Labels
  pub taints : List Taint
  pub template : Option Template

-- The part of the configuration that does not concern one group. Durations are nanoseconds.
pub record Config : Type 0 where
  pub ens_region : Str
  pub control_region : Str
  pub cluster_id : Str
  pub k8s_version : Str
  pub runtime_version : Str
  pub listen_addr : Str
  pub metrics_addr : Str
  pub image_repo_type : Str
  pub def_image : Str
  pub def_instance : Str
  pub def_network : Str
  pub def_vswitch : Str
  pub def_security : Str
  pub def_disk_cat : Str
  pub def_disk_size : Str
  pub def_keypair : Str
  pub def_bandwidth : Str
  pub def_public_ip : Bool
  pub def_template : Template
  pub describe_ttl_seconds : ℤ
  pub reconcile_loop_seconds : ℤ
  pub join_timeout : ℤ
  pub janitor_release : Bool
  pub janitor_node_cleanup : Bool
  pub node_cleanup_grace : ℤ
  pub readiness_check_interval : ℤ
  pub readiness_check_timeout : ℤ
  pub groups : List Group
  pub autonomy_duration : Str
  pub leader_elect : Bool
  pub leader_lease_duration : ℤ
  pub leader_renew_deadline : ℤ
  pub leader_retry_period : ℤ
  pub pod_name : Str
  pub pod_namespace : Str
  pub join_token_ttl : ℤ

abbrev pub nodepool_label : Str
nodepool_label = codes "alibabacloud.com/nodepool-id"

-- `m[k]` of a map: the empty string where the key is missing.
unfoldable pub label_value : Labels → Str → Str
label_value [] k = []
label_value ((j, v) ∷ m) k = if str_eq j k then v else label_value m k

unfoldable pub group_by_id : Config → Str → Option Group
group_by_id c id = find_first (λ g. str_eq g.id id) c.groups

unfoldable pub group_for_node_labels : Config → Labels → Option Group
group_for_node_labels c labels =
    let npid = label_value labels nodepool_label in
    if is_empty npid then none else find_first (λ g. str_eq g.nodepool_id npid) c.groups

-- The test of the loop: the candidate's prefix fits, and is longer than the owner's so far.
unfoldable pub is_better_owner : Str → Option Group → Group → Bool
is_better_owner name none candidate = has_prefix name candidate.name_prefix
is_better_owner name (some owner) candidate =
    has_prefix name candidate.name_prefix
    && ltb (length owner.name_prefix) (length candidate.name_prefix)

unfoldable pub owner_loop : Str → Option Group → List Group → Option Group
owner_loop name owner [] = owner
owner_loop name owner (candidate ∷ rest) =
    owner_loop name (if is_better_owner name owner candidate then some candidate else owner) rest

unfoldable pub group_for_instance_name : Config → Str → Option Group
unfolding owner_loop is_better_owner
group_for_instance_name c name = owner_loop name none c.groups

unfoldable pub provider_id : Config → Str → Str
provider_id c instance_id = c.ens_region ++ b'.' ∷ instance_id

-- What follows position `i`, where that is found and is not the first.
after_index : Str → Option ℕ → Str
after_index pid none = []
after_index pid (some i) = if ltb 0 i then drop (suc i) pid else []

unfoldable pub instance_id_from_provider_id : Str → Str
unfolding after_index
instance_id_from_provider_id pid = after_index pid (index_byte b'.' pid)

unfoldable pub is_id_byte : ℕ → Bool
is_id_byte c = (leb b'a' c && leb c b'z') || (leb b'0' c && leb c b'9')

unfoldable pub all_id_bytes : Str → Bool
unfolding is_id_byte
all_id_bytes [] = true
all_id_bytes (c ∷ s) = is_id_byte c && all_id_bytes s

-- ensInstanceIDPattern, ^i-[a-z0-9]+$
unfoldable pub is_ens_instance_id : Str → Bool
unfolding all_id_bytes
is_ens_instance_id s =
    has_prefix s (codes "i-")
    && (let rest = trim_prefix s (codes "i-") in not (is_empty rest) && all_id_bytes rest)

unfoldable pub strict_edge_instance_id : Config → Str → Str
strict_edge_instance_id c pid =
    let prefix = c.ens_region ++ b'.' ∷ [] in
    if has_prefix pid prefix
    then (let instance_id = trim_prefix pid prefix in
        if is_ens_instance_id instance_id then instance_id else [])
    else []
