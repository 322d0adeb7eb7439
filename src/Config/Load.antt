-- ===== src/Config/Load.antt =====
-- groups.go: `LoadConfig` after the environment is read: the checks of the settings, the defaults of
-- the groups, and the prefixes. The groups are those that encoding/json read of NODE_GROUPS; the
-- arguments stand for the duration parser and for the comparison of two durations as floats.
use ens_provider.Prelude.{
  ℕ, Bool, true, false, ◌&&◌, ◌||◌, not, Option, none, some, List, [], ◌∷◌, Str, codes, str_eq,
  is_empty, has_prefix, length, leb, map, if◌then◌else◌, ℤ, pos, ltb_ℤ, leb_ℤ, eqb_ℤ,
}
use ens_provider.Config.{Config, Group}
use ens_provider.Config.Validate.{Validators, ConfigError, validate, seen}

pub data LoadError : Type 0 where
  identity_missing lease_too_short renew_too_short token_ttl region_missing : LoadError
  repo_type control_region k8s_version runtime_version groups_missing group_incomplete : LoadError
  prefix_shared prefix_nested : LoadError
  invalid : ConfigError → LoadError

-- Of a strings.TrimSpace'd text.
unfoldable pub parse_join_token_ttl : (Str → Option ℤ) → Str → Option ℤ
parse_join_token_ttl parse_duration v =
    if is_empty v
    then some (pos 7_200_000_000_000)
    else if str_eq v (codes "0")
    then some (pos 0)
    else elim (parse_duration v) [
      | none ↦ none
      | some d ↦
          if ltb_ℤ d (pos 3_600_000_000_000) || ltb_ℤ (pos 86_400_000_000_000) d
          then none
          else some d
    ]

-- regionIDRe and versionIDRe, byte by byte.
unfoldable pub is_region_byte : ℕ → Bool
is_region_byte c =
    (leb b'a' c && leb c b'z') || (leb b'0' c && leb c b'9') || (leb b'-' c && leb c b'-')

unfoldable pub is_version_byte : ℕ → Bool
is_version_byte c =
    (leb b'A' c && leb c b'Z')
    || (leb b'a' c && leb c b'z')
    || (leb b'0' c && leb c b'9')
    || (leb b'.' c && leb c b'.')
    || (leb b'_' c && leb c b'_')
    || (leb b'-' c && leb c b'-')

abbrev pub all_bytes : (ℕ → Bool) → Str → Bool
all_bytes p [] = true
all_bytes p (c ∷ s) = p c && all_bytes p s

unfoldable pub is_region_id : Str → Bool
unfolding is_region_byte
is_region_id s = not (is_empty s) && all_bytes is_region_byte s

unfoldable pub is_version_id : Str → Bool
unfolding is_version_byte
is_version_id s = not (is_empty s) && all_bytes is_version_byte s

abbrev pub default : Str → Str → Str
default own def = if is_empty own then def else own

abbrev pub default_ip : Option Bool → Bool → Option Bool
default_ip none def = some def
default_ip (some b) def = some b

-- The body of the loop that fills a group in.
unfoldable pub with_defaults : Config → Group → Group
with_defaults c g = record g {
  nodepool_id = default g.nodepool_id g.id;
  max = if eqb_ℤ g.max (pos 0) then pos 4 else g.max;
  instance_type = default g.instance_type c.def_instance;
  image_id = default g.image_id c.def_image;
  disk_category = default g.disk_category c.def_disk_cat;
  disk_size = default g.disk_size c.def_disk_size;
  keypair = default g.keypair c.def_keypair;
  bandwidth = default g.bandwidth c.def_bandwidth;
  network_id = default g.network_id c.def_network;
  vswitch_id = default g.vswitch_id c.def_vswitch;
  security_group_id = default g.security_group_id c.def_security;
  public_ip = default_ip g.public_ip c.def_public_ip;
}

abbrev pub cons_group : Group → Option (List Group) → Option (List Group)
cons_group g none = none
cons_group g (some gs) = some (g ∷ gs)

-- `none` where a group has no id or no prefix.
unfoldable pub fill_groups : Config → List Group → Option (List Group)
unfolding with_defaults
fill_groups c [] = some []
fill_groups c (g ∷ rest) =
    if is_empty g.id || is_empty g.name_prefix
    then none
    else cons_group (with_defaults c g) (fill_groups c rest)

-- No two groups share a prefix: the first loop over them.
unfoldable pub prefixes_shared : List Str → List Group → Bool
prefixes_shared known [] = false
prefixes_shared known (g ∷ rest) =
    seen g.name_prefix known || prefixes_shared (g.name_prefix ∷ known) rest

-- sort.Slice by length, the longest first.
unfoldable pub insert_prefix : Str → List Str → List Str
insert_prefix p [] = p ∷ []
insert_prefix p (q ∷ qs) = if leb (length q) (length p) then p ∷ q ∷ qs else q ∷ insert_prefix p qs

unfoldable pub sort_prefixes : List Str → List Str
unfolding insert_prefix
sort_prefixes [] = []
sort_prefixes (p ∷ ps) = insert_prefix p (sort_prefixes ps)

-- The double loop: a later prefix of the sorted list is a prefix of an earlier one.
unfoldable pub extends_one : Str → List Str → Bool
extends_one p [] = false
extends_one p (q ∷ qs) = has_prefix p q || extends_one p qs

unfoldable pub prefixes_nested : List Str → Bool
unfolding extends_one
prefixes_nested [] = false
prefixes_nested (p ∷ ps) = extends_one p ps || prefixes_nested ps

abbrev pub prefix_of : Group → Str
prefix_of g = g.name_prefix

-- What LoadConfig returns.
pub data Loaded : Type 0 where
  loaded : Config → Loaded
  not_loaded : LoadError → Loaded

abbrev pub require : Bool → LoadError → Loaded → Loaded
require true e later = later
require false e later = not_loaded e

abbrev pub of_validation : Config → Option ConfigError → Loaded
of_validation c none = loaded c
of_validation c (some e) = not_loaded (invalid e)

-- The groups are filled in: the prefixes, and the validation.
unfoldable pub load_filled : Validators → Config → Option (List Group) → Loaded
unfolding prefixes_shared prefixes_nested sort_prefixes
load_filled v c none = not_loaded group_incomplete
load_filled v c (some gs) =
    let c' = record c { groups = gs } in
    require (not (prefixes_shared [] gs)) prefix_shared (
      require (not (prefixes_nested (sort_prefixes (map prefix_of gs)))) prefix_nested
        (of_validation c' (validate v c')))

-- The settings of the leader election.
unfoldable pub election_error : (ℤ → ℤ → Bool) → Config → Option LoadError
election_error exceeds_1_2 c =
    if not c.leader_elect
    then none
    else if is_empty c.pod_name || is_empty c.pod_namespace
    then some identity_missing
    else if leb_ℤ c.leader_lease_duration c.leader_renew_deadline
    then some lease_too_short
    else if exceeds_1_2 c.leader_renew_deadline c.leader_retry_period
    then none
    else some renew_too_short

-- LoadConfig, over the settings `c` that were read, the trimmed JOIN_TOKEN_TTL and the parsed groups.
unfoldable pub load_settings : Validators → Config → List Group → Loaded
unfolding is_region_id is_version_id fill_groups load_filled
load_settings v c gs =
    require (not (is_empty c.ens_region || is_empty c.cluster_id)) region_missing (
      require
        (str_eq c.image_repo_type (codes "public") || str_eq c.image_repo_type (codes "private"))
        repo_type
        (require (is_region_id c.control_region) control_region (
          require (is_version_id c.k8s_version) k8s_version (
            require (is_version_id c.runtime_version) runtime_version
              (require (leb 1 (length gs)) groups_missing (load_filled v c (fill_groups c gs)))))))

unfoldable pub load_with_ttl : Validators → Config → Option ℤ → List Group → Loaded
unfolding load_settings
load_with_ttl v c none gs = not_loaded token_ttl
load_with_ttl v c (some d) gs = load_settings v (record c { join_token_ttl = d }) gs

unfoldable pub load_config :
    Validators → (ℤ → ℤ → Bool) → (Str → Option ℤ) → Config → Str → List Group → Loaded
unfolding election_error parse_join_token_ttl load_with_ttl
load_config v exceeds_1_2 parse_duration c ttl gs = elim (election_error exceeds_1_2 c) [
  | some e ↦ not_loaded e
  | none ↦ load_with_ttl v c (parse_join_token_ttl parse_duration ttl) gs
]
