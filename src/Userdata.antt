-- ===== src/Userdata.antt =====
-- userdata.go: the node spec and the join script that every new instance runs at its first boot.
pub mod Json
pub mod Base64
pub mod Script
pub mod Quoting
pub mod AttachToken
use ens_provider.Prelude.{
  ℕ, Bool, true, false, ◌||◌, List, [], ◌∷◌, ◌++◌, Str, codes, str_eq, is_empty, ◌==◌,
  if◌then◌else◌,
}
use ens_provider.Config.{Config, Group, Labels, Taint}
use ens_provider.Inventory.{Answer, ok, err}
use ens_provider.Userdata.Json.{
  Value, text, flag, array, object, Items, nil, cons, Fields, end, field, marshal, sort_fields,
}
use ens_provider.Userdata.Base64.{base64_encode}
use ens_provider.Userdata.Script.{join_script}

-- `m[k] = v` of a map.
unfoldable pub set_label : Str → Str → Labels → Labels
set_label k v [] = (k, v) ∷ []
set_label k v ((j, w) ∷ m) = if str_eq j k then (k, v) ∷ m else (j, w) ∷ set_label k v m

-- The loop that writes the group's labels over the two fixed ones.
unfoldable pub set_labels : Labels → Labels → Labels
unfolding set_label
set_labels [] base = base
set_labels ((k, v) ∷ own) base = set_label k v (set_labels own base)

unfoldable pub join_labels : Group → Labels
unfolding set_labels
join_labels g = set_labels g.labels (
    (codes "apps.openyurt.io/desired-nodepool", g.nodepool_id)
    ∷ (codes "alibabacloud.com/interconnection-mode", codes "private")
    ∷ [])

unfoldable pub label_entries : Labels → List (Str × Value)
label_entries [] = []
label_entries ((k, v) ∷ m) = (k, text v) ∷ label_entries m

abbrev effect_or_default : Str → Str
effect_or_default e = if is_empty e then codes "NoSchedule" else e

-- `nodeSpecTaint`, whose fields keep their order.
unfoldable pub spec_taint : Taint → Value
spec_taint t = object (
    field (codes "key") (text t.key) (
      field (codes "value") (text t.value)
        (field (codes "effect") (text (effect_or_default t.effect)) end)))

unfoldable pub spec_taints : List Taint → Items
unfolding spec_taint
spec_taints [] = nil
spec_taints (t ∷ ts) = cons (spec_taint t) (spec_taints ts)

-- The map of the node spec, in the order in which the source writes it.
unfoldable pub spec_entries : Config → Group → List (Str × Value)
unfolding join_labels label_entries spec_taints
spec_entries c g =
    (
      codes "allowedClusterAddons",
      array (
          cons (text (codes "kube-proxy"))
            (cons (text (codes "flannel")) (cons (text (codes "coredns")) nil))),
    )
    ∷ (codes "imageRepoType", text c.image_repo_type)
    ∷ (codes "interconnectMode", text (codes "private"))
    ∷ (codes "manageRuntime", flag true)
    ∷ (codes "openapiType", text (codes "public"))
    ∷ (codes "poolNodesConnected", flag true)
    ∷ (codes "quiet", flag true)
    ∷ (codes "selfHostNtpServer", flag false)
    ∷ (codes "runtime", text (codes "containerd"))
    ∷ (codes "runtimeRootDir", text (codes "/var/lib/containerd"))
    ∷ (codes "runtime_version", text c.runtime_version)
    ∷ (codes "labels", object (sort_fields (label_entries (join_labels g))))
    ∷ (codes "taints", array (spec_taints g.taints))
    ∷ []

-- buildNodeSpec: marshalling these values does not fail.
unfoldable pub build_node_spec : Config → Group → Str
unfolding spec_entries
build_node_spec c g = marshal (object (sort_fields (spec_entries c g)))

-- The token holds a quote or a backslash.
unfoldable pub breaks_quoting : Str → Bool
breaks_quoting [] = false
breaks_quoting (c ∷ s) = c == b'\'' || c == b'\\' || breaks_quoting s

unfoldable pub oss_region : Config → Str
oss_region cfg =
    if str_eq cfg.image_repo_type (codes "private")
    then cfg.control_region ++ codes "-internal"
    else cfg.control_region

-- What BuildUserdata returns: the text, the failure of the token's fetch, or the refusal of a token,
-- which names the nodepool.
pub data Built : Type 0 where
  built : Str → Built
  no_token : Str → Built
  refused_token : Str → Built

unfoldable pub script_of : Config → Group → Str → Str
unfolding oss_region build_node_spec
script_of cfg g token =
    join_script cfg.control_region (oss_region cfg) cfg.k8s_version token (build_node_spec cfg g)

-- BuildUserdata, given what FetchAttachToken returned.
unfoldable pub build_userdata : Answer Str → Config → Group → Built
unfolding breaks_quoting script_of
build_userdata (err e) cfg g = no_token e
build_userdata (ok token) cfg g =
    if breaks_quoting token
    then refused_token g.nodepool_id
    else built (base64_encode (script_of cfg g token))
