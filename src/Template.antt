-- ===== src/Template.antt =====
-- template.go: the Node that stands for a group with no nodes. `resource.MustParse` panics on a text
-- that is no quantity, and so is `none` here.
pub mod Builds
pub mod Quantities
use ens_provider.Prelude.{
  Bool, true, false, Option, none, some, List, [], ◌∷◌, ◌++◌, Str, codes, str_eq, is_empty, map,
  if◌then◌else◌, ℤ,
}
use ens_provider.Config.{Config, Group, Labels, Taint, Template, nodepool_label}
use ens_provider.Config.Validate.{Validators}

unfoldable pub set_label : Str → Str → Labels → Labels
set_label k v [] = (k, v) ∷ []
set_label k v ((j, w) ∷ rest) = if str_eq j k then (k, v) ∷ rest else (j, w) ∷ set_label k v rest

unfoldable pub add_labels : Labels → Labels → Labels
unfolding set_label
add_labels [] labels = labels
add_labels ((k, v) ∷ rest) labels = add_labels rest (set_label k v labels)

abbrev pub template_name : Group → Str
template_name g = g.name_prefix ++ codes "-template"

unfoldable pub template_labels : Group → Labels
unfolding add_labels
template_labels g = add_labels g.labels (
    (codes "alibabacloud.com/is-edge-worker", codes "true")
    ∷ (nodepool_label, g.nodepool_id)
    ∷ (codes "apps.openyurt.io/desired-nodepool", g.nodepool_id)
    ∷ (codes "alibabacloud.com/edge-enable-addon-flannel", codes "true")
    ∷ (codes "alibabacloud.com/edge-enable-addon-kube-proxy", codes "true")
    ∷ (codes "alibabacloud.com/edge-enable-addon-coredns", codes "true")
    ∷ (codes "kubernetes.io/os", codes "linux")
    ∷ (codes "kubernetes.io/arch", codes "amd64")
    ∷ (codes "beta.kubernetes.io/os", codes "linux")
    ∷ (codes "beta.kubernetes.io/arch", codes "amd64")
    ∷ (codes "kubernetes.io/hostname", template_name g)
    ∷ [])

unfoldable pub template_taint : Taint → Taint
template_taint t = if is_empty t.effect then record t { effect = codes "NoSchedule" } else t

abbrev pub or_default : Str → Str → Str
or_default own def = if is_empty own then def else own

-- The group's own fields over the shared default.
unfoldable pub merged_template : Template → Option Template → Template
merged_template def none = def
merged_template def (some t) = record {
  cpu = or_default t.cpu def.cpu;
  memory = or_default t.memory def.memory;
  pods = or_default t.pods def.pods;
  ephemeral = or_default t.ephemeral def.ephemeral;
  cpu_alloc = or_default t.cpu_alloc def.cpu_alloc;
  mem_alloc = or_default t.mem_alloc def.mem_alloc;
}

pub record Resources : Type 0 where
  pub cpu : ℤ
  pub memory : ℤ
  pub pods : ℤ
  pub ephemeral : ℤ

pub record TemplateNode : Type 0 where
  pub name : Str
  pub labels : Labels
  pub taints : List Taint
  pub capacity : Resources
  pub allocatable : Resources

-- The resources of a Node, of four texts.
unfoldable pub parse_resources : Validators → Str → Str → Str → Str → Option Resources
parse_resources v cpu memory pods ephemeral = elim (v.parse_quantity cpu) [
  | none ↦ none
  | some a ↦ elim (v.parse_quantity memory) [
    | none ↦ none
    | some b ↦ elim (v.parse_quantity pods) [
      | none ↦ none
      | some c ↦ elim (v.parse_quantity ephemeral) [
        | none ↦ none
        | some d ↦ some (record { cpu = a; memory = b; pods = c; ephemeral = d })
      ]
    ]
  ]
]

abbrev pub node_of : Group → Option Resources → Option Resources → Option TemplateNode
node_of g (some capacity) (some allocatable) = some (record {
  name = template_name g;
  labels = template_labels g;
  taints = map template_taint g.taints;
  capacity = capacity;
  allocatable = allocatable;
})
node_of g _ _ = none

-- BuildTemplateNode
unfoldable pub build_template_node : Validators → Config → Group → Option TemplateNode
unfolding merged_template parse_resources template_labels template_taint
build_template_node v cfg g =
    let t = merged_template cfg.def_template g.template in
    node_of g (parse_resources v t.cpu t.memory t.pods t.ephemeral)
      (parse_resources v t.cpu_alloc t.mem_alloc t.pods t.ephemeral)
