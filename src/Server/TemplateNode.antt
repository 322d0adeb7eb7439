-- ===== src/Server/TemplateNode.antt =====
-- server.go: `NodeGroupTemplateNodeInfo`, and when it replies.
use ens_provider.Prelude.{
  ◌≡◌, refl, Bool, false, Option, none, some, List, [], Str, codes, is_empty, In, ℤ, pos, ◌<ℤ◌,
  Bool-cases, inl, inr,
}
use ens_provider.Config.{Config, Group, group_by_id}
use ens_provider.Config.Validate.{Validators}
use ens_provider.Config.Validate.Lookup.{validate-found}
use ens_provider.Config.Load.{loaded}
use ens_provider.Config.Prefixes.{load_config-IsLoaded}
use ens_provider.Config.Environment.{
  value, env, trim_space, read_timings, template_of, settings_of, load_environment,
}
use ens_provider.Config.Environment.Positive.{>>=-value, value_inj, load_environment-keeps}
use ens_provider.Template.{TemplateNode, build_template_node}
use ens_provider.Template.Builds.{build_template_node-total}
use ens_provider.Template.Quantities.{IsFull}
use ens_provider.Server.{Response, reply, fail, not_found}

-- A reply, or the panic of a quantity that does not parse.
abbrev of_node : Option TemplateNode → Option (Response TemplateNode)
of_node none = none
of_node (some n) = some (reply n)

unfoldable pub node_group_template_node_info :
    Validators → Config → Str → Option (Response TemplateNode)
unfolding build_template_node
node_group_template_node_info v cfg id = elim (group_by_id cfg id) [
  | none ↦ some (fail (not_found id))
  | some g ↦ of_node (build_template_node v cfg g)
]

env-full :
    (getenv : Str → Str) (key def : Str)
    → is_empty def ≡ false
    → is_empty (env getenv key def) ≡ false
unfolding env
env-full getenv key def full = elim (Bool-cases (is_empty (getenv key))) [
  | inl p ↦ rw p full
  | inr p ↦ rw p p
]

template_of-IsFull : (getenv : Str → Str) → IsFull (template_of getenv)
unfolding template_of is_empty
template_of-IsFull getenv = record {
  cpu = env-full getenv (codes "TMPL_CPU") (codes "4") refl;
  memory = env-full getenv (codes "TMPL_MEMORY") (codes "7938184Ki") refl;
  pods = env-full getenv (codes "TMPL_PODS") (codes "64") refl;
  ephemeral = env-full getenv (codes "TMPL_EPHEMERAL") (codes "40900288Ki") refl;
  cpu_alloc = env-full getenv (codes "TMPL_CPU_ALLOC") (codes "3920m") refl;
  mem_alloc = env-full getenv (codes "TMPL_MEM_ALLOC") (codes "7370888Ki") refl;
}

-- Of an environment that loads, the template Node of every group is served under the group's id: no
-- quantity fails to parse, so that `MustParse` does not panic when a group scales from zero, and its
-- four capacities and its four allocatable amounts (cpu, memory, pods, ephemeral storage) are positive.
pub template_node-served :
    (v : Validators) (exceeds_1_2 : ℤ → ℤ → Bool) (parse_duration : Str → Option ℤ)
    (getenv : Str → Str) (gs : List Group) (d : Config) (g : Group)
    → load_environment v exceeds_1_2 parse_duration getenv gs ≡ value (loaded d)
    → In g d.groups
    → (n : TemplateNode) × (node_group_template_node_info v d g.id ≡ some (reply n))
      × (pos 0 <ℤ n.capacity.cpu)
      × (pos 0 <ℤ n.capacity.memory)
      × (pos 0 <ℤ n.capacity.pods)
      × (pos 0 <ℤ n.capacity.ephemeral)
      × (pos 0 <ℤ n.allocatable.cpu)
      × (pos 0 <ℤ n.allocatable.memory)
      × (pos 0 <ℤ n.allocatable.pods)
      × (pos 0 <ℤ n.allocatable.ephemeral)
unfolding load_environment node_group_template_node_info settings_of
template_node-served v exceeds_1_2 parse_duration getenv gs d g h listed =
    let (t, _, h₁) = >>=-value (read_timings parse_duration getenv) _ (loaded d) h in
    let valid =
      (load_config-IsLoaded v exceeds_1_2 parse_duration (settings_of getenv t) d
        (trim_space (getenv (codes "JOIN_TOKEN_TTL"))) gs (value_inj h₁)).valid in
    let full =
      load_environment-keeps (λ (k : Config). IsFull k.def_template) v exceeds_1_2 parse_duration
        getenv gs d h (λ s read ttl ks. template_of-IsFull getenv) in
    let found = (validate-found v d g [] valid listed).0 in
    let (n, built, a₁, a₂, a₃, a₄, a₅, a₆, a₇, a₈) =
      build_template_node-total v d g valid full listed in
    (
      n,
      rw (found, node_group_template_node_info) (rw (built, of_node) refl),
      a₁,
      a₂,
      a₃,
      a₄,
      a₅,
      a₆,
      a₇,
      a₈,
    )
