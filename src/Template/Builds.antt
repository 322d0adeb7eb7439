-- ===== src/Template/Builds.antt =====
-- When the template Node of a group is built.
use ens_provider.Prelude.{
  ◌≡◌, refl, ap, ◌∙◌, true, false, Option, none, some, [], Str, codes, is_empty, In, map, ℤ, pos,
  ◌<ℤ◌, arith,
}
use ens_provider.Config.{Config, Group, Template}
use ens_provider.Config.Validate.{Validators, validate_template, validate}
use ens_provider.Config.Validate.Lookup.{then_error-none, validate_groups-IsSound}
use ens_provider.Template.{
  merged_template, Resources, TemplateNode, parse_resources, node_of, template_name,
  template_labels, template_taint, build_template_node,
}
use ens_provider.Template.Quantities.{merged_template-IsUsable, IsFull, IsQuantity}

parse_resources-built :
    (v : Validators) (a b c d : Str)
    → IsQuantity v a
    → IsQuantity v b
    → IsQuantity v c
    → IsQuantity v d
    → (r : Resources) × (parse_resources v a b c d ≡ some r)
      × (v.parse_quantity a ≡ some r.cpu)
      × (pos 0 <ℤ r.cpu)
      × (pos 0 <ℤ r.memory)
      × (pos 0 <ℤ r.pods)
      × (pos 0 <ℤ r.ephemeral)
unfolding parse_resources
parse_resources-built v a b c d (p, e, i) (q, f, j) (r, g, k) (s, h, l) = (
  record { cpu = p; memory = q; pods = r; ephemeral = s },
  rw (e, parse_resources) (rw (f) (rw (g) (rw (h) refl))),
  e,
  i,
  j,
  k,
  l,
)

node_of-built :
    (g : Group) (x y : Option Resources) (c a : Resources)
    → x ≡ some c
    → y ≡ some a
    → (n : TemplateNode) × (node_of g x y ≡ some n) × (n.capacity ≡ c) × (n.allocatable ≡ a)
node_of-built g x y c a p q = (
  record {
    name = template_name g;
    labels = template_labels g;
    taints = map template_taint g.taints;
    capacity = c;
    allocatable = a;
  },
  rw (p, q) refl,
  refl,
  refl,
)

-- The template Node of every group of a validated configuration is built: no quantity fails to parse,
-- so `MustParse` does not panic when a group scales from zero, provided the six fields of the shared
-- default are set. Its capacity and its allocatable amounts are positive.
pub build_template_node-total :
    (v : Validators) (cfg : Config) (g : Group)
    → validate v cfg ≡ none
    → IsFull cfg.def_template
    → In g cfg.groups
    → (n : TemplateNode) × (build_template_node v cfg g ≡ some n)
      × (pos 0 <ℤ n.capacity.cpu)
      × (pos 0 <ℤ n.capacity.memory)
      × (pos 0 <ℤ n.capacity.pods)
      × (pos 0 <ℤ n.capacity.ephemeral)
      × (pos 0 <ℤ n.allocatable.cpu)
      × (pos 0 <ℤ n.allocatable.memory)
      × (pos 0 <ℤ n.allocatable.pods)
      × (pos 0 <ℤ n.allocatable.ephemeral)
unfolding validate build_template_node
build_template_node-total v cfg g e full h =
    let (d, later) =
      then_error-none (validate_template v (codes "shared default") cfg.def_template) _ e in
    let s = validate_groups-IsSound v cfg [] [] cfg.groups g later h in
    let u = merged_template-IsUsable v g.id cfg.def_template g.template d s.template_ok full in
    let (c, p, _, c₁, c₂, c₃, c₄) =
      parse_resources-built v _ _ _ _ u.cpu u.memory u.pods u.ephemeral in
    let (a, q, _, a₁, a₂, a₃, a₄) =
      parse_resources-built v _ _ _ _ u.cpu_alloc u.mem_alloc u.pods u.ephemeral in
    let (n, built, same_c, same_a) = node_of-built g _ _ c a p q in
    (
      n,
      built,
      rw same_c c₁,
      rw same_c c₂,
      rw same_c c₃,
      rw same_c c₄,
      rw same_a a₁,
      rw same_a a₂,
      rw same_a a₃,
      rw same_a a₄,
    )

build_template_node_of :
    (v : Validators) (cfg : Config) (g : Group) (own : Option Template)
    → g.template ≡ own
    → let t = merged_template cfg.def_template own in
      build_template_node v cfg g
      ≡ node_of g
          (parse_resources v t.cpu t.memory t.pods t.ephemeral)
          (parse_resources v t.cpu_alloc t.mem_alloc t.pods t.ephemeral)
unfolding build_template_node
build_template_node_of v cfg g own e =
    ap
      (λ o.
        let t = merged_template cfg.def_template o in
        node_of g (parse_resources v t.cpu t.memory t.pods t.ephemeral)
          (parse_resources v t.cpu_alloc t.mem_alloc t.pods t.ephemeral))
      e

some_apart : (o : Option ℤ) (a b : ℤ) → o ≡ some a → o ≡ some b → a ≡ b
some_apart o a b p q = ground arith

-- The validation compares a group's own fields only. Where a group of a validated configuration sets
-- a cpu below the default's allocatable cpu, and no allocatable cpu of its own, its template Node is
-- built with more cpu allocatable than its capacity.
pub build_template_node_exceeds :
    (v : Validators) (cfg : Config) (g : Group) (t : Template) (q a : ℤ)
    → validate v cfg ≡ none
    → IsFull cfg.def_template
    → In g cfg.groups
    → g.template ≡ some t
    → is_empty t.cpu ≡ false
    → is_empty t.cpu_alloc ≡ true
    → v.parse_quantity t.cpu ≡ some q
    → v.parse_quantity cfg.def_template.cpu_alloc ≡ some a
    → q <ℤ a
    → (n : TemplateNode) × (build_template_node v cfg g ≡ some n)
      × (n.capacity.cpu <ℤ n.allocatable.cpu)
unfolding validate build_template_node merged_template
build_template_node_exceeds v cfg g t q a e full h own set unset pq pa less =
    let (d, later) =
      then_error-none (validate_template v (codes "shared default") cfg.def_template) _ e in
    let s = validate_groups-IsSound v cfg [] [] cfg.groups g later h in
    let ok = rw own at s.template_ok in
    let u = merged_template-IsUsable v g.id cfg.def_template (some t) d ok full in
    let (c, p, pc, _, _, _, _) =
      parse_resources-built v _ _ _ _ u.cpu u.memory u.pods u.ephemeral in
    let (b, r, pb, _, _, _, _) =
      parse_resources-built v _ _ _ _ u.cpu_alloc u.mem_alloc u.pods u.ephemeral in
    let pc' = rw set at pc in
    let pb' = rw unset at pb in
    let (n, built, same_c, same_a) = node_of-built g _ _ c b p r in
    let cpu = some_apart _ _ _ pc' pq in
    let alloc = some_apart _ _ _ pb' pa in
    (n, build_template_node_of v cfg g (some t) own ∙ built, rw (same_c, same_a, cpu, alloc) less)
