-- ===== src/Examples/Configured.antt =====
-- Examples of a configuration that is loaded and validated, and of the Nodes that go with it.
use ens_provider.Prelude.{
  ℕ, ◌-◌, ◌≡◌, refl, ◌⊎◌, ◌↔◌, inl, true, false, Bool, Option, none, some, List, [], ◌∷◌, ◌++◌, map,
  Str, codes, has_prefix, is_empty, In, ℤ, pos, ◌≤ℤ◌, ◌<ℤ◌, arith,
}
use ens_provider.Config.{Config, Group, group_for_instance_name}
use ens_provider.Config.Validate.{Validators, validate}
use ens_provider.Config.Load.{with_defaults, load_config}
use ens_provider.Config.Prefixes.{load_config-owner}
use ens_provider.Template.{TemplateNode, build_template_node}
use ens_provider.Template.Builds.{build_template_node_exceeds}
use ens_provider.Template.Quantities.{IsFull}
use ens_provider.Inventory.{ok}
use ens_provider.Janitor.{Node}
use ens_provider.Kube.{reconcile_provider_ids}
use ens_provider.Kube.Correlation.{AllPatches, taken_count, reconcile_provider_ids-AllPatches}
use ens_provider.Readiness.{done, readiness_loop}
use ens_provider.Readiness.Transitions.{changes, live, readiness_loop-changes}
use ens_provider.Examples.Data.{cfg, web, batch, template, web1}

-- A quantity is its first digit.
abbrev first_digit : Str → Option ℤ
first_digit [] = none
first_digit (c ∷ s) = some (pos (c - 48))

abbrev validators : Validators
validators = record {
  is_qualified_name = λ s. true;
  is_label_value = λ s. true;
  is_int64 = λ s. true;
  parse_quantity = first_digit;
}

-- A group with a cpu of its own and nothing else.
abbrev small : Group
small = record web {
  template = some (record {
    cpu = codes "2";
    memory = codes "";
    pods = codes "";
    ephemeral = codes "";
    cpu_alloc = codes "";
    mem_alloc = codes "";
  });
}

abbrev small_cfg : Config
small_cfg = record cfg { groups = small ∷ [] }

template-IsFull : IsFull template
unfolding is_empty
template-IsFull = record {
  cpu = refl;
  memory = refl;
  pods = refl;
  ephemeral = refl;
  cpu_alloc = refl;
  mem_alloc = refl;
}

build_template_node_exceeds_example :
    (n : TemplateNode) × (build_template_node validators small_cfg small ≡ some n)
    × (n.capacity.cpu <ℤ n.allocatable.cpu)
unfolding validate is_empty ens_provider.Prelude.str_eq
build_template_node_exceeds_example =
    build_template_node_exceeds validators small_cfg small _ (pos 2) (pos 3) refl template-IsFull
      (inl refl) refl refl refl refl refl (omega arith)

abbrev parse_duration : Str → Option ℤ
parse_duration s = some (pos 3_600_000_000_000)

abbrev loaded_cfg : Config
loaded_cfg = record cfg {
  join_token_ttl = pos 7_200_000_000_000;
  groups = with_defaults cfg web ∷ with_defaults cfg batch ∷ [];
}

load_config-owner_example :
    (validate validators loaded_cfg ≡ none)
    × ((name : Str) (g : Group)
        → In g loaded_cfg.groups
        → (has_prefix name g.name_prefix ≡ true)
          ↔ (group_for_instance_name loaded_cfg name ≡ some g))
unfolding load_config is_empty ens_provider.Prelude.str_eq has_prefix validate
load_config-owner_example =
    load_config-owner validators (λ a b. true) parse_duration cfg loaded_cfg [] (web ∷ batch ∷ [])
      refl

abbrev new_node : Node
new_node = record {
  name = codes "i-1";
  provider_id = [];
  conditions = [];
  addresses = record { kind = codes "InternalIP"; address = codes "10.0.0.1" } ∷ [];
}

reconcile_provider_ids-AllPatches_example :
    let r = reconcile_provider_ids (λ log n. true) cfg (ok (new_node ∷ [])) (ok (web1 ∷ [])) in
    AllPatches (λ log n. true) cfg (new_node ∷ []) (web1 ∷ []) r.0
    × (r.1 ≡ ok (taken_count (λ log n. true) cfg (new_node ∷ []) (web1 ∷ []) r.0))
reconcile_provider_ids-AllPatches_example =
    reconcile_provider_ids-AllPatches (λ log n. true) cfg (new_node ∷ []) (web1 ∷ [])

readiness_loop-changes_example :
    readiness_loop
      (record { dead_before = false; reachable = false; dead_after = false })
      (map live (true ∷ true ∷ []) ++ (done ∷ live false ∷ []))
    ≡ changes none (false ∷ true ∷ true ∷ [])
readiness_loop-changes_example =
    readiness_loop-changes false (true ∷ true ∷ []) done (live false ∷ []) tt
