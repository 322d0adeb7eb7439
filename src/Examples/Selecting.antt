-- ===== src/Examples/Selecting.antt =====
-- An example of the selector of the managed Nodes.
use ens_provider.Prelude.{
  ◌-◌, ◌≡◌, ◌↔◌, refl, inl, Bool, true, false, ◌&&◌, not, Option, some, none, List, [], ◌∷◌, Str,
  codes, All, In, ◌==◌, ℤ, pos, arith,
}
use ens_provider.Config.{Config, Group, nodepool_label}
use ens_provider.Config.Validate.{Validators}
use ens_provider.Config.Load.{loaded, load_config, with_defaults}
use ens_provider.Kube.Managed.{managed_selector}
use ens_provider.Kube.Managed.Selects.{IsValueByte, values_of, managed_selector-values}
use ens_provider.Examples.Data.{cfg, web, batch}
use ens_provider.Examples.Joining.{parse_duration, loaded_cfg, first_digit}

unfoldable no_separator : Str → Bool
no_separator [] = true
no_separator (c ∷ s) = not (c == b',') && not (c == b')') && no_separator s

no_separator-plain : (s : Str) → no_separator s ≡ true → All IsValueByte s
unfolding no_separator
no_separator-plain [] h = tt
no_separator-plain (c ∷ s) h = ((ground arith, ground arith), no_separator-plain s (ground arith))

abbrev separating : Validators
separating = record {
  is_qualified_name = λ s. true;
  is_label_value = no_separator;
  is_int64 = λ s. true;
  parse_quantity = first_digit;
}

load_separating :
    load_config separating (λ a b. true) parse_duration cfg (codes "1h") (web ∷ batch ∷ [])
    ≡ loaded loaded_cfg
unfolding load_config no_separator ens_provider.Prelude.is_empty ens_provider.Prelude.str_eq
    ens_provider.Prelude.has_prefix ens_provider.Config.Validate.validate
load_separating = refl

managed_selector_text :
    managed_selector loaded_cfg ≡ codes "alibabacloud.com/nodepool-id in (np1,np2)"
unfolding managed_selector ens_provider.Prelude.str_eq with_defaults ens_provider.Prelude.is_empty
managed_selector_text = refl

managed_selector-values_example :
    (values : List Str) × (values_of nodepool_label (managed_selector loaded_cfg) ≡ some values)
    × ((s : Str) → In s values ↔ ((h : Group) × In h loaded_cfg.groups × (h.nodepool_id ≡ s)))
managed_selector-values_example =
    managed_selector-values separating (λ a b. true) parse_duration cfg loaded_cfg (codes "1h")
      (web ∷ batch ∷ []) (with_defaults cfg web) (record { values = λ s h. no_separator-plain s h })
      load_separating (inl refl)
