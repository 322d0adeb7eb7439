-- ===== src/Config/Prefixes.antt =====
-- What the check of the prefixes gives for the owner of an instance name.
mod Sorted
use ens_provider.Prelude.{
  ℕ, ◌≤◌, ◌≡◌, refl, sym, ap, ◌∙◌, inl, inr, Bool, true, false, ◌||◌, not, Option, none, some, List,
  [], ◌∷◌, Str, has_prefix, has_prefix_shorter, length, leb, count_if, map, All, In, ℤ, codes,
  str_eq, is_empty, ◌↔◌, arith, Bool-cases, Option-cases,
}
use ens_provider.Config.{Config, Group, group_for_instance_name}
use ens_provider.Config.Ownership.{group_for_instance_name-IsOwner}
use ens_provider.Config.Validate.{Validators, ConfigError, validate}
use ens_provider.Config.Load.{
  LoadError, prefixes_shared, insert_prefix, sort_prefixes, extends_one, prefixes_nested, prefix_of,
  Loaded, loaded, require, of_validation, load_filled, load_settings, fill_groups, is_region_id,
  is_version_id, load_with_ttl, load_config, election_error, parse_join_token_ttl,
}
use ens_provider.Config.Prefixes.Sorted.{
  AreLongestFirst, fits_count, sort_prefixes-AreLongestFirst, fits_count-sort_prefixes, fits_one,
  fits_unique,
}

-- What the end of LoadConfig establishes.
pub record IsLoaded (v : Validators) (c : Config) : Type 0 where
  pub disjoint : prefixes_nested (sort_prefixes (map prefix_of c.groups)) ≡ false
  pub valid : validate v c ≡ none
  pub filled : (base : Config) × (raw : List Group) × (fill_groups base raw ≡ some c.groups)

pub require-loaded :
    (b : Bool) (e : LoadError) (later : Loaded) (c : Config)
    → require b e later ≡ loaded c
    → (b ≡ true) × (later ≡ loaded c)
require-loaded true e later c h = (refl, h)
require-loaded false e later c h = cc

pub of_validation-loaded :
    (c d : Config) (o : Option ConfigError) → of_validation c o ≡ loaded d → (o ≡ none) × (c ≡ d)
of_validation-loaded c d none h = (refl, ground arith)
of_validation-loaded c d (some e) h = cc

load_filled-IsLoaded :
    (v : Validators) (c d : Config) (raw : List Group) (o : Option (List Group))
    → fill_groups c raw ≡ o
    → load_filled v c o ≡ loaded d
    → IsLoaded v d
unfolding load_filled
load_filled-IsLoaded v c d raw none f h = cc
load_filled-IsLoaded v c d raw (some gs) f h =
    let c' = record c { groups = gs } in
    let (_, h₁) = require-loaded (not (prefixes_shared [] gs)) _ _ _ h in
    let (apart, h₂) =
      require-loaded (not (prefixes_nested (sort_prefixes (map prefix_of gs)))) _ _ _ h₁ in
    let (valid, same) = of_validation-loaded c' d (validate v c') h₂ in
    let l : IsLoaded v c' = record {
      disjoint = ground (arith, apart);
      valid = valid;
      filled = (c, raw, f);
    } in
    rw (sym same) l

load_settings-IsLoaded :
    (v : Validators) (c d : Config) (gs : List Group)
    → load_settings v c gs ≡ loaded d
    → IsLoaded v d
unfolding load_settings
load_settings-IsLoaded v c d gs h =
    let (_, h₁) = require-loaded (not (is_empty c.ens_region || is_empty c.cluster_id)) _ _ _ h in
    let (_, h₂) =
      require-loaded
        (str_eq c.image_repo_type (codes "public") || str_eq c.image_repo_type (codes "private")) _
        _ _ h₁ in
    let (_, h₃) = require-loaded (is_region_id c.control_region) _ _ _ h₂ in
    let (_, h₄) = require-loaded (is_version_id c.k8s_version) _ _ _ h₃ in
    let (_, h₅) = require-loaded (is_version_id c.runtime_version) _ _ _ h₄ in
    let (_, h₆) = require-loaded (leb 1 (length gs)) _ _ _ h₅ in
    load_filled-IsLoaded v c d gs (fill_groups c gs) refl h₆

load_with_ttl-IsLoaded :
    (v : Validators) (c d : Config) (o : Option ℤ) (gs : List Group)
    → load_with_ttl v c o gs ≡ loaded d
    → IsLoaded v d
unfolding load_with_ttl
load_with_ttl-IsLoaded v c d none gs h = cc
load_with_ttl-IsLoaded v c d (some t) gs h =
    load_settings-IsLoaded v (record c { join_token_ttl = t }) d gs h

pub load_config-IsLoaded :
    (v : Validators) (exceeds_1_2 : ℤ → ℤ → Bool) (parse_duration : Str → Option ℤ) (c d : Config)
    (ttl : Str) (gs : List Group)
    → load_config v exceeds_1_2 parse_duration c ttl gs ≡ loaded d
    → IsLoaded v d
unfolding load_config
load_config-IsLoaded v exceeds_1_2 parse_duration c d ttl gs h =
    elim (Option-cases (election_error exceeds_1_2 c)) [
      | inr (e, p) ↦ cc (rw (p, load_config) at h)
      | inl p ↦
          load_with_ttl-IsLoaded v c d (parse_join_token_ttl parse_duration ttl) gs
            (rw (p, load_config) at h)
    ]

owner_is :
    (v : Validators) (d : Config) (name : Str) (g : Group)
    → IsLoaded v d
    → In g d.groups
    → has_prefix name g.name_prefix ≡ true
    → group_for_instance_name d name ≡ some g
owner_is v d name g l listed fits = elim (Option-cases (group_for_instance_name d name)) [
  | inl p ↦ (let off = (group_for_instance_name-IsOwner d name).1 p g listed in cc)
  | inr (k, p) ↦
      (let o = (group_for_instance_name-IsOwner d name).0 k p in
        let sorted = sort_prefixes-AreLongestFirst (map prefix_of d.groups) in
        let few = fits_one name (sort_prefixes (map prefix_of d.groups)) sorted l.disjoint in
        let same_count = fits_count-sort_prefixes name (map prefix_of d.groups) in
        let same =
          fits_unique name d.groups k g (omega (arith, few, same_count)) o.listed listed o.prefixed
            fits in
        p ∙ ap some same)
]

-- A configuration that LoadConfig returns has passed the validation, and its prefixes are disjoint:
-- the group that owns an instance name is the one group whose prefix the name has.
pub load_config-owner :
    (v : Validators) (exceeds_1_2 : ℤ → ℤ → Bool) (parse_duration : Str → Option ℤ) (c d : Config)
    (ttl : Str) (gs : List Group)
    → load_config v exceeds_1_2 parse_duration c ttl gs ≡ loaded d
    → (validate v d ≡ none)
      × ((name : Str) (g : Group)
          → In g d.groups
          → (has_prefix name g.name_prefix ≡ true) ↔ (group_for_instance_name d name ≡ some g))
load_config-owner v exceeds_1_2 parse_duration c d ttl gs h =
    let l = load_config-IsLoaded v exceeds_1_2 parse_duration c d ttl gs h in
    (
      l.valid,
      λ name g listed. (
        λ fits. owner_is v d name g l listed fits,
        λ e. ((group_for_instance_name-IsOwner d name).0 g e).prefixed,
      ),
    )
