-- ===== src/Config/Checked.antt =====
-- What LoadConfig has checked of the settings of a configuration that it returns.
use ens_provider.Prelude.{
  ◌≡◌, refl, sym, ◌∙◌, inl, inr, Bool, true, ◌||◌, not, Option, none, some, List, [], Str, codes,
  str_eq, is_empty, length, leb, map, ℤ, Option-cases,
}
use ens_provider.Config.{Config, Group}
use ens_provider.Config.Validate.{Validators, validate}
use ens_provider.Config.Load.{
  prefixes_shared, sort_prefixes, prefixes_nested, prefix_of, loaded, load_filled, load_settings,
  fill_groups, is_region_id, is_version_id, load_with_ttl, load_config, election_error,
  parse_join_token_ttl,
}
use ens_provider.Config.Prefixes.{require-loaded, of_validation-loaded}

-- The settings that go into the join script.
pub record IsScriptable (c : Config) : Type 0 where
  pub region : is_region_id c.control_region ≡ true
  pub k8s : is_version_id c.k8s_version ≡ true
  pub runtime : is_version_id c.runtime_version ≡ true
  pub repo :
      (str_eq c.image_repo_type (codes "public") || str_eq c.image_repo_type (codes "private"))
      ≡ true

-- The end of LoadConfig changes the groups only.
load_filled-keeps :
    (P : Config → Type 0) (v : Validators) (c d : Config) (o : Option (List Group))
    → load_filled v c o ≡ loaded d
    → ((gs : List Group) → P (record c { groups = gs }))
    → P d
unfolding load_filled
load_filled-keeps P v c d none h p = cc
load_filled-keeps P v c d (some gs) h p =
    let c' = record c { groups = gs } in
    let (_, h₁) = require-loaded (not (prefixes_shared [] gs)) _ _ _ h in
    let (_, h₂) =
      require-loaded (not (prefixes_nested (sort_prefixes (map prefix_of gs)))) _ _ _ h₁ in
    let (_, same) = of_validation-loaded c' d (validate v c') h₂ in rw (sym same) (p gs)

load_settings-checked :
    (P : Config → Type 0) (v : Validators) (c d : Config) (gs : List Group)
    → load_settings v c gs ≡ loaded d
    → ((gs : List Group) → P (record c { groups = gs }))
    → IsScriptable d × P d
unfolding load_settings
load_settings-checked P v c d gs h p =
    let (_, h₁) = require-loaded (not (is_empty c.ens_region || is_empty c.cluster_id)) _ _ _ h in
    let (repo, h₂) =
      require-loaded
        (str_eq c.image_repo_type (codes "public") || str_eq c.image_repo_type (codes "private")) _
        _ _ h₁ in
    let (region, h₃) = require-loaded (is_region_id c.control_region) _ _ _ h₂ in
    let (k8s, h₄) = require-loaded (is_version_id c.k8s_version) _ _ _ h₃ in
    let (runtime, h₅) = require-loaded (is_version_id c.runtime_version) _ _ _ h₄ in
    let (_, h₆) = require-loaded (leb 1 (length gs)) _ _ _ h₅ in
    let all : (k : List Group) → IsScriptable (record c { groups = k }) =
      λ k. record { region = region; k8s = k8s; runtime = runtime; repo = repo } in
    (
      load_filled-keeps IsScriptable v c d (fill_groups c gs) h₆ all,
      load_filled-keeps P v c d (fill_groups c gs) h₆ p,
    )

-- What holds of the settings whatever the groups and the time to live holds of what is returned.
pub load_config-keeps :
    (P : Config → Type 0) (v : Validators) (exceeds_1_2 : ℤ → ℤ → Bool)
    (parse_duration : Str → Option ℤ) (c d : Config) (ttl : Str) (gs : List Group)
    → load_config v exceeds_1_2 parse_duration c ttl gs ≡ loaded d
    → ((t : ℤ) (ks : List Group) → P (record c { join_token_ttl = t; groups = ks }))
    → P d
unfolding load_config load_with_ttl
load_config-keeps P v exceeds_1_2 parse_duration c d ttl gs h p =
    elim (Option-cases (election_error exceeds_1_2 c)) [
      | inr (e, q) ↦ cc (rw (q, load_config) at h)
      | inl q ↦
          (let h₁ = rw (q, load_config) at h in
            elim (Option-cases (parse_join_token_ttl parse_duration ttl)) [
              | inl r ↦ cc (rw (r, load_with_ttl) at h₁)
              | inr (t, r) ↦
                  (load_settings-checked P v (record c { join_token_ttl = t }) d gs
                    (rw (r, load_with_ttl) at h₁) (p t)).1
            ])
    ]

-- The settings of a loaded configuration: those of the script, those of the election, and the time to
-- live that was read.
pub load_config-checked :
    (v : Validators) (exceeds_1_2 : ℤ → ℤ → Bool) (parse_duration : Str → Option ℤ) (c d : Config)
    (ttl : Str) (gs : List Group)
    → load_config v exceeds_1_2 parse_duration c ttl gs ≡ loaded d
    → IsScriptable d
      × (election_error exceeds_1_2 d ≡ none)
      × (parse_join_token_ttl parse_duration ttl ≡ some d.join_token_ttl)
unfolding load_config load_with_ttl election_error
load_config-checked v exceeds_1_2 parse_duration c d ttl gs h =
    elim (Option-cases (election_error exceeds_1_2 c)) [
      | inr (e, p) ↦ cc (rw (p, load_config) at h)
      | inl p ↦
          (let h₁ = rw (p, load_config) at h in
            elim (Option-cases (parse_join_token_ttl parse_duration ttl)) [
              | inl q ↦ cc (rw (q, load_with_ttl) at h₁)
              | inr (t, q) ↦
                  (let (settings, kept) =
                      load_settings-checked
                        (λ e.
                          (election_error exceeds_1_2 e ≡ none) × (some t ≡ some e.join_token_ttl))
                        v (record c { join_token_ttl = t }) d gs (rw (q, load_with_ttl) at h₁)
                        (λ k. (p, refl)) in
                    (settings, kept.0, q ∙ kept.1))
            ])
    ]
