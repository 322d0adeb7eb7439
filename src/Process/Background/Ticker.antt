-- ===== src/Process/Background/Ticker.antt =====
-- The period of the background loop, and the settings that LoadConfig accepts for it.
use ens_provider.Prelude.{
  ◌≡◌, refl, ap, ◌∙◌, Bool, false, ◌||◌, Option, none, some, List, [], ◌∷◌, Str, codes, is_empty, ℤ,
  pos, negsuc, ◌≤ℤ◌, pos_part, neg_part, scale, int64, residue64, inl, inr, ◌↔◌, ◌≤◌, leb_ℤ, arith,
  Option-cases, Bool-cases, if◌then◌else◌,
}
use ens_provider.Config.{Config, Group}
use ens_provider.Config.Validate.{
  Validators, ConfigError, validate_group, validate_groups, validate_template, then_error, validate,
}
use ens_provider.Config.Load.{
  Loaded, loaded, not_loaded, cons_group, with_defaults, fill_groups, load_filled, load_settings,
  load_with_ttl, load_config, of_validation, election_error, parse_join_token_ttl,
}
use ens_provider.Metrics.{Metrics}
use ens_provider.Process.Background.{PassInput, reconcile_period, background_loop}

-- The configuration with another PROVIDERID_RECONCILE_SECONDS.
abbrev pub reconciling : ℤ → Config → Config
reconciling n c = record c { reconcile_loop_seconds = n }

abbrev pub map_loaded : (Config → Config) → Loaded → Loaded
map_loaded f (loaded c) = loaded (f c)
map_loaded f (not_loaded e) = not_loaded e

fill_groups-reconciling :
    (n : ℤ) (c : Config) (gs : List Group) → fill_groups (reconciling n c) gs ≡ fill_groups c gs
unfolding fill_groups
fill_groups-reconciling n c [] = refl
fill_groups-reconciling n c (g ∷ gs) =
    ap
      (λ o.
        if is_empty g.id || is_empty g.name_prefix then none else cons_group (with_defaults c g) o)
      (fill_groups-reconciling n c gs)

validate_groups-reconciling :
    (v : Validators) (n : ℤ) (c : Config) (ids nodepools : List Str) (gs : List Group)
    → validate_groups v (reconciling n c) ids nodepools gs ≡ validate_groups v c ids nodepools gs
unfolding validate_groups
validate_groups-reconciling v n c ids nodepools [] = refl
validate_groups-reconciling v n c ids nodepools (g ∷ gs) =
    ap (validate_group v c ids nodepools g)
      (validate_groups-reconciling v n c (g.id ∷ ids) (g.nodepool_id ∷ nodepools) gs)

validate-reconciling :
    (v : Validators) (n : ℤ) (c : Config) → validate v (reconciling n c) ≡ validate v c
unfolding validate
validate-reconciling v n c =
    ap (then_error (validate_template v (codes "shared default") c.def_template))
      (validate_groups-reconciling v n c [] [] c.groups)

of_validation-map :
    (f : Config → Config) (c : Config) (o : Option ConfigError)
    → of_validation (f c) o ≡ map_loaded f (of_validation c o)
of_validation-map f c none = refl
of_validation-map f c (some e) = refl

load_filled-reconciling :
    (v : Validators) (n : ℤ) (c : Config) (o : Option (List Group))
    → load_filled v (reconciling n c) o ≡ map_loaded (reconciling n) (load_filled v c o)
unfolding load_filled
load_filled-reconciling v n c none = refl
load_filled-reconciling v n c (some gs) = ground (
  arith,
  validate-reconciling v n (record c { groups = gs }),
  of_validation-map (reconciling n) (record c { groups = gs })
      (validate v (record c { groups = gs })),
)

load_settings-reconciling :
    (v : Validators) (n : ℤ) (c : Config) (gs : List Group)
    → load_settings v (reconciling n c) gs ≡ map_loaded (reconciling n) (load_settings v c gs)
unfolding load_settings
load_settings-reconciling v n c gs =
    ground (arith, fill_groups-reconciling n c gs, load_filled-reconciling v n c (fill_groups c gs))

load_with_ttl-reconciling :
    (v : Validators) (n : ℤ) (c : Config) (o : Option ℤ) (gs : List Group)
    → load_with_ttl v (reconciling n c) o gs ≡ map_loaded (reconciling n) (load_with_ttl v c o gs)
unfolding load_with_ttl
load_with_ttl-reconciling v n c none gs = refl
load_with_ttl-reconciling v n c (some d) gs =
    load_settings-reconciling v n (record c { join_token_ttl = d }) gs

load_config-reconciling :
    (v : Validators) (exceeds_1_2 : ℤ → ℤ → Bool) (parse_duration : Str → Option ℤ) (n : ℤ)
    (c : Config) (ttl : Str) (gs : List Group)
    → load_config v exceeds_1_2 parse_duration (reconciling n c) ttl gs
      ≡ map_loaded (reconciling n) (load_config v exceeds_1_2 parse_duration c ttl gs)
unfolding load_config election_error
load_config-reconciling v exceeds_1_2 parse_duration n c ttl gs =
    elim (Option-cases (election_error exceeds_1_2 c)) [
      | inr (e, p) ↦ rw (p, load_config) refl
      | inl p ↦
          rw (p, load_config)
            (load_with_ttl-reconciling v n c (parse_join_token_ttl parse_duration ttl) gs)
    ]

-- Within the range that fits 64 bits in nanoseconds.
abbrev pub FitsSeconds : ℤ → Type 0
FitsSeconds n = (pos_part n ≤ 9223372036) × (neg_part n ≤ 9223372036)

period_sign :
    (n : ℤ) (c : Config)
    → FitsSeconds n
    → leb_ℤ (reconcile_period (reconciling n c)) (pos 0) ≡ leb_ℤ n (pos 0)
unfolding reconcile_period int64 residue64 scale
period_sign (pos k) c h = ground arith
period_sign (negsuc k) c h = ground arith

not_below : (n : ℤ) → leb_ℤ n (pos 0) ≡ false → ¬ (n ≤ℤ pos 0)
not_below n p e = ground arith

background_loop-none :
    (parse_time : Str → Option ℤ) (n : ℤ) (c : Config) (first : PassInput)
    (events : List (Option PassInput)) (m : Metrics)
    → FitsSeconds n
    → (background_loop parse_time (reconciling n c) first events m ≡ none) ↔ (n ≤ℤ pos 0)
unfolding background_loop
background_loop-none parse_time n c first events m h =
    let sign = period_sign n c h in
    elim (Bool-cases (leb_ℤ n (pos 0))) [
      | inl p ↦ (λ e. ground (arith, p), λ e. rw (sign ∙ p, background_loop) refl)
      | inr p ↦ (λ e. cc (rw (sign ∙ p, background_loop) at e), λ e. absurd (not_below n p e))
    ]

-- LoadConfig accepts every PROVIDERID_RECONCILE_SECONDS: where it returns a configuration, it returns
-- the same with any other value of this setting. And of the values that fit 64 bits in nanoseconds the
-- background loop panics at its ticker exactly for those that are not positive.
pub load_config-ticker :
    (v : Validators) (exceeds_1_2 : ℤ → ℤ → Bool) (parse_duration : Str → Option ℤ) (c d : Config)
    (ttl : Str) (gs : List Group) (n : ℤ) (parse_time : Str → Option ℤ) (first : PassInput)
    (events : List (Option PassInput)) (m : Metrics)
    → load_config v exceeds_1_2 parse_duration c ttl gs ≡ loaded d
    → (load_config v exceeds_1_2 parse_duration (reconciling n c) ttl gs ≡ loaded (reconciling n d))
      × (FitsSeconds n
          → (background_loop parse_time (reconciling n d) first events m ≡ none) ↔ (n ≤ℤ pos 0))
load_config-ticker v exceeds_1_2 parse_duration c d ttl gs n parse_time first events m h = (
  load_config-reconciling v exceeds_1_2 parse_duration n c ttl gs
      ∙ ap (map_loaded (reconciling n)) h,
  background_loop-none parse_time n d first events m,
)
