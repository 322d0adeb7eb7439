-- ===== src/Submit/Prepared.antt =====
-- When the order of a group can be prepared.
use ens_provider.Prelude.{
  ◌≡◌, refl, sym, inl, inr, Bool, true, false, ◌||◌, Option, none, some, List, [], ◌∷◌, Str, codes,
  str_eq, In, is_empty, ℤ, arith, Bool-cases, Option-cases,
}
use ens_provider.Config.{Config, Group, Labels, label_value}
use ens_provider.Config.Validate.{Validators}
use ens_provider.Config.Load.{default_ip, with_defaults, fill_groups, loaded, load_config}
use ens_provider.Config.Prefixes.{load_config-IsLoaded}
use ens_provider.Submit.Query.{network_parameters, query_parameters, order_query}

default_ip-some : (own : Option Bool) (def : Bool) → (b : Bool) × (default_ip own def ≡ some b)
default_ip-some none def = (def, refl)
default_ip-some (some b) def = (b, refl)

fill_groups-public_ip :
    (c : Config) (raw out : List Group) (g : Group)
    → fill_groups c raw ≡ some out
    → In g out
    → (b : Bool) × (g.public_ip ≡ some b)
unfolding fill_groups with_defaults
fill_groups-public_ip c [] out g e h =
    let same : [] ≡ out = ground arith in absurd (rw (sym same) at h)
fill_groups-public_ip c (x ∷ raw) out g e h =
    elim (Bool-cases (is_empty x.id || is_empty x.name_prefix)) [
      | inl p ↦ cc (rw p at e)
      | inr p ↦
          (let e₁ = rw p at e in
            elim (Option-cases (fill_groups c raw)) [
              | inl q ↦ cc (rw q at e₁)
              | inr (rest, q) ↦
                  (let e₂ = rw q at e₁ in
                    let same : with_defaults c x ∷ rest ≡ out = ground arith in
                    let h' = rw (sym same) at h in
                    elim h' [
                      | inl first ↦
                          (let (b, f) = default_ip-some x.public_ip c.def_public_ip in
                            (b, rw first f))
                      | inr k ↦ fill_groups-public_ip c raw rest g q k
                    ])
            ])
    ]

-- The parameters name the operation and the amount and hold the userdata, and a worker without a public address gets no
-- outgoing bandwidth.
abbrev pub IsQuery : Group → Str → Str → Str → Labels → Type 0
IsQuery g name amount userdata q =
    (label_value q (codes "InstanceName") ≡ name)
    × (label_value q (codes "Amount") ≡ amount)
    × (label_value q (codes "UserData") ≡ userdata)
    × (g.public_ip ≡ some false → label_value q (codes "InternetMaxBandwidthOut") ≡ codes "0")
    × (g.public_ip ≡ some true → label_value q (codes "InternetMaxBandwidthOut") ≡ g.bandwidth)

order_query-IsQuery :
    (d : Config) (g : Group) (system_disk name amount userdata : Str) (b : Bool)
    → g.public_ip ≡ some b
    → (q : Labels) × (order_query d g system_disk name amount userdata ≡ some q)
      × IsQuery g name amount userdata q
unfolding order_query query_parameters network_parameters label_value str_eq
order_query-IsQuery d g system_disk name amount userdata true e = (
  query_parameters d g true system_disk name amount userdata,
  rw (e, order_query) refl,
  (refl, refl, refl, λ f. cc, λ f. refl),
)
order_query-IsQuery d g system_disk name amount userdata false e = (
  query_parameters d g false system_disk name amount userdata,
  rw (e, order_query) refl,
  (refl, refl, refl, λ f. refl, λ f. cc),
)

-- For every group of a configuration that LoadConfig returns, the parameters of an order can be built
-- (the pointer to the public address is set, so that reading it does not panic); they name the
-- operation and the amount, hold the userdata, and give the worker outgoing bandwidth only with a
-- public address.
pub order_query-loaded :
    (v : Validators) (exceeds_1_2 : ℤ → ℤ → Bool) (parse_duration : Str → Option ℤ) (c d : Config)
    (ttl : Str) (gs : List Group) (g : Group) (system_disk name amount userdata : Str)
    → load_config v exceeds_1_2 parse_duration c ttl gs ≡ loaded d
    → In g d.groups
    → (q : Labels) × (order_query d g system_disk name amount userdata ≡ some q)
      × IsQuery g name amount userdata q
order_query-loaded v exceeds_1_2 parse_duration c d ttl gs g system_disk name amount userdata h
      listed =
    let (base, raw, filled) =
      (load_config-IsLoaded v exceeds_1_2 parse_duration c d ttl gs h).filled in
    let (b, e) = fill_groups-public_ip base raw d.groups g filled listed in
    order_query-IsQuery d g system_disk name amount userdata b e
