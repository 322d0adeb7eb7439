-- ===== src/Provider/Ceiling.antt =====
-- The number of instances of every group, over a run of the provider.
use ens_provider.Prelude.{
  ℕ, ◌+◌, ◌≤◌, ◌<◌, ◌≡◌, refl, Bool, Option, List, [], Str, length, In, ℤ, pos, pos_part, ◌≤ℤ◌,
  arith,
}
use ens_provider.Config.{Config, Group}
use ens_provider.Config.Validate.{Validators}
use ens_provider.Config.Validate.Lookup.{validate-found}
use ens_provider.Config.Load.{loaded, load_config}
use ens_provider.Config.Prefixes.{load_config-IsLoaded}
use ens_provider.Order.Ceiling.{Region, IsLawful}
use ens_provider.Order.Ceiling.Keeps.{IsSafe}
use ens_provider.Order.Ceiling.Safety.{Reach-ceiling}
use ens_provider.Submit.Run.{order_state}
use ens_provider.Provider.{World, view, Run}
use ens_provider.Provider.Refines.{Run-Reach}

-- A new process has no reservations, and everything that exists of a group is listed.
fresh-IsSafe :
    (max : ℕ) (s : Region)
    → s.reservations ≡ []
    → s.hidden ≡ []
    → length s.visible ≤ max
    → IsSafe max s
fresh-IsSafe max s p q le = record {
  covering = rw p tt;
  reserved = λ i h. absurd (rw q at h);
  ceiling = rw q (omega arith);
}

nonneg : (a b : ℤ) → pos 0 ≤ℤ a → a ≤ℤ b → b ≡ pos (pos_part b)
nonneg a b p q = ground arith

-- A process that starts with a configuration that LoadConfig returns, with no reservations, where
-- the inventory shows all that exists of a group and that is within its maximum, which is below
-- 2^31, keeps what exists of this group, listed or not, within the maximum in every run: whatever
-- calls of RunInstances it makes for this and the other groups, whatever part of each accepted or
-- uncertain order lands, and in whatever order the inventory shows or loses instances. At each
-- order every reservation of its group is young or has none of its instances unlisted, the
-- inventory fails or lists exactly what is visible, the name of the operation is new, the guard's
-- sum fits 31 bits, and ENS creates no more than was ordered, named after the operation.
pub Run-ceiling :
    (v : Validators) (exceeds_1_2 : ℤ → ℤ → Bool) (parse_duration : Str → Option ℤ) (c d : Config)
    (ttl : Str) (gs : List Group) (g : Group) {s t : World}
    → load_config v exceeds_1_2 parse_duration c ttl gs ≡ loaded d
    → In g d.groups
    → pos_part g.max < 2147483648
    → s.state.orders ≡ []
    → s.hidden g.id ≡ []
    → length (s.visible g.id) ≤ pos_part g.max
    → Run IsLawful d s t
    → length (t.visible g.id) + length (t.hidden g.id) ≤ pos_part g.max
unfolding order_state
Run-ceiling v exceeds_1_2 parse_duration c d ttl gs g {s} {t} h listed small none_reserved
      none_hidden fits r =
    let valid = (load_config-IsLoaded v exceeds_1_2 parse_duration c d ttl gs h).valid in
    let (found, _, min_ok, max_ok) = validate-found v d g [] valid listed in
    let bound = nonneg g.min g.max min_ok max_ok in
    Reach-ceiling small (Run-Reach IsLawful d g (pos_part g.max) found bound r)
      (fresh-IsSafe (pos_part g.max) (view s g.id) (rw none_reserved refl) none_hidden fits)
